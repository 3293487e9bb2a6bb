-- ===== src/Parser/Tests.antt =====
-- Runs of the functions that pull tokens, on small files.
use crunch_lang.Prelude.{◌+◌, ◌≡◌, refl, List, [], ◌∷◌, codes, length}
use crunch_lang.Token.{
  Token, ident, dot, space, newline, comment, comma, function, is_kind, contains,
}
use crunch_lang.Parser.Core.{expected, expected_one_of}
use crunch_lang.Parser.Tokens.{new, eat, eat_of, eat_newlines}
use crunch_lang.Parser.Literal.{item_path}
use crunch_lang.Parser.Sample.{sample_context, tok}
use crunch_lang.Parser.Visible.{visible, kept, without_blanks, drain, drain-new}
use crunch_lang.Parser.Eaten.{Eaten, eat-Eaten, eat_of-Eaten}
use crunch_lang.Parser.Newlines.{Counts, eat_newlines-Counts}
use crunch_lang.Parser.Stops.{Stops}
use crunch_lang.Parser.Paths.{Reads, Segment, item_path-Reads}

-- A comment, a newline, a name, a space, a comma and the start of a function.
abbrev sample_tokens : List Token
sample_tokens =
    tok comment [] 0
    ∷ tok newline [] 1
    ∷ tok ident (codes "a") 2
    ∷ tok space [] 3
    ∷ tok comma [] 4
    ∷ tok function [] 5
    ∷ []

drain-new_example :
    drain sample_context (length sample_tokens + 1) (new sample_tokens)
    ≡ without_blanks sample_tokens
drain-new_example = drain-new sample_context sample_tokens

eat-Eaten_example :
    Eaten sample_context
      (λ k. is_kind k ident)
      (newline ∷ [])
      (λ u. expected ident u.source)
      (visible (new sample_tokens))
      (eat sample_context ident (newline ∷ []) (new sample_tokens))
eat-Eaten_example = eat-Eaten sample_context ident (newline ∷ []) (new sample_tokens) refl

eat_of-Eaten_example :
    Eaten sample_context
      (contains (ident ∷ dot ∷ []))
      (newline ∷ [])
      (λ u. expected_one_of (ident ∷ dot ∷ []) u.source)
      (visible (new sample_tokens))
      (eat_of sample_context (ident ∷ dot ∷ []) (newline ∷ []) (new sample_tokens))
eat_of-Eaten_example =
    eat_of-Eaten sample_context (ident ∷ dot ∷ []) (newline ∷ []) (new sample_tokens) refl

abbrev segment : Segment
segment = record { point = tok dot [] 0; name = tok ident (codes "b") 1 }

abbrev path_tokens : List Token
path_tokens = segment.point ∷ segment.name ∷ segment.point ∷ segment.name ∷ tok comma [] 2 ∷ []

item_path-Reads_example :
    Reads
      (b'a' ∷ b'b' ∷ b'b' ∷ [])
      (tok comma [] 2 ∷ [])
      (item_path sample_context 1 b'a' (new path_tokens))
unfolding new kept
item_path-Reads_example =
    item_path-Reads sample_context 0 b'a' (segment ∷ segment ∷ []) (tok comma [] 2 ∷ [])
      (new path_tokens) ((refl, refl), ((refl, refl), tt)) refl refl

eat_newlines-Counts_example :
    Counts sample_context 0
      (visible (new sample_tokens))
      (eat_newlines sample_context (new sample_tokens))
eat_newlines-Counts_example = eat_newlines-Counts sample_context (new sample_tokens)
