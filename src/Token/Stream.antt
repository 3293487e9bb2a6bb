-- ===== src/Token/Stream.antt =====
-- Spans, tokens and the token stream, which drops spaces and, as it is told, comments.
use crunch_lang.Prelude.{
  ℕ, Bool, true, false, Option, none, some, List, [], ◌∷◌, Text, if◌then◌else◌,
}
use crunch_lang.Token.Kind.{TokenType, space, comment, doc_comment}

pub record Span : Type 0 where
  pub start : ℕ
  pub end : ℕ

abbrev pub span : ℕ → ℕ → Span
span a b = record { start = a; end = b }

-- `Span::merge`, which is not symmetric
abbrev pub merge : Span → Span → Span
merge a b = span a.start b.end

pub record Token : Type 0 where
  pub ty : TokenType
  pub source : Text
  pub span : Span

-- The lexer's remaining output, and the two switches.
pub record TokenStream : Type 0 where
  pub lexer : List Token
  pub skip_comments : Bool
  pub skip_doc_comments : Bool

-- Whether `TokenStream::next` passes over a token of this kind.
unfoldable pub is_skipped : Bool → Bool → TokenType → Bool
is_skipped comments docs space = true
is_skipped comments docs comment = comments
is_skipped comments docs doc_comment = docs
is_skipped comments docs _ = false

-- The first token that is kept, and what the lexer still has behind it.
unfoldable pub next_token : Bool → Bool → List Token → Option Token × List Token
unfolding is_skipped
next_token comments docs [] = (none, [])
next_token comments docs (t ∷ ts) =
    if is_skipped comments docs t.ty then next_token comments docs ts else (some t, ts)

-- `TokenStream::next`
unfoldable pub stream_next : TokenStream → Option Token × TokenStream
unfolding next_token
stream_next s =
    let (t, rest) = next_token s.skip_comments s.skip_doc_comments s.lexer in
    (t, record s { lexer = rest })
