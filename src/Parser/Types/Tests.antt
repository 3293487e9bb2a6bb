-- ===== src/Parser/Types/Tests.antt =====
-- Runs of the parser of types.
use crunch_lang.Prelude.{◌≡◌, refl, true, false, Option, none, some, List, [], ◌∷◌, codes}
use crunch_lang.Token.{
  if_, Token, span, ident, ampersand, mut, left_brace, right_brace, left_paren, right_paren,
  semicolon, int, space, function, right_arrow,
}
use crunch_lang.Ast.{AstType, Located, at, location}
use crunch_lang.Parser.{
  Outcome, Error, left, ok, err, new, initial_frames, could_not_parse, sees, split_sign,
  match_underscores, warn_underscores, or_invalid,
}
use crunch_lang.Parser.Sample.{sample_context, tok}
use crunch_lang.Parser.Types.{type_calls}
use crunch_lang.Parser.Types.Progress.{Ends, ascribed_type-Ends}

abbrev kind_of : Outcome Located → Option AstType
kind_of (ok (at ty loc) p) = some ty
kind_of _ = none

run_type : List Token → Option AstType
unfolding new type_calls sees split_sign match_underscores warn_underscores or_invalid
run_type ts =
    kind_of ((type_calls sample_context (initial_frames sample_context)).ascribed_type (new ts))

t1 :
    run_type (
      tok ampersand [] 0
      ∷ tok mut [] 1
      ∷ tok ident (codes "arr") 2
      ∷ tok left_brace [] 3
      ∷ tok space [] 3
      ∷ tok ident (codes "u8") 4
      ∷ tok semicolon [] 5
      ∷ tok int (codes "13") 6
      ∷ tok right_brace [] 7
      ∷ [])
    ≡ some (
        AstType.reference
          (at
            (AstType.array (at (AstType.integer (some false) (some 8)) (location (span 4 5) 0)) 13)
            (location (span 2 8) 0))
          true)
unfolding run_type
t1 = refl

-- `fn (u8) -> u8`, which is legal source: the arrow is an error.
abbrev pointer_tokens : List Token
pointer_tokens =
    tok function [] 0
    ∷ tok left_paren [] 1
    ∷ tok ident (codes "u8") 2
    ∷ tok right_paren [] 3
    ∷ tok right_arrow [] 4
    ∷ tok ident (codes "u8") 5
    ∷ []

error_of : Outcome Located → Option Error
error_of (err e loc p) = some e
error_of _ = none

t2 :
    error_of ((type_calls sample_context 49).ascribed_type (new pointer_tokens))
    ≡ some (could_not_parse right_arrow)
unfolding error_of new type_calls sees split_sign match_underscores warn_underscores or_invalid
t2 = refl

ascribed_type-Ends_example :
    Ends
      (left (new pointer_tokens))
      ((type_calls sample_context 49).ascribed_type (new pointer_tokens))
ascribed_type-Ends_example = ascribed_type-Ends sample_context 49 (new pointer_tokens)

-- `u8 if &u8`: the `if` is lost, and the `&` behind it is left.
abbrev conditional_tokens : List Token
conditional_tokens =
    tok ident (codes "u8") 0 ∷ tok if_ [] 1 ∷ tok ampersand [] 2 ∷ tok ident (codes "u8") 3 ∷ []
