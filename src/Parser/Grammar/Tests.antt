-- ===== src/Parser/Grammar/Tests.antt =====
-- The parser on small files.
use crunch_lang.Prelude.{◌≡◌, refl, Bool, true, false, some, List, [], ◌∷◌, codes, none}
use crunch_lang.Token.{TokenType, Token}
use crunch_lang.Ast.{Expr, expr, ExprKind, item, ItemKind, Vis, BinaryOp}
use crunch_lang.Parser.Core.{Outcome, ok}
use crunch_lang.Parser.Tokens.{left, new}
use crunch_lang.Parser.Literal.{sees, warn_underscores, match_underscores, split_sign, or_invalid}
use crunch_lang.Parser.Sample.{sample_context, tok}
use crunch_lang.Parser.Blocks.{sees_other}
use crunch_lang.Parser.Ends.{Ends}
use crunch_lang.Parser.Grammar.{calls, Parsed, parsed, after_item, parse}
use crunch_lang.Parser.Calls.{Prefix}
use crunch_lang.Parser.Grammar.Delimiters.{Yields, IsBare, prefix-IsBare}
use crunch_lang.Parser.Grammar.Rejections.{Fruitless, item_impl-import, item_impl-extern_block}
use crunch_lang.Ast.{Decorator, decorator, no_exprs, location}
use crunch_lang.Token.{span}
use crunch_lang.Parser.Grammar.Ending.{expr-Ends, stmt-Ends, item-Ends}
use crunch_lang.Parser.Grammar.Files.{Finishes, parse-Finishes}

abbrev one_plus_two : List Token
one_plus_two =
    tok TokenType.int (codes "1") 5
    ∷ tok TokenType.plus (codes "+") 6
    ∷ tok TokenType.int (codes "2") 7
    ∷ []

-- `fn f()`, `1 + 2` and `end` on three lines
abbrev a_function : List Token
a_function =
    tok TokenType.function (codes "fn") 0
    ∷ tok TokenType.ident (codes "f") 1
    ∷ tok TokenType.left_paren (codes "(") 2
    ∷ tok TokenType.right_paren (codes ")") 3
    ∷ tok TokenType.newline (codes "\n") 4
    ∷ tok TokenType.int (codes "1") 5
    ∷ tok TokenType.plus (codes "+") 6
    ∷ tok TokenType.int (codes "2") 7
    ∷ tok TokenType.newline (codes "\n") 8
    ∷ tok TokenType.end (codes "end") 9
    ∷ []

abbrev is_sum : Outcome Expr → Bool
is_sum (ok (expr (ExprKind.binary_op lhs BinaryOp.add rhs) loc) p) = true
is_sum r = false

abbrev is_function : Parsed → Bool
is_function
      (parsed
        (item ds as_ (ItemKind.func generics args body ret sig) loc name (some Vis.file_local) ∷ [])
        h) =
    true
is_function r = false

abbrev sum_result : Outcome Expr
unfolding calls new
sum_result = (calls sample_context 50).expr (new one_plus_two)

parses_sum : is_sum sum_result ≡ true
unfolding sum_result warn_underscores match_underscores split_sign or_invalid
parses_sum = refl

abbrev file_result : Parsed
unfolding parse new
file_result = parse sample_context (new a_function)

parses_function : is_function file_result ≡ true
unfolding file_result after_item sees sees_other warn_underscores match_underscores split_sign
    or_invalid
parses_function = refl

expr-Ends_example :
    Ends
      (λ _. true)
      (left (new one_plus_two))
      (new one_plus_two).error_handler
      ((calls sample_context 50).expr (new one_plus_two))
expr-Ends_example = expr-Ends sample_context 50 (new one_plus_two)

stmt-Ends_example :
    Ends
      (λ _. true)
      (left (new one_plus_two))
      (new one_plus_two).error_handler
      ((calls sample_context 50).stmt (new one_plus_two))
stmt-Ends_example = stmt-Ends sample_context 50 (new one_plus_two)

item-Ends_example :
    Ends
      (λ _. true)
      (left (new a_function))
      (new a_function).error_handler
      ((calls sample_context 50).item (new a_function))
unfolding new
item-Ends_example = item-Ends sample_context 50 (new a_function) refl

parse-Finishes_example : Finishes (parse sample_context (new a_function))
parse-Finishes_example = parse-Finishes sample_context a_function

-- What follows `while`: `1`, `end` and a line's end.
abbrev a_while : List Token
a_while =
    tok TokenType.int (codes "1") 1
    ∷ tok TokenType.newline (codes "\n") 2
    ∷ tok TokenType.end (codes "end") 3
    ∷ tok TokenType.newline (codes "\n") 4
    ∷ []

abbrev while_token : Token
while_token = tok TokenType.while (codes "while") 0

abbrev is_while : Outcome Expr → Bool
is_while (ok (expr (ExprKind.while cond body then_ else_) loc) p) = true
is_while r = false

abbrev while_result : Outcome Expr
unfolding calls new
while_result = (calls sample_context 50).prefix Prefix.while_expr while_token (new a_while)

parses_while : is_while while_result ≡ true
unfolding while_result sees_other warn_underscores match_underscores split_sign or_invalid
parses_while = refl

prefix-IsBare_example :
    Yields IsBare ((calls sample_context 50).prefix Prefix.while_expr while_token (new a_while))
prefix-IsBare_example =
    prefix-IsBare sample_context 50 Prefix.while_expr while_token (new a_while) tt

abbrev an_import : List Token
an_import =
    tok TokenType.import (codes "import") 0
    ∷ tok TokenType.ident (codes "m") 1
    ∷ tok TokenType.newline (codes "\n") 2
    ∷ tok TokenType.newline (codes "\n") 3
    ∷ []

abbrev an_extern : List Token
an_extern =
    tok TokenType.extern (codes "extern") 0
    ∷ tok TokenType.newline (codes "\n") 1
    ∷ tok TokenType.end (codes "end") 2
    ∷ []

abbrev a_decorator : Decorator
a_decorator = decorator 0 (location (span 0 1) 0) no_exprs (location (span 0 1) 0)

item_impl-import_example : Fruitless (
    (calls sample_context 50).item_impl
      (record { decorators = a_decorator ∷ []; attributes = []; vis = none })
      (new an_import))
unfolding new
item_impl-import_example =
    item_impl-import sample_context 50 a_decorator [] [] none
      (tok TokenType.import (codes "import") 0) (new an_import) refl refl

item_impl-extern_block_example : Fruitless (
    (calls sample_context 50).item_impl
      (record { decorators = []; attributes = []; vis = some Vis.exposed })
      (new an_extern))
unfolding new
item_impl-extern_block_example =
    item_impl-extern_block sample_context 50 [] [] Vis.exposed
      (tok TokenType.extern (codes "extern") 0) (new an_extern) refl refl
