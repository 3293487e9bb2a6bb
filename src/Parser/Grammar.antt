-- ===== src/Parser/Grammar.antt =====
-- crates/crunch-parser/src/parser: the guarded functions tied to each other, and `Parser::parse`.
pub mod Ending
pub mod Files
pub mod Delimiters
pub mod Rejections
mod Tests
use crunch_lang.Prelude.{
  ℕ, zero, suc, ◌+◌, Bool, true, false, Option, none, some, List, [], ◌∷◌, leb, if◌then◌else◌,
}
use crunch_lang.Token.{Token}
use crunch_lang.Ast.{Location, Item}
use crunch_lang.Parser.Core.{
  Context, Error, too_many_errors, ErrorHandler, push_err, Parser, Outcome, ok, err, panic,
  out_of_fuel, Parse,
}
use crunch_lang.Parser.Tokens.{left, stress_eat}
use crunch_lang.Parser.Literal.{initial_frames}
use crunch_lang.Parser.Types.{type_calls, too_deep}
use crunch_lang.Parser.Calls.{Calls}
use crunch_lang.Parser.Blocks.{is_some, push_some}
use crunch_lang.Parser.Expr.{operation_body, prefix_body, then_block, else_block, parse_expr_body}
use crunch_lang.Parser.Stmt.{stmt_body, block_body, binding_body, pattern_body}
use crunch_lang.Parser.Item.{
  decorator_body, generics_body, function_args_body, item_impl_body, item_body, declaration_body,
}

module _ (x : Context) where
  -- Each guard takes one of the frames that are left; with none left it is an error.
  unfoldable pub calls : ℕ → Calls
  unfolding type_calls parse_expr_body prefix_body operation_body then_block else_block stmt_body
      block_body binding_body pattern_body item_body item_impl_body declaration_body decorator_body
      function_args_body generics_body
  calls zero = record {
    frames = 0;
    ascribed_type = too_deep x;
    expr = too_deep x;
    parse_expr = λ prec. too_deep x;
    prefix = λ k t. too_deep x;
    operation = λ o t lhs. too_deep x;
    then_block = too_deep x;
    else_block = too_deep x;
    stmt = too_deep x;
    block = λ breaks. too_deep x;
    binding = too_deep x;
    pattern = too_deep x;
    item = too_deep x;
    item_impl = λ front. too_deep x;
    declaration = λ d ds as_ v. too_deep x;
    decorator = λ ds. too_deep x;
    function_args = too_deep x;
    generics = too_deep x;
  }
  calls (suc n) =
      let c = calls n in
      record {
        frames = suc n;
        ascribed_type = (type_calls x (suc n)).ascribed_type;
        expr = c.parse_expr 0;
        parse_expr = parse_expr_body x c;
        prefix = prefix_body x c;
        operation = operation_body x c;
        then_block = then_block x c;
        else_block = else_block x c;
        stmt = stmt_body x c;
        block = block_body x c;
        binding = binding_body x c;
        pattern = pattern_body x c;
        item = item_body x c;
        item_impl = item_impl_body x c;
        declaration = declaration_body x c;
        decorator = decorator_body x c;
        function_args = function_args_body x c;
        generics = generics_body x c;
      }

-- What `parse` returns; a panic ends it too, and in the model only, the fuel may.
pub data Parsed : Type 0 where
  parsed : List Item → ErrorHandler → Parsed
  rejected : ErrorHandler → Parsed
  crashed unfinished : Parsed

abbrev pub finish : List Item → ErrorHandler → Parsed
finish items h = if h.fatal then rejected h else parsed items h

abbrev pub with_error : Error → Location → Parser → Parser
with_error e loc p = record p { error_handler = push_err e loc p.error_handler }

module _ (x : Context) where
  -- What follows an item, or an error: its number is the one that it brings the count to.
  module _ (rounds : List Item → ℕ → Parser → Parsed) (items : List Item) (errors : ℕ) where
    abbrev pub after_eaten : Outcome (Unit {0}) → Parsed
    after_eaten (ok u p) = rounds items (errors + 1) p
    after_eaten (err e loc p) = rejected p.error_handler
    after_eaten panic = crashed
    after_eaten out_of_fuel = unfinished

    abbrev pub after_item : Outcome (Option Item) → Parsed
    unfolding stress_eat push_err
    after_item (ok o p) = rounds (push_some items o) errors p
    after_item (err e loc p) =
        let q = with_error e loc p in
        if leb x.max_errors (errors + 1)
        then rejected (push_err (too_many_errors (errors + 1)) loc q.error_handler)
        else after_eaten (stress_eat x q)
    after_item panic = crashed
    after_item out_of_fuel = unfinished

  -- The loop of `parse`. A round pulls a token, or brings the errors nearer to the limit.
  unfoldable pub parse_loop : ℕ → List Item → ℕ → Parser → Parsed
  unfolding calls
  parse_loop zero items errors p = unfinished
  parse_loop (suc fuel) items errors p =
      let rest = after_item (parse_loop fuel) items errors ((calls x (initial_frames x)).item p) in
      if is_some p.peek then rest else finish items p.error_handler

  unfoldable pub parse : Parser → Parsed
  unfolding parse_loop
  parse p = parse_loop (left p + x.max_errors + 1) [] 0 p
