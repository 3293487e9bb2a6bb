-- ===== src/Parser/Grammar/Ending.antt =====
-- The parser ends on every list of tokens: no loop of a parser of expressions, statements or items
-- runs out of fuel, and neither does the loop over the items of a file.
use crunch_lang.Prelude.{ℕ, zero, suc, ◌≡◌, true, arith}
use crunch_lang.Parser.Core.{Context, Parser}
use crunch_lang.Parser.Tokens.{left}
use crunch_lang.Parser.Blocks.{is_some, has_peek}
use crunch_lang.Parser.Item.{item_body, item_round, empty_front}
use crunch_lang.Parser.Ends.{Same-refl, Ends, Takes-fail, ◌▸◌, while_loop-first}
use crunch_lang.Parser.Ends.Good.{Good}
use crunch_lang.Parser.Ends.Primitives.{type-Pulls}
use crunch_lang.Parser.Ends.Values.{operation_body-Halts}
use crunch_lang.Parser.Ends.Control.{
  prefix_body-Halts, then_block-Halts, else_block-Halts, parse_expr_body-Pulls,
}
use crunch_lang.Parser.Ends.Stmts.{
  stmt_body-Pulls, block_body-Pulls, binding_body-Pulls, pattern_body-Pulls,
}
use crunch_lang.Parser.Ends.Functions.{
  decorator_body-Pulls, generics_body-Halts, function_args_body-Pulls,
}
use crunch_lang.Parser.Ends.Items.{
  item_impl_body-Pulls, item_body-Takes, declaration_body-Pulls, item_round-Rounds, item_step-Halts,
}
use crunch_lang.Parser.Grammar.{calls}

module _ (x : Context) where
  -- However deep the stack may still grow, every function ends.
  pub calls-Good : (n : ℕ) → Good (calls x n)
  unfolding calls
  calls-Good zero = record {
    type_pulls = Takes-fail _ _;
    expr_pulls = Takes-fail _ _;
    parse_expr_pulls = λ prec. Takes-fail _ _;
    prefix_halts = λ k t. Takes-fail _ _;
    operation_halts = λ o t lhs. Takes-fail _ _;
    then_halts = Takes-fail _ _;
    else_halts = Takes-fail _ _;
    stmt_pulls = Takes-fail _ _;
    block_pulls = λ breaks. Takes-fail _ _;
    binding_pulls = Takes-fail _ _;
    pattern_pulls = Takes-fail _ _;
    item_takes = Takes-fail _ _;
    item_impl_pulls = λ front. Takes-fail _ _;
    declaration_pulls = λ d ds as_ v. Takes-fail _ _;
    decorator_pulls = λ ds. Takes-fail _ _;
    args_pulls = Takes-fail _ _;
    generics_halts = Takes-fail _ _;
  }
  calls-Good (suc n) =
      let c = calls x n in
      let g = calls-Good n in
      record {
        type_pulls = type-Pulls x (suc n);
        expr_pulls = g.parse_expr_pulls 0;
        parse_expr_pulls = parse_expr_body-Pulls x c g;
        prefix_halts = prefix_body-Halts x c g;
        operation_halts = operation_body-Halts x c g;
        then_halts = then_block-Halts x c g;
        else_halts = else_block-Halts x c g;
        stmt_pulls = stmt_body-Pulls x c g;
        block_pulls = block_body-Pulls x c g;
        binding_pulls = binding_body-Pulls x c g;
        pattern_pulls = pattern_body-Pulls x c g;
        item_takes = item_body-Takes x c g;
        item_impl_pulls = item_impl_body-Pulls x c g;
        declaration_pulls = declaration_body-Pulls x c g;
        decorator_pulls = decorator_body-Pulls x c g;
        args_pulls = function_args_body-Pulls x c g;
        generics_halts = generics_body-Halts x c g;
      }

-- The parser of an expression ends from every state and with every number of frames left: in an
-- expression with fewer tokens left, in an error with no more tokens left, or in a panic; it never
-- runs out of the fuel of its loops. The handler has the recorded errors that it had, and is fatal
-- if it was.
pub expr-Ends :
    (x : Context) (frames : ℕ) (p : Parser)
    → Ends (λ _. true) (left p) p.error_handler ((calls x frames).expr p)
expr-Ends x frames p = (calls-Good x frames).expr_pulls (left p) p (omega arith)

-- The parser of a statement ends from every state and with every number of frames left: in a result
-- with fewer tokens left, in an error with no more tokens left, or in a panic. The handler has the
-- recorded errors that it had, and is fatal if it was.
pub stmt-Ends :
    (x : Context) (frames : ℕ) (p : Parser)
    → Ends (λ _. true) (left p) p.error_handler ((calls x frames).stmt p)
stmt-Ends x frames p = (calls-Good x frames).stmt_pulls (left p) p (omega arith)

-- The parser of an item at a token that can be peeked at ends: in a result, with an item or
-- without, and fewer tokens left, in an error with no more tokens left, or in a panic. The handler
-- has the recorded errors that it had, and is fatal if it was.
pub item-Ends :
    (x : Context) (frames : ℕ) (p : Parser)
    → is_some p.peek ≡ true
    → Ends (λ _. true) (left p) p.error_handler ((calls x frames).item p)
unfolding calls item_body item_round has_peek
item-Ends x zero p e = Ends.error (omega arith) Same-refl
item-Ends x (suc n) p e =
    let c = calls x n in
    let g = calls-Good x n in
    while_loop-first (item_round x c) (item_round-Rounds x c g) empty_front (left p) p (omega arith)
      (rw e ((g.item_impl_pulls empty_front ▸ item_step-Halts x c g) (left p) p (omega arith)))
