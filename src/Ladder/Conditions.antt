-- ===== src/Ladder/Conditions.antt =====
-- crates/ladder/src/lib.rs: matches on conditions, which `if` and the blocks behind a loop become.
-- The visits of the parts of a node are arguments, as actions.
use crunch_lang.Prelude.{Bool, true, false, Option, none, some, ◌==◌, if◌then◌else◌}
use crunch_lang.Token as Token
use crunch_lang.Ast.{Location, location, CompOp}
use crunch_lang.Hir.{
  Var, LiteralVal, Literal, literal, Pattern, literal_pattern, wildcard, Binding, binding, Expr,
  expr, ExprKind, OptExpr, no_expr, Block, block, Stmt, expr_stmt, MatchArm, match_arm, Arms,
  no_arms, add_arm, push, empty,
}
use crunch_lang.Ladder.State.{Lower, pure, todo, ◌>>=◌, Recall}
use crunch_lang.Ladder.Types.{unknown_type, bool_type}

-- `Location::merge`, which asserts in debug builds that both are in the same file
unfoldable pub merge_locations : Location → Location → Lower Location
merge_locations a b =
    if a.file == b.file then pure (location (Token.merge a.span b.span) a.file) else todo

-- A binding by a pattern alone.
abbrev pub plain : Pattern → Binding
plain p = binding false false p none

abbrev pub block_location : Block → Location
block_location (block ss colors loc) = loc

abbrev pub expr_location : Expr → Location
expr_location (expr kind loc) = loc

-- `else`, or nothing, at the place of the condition
unfoldable pub or_empty : Location → Option Block → Block
or_empty loc none = empty loc
or_empty loc (some else_block) = else_block

module _ (recall : Recall) where
  -- a Boolean literal
  unfoldable pub bool_literal : Bool → Location → Lower Literal
  unfolding bool_type
  bool_literal b loc = do ty ← bool_type recall loc; pure (literal (LiteralVal.bool b) ty loc)

  -- an arm for a Boolean, whose body is visited behind its pattern
  unfoldable pub bool_arm : Bool → Location → Lower Block → Lower MatchArm
  unfolding bool_literal unknown_type
  bool_arm b loc visit_body = do
    l ← bool_literal b loc
    body ← visit_body
    ty ← unknown_type recall loc
    pure (match_arm (plain (literal_pattern l)) no_expr body ty)

  -- an arm that takes everything that passes a guard, if it has one
  unfoldable pub guarded_arm : OptExpr → Block → Lower MatchArm
  unfolding unknown_type
  guarded_arm guard body = do
    ty ← unknown_type recall (block_location body)
    pure (match_arm (plain wildcard) guard body ty)

  -- The match behind a loop: the `else` block if it was broken, the `then` block if it was not.
  unfoldable pub block_statement : Location → Location → Var → Block → Block → Lower Stmt
  unfolding bool_type bool_literal bool_arm unknown_type merge_locations
  block_statement then_loc else_loc loop_broken then_block else_block = do
    loc ← merge_locations then_loc else_loc
    var_ty ← bool_type recall loc
    l ← bool_literal true loc
    broken ← bool_arm true loc (pure else_block)
    unbroken ← bool_arm false loc (pure then_block)
    ty ← unknown_type recall loc
    let lhs = expr (ExprKind.variable loop_broken var_ty) loc
    let rhs = expr (ExprKind.literal_expr l) loc
    let cond = expr (ExprKind.comparison lhs CompOp.equal rhs) loc
    let arms = add_arm broken (add_arm unbroken no_arms)
    pure (expr_stmt (expr (ExprKind.match cond arms ty) loc))

  -- The scope of a loop with the match behind it, if either block is there.
  unfoldable pub push_blocks : Block → Var → Option Block → Option Block → Lower Block
  unfolding block_statement push
  push_blocks scope loop_broken none none = pure scope
  push_blocks scope loop_broken (some then_block) none = do
    let loc = block_location then_block
    s ← block_statement loc loc loop_broken then_block (empty loc)
    pure (push scope s)
  push_blocks scope loop_broken none (some else_block) = do
    let loc = block_location else_block
    s ← block_statement loc loc loop_broken (empty loc) else_block
    pure (push scope s)
  push_blocks scope loop_broken (some then_block) (some else_block) = do
    s ←
        block_statement (block_location then_block) (block_location else_block) loop_broken
          then_block else_block
    pure (push scope s)

  unfoldable pub visit_then_and_else :
      Block → Var → Lower (Option Block) → Lower (Option Block) → Lower Block
  unfolding push_blocks
  visit_then_and_else scope loop_broken visit_then visit_else = do
    then_block ← visit_then
    else_block ← visit_else
    push_blocks scope loop_broken then_block else_block

  -- `visit_if` of one clause: a match of the condition against `true` and `false`
  unfoldable pub visit_if_only :
      Location → Location → Lower Expr → Lower Block → Lower (Option Block) → Lower Expr
  unfolding bool_arm or_empty unknown_type
  visit_if_only loc cond_loc visit_cond visit_body visit_else = do
    on_true ← bool_arm true cond_loc visit_body
    on_false ← bool_arm false cond_loc (visit_else >>= λ e. pure (or_empty cond_loc e))
    cond ← visit_cond
    ty ← unknown_type recall loc
    pure (expr (ExprKind.match cond (add_arm on_true (add_arm on_false no_arms)) ty) loc)

  -- the arm of `else`, behind those of the clauses
  unfoldable pub else_arms : Option Block → Lower Arms
  unfolding guarded_arm
  else_arms none = pure no_arms
  else_arms (some body) = do a ← guarded_arm no_expr body; pure (add_arm a no_arms)

  -- `visit_if` of other clauses: a match of `true`, with the conditions as guards
  unfoldable pub visit_if_guards : Location → Lower Arms → Lower Expr
  unfolding bool_literal unknown_type
  visit_if_guards loc visit_arms = do
    arms ← visit_arms
    l ← bool_literal true loc
    ty ← unknown_type recall loc
    pure (expr (ExprKind.match (expr (ExprKind.literal_expr l) loc) arms ty) loc)
