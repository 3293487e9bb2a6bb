-- ===== src/Ladder/Loops.antt =====
-- crates/ladder/src/lib.rs, `visit_while`: a loop that breaks when its condition is false, in a scope
-- with a variable that says whether it did.
use crunch_lang.Prelude.{true, false, Option}
use crunch_lang.Ast.{Location}
use crunch_lang.Hir.{
  Var, Expr, expr, ExprKind, no_expr, Block, Stmts, no_stmts, add_stmt, Stmt, expr_stmt, var_decl,
  no_arms, add_arm, push, empty, from_stmts,
}
use crunch_lang.Ladder.State.{Lower, pure, ◌>>=◌, next_var, Recall}
use crunch_lang.Ladder.Types.{unknown_type, bool_type}
use crunch_lang.Ladder.Conditions.{bool_literal, bool_arm, expr_location, visit_then_and_else}

module _ (recall : Recall) where
  -- The declaration of the variable, as false.
  unfoldable pub declare_loop_broken : Location → Location → Var → Lower Stmt
  declare_loop_broken loc cond_loc loop_broken = do
    l ← bool_literal recall false cond_loc
    ty ← bool_type recall loc
    pure (var_decl loop_broken (expr (ExprKind.literal_expr l) cond_loc) true ty cond_loc)

  -- What runs when the condition is false: the variable becomes true and the loop is left.
  unfoldable pub break_loop : Location → Var → Lower Block
  break_loop loc loop_broken = do
    l ← bool_literal recall true loc
    let set = expr (ExprKind.assign loop_broken (expr (ExprKind.literal_expr l) loc)) loc
    let leave = expr (ExprKind.break no_expr) loc
    pure (from_stmts loc (add_stmt (expr_stmt set) (add_stmt (expr_stmt leave) no_stmts)))

  -- The test at the head of the loop, at the place of the lowered condition.
  unfoldable pub test_condition : Var → Expr → Lower Stmt
  test_condition loop_broken cond = do
    let loc = expr_location cond
    on_true ← bool_arm recall true loc (pure (empty loc))
    on_false ← bool_arm recall false loc (break_loop loc loop_broken)
    ty ← unknown_type recall loc
    pure
        (expr_stmt (expr (ExprKind.match cond (add_arm on_true (add_arm on_false no_arms)) ty) loc))

  -- places of the expression, its condition and its body; visits of condition, body, then and else
  unfoldable pub visit_while :
      Location
      → Location
      → Location
      → Lower Expr
      → Lower Stmts
      → Lower (Option Block)
      → Lower (Option Block)
      → Lower Expr
  visit_while loc cond_loc body_loc visit_cond visit_body visit_then visit_else = do
    loop_broken ← next_var
    decl ← declare_loop_broken loc cond_loc loop_broken
    cond ← visit_cond
    test ← test_condition loop_broken cond
    body ← visit_body
    let runs = expr (ExprKind.loop (from_stmts body_loc (add_stmt test body))) loc
    let scope = push (push (empty loc) decl) (expr_stmt runs)
    scope ← visit_then_and_else recall scope loop_broken visit_then visit_else
    pure (expr (ExprKind.scope scope) loc)
