-- ===== src/Ladder/Weight/Parts.antt =====
-- What lowered loops, returns, assignments, indexing and calls weigh, for any account.
use crunch_lang.Prelude.{ℕ, ◌≤◌, true, false, Option, none, some, arith, ◌≡◌, ◌∙◌}
use crunch_lang.Ast as Ast
use crunch_lang.Ast.{AssignKind}
use crunch_lang.Hir.{Var, Expr, Exprs, Block, Stmts, empty, expr_stmt}
use crunch_lang.Hir.Tally.{tally, tally_exprs, tally_block, tally_stmts, tally_stmt}
use crunch_lang.Ladder.{
  Ladder, Lower, Recall, next_var, declare_value, visit_return_value, assigned_var, visit_assign,
  visit_func_call, visit_indexee, visit_offset, visit_index, declare_loop_broken, break_loop,
  test_condition, visit_while, expr_location,
}
use crunch_lang.Ladder.Account.{Account, IsNamed, nothing, kept}
use crunch_lang.Ladder.Runs.{Runs, panics, returns, ◌▷◌}
use crunch_lang.Ladder.Quiet.{unknown_type-IsQuiet, bool_type-IsQuiet, fresh_type-IsQuiet}
use crunch_lang.Ladder.Weight.{
  next_var-Costs, Costs, weight_of, weight_else, tally_stmts-push_stmt, push-Weighs, in_arm,
  bool_literal-Costs, bool_arm-Costs_from, bool_arm-of, visit_then_and_else-Costs,
}

module _ (a : Account) where
  open a use {
    join, declares, uses, Weighs, forth, idle, early, late, seq, swapped, declared, used, assoc,
    left_zero, right_zero, user_declared, user_used,
  }

  -- A declared value: what it weighs, and its name.
  pub declare_value-Costs :
      (loc : Ast.Location) {m : Lower Expr}
      → Costs a (weight_of a) m
      → (s : Ladder)
      → Runs
          (λ (decl, v, ty) s'.
            Weighs (tally_stmt join declares uses decl) s.variable_counter s'.variable_counter
            × IsNamed a v s'.variable_counter)
          (declare_value loc m s)
  unfolding declare_value tally
  declare_value-Costs loc m s = m s ▷ λ e s₁ p. next_var-Costs a s₁ ▷ λ v s₂ (q, u).
      fresh_type-IsQuiet loc s₂ ▷ λ ty s₃ r.
      returns (kept a (seq p q) r, λ e' h. u e' (omega arith))

  pub visit_return_value-Costs :
      (loc : Ast.Location) {m : Lower Expr}
      → Costs a (weight_of a) m
      → Costs a (weight_of a) (visit_return_value loc m)
  unfolding visit_return_value tally
  visit_return_value-Costs loc m s = declare_value-Costs loc m s ▷ λ d s₁ (p, u).
      returns (seq p (seq (u _ (omega arith)) (nothing a)))

  pub assigned_var-Costs : (name : Option Ast.StrT) → Costs a uses (assigned_var name)
  unfolding assigned_var next_var
  assigned_var-Costs (some name) s = returns user_used
  assigned_var-Costs none s =
      returns (early {c = s.variable_counter} (omega arith) (used (omega arith)))

  pub visit_assign-Costs :
      (loc : Ast.Location) (name : Option Ast.StrT) (op : AssignKind) {lhs rhs : Lower Expr}
      → Costs a (weight_of a) lhs
      → Costs a (weight_of a) rhs
      → Costs a (weight_of a) (visit_assign loc name op lhs rhs)
  unfolding visit_assign tally
  visit_assign-Costs loc name (AssignKind.binary_op op) lhs rhs s =
      assigned_var-Costs name s ▷ λ v s₁ p.
      lhs s₁ ▷ λ l s₂ q. rhs s₂ ▷ λ r s₃ t. returns (seq p (seq q t))
  visit_assign-Costs loc name AssignKind.normal lhs rhs s =
      assigned_var-Costs name s ▷ λ v s₁ p. rhs s₁ ▷ λ r s₂ q. returns (seq p q)

  pub visit_func_call-Costs :
      (loc : Ast.Location) (name : Option Ast.StrT) {args : Lower Exprs}
      → Costs a (tally_exprs join declares uses) args
      → Costs a (weight_of a) (visit_func_call loc name args)
  unfolding visit_func_call tally
  visit_func_call-Costs loc (some name) args s = args s ▷ λ x s₁ p. returns p
  visit_func_call-Costs loc none args s = args s ▷ λ x s₁ p. panics

  -- A variable as it is, or a value under a new name: the declarations, and the name.
  pub visit_indexee-Costs :
      (loc : Ast.Location) (name : Option Ast.StrT) {m : Lower Expr}
      → Costs a (weight_of a) m
      → (s : Ladder)
      → Runs
          (λ (scope, v) s'.
            Weighs (tally_stmts join declares uses scope) s.variable_counter s'.variable_counter
            × IsNamed a v s'.variable_counter)
          (visit_indexee loc name m s)
  unfolding visit_indexee tally
  visit_indexee-Costs loc (some name) m s = returns (nothing a, λ e h. user_used)
  visit_indexee-Costs loc none m s =
      declare_value-Costs loc m s ▷ λ d s₁ (p, u). returns (seq p (nothing a), u)

  pub visit_offset-Costs :
      (loc : Ast.Location) (name : Option Ast.StrT) {m : Lower Expr} (scope : Stmts) {c : ℕ}
      → Costs a (weight_of a) m
      → (s : Ladder) → Weighs (tally_stmts join declares uses scope) c s.variable_counter
      → Runs
          (λ (scope', v, ty) s'.
            (s.variable_counter ≤ s'.variable_counter)
            × Weighs (tally_stmts join declares uses scope') c s'.variable_counter
            × IsNamed a v s'.variable_counter)
          (visit_offset loc name m scope s)
  unfolding visit_offset
  visit_offset-Costs loc (some name) scope m s p =
      fresh_type-IsQuiet loc s ▷ λ ty s₁ q. returns (omega arith, kept a p q, λ e h. user_used)
  visit_offset-Costs loc none scope m s p = declare_value-Costs loc m s ▷ λ (decl, v, ty) s₁ (q, u).
      returns (forth q, rw (tally_stmts-push_stmt a scope decl) (seq p q), u)

  pub visit_index-Costs :
      (loc : Ast.Location) (var index : Option Ast.StrT) {m k : Lower Expr}
      → Costs a (weight_of a) m
      → Costs a (weight_of a) k
      → Costs a (weight_of a) (visit_index loc var m index k)
  unfolding visit_index tally
  visit_index-Costs loc var index m k s = visit_indexee-Costs loc var m s ▷ λ (scope, v) s₁ (p, u).
      visit_offset-Costs loc index scope k s₁ p ▷ λ (scope', w, ty) s₂ (le, q, t).
      returns (rw (tally_stmts-push_stmt a scope' _) (seq q (seq (u _ le) (t _ (omega arith)))))

  module _ (recall : Recall) where
    -- The declaration of the variable, whose name was taken just before.
    pub declare_loop_broken-Costs :
        (loc cond_loc : Ast.Location) (v : Var) {c : ℕ} (s : Ladder)
        → Weighs (declares v) c s.variable_counter
        → Runs
            (λ t s'.
              Weighs (tally_stmt join declares uses t) c s'.variable_counter
              × (s'.variable_counter ≡ s.variable_counter))
            (declare_loop_broken recall loc cond_loc v s)
    unfolding declare_loop_broken tally
    declare_loop_broken-Costs loc cond_loc v s p =
        bool_literal-Costs a recall false cond_loc s ▷ λ l s₁ (w, q).
        bool_type-IsQuiet recall loc s₁ ▷ λ ty s₂ r.
        returns (rw w (seq (nothing a) (kept a p (r ∙ q))), r ∙ q)

    pub break_loop-Costs :
        (loc : Ast.Location) (v : Var) (c : ℕ)
        → IsNamed a v c
        → (s : Ladder) → c ≤ s.variable_counter
        → Runs
            (λ b s'.
              Weighs (tally_block join declares uses b) s.variable_counter s'.variable_counter)
            (break_loop recall loc v s)
    unfolding break_loop tally
    break_loop-Costs loc v c u s le = bool_literal-Costs a recall true loc s ▷ λ l s₁ (w, q).
        returns (
          rw w (
            seq (seq (u s.variable_counter le) (nothing a))
              (seq (nothing a) (kept a (nothing a) q))))

    pub test_condition-Costs :
        (v : Var) (cond : Expr) {c d : ℕ} (s : Ladder)
        → IsNamed a v d
        → d ≤ s.variable_counter
        → Weighs (weight_of a cond) c s.variable_counter
        → Runs
            (λ t s'. Weighs (tally_stmt join declares uses t) c s'.variable_counter)
            (test_condition recall v cond s)
    unfolding test_condition tally
    test_condition-Costs v cond s u le p =
        bool_arm-of a recall true _ (empty (expr_location cond)) s ▷ λ on_true s₁ (w, q).
        bool_arm-Costs_from a recall false _ s₁
          (λ s' le'. break_loop-Costs _ v _ u s' (omega arith))
        ▷ λ on_false s₂ r. unknown_type-IsQuiet recall _ s₂ ▷ λ ty s₃ t.
            returns
              (rw w (seq (kept a p q) (seq (in_arm a (nothing a)) (seq (kept a r t) (nothing a)))))

    pub visit_while-Costs :
        (loc cond_loc body_loc : Ast.Location) {cond : Lower Expr} {body : Lower Stmts}
        {then_ else_ : Lower (Option Block)}
        → Costs a (weight_of a) cond
        → Costs a (tally_stmts join declares uses) body
        → Costs a (weight_else a) then_
        → Costs a (weight_else a) else_
        → Costs a (weight_of a) (visit_while recall loc cond_loc body_loc cond body then_ else_)
    unfolding visit_while tally
    visit_while-Costs loc cond_loc body_loc cond body then_ else_ s =
        next_var-Costs a s ▷ λ v s₁ (p, u).
        declare_loop_broken-Costs loc cond_loc v s₁ p ▷ λ decl s₂ (q, i). cond s₂ ▷ λ e s₃ r.
        test_condition-Costs v e s₃ u (omega (arith, forth r)) r ▷ λ test s₄ t. body s₄ ▷ λ ss s₅ w.
        visit_then_and_else-Costs a recall _ v _ _ s₅
          (λ e' h. u e' (omega (arith, forth r, forth t, forth w))) then_ else_
          (push-Weighs a _ (expr_stmt _) (push-Weighs a (empty loc) decl (nothing a) q) (seq t w))
        ▷ λ scope s₆ x. returns x
