-- ===== src/Ladder/Closed.antt =====
-- Lowered code reads the compiler's variables in their scopes: matches on conditions and loops.
pub mod Parts
pub mod Visit
use crunch_lang.Prelude.{
  ℕ, suc, ◌+◌, Bool, true, false, Option, none, some, List, [], ◌∷◌, arith, ◌≡◌, refl, ◌==◌, ◌||◌,
  if◌then◌else◌,
}
use crunch_lang.Ast as Ast
use crunch_lang.Ast.{AssignKind}
use crunch_lang.Hir.{
  Var, user, auto, TypeId, Literal, Expr, expr, ExprKind, Exprs, OptExpr, no_expr, Block, block,
  Stmt, expr_stmt, item_stmt, var_decl, Stmts, no_stmts, add_stmt, Arms, MatchArm, push, push_stmt,
  empty, from_stmts,
}
use crunch_lang.Hir.Scopes.{
  Scope, has, declare, InScope, behind, behind_stmt, Closed, ClosedLiteral, ClosedExprs, ClosedOpt,
  ClosedBlock, ClosedArms, ClosedArm, ClosedStmts, ClosedStmt, ClosedStmts-push_stmt,
  behind-push_stmt,
}
use crunch_lang.Ladder.{
  Ladder, Lower, pure, ◌>>=◌, Recall, next_var, bool_type, unknown_type, fresh_type, bool_literal,
  bool_arm, guarded_arm, block_statement, block_location, push_blocks, visit_then_and_else,
  or_empty, visit_if_only, else_arms, visit_if_guards, declare_value, visit_return_value,
  assigned_var, visit_assign, visit_func_call, visit_indexee, visit_offset, visit_index,
  declare_loop_broken, break_loop, test_condition, visit_while, expr_location, ladder,
}
use crunch_lang.Ladder.Quiet.{merge_locations-Runs}
use crunch_lang.Ladder.Runs.{Runs, panics, returns, any, weaken, ◌▷◌}

-- The values of an operation meet `P`.
abbrev pub Gives : {A : Type 0} → (A → Type 0) → Lower A → Type 0
Gives P m = (s : Ladder) → Runs (λ x s'. P x) (m s)

-- what holds in every scope
abbrev pub Anywhere : {A : Type 0} → (Scope → A → Type 0) → A → Type 0
Anywhere C x = (env : Scope) → C env x

abbrev pub ClosedElse : Scope → Option Block → Type 0
ClosedElse env none = Unit
ClosedElse env (some b) = ClosedBlock env b

-- A variable is the first in scope behind its declaration.
pub has-declared : (n : ℕ) (env : Scope) → has (n ∷ env) n ≡ true
has-declared n env = ground arith

module _ (recall : Recall) where
  pub bool_literal-Closed :
      (b : Bool) (loc : Ast.Location) → Gives (Anywhere ClosedLiteral) (bool_literal recall b loc)
  unfolding bool_literal Closed
  bool_literal-Closed b loc s = any (bool_type recall loc s) ▷ λ ty s' q. returns (λ env. tt)

  pub bool_arm-Closed :
      {P : Scope → Type 0} (b : Bool) (loc : Ast.Location) {m : Lower Block}
      → Gives (λ x. (env : Scope) → P env → ClosedBlock env x) m
      → Gives (λ x. (env : Scope) → P env → ClosedArm env x) (bool_arm recall b loc m)
  unfolding bool_arm Closed
  bool_arm-Closed b loc m s = bool_literal-Closed b loc s ▷ λ l s₁ p. m s₁ ▷ λ body s₂ q.
      any (unknown_type recall loc s₂) ▷ λ ty s₃ r. returns (λ env h. (p env, tt, q env h))

  pub guarded_arm-Closed :
      (guard : OptExpr) (body : Block)
      → Anywhere ClosedOpt guard
      → Anywhere ClosedBlock body
      → Gives (Anywhere ClosedArm) (guarded_arm recall guard body)
  unfolding guarded_arm Closed
  guarded_arm-Closed guard body g b s =
      any (unknown_type recall _ s) ▷ λ ty s₁ r. returns (λ env. (tt, g env, b env))

  pub block_statement-Closed :
      (then_loc else_loc : Ast.Location) (v : Var) (then_block else_block : Block)
      → Anywhere ClosedBlock then_block
      → Anywhere ClosedBlock else_block
      → Gives
          (λ t. (env : Scope) → InScope env v → ClosedStmt env t)
          (block_statement recall then_loc else_loc v then_block else_block)
  unfolding block_statement Closed
  block_statement-Closed then_loc else_loc v then_block else_block p q s =
      merge_locations-Runs _ then_loc else_loc s (
        any (bool_type recall _ s) ▷ λ ty s₁ r₁. bool_literal-Closed true _ s₁ ▷ λ l s₂ h.
        bool_arm-Closed {P = λ env. Unit} true _ (λ s. returns (λ env u. q env)) s₂
        ▷ λ broken s₃ h₁.
            bool_arm-Closed {P = λ env. Unit} false _ (λ s. returns (λ env u. p env)) s₃
            ▷ λ unbroken s₄ h₂. any (unknown_type recall _ s₄) ▷ λ ty₁ s₅ r₂.
                returns (λ env u. ((u, h env), (h₁ env tt, (h₂ env tt, tt)))))

  -- The match behind a loop, in the scope of the loop's variable.
  pub push_blocks-Closed :
      (scope : Stmts) (loc : Ast.Location) (v : Var) (then_block else_block : Option Block)
      → ((env : Scope) → ClosedStmts env scope × InScope (behind env scope) v)
      → Anywhere ClosedElse then_block
      → Anywhere ClosedElse else_block
      → Gives
          (Anywhere ClosedBlock)
          (push_blocks recall (from_stmts loc scope) v then_block else_block)
  unfolding push_blocks push Closed
  push_blocks-Closed scope loc v none none h p q s = returns (λ env. (h env).0)
  push_blocks-Closed scope loc v (some t) none h p q s =
      block_statement-Closed (block_location t) (block_location t) v t (empty _) p (λ env. tt) s
      ▷ λ x s' r. returns (λ env. ClosedStmts-push_stmt scope x env (h env).0 (r _ (h env).1))
  push_blocks-Closed scope loc v none (some e) h p q s =
      block_statement-Closed (block_location e) (block_location e) v (empty _) e (λ env. tt) q s
      ▷ λ x s' r. returns (λ env. ClosedStmts-push_stmt scope x env (h env).0 (r _ (h env).1))
  push_blocks-Closed scope loc v (some t) (some e) h p q s =
      block_statement-Closed (block_location t) (block_location e) v t e p q s ▷ λ x s' r.
      returns (λ env. ClosedStmts-push_stmt scope x env (h env).0 (r _ (h env).1))

  pub visit_then_and_else-Closed :
      (scope : Stmts) (loc : Ast.Location) (v : Var) {then_ else_ : Lower (Option Block)}
      → ((env : Scope) → ClosedStmts env scope × InScope (behind env scope) v)
      → Gives (Anywhere ClosedElse) then_
      → Gives (Anywhere ClosedElse) else_
      → Gives
          (Anywhere ClosedBlock)
          (visit_then_and_else recall (from_stmts loc scope) v then_ else_)
  unfolding visit_then_and_else
  visit_then_and_else-Closed scope loc v h then_ else_ s =
      then_ s ▷ λ t s₁ p. else_ s₁ ▷ λ e s₂ q. push_blocks-Closed scope loc v t e h p q s₂

  pub or_empty-Closed :
      (loc : Ast.Location) (e : Option Block)
      → Anywhere ClosedElse e
      → Anywhere ClosedBlock (or_empty loc e)
  unfolding or_empty Closed
  or_empty-Closed loc none h env = tt
  or_empty-Closed loc (some b) h env = h env

  pub visit_if_only-Closed :
      (loc cond_loc : Ast.Location) {cond : Lower Expr} {body : Lower Block}
      {else_ : Lower (Option Block)}
      → Gives (Anywhere Closed) cond
      → Gives (Anywhere ClosedBlock) body
      → Gives (Anywhere ClosedElse) else_
      → Gives (Anywhere Closed) (visit_if_only recall loc cond_loc cond body else_)
  unfolding visit_if_only Closed
  visit_if_only-Closed loc cond_loc cond body else_ s =
      bool_arm-Closed {P = λ env. Unit} true cond_loc (λ s. weaken (λ x s' p env u. p env) (body s))
        s
      ▷ λ on_true s₁ p.
          bool_arm-Closed {P = λ env. Unit} false cond_loc
            (λ s. else_ s ▷ λ x s' p. returns (λ env u. or_empty-Closed cond_loc x p env)) s₁
          ▷ λ on_false s₂ q. cond s₂ ▷ λ e s₃ r. any (unknown_type recall loc s₃) ▷ λ ty s₄ t.
              returns (λ env. (r env, (p env tt, (q env tt, tt))))

  pub else_arms-Closed :
      (e : Option Block) → Anywhere ClosedElse e → Gives (Anywhere ClosedArms) (else_arms recall e)
  unfolding else_arms Closed
  else_arms-Closed none h s = returns (λ env. tt)
  else_arms-Closed (some b) h s =
      guarded_arm-Closed no_expr b (λ env. tt) h s ▷ λ m s' p. returns (λ env. (p env, tt))

  pub visit_if_guards-Closed :
      (loc : Ast.Location) {arms : Lower Arms}
      → Gives (Anywhere ClosedArms) arms
      → Gives (Anywhere Closed) (visit_if_guards recall loc arms)
  unfolding visit_if_guards Closed
  visit_if_guards-Closed loc arms s = arms s ▷ λ x s₁ p. bool_literal-Closed true loc s₁ ▷ λ l s₂ q.
      any (unknown_type recall loc s₂) ▷ λ ty s₃ r. returns (λ env. (q env, p env))

  declare_loop_broken-Closed :
      (loc cond_loc : Ast.Location) (v : Var)
      → Gives
          (λ t. (env : Scope) → ClosedStmt env t × (behind_stmt env t ≡ declare v env))
          (declare_loop_broken recall loc cond_loc v)
  unfolding declare_loop_broken Closed
  declare_loop_broken-Closed loc cond_loc v s = bool_literal-Closed false cond_loc s ▷ λ l s₁ p.
      any (bool_type recall loc s₁) ▷ λ ty s₂ r. returns (λ env. (p env, refl))

  break_loop-Closed :
      (loc : Ast.Location) (v : Var) → Gives (Anywhere ClosedBlock) (break_loop recall loc v)
  unfolding break_loop Closed
  break_loop-Closed loc v s =
      bool_literal-Closed true loc s ▷ λ l s₁ p. returns (λ env. (p env, (tt, tt)))

  test_condition-Closed :
      (v : Var) (cond : Expr)
      → Anywhere Closed cond
      → Gives
          (λ t. (env : Scope) → ClosedStmt env t × (behind_stmt env t ≡ env))
          (test_condition recall v cond)
  unfolding test_condition Closed
  test_condition-Closed v cond h s =
      bool_arm-Closed {P = λ env. Unit} true _ (λ s. returns (λ env u. tt)) s ▷ λ on_true s₁ p.
      bool_arm-Closed {P = λ env. Unit} false _
        (λ s. weaken (λ x s' q env u. q env) (break_loop-Closed _ v s)) s₁
      ▷ λ on_false s₂ q. any (unknown_type recall _ s₂) ▷ λ ty s₃ t.
          returns (λ env. ((h env, (p env tt, (q env tt, tt))), refl))

  pub visit_while-Closed :
      (loc cond_loc body_loc : Ast.Location) {cond : Lower Expr} {body : Lower Stmts}
      {then_ else_ : Lower (Option Block)}
      → Gives (Anywhere Closed) cond
      → Gives (Anywhere ClosedStmts) body
      → Gives (Anywhere ClosedElse) then_
      → Gives (Anywhere ClosedElse) else_
      → Gives (Anywhere Closed) (visit_while recall loc cond_loc body_loc cond body then_ else_)
  unfolding visit_while next_var visit_then_and_else Closed push push_stmt
  visit_while-Closed loc cond_loc body_loc cond body then_ else_ s =
      let v = auto s.variable_counter in
      declare_loop_broken-Closed loc cond_loc v (ladder s.context (suc s.variable_counter))
      ▷ λ decl s₂ q. cond s₂ ▷ λ e s₃ r. test_condition-Closed v e r s₃ ▷ λ test s₄ t.
          body s₄ ▷ λ ss s₅ w.
          visit_then_and_else-Closed
            (add_stmt decl (
              add_stmt
                (expr_stmt (expr (ExprKind.loop (from_stmts body_loc (add_stmt test ss))) loc))
                no_stmts))
            loc v
            (λ env.
              let inner = behind_stmt env decl in
              (
                ((q env).0, (((t inner).0, rw (t inner).1 (w inner)), tt)),
                rw (q env).1 (has-declared s.variable_counter env),
              ))
            then_ else_ s₅
          ▷ λ scope s₈ z. returns z
