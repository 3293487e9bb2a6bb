-- ===== src/Ladder/Closed/Parts.antt =====
-- Lowered returns, assignments, indexing and calls read the compiler's variables in their scopes.
use crunch_lang.Prelude.{suc, Option, none, some, arith}
use crunch_lang.Ast as Ast
use crunch_lang.Ast.{AssignKind}
use crunch_lang.Hir.{Var, user, auto, Expr, Exprs, Stmt, expr_stmt, item_stmt, var_decl, Stmts}
use crunch_lang.Hir.Scopes.{
  Scope, InScope, behind, behind_stmt, Closed, ClosedExprs, ClosedStmts, ClosedStmt,
  ClosedStmts-push_stmt, behind-push_stmt,
}
use crunch_lang.Ladder.{
  Lower, next_var, fresh_type, declare_value, visit_return_value, assigned_var, visit_assign,
  visit_func_call, visit_indexee, visit_offset, visit_index, ladder,
}
use crunch_lang.Ladder.Runs.{panics, returns, any, ◌▷◌}
use crunch_lang.Ladder.Closed.{Gives, Anywhere, has-declared}

-- The declaration of a value is closed, and its name is in scope behind it.
abbrev Declares : Stmt → Var → Type 0
Declares decl v = (env : Scope) → ClosedStmt env decl × InScope (behind_stmt env decl) v

declare_value-Closed :
    (loc : Ast.Location) {m : Lower Expr}
    → Gives (Anywhere Closed) m
    → Gives (λ (decl, v, ty). Declares decl v) (declare_value loc m)
unfolding declare_value next_var Closed
declare_value-Closed loc m s = m s ▷ λ e s₁ p.
    any (fresh_type loc (ladder s₁.context (suc s₁.variable_counter))) ▷ λ ty s₂ q.
    returns (λ env. (p env, has-declared s₁.variable_counter env))

pub visit_return_value-Closed :
    (loc : Ast.Location) {m : Lower Expr}
    → Gives (Anywhere Closed) m
    → Gives (Anywhere Closed) (visit_return_value loc m)
unfolding visit_return_value Closed
visit_return_value-Closed loc m s = declare_value-Closed loc m s ▷ λ (decl, v, ty) s₁ p.
    returns (λ env. ((p env).0, ((p env).1, tt)))

pub visit_assign-Closed :
    (loc : Ast.Location) (name : Option Ast.StrT) (op : AssignKind) {lhs rhs : Lower Expr}
    → Gives (Anywhere Closed) lhs
    → Gives (Anywhere Closed) rhs
    → Gives (Anywhere Closed) (visit_assign loc name op lhs rhs)
unfolding visit_assign Closed
visit_assign-Closed loc name (AssignKind.binary_op op) lhs rhs s =
    any (assigned_var name s) ▷ λ v s₁ u.
    lhs s₁ ▷ λ l s₂ p. rhs s₂ ▷ λ r s₃ q. returns (λ env. (p env, q env))
visit_assign-Closed loc name AssignKind.normal lhs rhs s =
    any (assigned_var name s) ▷ λ v s₁ u. rhs s₁ ▷ λ r s₂ p. returns p

pub visit_func_call-Closed :
    (loc : Ast.Location) (name : Option Ast.StrT) {args : Lower Exprs}
    → Gives (Anywhere ClosedExprs) args
    → Gives (Anywhere Closed) (visit_func_call loc name args)
unfolding visit_func_call Closed
visit_func_call-Closed loc (some name) args s = args s ▷ λ x s₁ p. returns p
visit_func_call-Closed loc none args s = args s ▷ λ x s₁ p. panics

-- Closed declarations, with names in scope behind them.
abbrev DeclaresAll : Stmts → (Scope → Type 0) → Type 0
DeclaresAll scope P = (env : Scope) → ClosedStmts env scope × P (behind env scope)

visit_indexee-Closed :
    (loc : Ast.Location) (name : Option Ast.StrT) {m : Lower Expr}
    → Gives (Anywhere Closed) m
    → Gives (λ (scope, v). DeclaresAll scope λ env. InScope env v) (visit_indexee loc name m)
unfolding visit_indexee Closed
visit_indexee-Closed loc (some name) m s = returns (λ env. (tt, tt))
visit_indexee-Closed loc none m s = declare_value-Closed loc m s ▷ λ (decl, v, ty) s₁ p.
    returns (λ env. (((p env).0, tt), (p env).1))

-- A name in scope is in scope behind a further declaration too.
InScope-behind_stmt :
    (v : Var) (x : Stmt) (env : Scope) → InScope env v → InScope (behind_stmt env x) v
InScope-behind_stmt (user name) x env h = tt
InScope-behind_stmt (auto n) (item_stmt i) env h = h
InScope-behind_stmt (auto n) (expr_stmt e) env h = h
InScope-behind_stmt (auto n) (var_decl (user name) e m ty loc) env h = h
InScope-behind_stmt (auto n) (var_decl (auto k) e m ty loc) env h = ground arith

visit_offset-Closed :
    (loc : Ast.Location) (name : Option Ast.StrT) {m : Lower Expr} (scope : Stmts) (v : Var)
    → Gives (Anywhere Closed) m
    → DeclaresAll scope (λ env. InScope env v)
    → Gives
        (λ (scope', w, ty). DeclaresAll scope' λ env. InScope env v × InScope env w)
        (visit_offset loc name m scope)
unfolding visit_offset Closed
visit_offset-Closed loc (some name) scope v m h s =
    any (fresh_type loc s) ▷ λ ty s₁ u. returns (λ env. ((h env).0, ((h env).1, tt)))
visit_offset-Closed loc none scope v m h s = declare_value-Closed loc m s ▷ λ (decl, w, ty) s₁ p.
    returns (λ env. (
      ClosedStmts-push_stmt scope decl env (h env).0 (p _).0,
      rw (behind-push_stmt scope decl env) (InScope-behind_stmt v decl _ (h env).1, (p _).1),
    ))

pub visit_index-Closed :
    (loc : Ast.Location) (var index : Option Ast.StrT) {m k : Lower Expr}
    → Gives (Anywhere Closed) m
    → Gives (Anywhere Closed) k
    → Gives (Anywhere Closed) (visit_index loc var m index k)
unfolding visit_index Closed
visit_index-Closed loc var index m k s = visit_indexee-Closed loc var m s ▷ λ (scope, v) s₁ p.
    visit_offset-Closed loc index scope v k p s₁ ▷ λ (scope', w, ty) s₂ q.
    returns (λ env. ClosedStmts-push_stmt scope' _ env (q env).0 (q env).1)
