-- ===== src/Hir/Scopes.antt =====
-- Which of the compiler's variables are in scope where code of the HIR reads them. A declaration is
-- in scope in the statements behind it, in its block and in the blocks within; a function sees no
-- variables of the code around it.
use crunch_lang.Prelude.{ℕ, Bool, true, false, List, [], ◌∷◌, ◌≡◌, refl, ◌==◌, ◌||◌}
use crunch_lang.Hir.Leaves.{Var, user, auto}
use crunch_lang.Hir.Nodes as Hir

-- the numbers of the compiler's variables in scope
abbrev pub Scope : Type 0
Scope = List ℕ

abbrev pub has : Scope → ℕ → Bool
has [] n = false
has (k ∷ env) n = (k == n) || has env n

-- A variable of the program is for the type checker to find.
abbrev pub InScope : Scope → Var → Type 0
InScope env (user name) = Unit
InScope env (auto n) = has env n ≡ true

abbrev pub declare : Var → Scope → Scope
declare (user name) env = env
declare (auto n) env = n ∷ env

-- The scope behind a statement, and behind statements.
abbrev pub behind_stmt : Scope → Hir.Stmt → Scope
behind_stmt env (Hir.var_decl v value mutable ty loc) = declare v env
behind_stmt env _ = env

abbrev pub behind : Scope → Hir.Stmts → Scope
behind env Hir.no_stmts = env
behind env (Hir.add_stmt s ss) = behind (behind_stmt env s) ss

unfoldable mutual
  pub ClosedLiteralVal : Scope → Hir.LiteralVal → Type 0
  ClosedLiteralVal env (Hir.LiteralVal.array elements) = ClosedLiterals env elements
  ClosedLiteralVal env (Hir.LiteralVal.struct name fields) = ClosedFields env fields
  ClosedLiteralVal env _ = Unit

  pub ClosedLiteral : Scope → Hir.Literal → Type 0
  ClosedLiteral env (Hir.literal val ty loc) = ClosedLiteralVal env val

  pub ClosedLiterals : Scope → Hir.Literals → Type 0
  ClosedLiterals env Hir.Literals.nil = Unit
  ClosedLiterals env (Hir.Literals.cons l ls) = ClosedLiteral env l × ClosedLiterals env ls

  pub ClosedFields : Scope → Hir.StructFields → Type 0
  ClosedFields env Hir.no_fields = Unit
  ClosedFields env (Hir.add_field (Hir.struct_field name value loc) fields) =
      Closed env value × ClosedFields env fields

  pub ClosedPattern : Scope → Hir.Pattern → Type 0
  ClosedPattern env (Hir.literal_pattern l) = ClosedLiteral env l
  ClosedPattern env _ = Unit

  pub ClosedBinding : Scope → Hir.Binding → Type 0
  ClosedBinding env (Hir.binding reference mutable pattern_ ty) = ClosedPattern env pattern_

  -- Each variable of the compiler that an expression reads is in scope.
  pub Closed : Scope → Hir.Expr → Type 0
  Closed env (Hir.expr kind loc) = ClosedKind env kind

  pub ClosedKind : Scope → Hir.ExprKind → Type 0
  ClosedKind env (Hir.ExprKind.match cond arms ty) = Closed env cond × ClosedArms env arms
  ClosedKind env (Hir.ExprKind.scope b) = ClosedBlock env b
  ClosedKind env (Hir.ExprKind.loop b) = ClosedBlock env b
  ClosedKind env (Hir.ExprKind.return e) = ClosedOpt env e
  ClosedKind env (Hir.ExprKind.break e) = ClosedOpt env e
  ClosedKind env Hir.ExprKind.continue = Unit
  ClosedKind env (Hir.ExprKind.fn_call func args) = ClosedExprs env args
  ClosedKind env (Hir.ExprKind.literal_expr l) = ClosedLiteral env l
  ClosedKind env (Hir.ExprKind.comparison lhs op rhs) = Closed env lhs × Closed env rhs
  ClosedKind env (Hir.ExprKind.variable v ty) = InScope env v
  ClosedKind env (Hir.ExprKind.assign v e) = Closed env e
  ClosedKind env (Hir.ExprKind.bin_op lhs op rhs) = Closed env lhs × Closed env rhs
  ClosedKind env (Hir.ExprKind.cast e ty) = Closed env e
  ClosedKind env (Hir.ExprKind.reference mutable e) = Closed env e
  ClosedKind env (Hir.ExprKind.index v e) = InScope env v × Closed env e

  pub ClosedExprs : Scope → Hir.Exprs → Type 0
  ClosedExprs env Hir.no_exprs = Unit
  ClosedExprs env (Hir.add_expr e es) = Closed env e × ClosedExprs env es

  pub ClosedOpt : Scope → Hir.OptExpr → Type 0
  ClosedOpt env Hir.no_expr = Unit
  ClosedOpt env (Hir.an_expr e) = Closed env e

  pub ClosedBlock : Scope → Hir.Block → Type 0
  ClosedBlock env (Hir.block ss colors loc) = ClosedStmts env ss

  pub ClosedArms : Scope → Hir.Arms → Type 0
  ClosedArms env Hir.no_arms = Unit
  ClosedArms env (Hir.add_arm a arms) = ClosedArm env a × ClosedArms env arms

  pub ClosedArm : Scope → Hir.MatchArm → Type 0
  ClosedArm env (Hir.match_arm bind guard body ty) =
      ClosedBinding env bind × ClosedOpt env guard × ClosedBlock env body

  pub ClosedStmts : Scope → Hir.Stmts → Type 0
  ClosedStmts env Hir.no_stmts = Unit
  ClosedStmts env (Hir.add_stmt s ss) = ClosedStmt env s × ClosedStmts (behind_stmt env s) ss

  pub ClosedStmt : Scope → Hir.Stmt → Type 0
  ClosedStmt env (Hir.item_stmt i) = ClosedItem i
  ClosedStmt env (Hir.expr_stmt e) = Closed env e
  ClosedStmt env (Hir.var_decl v value mutable ty loc) = Closed env value

  pub ClosedItem : Hir.Item → Type 0
  ClosedItem (Hir.function name vis args body ret loc sig) = ClosedBlock [] body
  ClosedItem (Hir.extern_func f) = Unit
  ClosedItem (Hir.Item.type decl) = Unit

unfoldable pub ClosedItems : List Hir.Item → Type 0
unfolding Closed
ClosedItems [] = Unit
ClosedItems (i ∷ is) = ClosedItem i × ClosedItems is

-- A statement behind others.
pub ClosedStmts-push_stmt :
    (ss : Hir.Stmts) (x : Hir.Stmt) (env : Scope)
    → ClosedStmts env ss
    → ClosedStmt (behind env ss) x
    → ClosedStmts env (Hir.push_stmt ss x)
unfolding Closed Hir.push_stmt
ClosedStmts-push_stmt Hir.no_stmts x env h p = (p, tt)
ClosedStmts-push_stmt (Hir.add_stmt s ss) x env (h, hs) p =
    (h, ClosedStmts-push_stmt ss x (behind_stmt env s) hs p)

pub behind-push_stmt :
    (ss : Hir.Stmts) (x : Hir.Stmt) (env : Scope)
    → behind env (Hir.push_stmt ss x) ≡ behind_stmt (behind env ss) x
unfolding Hir.push_stmt
behind-push_stmt Hir.no_stmts x env = refl
behind-push_stmt (Hir.add_stmt s ss) x env = behind-push_stmt ss x (behind_stmt env s)
