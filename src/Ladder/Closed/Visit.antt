-- ===== src/Ladder/Closed/Visit.antt =====
-- Lowered code reads the compiler's variables in their scopes: every visit.
use crunch_lang.Prelude.{◌≡◌, Option, none, some, List, [], ◌∷◌}
use crunch_lang.Ast as Ast
use crunch_lang.Hir as Hir
use crunch_lang.Hir.Scopes.{
  Scope, behind_stmt, Closed, ClosedLiteralVal, ClosedLiteral, ClosedLiterals, ClosedFields,
  ClosedPattern, ClosedBinding, ClosedExprs, ClosedOpt, ClosedBlock, ClosedArms, ClosedStmts,
  ClosedStmt, ClosedItem, ClosedItems,
}
use crunch_lang.Ladder.{
  Context, new, Ladder, Lower, expect, visit_option, Recall, visit_item, visit_stmt, visit_stmts,
  visit_block, visit_opt_block, visit_expr, visit_exprs, visit_opt_expr, visit_clauses, visit_arms,
  visit_binding, visit_pattern, visit_literal, visit_literal_val, visit_literals, visit_fields,
  ast_location, variable_of, visit_located, keep_stmt, stmt_of, unknown_type, visit_args,
  visit_extern_func, visit_type_decl, keep_item, lower,
}
use crunch_lang.Ladder.Runs.{panics, returns, any, of_returned, ◌▷◌}
use crunch_lang.Ladder.Closed.{
  Gives, Anywhere, ClosedElse, guarded_arm-Closed, visit_if_only-Closed, else_arms-Closed,
  visit_if_guards-Closed, visit_while-Closed,
}
use crunch_lang.Ladder.Closed.Parts.{
  visit_return_value-Closed, visit_assign-Closed, visit_func_call-Closed, visit_index-Closed,
}

abbrev ClosedOptItem : Option Hir.Item → Type 0
ClosedOptItem none = Unit
ClosedOptItem (some i) = ClosedItem i

abbrev ClosedOptStmt : Scope → Option Hir.Stmt → Type 0
ClosedOptStmt env none = Unit
ClosedOptStmt env (some s) = ClosedStmt env s

stmt_of-Closed : (i : Option Hir.Item) → ClosedOptItem i → Anywhere ClosedOptStmt (stmt_of i)
unfolding Closed
stmt_of-Closed none h env = tt
stmt_of-Closed (some i) h env = h

keep_stmt-Closed :
    (s : Option Hir.Stmt) (ss : Hir.Stmts)
    → Anywhere ClosedOptStmt s
    → Anywhere ClosedStmts ss
    → Anywhere ClosedStmts (keep_stmt s ss)
unfolding Closed
keep_stmt-Closed none ss h hs env = hs env
keep_stmt-Closed (some s) ss h hs env = (h env, hs (behind_stmt env s))

module _ (recall : Recall) where
  mutual
    unfolding visit_item Closed

    pub visit_item-Closed : (i : Ast.Item) → Gives ClosedOptItem (visit_item recall i)
    visit_item-Closed
          (Ast.item ds attrs (Ast.ItemKind.func generics args body ret sig) loc name vis) s =
        any (expect name s) ▷ λ n s₁ u₁. any (visit_args recall args s₁) ▷ λ x s₂ u₂.
        visit_block-Closed body s₂ ▷ λ b s₃ p. any (expect vis s₃) ▷ λ v s₄ u₃.
        any (visit_located recall ret s₄) ▷ λ r s₅ u₄. returns (p [])
    visit_item-Closed (Ast.item ds attrs (Ast.ItemKind.type generics members) loc name vis) s =
        any (visit_type_decl recall generics members s) ▷ λ d s₁ u. returns tt
    visit_item-Closed (Ast.item ds attrs (Ast.ItemKind.enum generics _) loc name vis) s = panics
    visit_item-Closed (Ast.item ds attrs (Ast.ItemKind.trait generics methods) loc name vis) s =
        panics
    visit_item-Closed (Ast.item ds attrs (Ast.ItemKind.import file dest exposes) loc name vis) s =
        panics
    visit_item-Closed
          (Ast.item ds attrs (Ast.ItemKind.extend_block target extender items) loc name vis) s =
        returns tt
    visit_item-Closed (Ast.item ds attrs (Ast.ItemKind.alias aliased actual) loc name vis) s =
        panics
    visit_item-Closed (Ast.item ds attrs (Ast.ItemKind.extern_block items) loc name vis) s =
        returns tt
    visit_item-Closed
          (Ast.item ds attrs (Ast.ItemKind.extern_func generics args ret callconv) loc name vis) s =
        any (visit_extern_func recall name vis args ret callconv loc s) ▷ λ f s₁ u. returns tt

    visit_stmt-Closed : (t : Ast.Stmt) → Gives (Anywhere ClosedOptStmt) (visit_stmt recall t)
    visit_stmt-Closed (Ast.stmt (Ast.var_decl name ty val constant mutable decl_loc) loc) s =
        visit_expr-Closed val s ▷ λ e s₁ p. any (visit_located recall ty s₁) ▷ λ t s₂ u. returns p
    visit_stmt-Closed (Ast.stmt (Ast.item_stmt i) loc) s =
        visit_item-Closed i s ▷ λ x s₁ p. returns (stmt_of-Closed x p)
    visit_stmt-Closed (Ast.stmt (Ast.expr_stmt e) loc) s =
        visit_expr-Closed e s ▷ λ x s₁ p. returns p

    visit_stmts-Closed : (ss : Ast.Stmts) → Gives (Anywhere ClosedStmts) (visit_stmts recall ss)
    visit_stmts-Closed Ast.no_stmts s = returns (λ env. tt)
    visit_stmts-Closed (Ast.add_stmt t ts) s = visit_stmt-Closed t s ▷ λ x s₁ p.
        visit_stmts-Closed ts s₁ ▷ λ xs s₂ q. returns (keep_stmt-Closed x xs p q)

    visit_block-Closed : (b : Ast.Block) → Gives (Anywhere ClosedBlock) (visit_block recall b)
    visit_block-Closed (Ast.block ss loc) s = visit_stmts-Closed ss s ▷ λ x s₁ p. returns p

    visit_opt_block-Closed :
        (b : Ast.OptBlock) → Gives (Anywhere ClosedElse) (visit_opt_block recall b)
    visit_opt_block-Closed Ast.no_block s = returns (λ env. tt)
    visit_opt_block-Closed (Ast.a_block b) s = visit_block-Closed b s ▷ λ x s₁ p. returns p

    visit_expr-Closed : (e : Ast.Expr) → Gives (Anywhere Closed) (visit_expr recall e)
    visit_expr-Closed
          (Ast.expr
            (Ast.ExprKind.if_ (Ast.add_cond (Ast.if_cond cond body) Ast.no_conds) else_)
            loc)
          s =
        visit_if_only-Closed recall loc (ast_location cond) (visit_expr-Closed cond)
          (visit_block-Closed body) (visit_opt_block-Closed else_) s
    visit_expr-Closed (Ast.expr (Ast.ExprKind.if_ Ast.no_conds else_) loc) s =
        visit_if_guards-Closed recall loc
          (visit_clauses-Closed Ast.no_conds
            (λ s. visit_opt_block-Closed else_ s ▷ λ x s₁ p. else_arms-Closed recall x p s₁))
          s
    visit_expr-Closed
          (Ast.expr
            (Ast.ExprKind.if_
              (Ast.add_cond (Ast.if_cond cond body) (Ast.add_cond next clauses))
              else_)
            loc)
          s =
        visit_if_guards-Closed recall loc
          (visit_clauses-Closed (Ast.add_cond (Ast.if_cond cond body) (Ast.add_cond next clauses))
            (λ s. visit_opt_block-Closed else_ s ▷ λ x s₁ p. else_arms-Closed recall x p s₁))
          s
    visit_expr-Closed (Ast.expr (Ast.ExprKind.return Ast.no_expr) loc) s = returns (λ env. tt)
    visit_expr-Closed (Ast.expr (Ast.ExprKind.return (Ast.an_expr value)) loc) s =
        visit_return_value-Closed loc (visit_expr-Closed value) s
    visit_expr-Closed (Ast.expr (Ast.ExprKind.break value) loc) s =
        visit_opt_expr-Closed value s ▷ λ x s₁ p. returns p
    visit_expr-Closed (Ast.expr Ast.ExprKind.continue loc) s = returns (λ env. tt)
    visit_expr-Closed (Ast.expr (Ast.ExprKind.while cond (Ast.block body body_loc) then_ else_) loc)
          s =
        visit_while-Closed recall loc (ast_location cond) body_loc (visit_expr-Closed cond)
          (visit_stmts-Closed body) (visit_opt_block-Closed then_) (visit_opt_block-Closed else_) s
    visit_expr-Closed (Ast.expr (Ast.ExprKind.loop body else_) loc) s =
        visit_block-Closed body s ▷ λ x s₁ p. returns p
    visit_expr-Closed (Ast.expr (Ast.ExprKind.for var cond body then_ else_) loc) s = panics
    visit_expr-Closed (Ast.expr (Ast.ExprKind.match var arms) loc) s =
        visit_expr-Closed var s ▷ λ x s₁ p. visit_arms-Closed loc arms s₁ ▷ λ y s₂ q.
        any (unknown_type recall loc s₂) ▷ λ ty s₃ u. returns (λ env. (p env, q env))
    visit_expr-Closed (Ast.expr (Ast.ExprKind.variable name name_loc) loc) s =
        any (unknown_type recall loc s) ▷ λ ty s₁ u. returns (λ env. tt)
    visit_expr-Closed (Ast.expr (Ast.ExprKind.literal_expr l) loc) s =
        visit_literal-Closed l s ▷ λ x s₁ p. returns p
    visit_expr-Closed (Ast.expr (Ast.ExprKind.unary_op op inner) loc) s = panics
    visit_expr-Closed (Ast.expr (Ast.ExprKind.binary_op lhs op rhs) loc) s =
        visit_expr-Closed lhs s ▷ λ x s₁ p.
        visit_expr-Closed rhs s₁ ▷ λ y s₂ q. returns (λ env. (p env, q env))
    visit_expr-Closed (Ast.expr (Ast.ExprKind.comparison lhs op rhs) loc) s =
        visit_expr-Closed lhs s ▷ λ x s₁ p.
        visit_expr-Closed rhs s₁ ▷ λ y s₂ q. returns (λ env. (p env, q env))
    visit_expr-Closed (Ast.expr (Ast.ExprKind.assign lhs op rhs) loc) s =
        visit_assign-Closed loc (variable_of lhs) op (visit_expr-Closed lhs) (visit_expr-Closed rhs)
          s
    visit_expr-Closed (Ast.expr (Ast.ExprKind.paren inner) loc) s = visit_expr-Closed inner s
    visit_expr-Closed (Ast.expr (Ast.ExprKind.array_expr es) loc) s = panics
    visit_expr-Closed (Ast.expr (Ast.ExprKind.tuple_expr es) loc) s = panics
    visit_expr-Closed (Ast.expr (Ast.ExprKind.range start end) loc) s = panics
    visit_expr-Closed (Ast.expr (Ast.ExprKind.index var offset) loc) s =
        visit_index-Closed loc (variable_of var) (variable_of offset) (visit_expr-Closed var)
          (visit_expr-Closed offset) s
    visit_expr-Closed (Ast.expr (Ast.ExprKind.func_call caller args) loc) s =
        visit_func_call-Closed loc (variable_of caller) (visit_exprs-Closed args) s
    visit_expr-Closed (Ast.expr (Ast.ExprKind.member_func_call member function) loc) s = panics
    visit_expr-Closed (Ast.expr (Ast.ExprKind.reference mutable e) loc) s =
        visit_expr-Closed e s ▷ λ x s₁ p. returns p
    visit_expr-Closed (Ast.expr (Ast.ExprKind.cast e ty) loc) s =
        visit_expr-Closed e s ▷ λ x s₁ p. any (visit_located recall ty s₁) ▷ λ t s₂ u. returns p
    visit_expr-Closed (Ast.expr (Ast.ExprKind.block_expr (Ast.block ss block_loc) colors) loc) s =
        visit_stmts-Closed ss s ▷ λ x s₁ p. returns p

    visit_exprs-Closed : (es : Ast.Exprs) → Gives (Anywhere ClosedExprs) (visit_exprs recall es)
    visit_exprs-Closed Ast.no_exprs s = returns (λ env. tt)
    visit_exprs-Closed (Ast.add_expr e es) s = visit_expr-Closed e s ▷ λ x s₁ p.
        visit_exprs-Closed es s₁ ▷ λ xs s₂ q. returns (λ env. (p env, q env))

    visit_opt_expr-Closed : (e : Ast.OptExpr) → Gives (Anywhere ClosedOpt) (visit_opt_expr recall e)
    visit_opt_expr-Closed Ast.no_expr s = returns (λ env. tt)
    visit_opt_expr-Closed (Ast.an_expr e) s = visit_expr-Closed e s ▷ λ x s₁ p. returns p

    visit_clauses-Closed :
        (clauses : Ast.IfConds) {rest : Lower Hir.Arms}
        → Gives (Anywhere ClosedArms) rest
        → Gives (Anywhere ClosedArms) (visit_clauses recall clauses rest)
    visit_clauses-Closed Ast.no_conds rest s = rest s
    visit_clauses-Closed (Ast.add_cond (Ast.if_cond cond body) clauses) rest s =
        visit_expr-Closed cond s ▷ λ g s₁ p. visit_block-Closed body s₁ ▷ λ b s₂ q.
        guarded_arm-Closed recall (Hir.an_expr g) b p q s₂ ▷ λ m s₃ r.
        visit_clauses-Closed clauses rest s₃ ▷ λ arms s₄ t. returns (λ env. (r env, t env))

    visit_arms-Closed :
        (loc : Ast.Location) (arms : Ast.Arms)
        → Gives (Anywhere ClosedArms) (visit_arms recall loc arms)
    visit_arms-Closed loc Ast.no_arms s = returns (λ env. tt)
    visit_arms-Closed loc (Ast.add_arm (Ast.arm bind guard body) arms) s =
        visit_binding-Closed bind s ▷ λ b s₁ p. visit_opt_expr-Closed guard s₁ ▷ λ g s₂ q.
        visit_block-Closed body s₂ ▷ λ x s₃ r. any (unknown_type recall loc s₃) ▷ λ ty s₄ u.
        visit_arms-Closed loc arms s₄ ▷ λ xs s₅ t. returns (λ env. ((p env, q env, r env), t env))

    visit_binding-Closed :
        (b : Ast.Binding) → Gives (Anywhere ClosedBinding) (visit_binding recall b)
    visit_binding-Closed (Ast.binding reference mutable pattern_ ty) s =
        visit_pattern-Closed pattern_ s ▷ λ x s₁ p.
        any (visit_option (visit_located recall) ty s₁) ▷ λ t s₂ u. returns p

    visit_pattern-Closed :
        (p : Ast.Pattern) → Gives (Anywhere ClosedPattern) (visit_pattern recall p)
    visit_pattern-Closed (Ast.literal_pattern l) s = visit_literal-Closed l s ▷ λ x s₁ p. returns p
    visit_pattern-Closed (Ast.ident_pattern ident) s = returns (λ env. tt)
    visit_pattern-Closed (Ast.path_pattern path) s = returns (λ env. tt)
    visit_pattern-Closed Ast.wildcard s = returns (λ env. tt)

    visit_literal-Closed :
        (l : Ast.Literal) → Gives (Anywhere ClosedLiteral) (visit_literal recall l)
    visit_literal-Closed (Ast.literal val ty loc) s = visit_literal_val-Closed val s ▷ λ x s₁ p.
        any (visit_located recall (Ast.at ty loc) s₁) ▷ λ t s₂ u. returns p

    visit_literal_val-Closed :
        (v : Ast.LiteralVal) → Gives (Anywhere ClosedLiteralVal) (visit_literal_val recall v)
    visit_literal_val-Closed (Ast.LiteralVal.integer sign n) s = returns (λ env. tt)
    visit_literal_val-Closed (Ast.LiteralVal.bool b) s = returns (λ env. tt)
    visit_literal_val-Closed (Ast.LiteralVal.string text) s = returns (λ env. tt)
    visit_literal_val-Closed (Ast.LiteralVal.rune c) s = returns (λ env. tt)
    visit_literal_val-Closed (Ast.LiteralVal.float bits) s = returns (λ env. tt)
    visit_literal_val-Closed (Ast.LiteralVal.array elements) s =
        visit_literals-Closed elements s ▷ λ x s₁ p. returns p
    visit_literal_val-Closed (Ast.LiteralVal.struct name fields) s =
        visit_fields-Closed fields s ▷ λ x s₁ p. returns p

    visit_literals-Closed :
        (ls : Ast.Literals) → Gives (Anywhere ClosedLiterals) (visit_literals recall ls)
    visit_literals-Closed Ast.Literals.nil s = returns (λ env. tt)
    visit_literals-Closed (Ast.Literals.cons l ls) s = visit_literal-Closed l s ▷ λ x s₁ p.
        visit_literals-Closed ls s₁ ▷ λ xs s₂ q. returns (λ env. (p env, q env))

    visit_fields-Closed :
        (fs : Ast.StructFields) → Gives (Anywhere ClosedFields) (visit_fields recall fs)
    visit_fields-Closed Ast.no_fields s = returns (λ env. tt)
    visit_fields-Closed (Ast.add_field (Ast.struct_field name value loc) fs) s =
        visit_expr-Closed value s ▷ λ x s₁ p.
        visit_fields-Closed fs s₁ ▷ λ xs s₂ q. returns (λ env. (p env, q env))

  keep_item-Closed :
      (i : Option Hir.Item) (is : List Hir.Item)
      → ClosedOptItem i
      → ClosedItems is
      → ClosedItems (keep_item i is)
  unfolding ClosedItems
  keep_item-Closed none is h hs = hs
  keep_item-Closed (some i) is h hs = (h, hs)

  pub lower-Closed : (items : List Ast.Item) → Gives ClosedItems (lower recall items)
  unfolding lower ClosedItems
  lower-Closed [] s = returns tt
  lower-Closed (i ∷ items) s = visit_item-Closed i s ▷ λ x s₁ p.
      lower-Closed items s₁ ▷ λ xs s₂ q. returns (keep_item-Closed x xs p q)

  -- When items are lowered from the start, each variable of the compiler that the result reads was
  -- declared before, in the same block or in one around it, and in the same function.
  pub lower-ClosedItems :
      (items : List Ast.Item) (context : Context) (is : List Hir.Item) (s : Ladder)
      → lower recall items (new context) ≡ some (is, s)
      → ClosedItems is
  lower-ClosedItems items context is s e = of_returned (lower-Closed items (new context)) e
