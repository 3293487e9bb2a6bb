-- ===== src/Ladder/Weight/Visit.antt =====
-- What lowered code weighs, for any account: every visit.
use crunch_lang.Prelude.{ℕ, Option, none, some, ◌∙◌, subst}
use crunch_lang.Ast as Ast
use crunch_lang.Hir as Hir
use crunch_lang.Hir.Tally.{
  tally, tally_literal_val, tally_literal, tally_literals, tally_fields, tally_pattern,
  tally_binding, tally_exprs, tally_opt, tally_block, tally_arms, tally_stmts, tally_stmt,
  tally_item,
}
use crunch_lang.Ladder.{
  Lower, Recall, visit_item, visit_stmt, visit_stmts, visit_block, visit_opt_block, visit_expr,
  visit_exprs, visit_opt_expr, visit_clauses, visit_arms, visit_binding, visit_pattern,
  visit_literal, visit_literal_val, visit_literals, visit_fields, ast_location, variable_of,
  keep_stmt, stmt_of,
}
use crunch_lang.Ladder.Account.{Account, nothing, kept, after}
use crunch_lang.Ladder.Runs.{panics, returns, ◌▷◌}
use crunch_lang.Ladder.Quiet.{
  expect-IsQuiet, visit_option-IsQuiet, visit_located-IsQuiet, unknown_type-IsQuiet,
  visit_args-IsQuiet, visit_extern_func-IsQuiet, visit_type_decl-IsQuiet,
}
use crunch_lang.Ladder.Weight.{
  Costs, weight_of, weight_else, guarded_arm-Costs, visit_if_only-Costs, else_arms-Costs,
  visit_if_guards-Costs,
}
use crunch_lang.Ladder.Weight.Parts.{
  visit_return_value-Costs, visit_assign-Costs, visit_func_call-Costs, visit_index-Costs,
  visit_while-Costs,
}

module _ (a : Account) (recall : Recall) where
  open a use {join, declares, uses, Weighs, seq, left_zero, user_declared, user_used}

  -- The weight of an item or a statement that lowering may have dropped.
  abbrev pub weight_item : Option Hir.Item → ℕ
  weight_item none = 0
  weight_item (some i) = tally_item join declares uses i

  abbrev pub weight_stmt : Option Hir.Stmt → ℕ
  weight_stmt none = 0
  weight_stmt (some s) = tally_stmt join declares uses s

  keep_stmt-Weighs :
      (s : Option Hir.Stmt) (ss : Hir.Stmts) {c d e : ℕ}
      → Weighs (weight_stmt s) c d
      → Weighs (tally_stmts join declares uses ss) d e
      → Weighs (tally_stmts join declares uses (keep_stmt s ss)) c e
  unfolding tally
  keep_stmt-Weighs none ss {c} {d} {e} p q = subst (λ x. Weighs x c e) (left_zero _) (seq p q)
  keep_stmt-Weighs (some s) ss p q = seq p q

  stmt_of-Weighs :
      (i : Option Hir.Item) {c d : ℕ}
      → Weighs (weight_item i) c d
      → Weighs (weight_stmt (stmt_of i)) c d
  unfolding tally
  stmt_of-Weighs none p = p
  stmt_of-Weighs (some i) p = p

  mutual
    unfolding visit_item tally

    pub visit_item-Costs : (i : Ast.Item) → Costs a weight_item (visit_item recall i)
    visit_item-Costs (Ast.item ds attrs (Ast.ItemKind.func generics args body ret sig) loc name vis)
          s =
        expect-IsQuiet name s ▷ λ n s₁ p₁. visit_args-IsQuiet recall args s₁ ▷ λ x s₂ p₂.
        visit_block-Costs body s₂ ▷ λ b s₃ p₃. expect-IsQuiet vis s₃ ▷ λ v s₄ p₄.
        visit_located-IsQuiet recall ret s₄ ▷ λ r s₅ p₅.
        returns (after a (p₂ ∙ p₁) (kept a p₃ (p₅ ∙ p₄)))
    visit_item-Costs (Ast.item ds attrs (Ast.ItemKind.type generics members) loc name vis) s =
        visit_type_decl-IsQuiet recall generics members s ▷ λ d s' p. returns (kept a (nothing a) p)
    visit_item-Costs (Ast.item ds attrs (Ast.ItemKind.enum generics _) loc name vis) s = panics
    visit_item-Costs (Ast.item ds attrs (Ast.ItemKind.trait generics methods) loc name vis) s =
        panics
    visit_item-Costs (Ast.item ds attrs (Ast.ItemKind.import file dest exposes) loc name vis) s =
        panics
    visit_item-Costs (Ast.item ds attrs (Ast.ItemKind.extend_block t e items) loc name vis) s =
        returns (nothing a)
    visit_item-Costs (Ast.item ds attrs (Ast.ItemKind.alias aliased actual) loc name vis) s = panics
    visit_item-Costs (Ast.item ds attrs (Ast.ItemKind.extern_block items) loc name vis) s =
        returns (nothing a)
    visit_item-Costs (Ast.item ds attrs (Ast.ItemKind.extern_func g args ret callconv) loc name vis)
          s =
        visit_extern_func-IsQuiet recall name vis args ret callconv loc s ▷ λ f s' p.
        returns (kept a (nothing a) p)

    pub visit_stmt-Costs : (t : Ast.Stmt) → Costs a weight_stmt (visit_stmt recall t)
    visit_stmt-Costs (Ast.stmt (Ast.var_decl name ty val constant mutable decl_loc) loc) s =
        visit_expr-Costs val s ▷ λ e s₁ p.
        visit_located-IsQuiet recall ty s₁ ▷ λ t s₂ q. returns (kept a (seq p user_declared) q)
    visit_stmt-Costs (Ast.stmt (Ast.item_stmt i) loc) s =
        visit_item-Costs i s ▷ λ x s₁ p. returns (stmt_of-Weighs x p)
    visit_stmt-Costs (Ast.stmt (Ast.expr_stmt e) loc) s = visit_expr-Costs e s ▷ λ x s₁ p. returns p

    pub visit_stmts-Costs :
        (ss : Ast.Stmts) → Costs a (tally_stmts join declares uses) (visit_stmts recall ss)
    visit_stmts-Costs Ast.no_stmts s = returns (nothing a)
    visit_stmts-Costs (Ast.add_stmt t ts) s = visit_stmt-Costs t s ▷ λ x s₁ p.
        visit_stmts-Costs ts s₁ ▷ λ xs s₂ q. returns (keep_stmt-Weighs x xs p q)

    pub visit_block-Costs :
        (b : Ast.Block) → Costs a (tally_block join declares uses) (visit_block recall b)
    visit_block-Costs (Ast.block ss loc) s = visit_stmts-Costs ss s ▷ λ x s₁ p. returns p

    pub visit_opt_block-Costs :
        (b : Ast.OptBlock) → Costs a (weight_else a) (visit_opt_block recall b)
    visit_opt_block-Costs Ast.no_block s = returns (nothing a)
    visit_opt_block-Costs (Ast.a_block b) s = visit_block-Costs b s ▷ λ x s₁ p. returns p

    pub visit_expr-Costs : (e : Ast.Expr) → Costs a (weight_of a) (visit_expr recall e)
    visit_expr-Costs
          (Ast.expr
            (Ast.ExprKind.if_ (Ast.add_cond (Ast.if_cond cond body) Ast.no_conds) else_)
            loc)
          s =
        visit_if_only-Costs a recall loc (ast_location cond) (visit_expr-Costs cond)
          (visit_block-Costs body) (visit_opt_block-Costs else_) s
    visit_expr-Costs (Ast.expr (Ast.ExprKind.if_ Ast.no_conds else_) loc) s =
        visit_if_guards-Costs a recall loc
          (visit_clauses-Costs Ast.no_conds
            (else_arms-Costs a recall (visit_opt_block-Costs else_)))
          s
    visit_expr-Costs
          (Ast.expr
            (Ast.ExprKind.if_
              (Ast.add_cond (Ast.if_cond cond body) (Ast.add_cond next clauses))
              else_)
            loc)
          s =
        visit_if_guards-Costs a recall loc
          (visit_clauses-Costs (Ast.add_cond (Ast.if_cond cond body) (Ast.add_cond next clauses))
            (else_arms-Costs a recall (visit_opt_block-Costs else_)))
          s
    visit_expr-Costs (Ast.expr (Ast.ExprKind.return Ast.no_expr) loc) s = returns (nothing a)
    visit_expr-Costs (Ast.expr (Ast.ExprKind.return (Ast.an_expr value)) loc) s =
        visit_return_value-Costs a loc (visit_expr-Costs value) s
    visit_expr-Costs (Ast.expr (Ast.ExprKind.break value) loc) s =
        visit_opt_expr-Costs value s ▷ λ x s₁ p. returns p
    visit_expr-Costs (Ast.expr Ast.ExprKind.continue loc) s = returns (nothing a)
    visit_expr-Costs (Ast.expr (Ast.ExprKind.while cond (Ast.block body body_loc) then_ else_) loc)
          s =
        visit_while-Costs a recall loc (ast_location cond) body_loc (visit_expr-Costs cond)
          (visit_stmts-Costs body) (visit_opt_block-Costs then_) (visit_opt_block-Costs else_) s
    visit_expr-Costs (Ast.expr (Ast.ExprKind.loop body else_) loc) s =
        visit_block-Costs body s ▷ λ x s₁ p. returns p
    visit_expr-Costs (Ast.expr (Ast.ExprKind.for var cond body then_ else_) loc) s = panics
    visit_expr-Costs (Ast.expr (Ast.ExprKind.match var arms) loc) s =
        visit_expr-Costs var s ▷ λ x s₁ p. visit_arms-Costs loc arms s₁ ▷ λ y s₂ q.
        unknown_type-IsQuiet recall loc s₂ ▷ λ ty s₃ r. returns (kept a (seq p q) r)
    visit_expr-Costs (Ast.expr (Ast.ExprKind.variable name name_loc) loc) s =
        unknown_type-IsQuiet recall loc s ▷ λ ty s₁ p. returns (kept a user_used p)
    visit_expr-Costs (Ast.expr (Ast.ExprKind.literal_expr l) loc) s =
        visit_literal-Costs l s ▷ λ x s₁ p. returns p
    visit_expr-Costs (Ast.expr (Ast.ExprKind.unary_op op inner) loc) s = panics
    visit_expr-Costs (Ast.expr (Ast.ExprKind.binary_op lhs op rhs) loc) s =
        visit_expr-Costs lhs s ▷ λ x s₁ p. visit_expr-Costs rhs s₁ ▷ λ y s₂ q. returns (seq p q)
    visit_expr-Costs (Ast.expr (Ast.ExprKind.comparison lhs op rhs) loc) s =
        visit_expr-Costs lhs s ▷ λ x s₁ p. visit_expr-Costs rhs s₁ ▷ λ y s₂ q. returns (seq p q)
    visit_expr-Costs (Ast.expr (Ast.ExprKind.assign lhs op rhs) loc) s =
        visit_assign-Costs a loc (variable_of lhs) op (visit_expr-Costs lhs) (visit_expr-Costs rhs)
          s
    visit_expr-Costs (Ast.expr (Ast.ExprKind.paren inner) loc) s = visit_expr-Costs inner s
    visit_expr-Costs (Ast.expr (Ast.ExprKind.array_expr es) loc) s = panics
    visit_expr-Costs (Ast.expr (Ast.ExprKind.tuple_expr es) loc) s = panics
    visit_expr-Costs (Ast.expr (Ast.ExprKind.range start end) loc) s = panics
    visit_expr-Costs (Ast.expr (Ast.ExprKind.index var offset) loc) s =
        visit_index-Costs a loc (variable_of var) (variable_of offset) (visit_expr-Costs var)
          (visit_expr-Costs offset) s
    visit_expr-Costs (Ast.expr (Ast.ExprKind.func_call caller args) loc) s =
        visit_func_call-Costs a loc (variable_of caller) (visit_exprs-Costs args) s
    visit_expr-Costs (Ast.expr (Ast.ExprKind.member_func_call member function) loc) s = panics
    visit_expr-Costs (Ast.expr (Ast.ExprKind.reference mutable e) loc) s =
        visit_expr-Costs e s ▷ λ x s₁ p. returns p
    visit_expr-Costs (Ast.expr (Ast.ExprKind.cast e ty) loc) s = visit_expr-Costs e s ▷ λ x s₁ p.
        visit_located-IsQuiet recall ty s₁ ▷ λ t s₂ q. returns (kept a p q)
    visit_expr-Costs (Ast.expr (Ast.ExprKind.block_expr (Ast.block ss block_loc) colors) loc) s =
        visit_stmts-Costs ss s ▷ λ x s₁ p. returns p

    pub visit_exprs-Costs :
        (es : Ast.Exprs) → Costs a (tally_exprs join declares uses) (visit_exprs recall es)
    visit_exprs-Costs Ast.no_exprs s = returns (nothing a)
    visit_exprs-Costs (Ast.add_expr e es) s =
        visit_expr-Costs e s ▷ λ x s₁ p. visit_exprs-Costs es s₁ ▷ λ xs s₂ q. returns (seq p q)

    pub visit_opt_expr-Costs :
        (e : Ast.OptExpr) → Costs a (tally_opt join declares uses) (visit_opt_expr recall e)
    visit_opt_expr-Costs Ast.no_expr s = returns (nothing a)
    visit_opt_expr-Costs (Ast.an_expr e) s = visit_expr-Costs e s ▷ λ x s₁ p. returns p

    pub visit_clauses-Costs :
        (clauses : Ast.IfConds) {rest : Lower Hir.Arms}
        → Costs a (tally_arms join declares uses) rest
        → Costs a (tally_arms join declares uses) (visit_clauses recall clauses rest)
    visit_clauses-Costs Ast.no_conds rest s = rest s
    visit_clauses-Costs (Ast.add_cond (Ast.if_cond cond body) clauses) rest s =
        visit_expr-Costs cond s ▷ λ g s₁ p. visit_block-Costs body s₁ ▷ λ b s₂ q.
        guarded_arm-Costs a recall (Hir.an_expr g) b _ s₂ (seq p q) ▷ λ m s₃ r.
        visit_clauses-Costs clauses rest s₃ ▷ λ arms s₄ t. returns (seq r t)

    pub visit_arms-Costs :
        (loc : Ast.Location) (arms : Ast.Arms)
        → Costs a (tally_arms join declares uses) (visit_arms recall loc arms)
    visit_arms-Costs loc Ast.no_arms s = returns (nothing a)
    visit_arms-Costs loc (Ast.add_arm (Ast.arm bind guard body) arms) s =
        visit_binding-Costs bind s ▷ λ b s₁ p. visit_opt_expr-Costs guard s₁ ▷ λ g s₂ q.
        visit_block-Costs body s₂ ▷ λ x s₃ r. unknown_type-IsQuiet recall loc s₃ ▷ λ ty s₄ i.
        visit_arms-Costs loc arms s₄ ▷ λ xs s₅ t. returns (seq (seq p (seq q (kept a r i))) t)

    pub visit_binding-Costs :
        (b : Ast.Binding) → Costs a (tally_binding join declares uses) (visit_binding recall b)
    visit_binding-Costs (Ast.binding reference mutable pattern_ ty) s =
        visit_pattern-Costs pattern_ s ▷ λ x s₁ p.
        visit_option-IsQuiet (visit_located-IsQuiet recall) ty s₁ ▷ λ t s₂ q. returns (kept a p q)

    pub visit_pattern-Costs :
        (p : Ast.Pattern) → Costs a (tally_pattern join declares uses) (visit_pattern recall p)
    visit_pattern-Costs (Ast.literal_pattern l) s = visit_literal-Costs l s ▷ λ x s₁ p. returns p
    visit_pattern-Costs (Ast.ident_pattern ident) s = returns (nothing a)
    visit_pattern-Costs (Ast.path_pattern path) s = returns (nothing a)
    visit_pattern-Costs Ast.wildcard s = returns (nothing a)

    pub visit_literal-Costs :
        (l : Ast.Literal) → Costs a (tally_literal join declares uses) (visit_literal recall l)
    visit_literal-Costs (Ast.literal val ty loc) s = visit_literal_val-Costs val s ▷ λ x s₁ p.
        visit_located-IsQuiet recall (Ast.at ty loc) s₁ ▷ λ t s₂ q. returns (kept a p q)

    pub visit_literal_val-Costs :
        (v : Ast.LiteralVal)
        → Costs a (tally_literal_val join declares uses) (visit_literal_val recall v)
    visit_literal_val-Costs (Ast.LiteralVal.integer sign n) s = returns (nothing a)
    visit_literal_val-Costs (Ast.LiteralVal.bool b) s = returns (nothing a)
    visit_literal_val-Costs (Ast.LiteralVal.string text) s = returns (nothing a)
    visit_literal_val-Costs (Ast.LiteralVal.rune c) s = returns (nothing a)
    visit_literal_val-Costs (Ast.LiteralVal.float bits) s = returns (nothing a)
    visit_literal_val-Costs (Ast.LiteralVal.array elements) s =
        visit_literals-Costs elements s ▷ λ x s₁ p. returns p
    visit_literal_val-Costs (Ast.LiteralVal.struct name fields) s =
        visit_fields-Costs fields s ▷ λ x s₁ p. returns p

    pub visit_literals-Costs :
        (ls : Ast.Literals) → Costs a (tally_literals join declares uses) (visit_literals recall ls)
    visit_literals-Costs Ast.Literals.nil s = returns (nothing a)
    visit_literals-Costs (Ast.Literals.cons l ls) s = visit_literal-Costs l s ▷ λ x s₁ p.
        visit_literals-Costs ls s₁ ▷ λ xs s₂ q. returns (seq p q)

    pub visit_fields-Costs :
        (fs : Ast.StructFields) → Costs a (tally_fields join declares uses) (visit_fields recall fs)
    visit_fields-Costs Ast.no_fields s = returns (nothing a)
    visit_fields-Costs (Ast.add_field (Ast.struct_field name value loc) fs) s =
        visit_expr-Costs value s ▷ λ x s₁ p. visit_fields-Costs fs s₁ ▷ λ xs s₂ q. returns (seq p q)
