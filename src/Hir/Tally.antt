-- ===== src/Hir/Tally.antt =====
-- A total over a tree of the HIR of what its variables weigh: those that it declares and those that
-- it reads or assigns to.
use crunch_lang.Prelude.{ℕ, List, [], ◌∷◌}
use crunch_lang.Hir.Leaves.{Var}
use crunch_lang.Hir.Nodes as Hir

module _ (join : ℕ → ℕ → ℕ) (declares uses : Var → ℕ) where
  unfoldable mutual
    pub tally_literal_val : Hir.LiteralVal → ℕ
    tally_literal_val (Hir.LiteralVal.array elements) = tally_literals elements
    tally_literal_val (Hir.LiteralVal.struct name fields) = tally_fields fields
    tally_literal_val _ = 0

    pub tally_literal : Hir.Literal → ℕ
    tally_literal (Hir.literal val ty loc) = tally_literal_val val

    pub tally_literals : Hir.Literals → ℕ
    tally_literals Hir.Literals.nil = 0
    tally_literals (Hir.Literals.cons l ls) = join (tally_literal l) (tally_literals ls)

    pub tally_fields : Hir.StructFields → ℕ
    tally_fields Hir.no_fields = 0
    tally_fields (Hir.add_field (Hir.struct_field name value loc) fields) =
        join (tally value) (tally_fields fields)

    pub tally_pattern : Hir.Pattern → ℕ
    tally_pattern (Hir.literal_pattern l) = tally_literal l
    tally_pattern _ = 0

    pub tally_binding : Hir.Binding → ℕ
    tally_binding (Hir.binding reference mutable pattern_ ty) = tally_pattern pattern_

    pub tally : Hir.Expr → ℕ
    tally (Hir.expr kind loc) = tally_kind kind

    pub tally_kind : Hir.ExprKind → ℕ
    tally_kind (Hir.ExprKind.match cond arms ty) = join (tally cond) (tally_arms arms)
    tally_kind (Hir.ExprKind.scope b) = tally_block b
    tally_kind (Hir.ExprKind.loop b) = tally_block b
    tally_kind (Hir.ExprKind.return e) = tally_opt e
    tally_kind (Hir.ExprKind.break e) = tally_opt e
    tally_kind Hir.ExprKind.continue = 0
    tally_kind (Hir.ExprKind.fn_call func args) = tally_exprs args
    tally_kind (Hir.ExprKind.literal_expr l) = tally_literal l
    tally_kind (Hir.ExprKind.comparison lhs op rhs) = join (tally lhs) (tally rhs)
    tally_kind (Hir.ExprKind.variable v ty) = uses v
    tally_kind (Hir.ExprKind.assign v e) = join (uses v) (tally e)
    tally_kind (Hir.ExprKind.bin_op lhs op rhs) = join (tally lhs) (tally rhs)
    tally_kind (Hir.ExprKind.cast e ty) = tally e
    tally_kind (Hir.ExprKind.reference mutable e) = tally e
    tally_kind (Hir.ExprKind.index v e) = join (uses v) (tally e)

    pub tally_exprs : Hir.Exprs → ℕ
    tally_exprs Hir.no_exprs = 0
    tally_exprs (Hir.add_expr e es) = join (tally e) (tally_exprs es)

    pub tally_opt : Hir.OptExpr → ℕ
    tally_opt Hir.no_expr = 0
    tally_opt (Hir.an_expr e) = tally e

    pub tally_block : Hir.Block → ℕ
    tally_block (Hir.block ss colors loc) = tally_stmts ss

    pub tally_arms : Hir.Arms → ℕ
    tally_arms Hir.no_arms = 0
    tally_arms (Hir.add_arm a arms) = join (tally_arm a) (tally_arms arms)

    pub tally_arm : Hir.MatchArm → ℕ
    tally_arm (Hir.match_arm bind guard body ty) =
        join (tally_binding bind) (join (tally_opt guard) (tally_block body))

    pub tally_stmts : Hir.Stmts → ℕ
    tally_stmts Hir.no_stmts = 0
    tally_stmts (Hir.add_stmt s ss) = join (tally_stmt s) (tally_stmts ss)

    pub tally_stmt : Hir.Stmt → ℕ
    tally_stmt (Hir.item_stmt i) = tally_item i
    tally_stmt (Hir.expr_stmt e) = tally e
    tally_stmt (Hir.var_decl v value mutable ty loc) = join (tally value) (declares v)

    pub tally_item : Hir.Item → ℕ
    tally_item (Hir.function name vis args body ret loc sig) = tally_block body
    tally_item (Hir.extern_func f) = 0
    tally_item (Hir.Item.type decl) = 0

  unfoldable pub tally_items : List Hir.Item → ℕ
  tally_items [] = 0
  tally_items (i ∷ is) = join (tally_item i) (tally_items is)
