-- ===== src/Ladder/Support/Visit.antt =====
-- Lowering returns exactly on what is supported: every visit.
use crunch_lang.Prelude.{ap, some, Bool, true, ◌&&◌, List, [], ◌∷◌, ◌≡◌, refl, subst, arith}
use crunch_lang.Ast as Ast
use crunch_lang.Ast.{AssignKind}
use crunch_lang.Hir as Hir
use crunch_lang.Ladder.{
  Context, new, Lower, Recall, visit_item, visit_stmt, visit_stmts, visit_block, visit_opt_block,
  visit_expr, visit_exprs, visit_opt_expr, visit_clauses, visit_arms, visit_binding, visit_pattern,
  visit_literal, visit_literal_val, visit_literals, visit_fields, ast_location, block_location,
  Ladder, variable_of, lower,
}
use crunch_lang.Ladder.Runs as Runs
use crunch_lang.Ladder.Runs.{any, ◌▷◌}
use crunch_lang.Ladder.Support.{
  is_some, is_variable, supports_item, supports_stmt, supports_stmts, supports_block,
  supports_opt_block, supports_expr, supports_exprs, supports_opt_expr, supports_conds,
  supports_arms, supports_binding, supports_pattern, supports_literal, supports_literal_val,
  supports_literals, supports_fields, file_of, supports_items, HasRoom, is_some-Settles, stops,
  returns, Decides, ◌▶◌, ◌▹◌,
}
use crunch_lang.Ladder.Support.Types.{
  expect-Decides, unknown_type-Succeeds, visit_located-Decides, visit_args-Decides,
  visit_type_decl-Decides, visit_opt_type-Decides, visit_extern_func-Decides,
}
use crunch_lang.Ladder.Support.Parts.{
  guarded_arm-Succeeds, visit_if_only-Decides, else_arms-Succeeds, visit_if_guards-Decides,
  visit_while-Decides, IsOf, visit_return_value-Decides, visit_assign_op-Decides,
  visit_assign_normal-Decides, visit_func_call-Decides, operand, visit_index-Decides,
}

-- One clause, whose condition stands first and is visited last.
and_rotate : (b c d : Bool) → (c && (d && b)) ≡ ((b && (c && true)) && d)
and_rotate b c d = ground arith

and_shift : (b c d e : Bool) → (b && (c && (d && e))) ≡ ((b && (c && d)) && e)
and_shift b c d e = ground arith

-- A variable is supported, so that it does not matter that it is not visited.
operand-variable_of : (e : Ast.Expr) → operand (variable_of e) (supports_expr e) ≡ supports_expr e
unfolding variable_of supports_expr
operand-variable_of (Ast.expr (Ast.ExprKind.variable name name_loc) loc) = refl
operand-variable_of (Ast.expr _ loc) = refl

is_some-variable_of : (e : Ast.Expr) → is_some (variable_of e) ≡ is_variable e
unfolding variable_of is_variable
is_some-variable_of (Ast.expr (Ast.ExprKind.variable name name_loc) loc) = refl
is_some-variable_of (Ast.expr _ loc) = refl

retag : {A : Type 0} {b c : Bool} {m : Lower A} → b ≡ c → Decides b m → Decides c m
retag {m = m} e h = subst (λ b. Decides b m) e h

module _ (recall : Recall) where
  -- A lowered block keeps the location of its source.
  visit_block-Located :
      (ss : Ast.Stmts) (loc : Ast.Location) (s : Ladder)
      → Runs.Runs (λ b s'. block_location b ≡ loc) (visit_block recall (Ast.block ss loc) s)
  unfolding visit_block
  visit_block-Located ss loc s = any (visit_stmts recall ss s) ▷ λ x s₁ r. Runs.returns refl

  visit_opt_block-IsOf : (b : Ast.OptBlock) → IsOf (file_of b) (visit_opt_block recall b)
  unfolding visit_opt_block file_of
  visit_opt_block-IsOf Ast.no_block s = Runs.returns refl
  visit_opt_block-IsOf (Ast.a_block (Ast.block ss loc)) s =
      visit_block-Located ss loc s ▷ λ b s₁ e. Runs.returns (ap (λ l. some l.file) e)

  mutual
    unfolding visit_item supports_item

    pub visit_item-Decides : (i : Ast.Item) → Decides (supports_item i) (visit_item recall i)
    visit_item-Decides
          (Ast.item ds attrs (Ast.ItemKind.func generics args body ret sig) loc name vis) s h =
        expect-Decides name s h ▶ λ n s₁ h₁. visit_args-Decides recall args s₁ h₁ ▶ λ x s₂ h₂.
        visit_block-Decides body s₂ h₂ ▶ λ b s₃ h₃. expect-Decides vis s₃ h₃ ▶ λ v s₄ h₄.
        visit_located-Decides recall ret s₄ h₄ ▹ λ r s₅ h₅. returns h₅
    visit_item-Decides (Ast.item ds attrs (Ast.ItemKind.type generics members) loc name vis) s h =
        visit_type_decl-Decides recall generics members s h ▹ λ d s₁ h₁. returns h₁
    visit_item-Decides (Ast.item ds attrs (Ast.ItemKind.enum generics _) loc name vis) s h = stops
    visit_item-Decides (Ast.item ds attrs (Ast.ItemKind.trait generics methods) loc name vis) s h =
        stops
    visit_item-Decides (Ast.item ds attrs (Ast.ItemKind.import file dest exposes) loc name vis) s
          h =
        stops
    visit_item-Decides
          (Ast.item ds attrs (Ast.ItemKind.extend_block target extender items) loc name vis) s h =
        returns h
    visit_item-Decides (Ast.item ds attrs (Ast.ItemKind.alias aliased actual) loc name vis) s h =
        stops
    visit_item-Decides (Ast.item ds attrs (Ast.ItemKind.extern_block items) loc name vis) s h =
        returns h
    visit_item-Decides
          (Ast.item ds attrs (Ast.ItemKind.extern_func generics args ret conv) loc name vis) s h =
        visit_extern_func-Decides recall name vis args ret conv loc s h ▹ λ f s₁ h₁. returns h₁

    visit_stmt-Decides : (t : Ast.Stmt) → Decides (supports_stmt t) (visit_stmt recall t)
    visit_stmt-Decides (Ast.stmt (Ast.var_decl name ty val constant mutable decl_loc) loc) s h =
        visit_expr-Decides val s h ▶ λ e s₁ h₁.
        visit_located-Decides recall ty s₁ h₁ ▹ λ t s₂ h₂. returns h₂
    visit_stmt-Decides (Ast.stmt (Ast.item_stmt i) loc) s h =
        visit_item-Decides i s h ▹ λ x s₁ h₁. returns h₁
    visit_stmt-Decides (Ast.stmt (Ast.expr_stmt e) loc) s h =
        visit_expr-Decides e s h ▹ λ x s₁ h₁. returns h₁

    visit_stmts-Decides : (ss : Ast.Stmts) → Decides (supports_stmts ss) (visit_stmts recall ss)
    visit_stmts-Decides Ast.no_stmts s h = returns h
    visit_stmts-Decides (Ast.add_stmt t ts) s h =
        visit_stmt-Decides t s h ▶ λ x s₁ h₁. visit_stmts-Decides ts s₁ h₁ ▹ λ xs s₂ h₂. returns h₂

    visit_block-Decides : (b : Ast.Block) → Decides (supports_block b) (visit_block recall b)
    visit_block-Decides (Ast.block ss loc) s h = visit_stmts-Decides ss s h ▹ λ x s₁ h₁. returns h₁

    visit_opt_block-Decides :
        (b : Ast.OptBlock) → Decides (supports_opt_block b) (visit_opt_block recall b)
    visit_opt_block-Decides Ast.no_block s h = returns h
    visit_opt_block-Decides (Ast.a_block b) s h = visit_block-Decides b s h ▹ λ x s₁ h₁. returns h₁

    visit_expr-Decides : (e : Ast.Expr) → Decides (supports_expr e) (visit_expr recall e)
    visit_expr-Decides
          (Ast.expr
            (Ast.ExprKind.if_ (Ast.add_cond (Ast.if_cond cond body) Ast.no_conds) else_)
            loc)
          s h =
        retag (and_rotate (supports_expr cond) (supports_block body) (supports_opt_block else_))
          (visit_if_only-Decides recall loc (ast_location cond) (visit_block-Decides body)
            (visit_opt_block-Decides else_) (visit_expr-Decides cond))
          s h
    visit_expr-Decides (Ast.expr (Ast.ExprKind.if_ Ast.no_conds else_) loc) s h =
        visit_if_guards-Decides recall loc
          (visit_clauses-Decides Ast.no_conds (λ s h.
            visit_opt_block-Decides else_ s h ▹ λ x s₁ h₁. else_arms-Succeeds recall x s₁ h₁))
          s h
    visit_expr-Decides
          (Ast.expr
            (Ast.ExprKind.if_
              (Ast.add_cond (Ast.if_cond cond body) (Ast.add_cond next clauses))
              else_)
            loc)
          s h =
        visit_if_guards-Decides recall loc
          (visit_clauses-Decides (Ast.add_cond (Ast.if_cond cond body) (Ast.add_cond next clauses))
            (λ s h.
              visit_opt_block-Decides else_ s h ▹ λ x s₁ h₁. else_arms-Succeeds recall x s₁ h₁))
          s h
    visit_expr-Decides (Ast.expr (Ast.ExprKind.return Ast.no_expr) loc) s h = returns h
    visit_expr-Decides (Ast.expr (Ast.ExprKind.return (Ast.an_expr value)) loc) s h =
        visit_return_value-Decides loc (visit_expr-Decides value) s h
    visit_expr-Decides (Ast.expr (Ast.ExprKind.break value) loc) s h =
        visit_opt_expr-Decides value s h ▹ λ x s₁ h₁. returns h₁
    visit_expr-Decides (Ast.expr Ast.ExprKind.continue loc) s h = returns h
    visit_expr-Decides
          (Ast.expr (Ast.ExprKind.while cond (Ast.block body body_loc) then_ else_) loc) s h =
        visit_while-Decides recall loc (ast_location cond) body_loc (visit_expr-Decides cond)
          (visit_stmts-Decides body) (visit_opt_block-Decides then_) (visit_opt_block-IsOf then_)
          (visit_opt_block-Decides else_) (visit_opt_block-IsOf else_) s h
    visit_expr-Decides (Ast.expr (Ast.ExprKind.loop body else_) loc) s h =
        visit_block-Decides body s h ▹ λ x s₁ h₁. returns h₁
    visit_expr-Decides (Ast.expr (Ast.ExprKind.for var cond body then_ else_) loc) s h = stops
    visit_expr-Decides (Ast.expr (Ast.ExprKind.match var arms) loc) s h =
        visit_expr-Decides var s h ▶ λ x s₁ h₁. visit_arms-Decides loc arms s₁ h₁ ▹ λ y s₂ h₂.
        unknown_type-Succeeds recall loc s₂ h₂ ▹ λ ty s₃ h₃. returns h₃
    visit_expr-Decides (Ast.expr (Ast.ExprKind.variable name name_loc) loc) s h =
        unknown_type-Succeeds recall loc s h ▹ λ x s₁ h₁. returns h₁
    visit_expr-Decides (Ast.expr (Ast.ExprKind.literal_expr l) loc) s h =
        visit_literal-Decides l s h ▹ λ x s₁ h₁. returns h₁
    visit_expr-Decides (Ast.expr (Ast.ExprKind.unary_op op inner) loc) s h = stops
    visit_expr-Decides (Ast.expr (Ast.ExprKind.binary_op lhs op rhs) loc) s h =
        visit_expr-Decides lhs s h ▶ λ x s₁ h₁. visit_expr-Decides rhs s₁ h₁ ▹ λ y s₂ h₂. returns h₂
    visit_expr-Decides (Ast.expr (Ast.ExprKind.comparison lhs op rhs) loc) s h =
        visit_expr-Decides lhs s h ▶ λ x s₁ h₁. visit_expr-Decides rhs s₁ h₁ ▹ λ y s₂ h₂. returns h₂
    visit_expr-Decides (Ast.expr (Ast.ExprKind.assign lhs AssignKind.normal rhs) loc) s h =
        visit_assign_normal-Decides loc (variable_of lhs) (visit_expr recall lhs)
          (visit_expr-Decides rhs) s h
    visit_expr-Decides (Ast.expr (Ast.ExprKind.assign lhs (AssignKind.binary_op op) rhs) loc) s h =
        visit_assign_op-Decides loc (variable_of lhs) op (visit_expr-Decides lhs)
          (visit_expr-Decides rhs) s h
    visit_expr-Decides (Ast.expr (Ast.ExprKind.paren inner) loc) s h = visit_expr-Decides inner s h
    visit_expr-Decides (Ast.expr (Ast.ExprKind.array_expr es) loc) s h = stops
    visit_expr-Decides (Ast.expr (Ast.ExprKind.tuple_expr es) loc) s h = stops
    visit_expr-Decides (Ast.expr (Ast.ExprKind.range start end) loc) s h = stops
    visit_expr-Decides (Ast.expr (Ast.ExprKind.index var offset) loc) s h =
        retag (λ i. operand-variable_of var i && operand-variable_of offset i)
          (visit_index-Decides loc (variable_of var) (variable_of offset) (visit_expr-Decides var)
            (visit_expr-Decides offset))
          s h
    visit_expr-Decides (Ast.expr (Ast.ExprKind.func_call caller args) loc) s h =
        retag (λ i. supports_exprs args && is_some-variable_of caller i)
          (visit_func_call-Decides loc (variable_of caller) (visit_exprs-Decides args)) s h
    visit_expr-Decides (Ast.expr (Ast.ExprKind.member_func_call member function) loc) s h = stops
    visit_expr-Decides (Ast.expr (Ast.ExprKind.reference mutable e) loc) s h =
        visit_expr-Decides e s h ▹ λ x s₁ h₁. returns h₁
    visit_expr-Decides (Ast.expr (Ast.ExprKind.cast e ty) loc) s h =
        visit_expr-Decides e s h ▶ λ x s₁ h₁.
        visit_located-Decides recall ty s₁ h₁ ▹ λ t s₂ h₂. returns h₂
    visit_expr-Decides (Ast.expr (Ast.ExprKind.block_expr (Ast.block ss block_loc) colors) loc) s
          h =
        visit_stmts-Decides ss s h ▹ λ x s₁ h₁. returns h₁

    visit_exprs-Decides : (es : Ast.Exprs) → Decides (supports_exprs es) (visit_exprs recall es)
    visit_exprs-Decides Ast.no_exprs s h = returns h
    visit_exprs-Decides (Ast.add_expr e es) s h =
        visit_expr-Decides e s h ▶ λ x s₁ h₁. visit_exprs-Decides es s₁ h₁ ▹ λ xs s₂ h₂. returns h₂

    visit_opt_expr-Decides :
        (e : Ast.OptExpr) → Decides (supports_opt_expr e) (visit_opt_expr recall e)
    visit_opt_expr-Decides Ast.no_expr s h = returns h
    visit_opt_expr-Decides (Ast.an_expr e) s h = visit_expr-Decides e s h ▹ λ x s₁ h₁. returns h₁

    visit_clauses-Decides :
        (clauses : Ast.IfConds) {b : Bool} {rest : Lower Hir.Arms}
        → Decides b rest
        → Decides (supports_conds clauses && b) (visit_clauses recall clauses rest)
    visit_clauses-Decides Ast.no_conds rest s h = rest s h
    visit_clauses-Decides (Ast.add_cond (Ast.if_cond cond body) clauses) {b = b} {rest = r} rest s
          h =
        retag {m = visit_clauses recall (Ast.add_cond (Ast.if_cond cond body) clauses) r}
          (and_shift (supports_expr cond) (supports_block body) (supports_conds clauses) b)
          (λ s h. visit_expr-Decides cond s h ▶ λ g s₁ h₁.
            visit_block-Decides body s₁ h₁ ▶ λ x s₂ h₂.
            guarded_arm-Succeeds recall (Hir.an_expr g) x s₂ h₂ ▶ λ m s₃ h₃.
            visit_clauses-Decides clauses rest s₃ h₃ ▹ λ arms s₄ h₄. returns h₄)
          s h

    visit_arms-Decides :
        (loc : Ast.Location) (arms : Ast.Arms)
        → Decides (supports_arms arms) (visit_arms recall loc arms)
    visit_arms-Decides loc Ast.no_arms s h = returns h
    visit_arms-Decides loc (Ast.add_arm (Ast.arm bind guard body) arms) s h =
        visit_binding-Decides bind s h ▶ λ b s₁ h₁. visit_opt_expr-Decides guard s₁ h₁ ▶ λ g s₂ h₂.
        visit_block-Decides body s₂ h₂ ▶ λ x s₃ h₃.
        unknown_type-Succeeds recall loc s₃ h₃ ▶ λ ty s₄ h₄.
        visit_arms-Decides loc arms s₄ h₄ ▹ λ xs s₅ h₅. returns h₅

    visit_binding-Decides :
        (b : Ast.Binding) → Decides (supports_binding b) (visit_binding recall b)
    visit_binding-Decides (Ast.binding reference mutable pattern_ ty) s h =
        visit_pattern-Decides pattern_ s h ▶ λ x s₁ h₁.
        visit_opt_type-Decides recall ty s₁ h₁ ▹ λ t s₂ h₂. returns h₂

    visit_pattern-Decides :
        (p : Ast.Pattern) → Decides (supports_pattern p) (visit_pattern recall p)
    visit_pattern-Decides (Ast.literal_pattern l) s h =
        visit_literal-Decides l s h ▹ λ x s₁ h₁. returns h₁
    visit_pattern-Decides (Ast.ident_pattern ident) s h = returns h
    visit_pattern-Decides (Ast.path_pattern path) s h = returns h
    visit_pattern-Decides Ast.wildcard s h = returns h

    visit_literal-Decides :
        (l : Ast.Literal) → Decides (supports_literal l) (visit_literal recall l)
    visit_literal-Decides (Ast.literal val ty loc) s h =
        visit_literal_val-Decides val s h ▶ λ x s₁ h₁.
        visit_located-Decides recall (Ast.at ty loc) s₁ h₁ ▹ λ t s₂ h₂. returns h₂

    visit_literal_val-Decides :
        (v : Ast.LiteralVal) → Decides (supports_literal_val v) (visit_literal_val recall v)
    visit_literal_val-Decides (Ast.LiteralVal.integer sign n) s h = returns h
    visit_literal_val-Decides (Ast.LiteralVal.bool b) s h = returns h
    visit_literal_val-Decides (Ast.LiteralVal.string text) s h = returns h
    visit_literal_val-Decides (Ast.LiteralVal.rune c) s h = returns h
    visit_literal_val-Decides (Ast.LiteralVal.float bits) s h = returns h
    visit_literal_val-Decides (Ast.LiteralVal.array elements) s h =
        visit_literals-Decides elements s h ▹ λ x s₁ h₁. returns h₁
    visit_literal_val-Decides (Ast.LiteralVal.struct name fields) s h =
        visit_fields-Decides fields s h ▹ λ x s₁ h₁. returns h₁

    visit_literals-Decides :
        (ls : Ast.Literals) → Decides (supports_literals ls) (visit_literals recall ls)
    visit_literals-Decides Ast.Literals.nil s h = returns h
    visit_literals-Decides (Ast.Literals.cons l ls) s h = visit_literal-Decides l s h ▶ λ x s₁ h₁.
        visit_literals-Decides ls s₁ h₁ ▹ λ xs s₂ h₂. returns h₂

    visit_fields-Decides :
        (fs : Ast.StructFields) → Decides (supports_fields fs) (visit_fields recall fs)
    visit_fields-Decides Ast.no_fields s h = returns h
    visit_fields-Decides (Ast.add_field (Ast.struct_field name value loc) fs) s h =
        visit_expr-Decides value s h ▶ λ x s₁ h₁.
        visit_fields-Decides fs s₁ h₁ ▹ λ xs s₂ h₂. returns h₂

  pub lower-Decides : (items : List Ast.Item) → Decides (supports_items items) (lower recall items)
  unfolding lower supports_items
  lower-Decides [] s h = returns h
  lower-Decides (i ∷ items) s h =
      visit_item-Decides i s h ▶ λ x s₁ h₁. lower-Decides items s₁ h₁ ▹ λ xs s₂ h₂. returns h₂

  -- When the context of types has room, lowering items from the start returns, and does not panic,
  -- exactly if the items are supported, whatever the query database holds in its memory.
  pub lower-supports_items :
      (items : List Ast.Item) (context : Context)
      → HasRoom (new context)
      → is_some (lower recall items (new context)) ≡ supports_items items
  lower-supports_items items context room = is_some-Settles (lower-Decides items (new context) room)
