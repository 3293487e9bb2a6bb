-- ===== src/Ladder/Visit.antt =====
-- crates/ladder/src/lib.rs: the visits of the nodes of the syntax tree, which call one another.
use crunch_lang.Prelude.{Option, none, some, [], ◌∷◌}
use crunch_lang.Ast as Ast
use crunch_lang.Ast.{Location}
use crunch_lang.Hir as Hir
use crunch_lang.Hir.{Expr, expr, ExprKind}
use crunch_lang.Ladder.State.{Lower, pure, todo, ◌>>=◌, expect, visit_option, Recall}
use crunch_lang.Ladder.Types.{
  visit_located, unknown_type, visit_args, visit_extern_func, visit_type_decl,
}
use crunch_lang.Ladder.Conditions.{visit_if_only, guarded_arm, else_arms, visit_if_guards}
use crunch_lang.Ladder.Loops.{visit_while}
use crunch_lang.Ladder.Operators.{
  variable_of, visit_return_value, visit_assign, visit_func_call, visit_index,
}

abbrev pub ast_location : Ast.Expr → Location
ast_location (Ast.expr kind loc) = loc

-- A statement that lowering may have dropped, in front of others.
abbrev pub keep_stmt : Option Hir.Stmt → Hir.Stmts → Hir.Stmts
keep_stmt none ss = ss
keep_stmt (some s) ss = Hir.add_stmt s ss

-- The statement of an item, if lowering kept it.
abbrev pub stmt_of : Option Hir.Item → Option Hir.Stmt
stmt_of none = none
stmt_of (some i) = some (Hir.item_stmt i)

module _ (recall : Recall) where
  unfoldable mutual
    pub visit_item : Ast.Item → Lower (Option Hir.Item)
    visit_item (Ast.item ds attrs (Ast.ItemKind.func generics args body ret sig) loc name vis) = do
      name ← expect name
      args ← visit_args recall args
      body ← visit_block body
      vis ← expect vis
      ret ← visit_located recall ret
      pure (some (Hir.function (name ∷ []) vis args body ret loc sig))
    visit_item (Ast.item ds attrs (Ast.ItemKind.type generics members) loc name vis) = do
      decl ← visit_type_decl recall generics members
      pure (some (Hir.Item.type decl))
    visit_item (Ast.item ds attrs (Ast.ItemKind.enum generics _) loc name vis) = todo
    visit_item (Ast.item ds attrs (Ast.ItemKind.trait generics methods) loc name vis) = todo
    visit_item (Ast.item ds attrs (Ast.ItemKind.import file dest exposes) loc name vis) = todo
    visit_item (Ast.item ds attrs (Ast.ItemKind.extend_block target extender items) loc name vis) =
        pure none
    visit_item (Ast.item ds attrs (Ast.ItemKind.alias aliased actual) loc name vis) = todo
    visit_item (Ast.item ds attrs (Ast.ItemKind.extern_block items) loc name vis) = pure none
    visit_item
          (Ast.item ds attrs (Ast.ItemKind.extern_func generics args ret callconv) loc name vis) =
        do
          f ← visit_extern_func recall name vis args ret callconv loc
          pure (some (Hir.extern_func f))

    pub visit_stmt : Ast.Stmt → Lower (Option Hir.Stmt)
    visit_stmt (Ast.stmt (Ast.var_decl name ty val constant mutable decl_loc) loc) = do
      value ← visit_expr val
      ty ← visit_located recall ty
      pure (some (Hir.var_decl (Hir.user name) value mutable ty decl_loc))
    visit_stmt (Ast.stmt (Ast.item_stmt i) loc) = do i ← visit_item i; pure (stmt_of i)
    visit_stmt (Ast.stmt (Ast.expr_stmt e) loc) = do e ← visit_expr e; pure (some (Hir.expr_stmt e))

    pub visit_stmts : Ast.Stmts → Lower Hir.Stmts
    visit_stmts Ast.no_stmts = pure Hir.no_stmts
    visit_stmts (Ast.add_stmt s ss) = do
      s ← visit_stmt s
      ss ← visit_stmts ss
      pure (keep_stmt s ss)

    -- the statements that are not dropped, at the place of the block
    pub visit_block : Ast.Block → Lower Hir.Block
    visit_block (Ast.block ss loc) = do ss ← visit_stmts ss; pure (Hir.from_stmts loc ss)

    pub visit_opt_block : Ast.OptBlock → Lower (Option Hir.Block)
    visit_opt_block Ast.no_block = pure none
    visit_opt_block (Ast.a_block b) = do b ← visit_block b; pure (some b)

    pub visit_expr : Ast.Expr → Lower Expr
    visit_expr
          (Ast.expr
            (Ast.ExprKind.if_ (Ast.add_cond (Ast.if_cond cond body) Ast.no_conds) else_)
            loc) =
        visit_if_only recall loc (ast_location cond) (visit_expr cond) (visit_block body)
          (visit_opt_block else_)
    visit_expr (Ast.expr (Ast.ExprKind.if_ clauses else_) loc) =
        visit_if_guards recall loc
          (visit_clauses clauses (visit_opt_block else_ >>= else_arms recall))
    visit_expr (Ast.expr (Ast.ExprKind.return Ast.no_expr) loc) =
        pure (expr (ExprKind.return Hir.no_expr) loc)
    visit_expr (Ast.expr (Ast.ExprKind.return (Ast.an_expr value)) loc) =
        visit_return_value loc (visit_expr value)
    visit_expr (Ast.expr (Ast.ExprKind.break value) loc) = do
      value ← visit_opt_expr value
      pure (expr (ExprKind.break value) loc)
    visit_expr (Ast.expr Ast.ExprKind.continue loc) = pure (expr ExprKind.continue loc)
    visit_expr (Ast.expr (Ast.ExprKind.while cond (Ast.block body body_loc) then_ else_) loc) =
        visit_while recall loc (ast_location cond) body_loc (visit_expr cond) (visit_stmts body)
          (visit_opt_block then_) (visit_opt_block else_)
    visit_expr (Ast.expr (Ast.ExprKind.loop body else_) loc) = do
      body ← visit_block body
      pure (expr (ExprKind.loop body) loc)
    visit_expr (Ast.expr (Ast.ExprKind.for var cond body then_ else_) loc) = todo
    visit_expr (Ast.expr (Ast.ExprKind.match var arms) loc) = do
      cond ← visit_expr var
      arms ← visit_arms loc arms
      ty ← unknown_type recall loc
      pure (expr (ExprKind.match cond arms ty) loc)
    visit_expr (Ast.expr (Ast.ExprKind.variable name name_loc) loc) = do
      ty ← unknown_type recall loc
      pure (expr (ExprKind.variable (Hir.user name) ty) loc)
    visit_expr (Ast.expr (Ast.ExprKind.literal_expr l) loc) = do
      l ← visit_literal l
      pure (expr (ExprKind.literal_expr l) loc)
    visit_expr (Ast.expr (Ast.ExprKind.unary_op op inner) loc) = todo
    visit_expr (Ast.expr (Ast.ExprKind.binary_op lhs op rhs) loc) = do
      lhs ← visit_expr lhs
      rhs ← visit_expr rhs
      pure (expr (ExprKind.bin_op lhs op rhs) loc)
    visit_expr (Ast.expr (Ast.ExprKind.comparison lhs op rhs) loc) = do
      lhs ← visit_expr lhs
      rhs ← visit_expr rhs
      pure (expr (ExprKind.comparison lhs op rhs) loc)
    visit_expr (Ast.expr (Ast.ExprKind.assign lhs op rhs) loc) =
        visit_assign loc (variable_of lhs) op (visit_expr lhs) (visit_expr rhs)
    visit_expr (Ast.expr (Ast.ExprKind.paren inner) loc) = visit_expr inner
    visit_expr (Ast.expr (Ast.ExprKind.array_expr elements) loc) = todo
    visit_expr (Ast.expr (Ast.ExprKind.tuple_expr elements) loc) = todo
    visit_expr (Ast.expr (Ast.ExprKind.range start end) loc) = todo
    visit_expr (Ast.expr (Ast.ExprKind.index var index) loc) =
        visit_index loc (variable_of var) (visit_expr var) (variable_of index) (visit_expr index)
    visit_expr (Ast.expr (Ast.ExprKind.func_call caller args) loc) =
        visit_func_call loc (variable_of caller) (visit_exprs args)
    visit_expr (Ast.expr (Ast.ExprKind.member_func_call member func) loc) = todo
    visit_expr (Ast.expr (Ast.ExprKind.reference mutable e) loc) = do
      e ← visit_expr e
      pure (expr (ExprKind.reference mutable e) loc)
    visit_expr (Ast.expr (Ast.ExprKind.cast e ty) loc) = do
      e ← visit_expr e
      ty ← visit_located recall ty
      pure (expr (ExprKind.cast e ty) loc)
    visit_expr (Ast.expr (Ast.ExprKind.block_expr (Ast.block ss block_loc) colors) loc) = do
      ss ← visit_stmts ss
      pure (expr (ExprKind.scope (Hir.block ss colors block_loc)) block_loc)

    pub visit_exprs : Ast.Exprs → Lower Hir.Exprs
    visit_exprs Ast.no_exprs = pure Hir.no_exprs
    visit_exprs (Ast.add_expr e es) = do
      e ← visit_expr e
      es ← visit_exprs es
      pure (Hir.add_expr e es)

    pub visit_opt_expr : Ast.OptExpr → Lower Hir.OptExpr
    visit_opt_expr Ast.no_expr = pure Hir.no_expr
    visit_opt_expr (Ast.an_expr e) = do e ← visit_expr e; pure (Hir.an_expr e)

    -- the arms of the clauses of an `if`, in front of those that an action gives
    pub visit_clauses : Ast.IfConds → Lower Hir.Arms → Lower Hir.Arms
    visit_clauses Ast.no_conds rest = rest
    visit_clauses (Ast.add_cond (Ast.if_cond cond body) clauses) rest = do
      guard ← visit_expr cond
      body ← visit_block body
      a ← guarded_arm recall (Hir.an_expr guard) body
      arms ← visit_clauses clauses rest
      pure (Hir.add_arm a arms)

    -- the arms of a match at a place
    pub visit_arms : Location → Ast.Arms → Lower Hir.Arms
    visit_arms loc Ast.no_arms = pure Hir.no_arms
    visit_arms loc (Ast.add_arm (Ast.arm bind guard body) arms) = do
      bind ← visit_binding bind
      guard ← visit_opt_expr guard
      body ← visit_block body
      ty ← unknown_type recall loc
      arms ← visit_arms loc arms
      pure (Hir.add_arm (Hir.match_arm bind guard body ty) arms)

    pub visit_binding : Ast.Binding → Lower Hir.Binding
    visit_binding (Ast.binding reference mutable pattern_ ty) = do
      pattern_ ← visit_pattern pattern_
      ty ← visit_option (visit_located recall) ty
      pure (Hir.binding reference mutable pattern_ ty)

    pub visit_pattern : Ast.Pattern → Lower Hir.Pattern
    visit_pattern (Ast.literal_pattern l) = do l ← visit_literal l; pure (Hir.literal_pattern l)
    visit_pattern (Ast.ident_pattern ident) = pure (Hir.ident_pattern ident)
    visit_pattern (Ast.path_pattern path) = pure (Hir.path_pattern path)
    visit_pattern Ast.wildcard = pure Hir.wildcard

    pub visit_literal : Ast.Literal → Lower Hir.Literal
    visit_literal (Ast.literal val ty loc) = do
      val ← visit_literal_val val
      ty ← visit_located recall (Ast.at ty loc)
      pure (Hir.literal val ty loc)

    pub visit_literal_val : Ast.LiteralVal → Lower Hir.LiteralVal
    visit_literal_val (Ast.LiteralVal.integer sign n) = pure (Hir.LiteralVal.integer sign n)
    visit_literal_val (Ast.LiteralVal.bool b) = pure (Hir.LiteralVal.bool b)
    visit_literal_val (Ast.LiteralVal.string text) = pure (Hir.LiteralVal.string text)
    visit_literal_val (Ast.LiteralVal.rune c) = pure (Hir.LiteralVal.rune c)
    visit_literal_val (Ast.LiteralVal.float bits) = pure (Hir.LiteralVal.float bits)
    visit_literal_val (Ast.LiteralVal.array elements) = do
      elements ← visit_literals elements
      pure (Hir.LiteralVal.array elements)
    visit_literal_val (Ast.LiteralVal.struct name fields) = do
      fields ← visit_fields fields
      pure (Hir.LiteralVal.struct name fields)

    pub visit_literals : Ast.Literals → Lower Hir.Literals
    visit_literals Ast.Literals.nil = pure Hir.Literals.nil
    visit_literals (Ast.Literals.cons l ls) = do
      l ← visit_literal l
      ls ← visit_literals ls
      pure (Hir.Literals.cons l ls)

    pub visit_fields : Ast.StructFields → Lower Hir.StructFields
    visit_fields Ast.no_fields = pure Hir.no_fields
    visit_fields (Ast.add_field (Ast.struct_field name value loc) fields) = do
      value ← visit_expr value
      fields ← visit_fields fields
      pure (Hir.add_field (Hir.struct_field name value loc) fields)
