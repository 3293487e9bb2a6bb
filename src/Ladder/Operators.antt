-- ===== src/Ladder/Operators.antt =====
-- crates/ladder/src/lib.rs: returns, assignments, indexing and calls.
use crunch_lang.Prelude.{false, Option, none, some, [], ◌∷◌}
use crunch_lang.Ast as Ast
use crunch_lang.Ast.{Location, StrT, ItemPath, BinaryOp, AssignKind}
use crunch_lang.Hir.{
  Var, user, TypeId, Expr, expr, ExprKind, Exprs, an_expr, Stmts, no_stmts, add_stmt, Stmt,
  expr_stmt, var_decl, push_stmt, from_stmts,
}
use crunch_lang.Ladder.State.{Lower, pure, todo, ◌>>=◌, next_var}
use crunch_lang.Ladder.Types.{fresh_type}

-- the name of a variable
unfoldable pub variable_of : Ast.Expr → Option StrT
variable_of (Ast.expr (Ast.ExprKind.variable name name_loc) loc) = some name
variable_of _ = none

-- A value under a new name: its declaration, the name and the type.
unfoldable pub declare_value : Location → Lower Expr → Lower (Stmt × Var × TypeId)
declare_value loc visit_value = do
  value ← visit_value
  name ← next_var
  ty ← fresh_type loc
  pure (var_decl name value false ty loc, name, ty)

-- `visit_return` of a value
unfoldable pub visit_return_value : Location → Lower Expr → Lower Expr
visit_return_value loc visit_value = do
  (assign, name, ty) ← declare_value loc visit_value
  let val = expr (ExprKind.variable name ty) loc
  let ret = expr_stmt (expr (ExprKind.return (an_expr val)) loc)
  pure (expr (ExprKind.scope (from_stmts loc (add_stmt assign (add_stmt ret no_stmts)))) loc)

-- the variable that is assigned to: a new one if the left side is no variable
unfoldable pub assigned_var : Option StrT → Lower Var
assigned_var (some name) = pure (user name)
assigned_var none = next_var

-- `visit_assign`: a plain assignment drops its left side.
unfoldable pub visit_assign :
    Location → Option StrT → AssignKind → Lower Expr → Lower Expr → Lower Expr
visit_assign loc name (AssignKind.binary_op op) visit_lhs visit_rhs = do
  var ← assigned_var name
  lhs ← visit_lhs
  rhs ← visit_rhs
  pure (expr (ExprKind.assign var (expr (ExprKind.bin_op lhs op rhs) loc)) loc)
visit_assign loc name AssignKind.normal visit_lhs visit_rhs = do
  var ← assigned_var name
  rhs ← visit_rhs
  pure (expr (ExprKind.assign var rhs) loc)

-- `visit_func_call`: the name of the function, once the arguments are visited
unfoldable pub visit_func_call : Location → Option StrT → Lower Exprs → Lower Expr
visit_func_call loc (some name) visit_args = do
  args ← visit_args
  pure (expr (ExprKind.fn_call (name ∷ []) args) loc)
visit_func_call loc none visit_args = do args ← visit_args; todo

-- What is indexed: a variable as it is, another value under a new name.
unfoldable pub visit_indexee : Location → Option StrT → Lower Expr → Lower (Stmts × Var)
visit_indexee loc (some name) visit_var = pure (no_stmts, user name)
visit_indexee loc none visit_var = do
  (decl, name, ty) ← declare_value loc visit_var
  pure (add_stmt decl no_stmts, name)

-- The index, as a variable with its type, behind the declarations so far.
unfoldable pub visit_offset :
    Location → Option StrT → Lower Expr → Stmts → Lower (Stmts × Var × TypeId)
visit_offset loc (some name) visit_index scope = do ty ← fresh_type loc; pure (scope, user name, ty)
visit_offset loc none visit_index scope = do
  (decl, name, ty) ← declare_value loc visit_index
  pure (push_stmt scope decl, name, ty)

unfoldable pub visit_index :
    Location → Option StrT → Lower Expr → Option StrT → Lower Expr → Lower Expr
visit_index loc var visit_var index visit_offset_value = do
  (scope, indexee) ← visit_indexee loc var visit_var
  (scope, name, ty) ← visit_offset loc index visit_offset_value scope
  let offset = expr (ExprKind.variable name ty) loc
  let read = expr_stmt (expr (ExprKind.index indexee offset) loc)
  pure (expr (ExprKind.scope (from_stmts loc (push_stmt scope read))) loc)
