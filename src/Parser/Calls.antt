-- ===== src/Parser/Calls.antt =====
-- The functions of crates/crunch-parser/src/parser that recurse under a guard.
use crunch_lang.Prelude.{ℕ, Option, List}
use crunch_lang.Token.{TokenType, Token, Span, merge}
use crunch_lang.Ast.{
  Location, location, Located, Generics, FuncArg, Attribute, Vis, Expr, ExprKind, expr, Block,
  OptBlock, Stmt, Binding, Pattern, Decorator, Item,
}
use crunch_lang.Parser.Core.{Context, Parse}

-- The functions that `expr_prefix` gives, those behind `ident_expr` among them.
pub data Prefix : Type 0 where
  variable struct_literal array_or_tuple if_expr match_expr while_expr loop_expr for_expr : Prefix
  return_expr break_expr continue_expr paren_expr reference postfix_expr literal_expr : Prefix
  unsafe_block : Prefix

-- The functions that `expr_postfix` and `expr_infix` give.
pub data Operation : Type 0 where
  function_call dotted_call ranges index_array as_cast assignment exotic_assignment : Operation
  comparison binary_operation : Operation

-- The functions that `item_impl` calls for a declaration.
pub data Declaration : Type 0 where
  function type_decl extend_block enum_decl trait_decl import alias extern_block : Declaration
  extern_func : Declaration

-- What `item_impl` changes: the decorators, attributes and visibility in front of an item.
pub record Front : Type 0 where
  pub decorators : List Decorator
  pub attributes : List Attribute
  pub vis : Option Vis

-- The functions, at the number of frames that the limit still allows.
pub record Calls : Type 0 where
  pub frames : ℕ
  pub ascribed_type : Parse Located
  pub expr : Parse Expr
  pub parse_expr : ℕ → Parse Expr
  pub prefix : Prefix → Token → Parse Expr
  pub operation : Operation → Token → Expr → Parse Expr
  pub then_block : Parse OptBlock
  pub else_block : Parse OptBlock
  pub stmt : Parse (Option Stmt)
  pub block : List TokenType → Parse Block
  pub binding : Parse Binding
  pub pattern : Parse Pattern
  pub item : Parse (Option Item)
  pub item_impl : Front → Parse (Option Item × Front)
  pub declaration : Declaration → List Decorator → List Attribute → Vis → Parse Item
  pub decorator : List Decorator → Parse (List Decorator)
  pub function_args : Parse (List FuncArg × Location)
  pub generics : Parse Generics

-- A place in the current file, and a node there.
abbrev pub here : Context → Span → Location
here x s = location s x.file

abbrev pub node : Context → ExprKind → Span → Span → Expr
node x kind a b = expr kind (here x (merge a b))
