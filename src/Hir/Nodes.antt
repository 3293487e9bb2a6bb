-- ===== src/Hir/Nodes.antt =====
-- crates/crunch-shared/src/trees/hir.rs: literals, expressions, statements and items. They hold one
-- another in lists and options, which are types of their own here.
use crunch_lang.Prelude.{ℕ, Bool, Option, List, [], Text}
use crunch_lang.Ast.{StrT, ItemPath, Location, Sign, BinaryOp, CompOp, BlockColor, Vis}
use crunch_lang.Hir.Leaves.{Var, TypeId, FuncArg, ExternFunc, TypeDecl}

mutual
  pub data LiteralVal : Type 0 where
    integer : Sign → ℕ → LiteralVal
    bool : Bool → LiteralVal
    string : Text → LiteralVal
    rune float : ℕ → LiteralVal
    array : Literals → LiteralVal
    struct : StrT → StructFields → LiteralVal

  pub data Literal : Type 0 where
    literal : LiteralVal → TypeId → Location → Literal

  pub data Literals : Type 0 where
    nil : Literals
    cons : Literal → Literals → Literals

  pub data StructFields : Type 0 where
    no_fields : StructFields
    add_field : StructField → StructFields → StructFields

  pub data StructField : Type 0 where
    struct_field : StrT → Expr → Location → StructField

  pub data Pattern : Type 0 where
    literal_pattern : Literal → Pattern
    ident_pattern : StrT → Pattern
    path_pattern : ItemPath → Pattern
    wildcard : Pattern

  -- whether it is a reference, whether it is mutable, the pattern and the type
  pub data Binding : Type 0 where
    binding : Bool → Bool → Pattern → Option TypeId → Binding

  pub data Expr : Type 0 where
    expr : ExprKind → Location → Expr

  pub data ExprKind : Type 0 where
    match : Expr → Arms → TypeId → ExprKind
    scope loop : Block → ExprKind
    return break : OptExpr → ExprKind
    continue : ExprKind
    fn_call : ItemPath → Exprs → ExprKind
    literal_expr : Literal → ExprKind
    comparison : Expr → CompOp → Expr → ExprKind
    variable : Var → TypeId → ExprKind
    assign : Var → Expr → ExprKind
    bin_op : Expr → BinaryOp → Expr → ExprKind
    cast : Expr → TypeId → ExprKind
    reference : Bool → Expr → ExprKind
    index : Var → Expr → ExprKind

  pub data Exprs : Type 0 where
    no_exprs : Exprs
    add_expr : Expr → Exprs → Exprs

  pub data OptExpr : Type 0 where
    no_expr : OptExpr
    an_expr : Expr → OptExpr

  -- the statements, the colors and the place
  pub data Block : Type 0 where
    block : Stmts → List BlockColor → Location → Block

  pub data Arms : Type 0 where
    no_arms : Arms
    add_arm : MatchArm → Arms → Arms

  -- the binding, the guard, the body and the type
  pub data MatchArm : Type 0 where
    match_arm : Binding → OptExpr → Block → TypeId → MatchArm

  pub data Stmts : Type 0 where
    no_stmts : Stmts
    add_stmt : Stmt → Stmts → Stmts

  -- A declaration has a name, a value, whether it is mutable, a type and a place.
  pub data Stmt : Type 0 where
    item_stmt : Item → Stmt
    expr_stmt : Expr → Stmt
    var_decl : Var → Expr → Bool → TypeId → Location → Stmt

  -- A function has its name, visibility, arguments, body, result, place and signature's place.
  pub data Item : Type 0 where
    function :
        ItemPath → Vis → List FuncArg × Location → Block → TypeId → Location → Location → Item
    extern_func : ExternFunc → Item
    type : TypeDecl → Item

-- `Block::push`, on the statements of a block
unfoldable pub push_stmt : Stmts → Stmt → Stmts
push_stmt no_stmts s = add_stmt s no_stmts
push_stmt (add_stmt t ss) s = add_stmt t (push_stmt ss s)

-- `Block::push`
unfoldable pub push : Block → Stmt → Block
unfolding push_stmt
push (block ss colors loc) s = block (push_stmt ss s) colors loc

-- `Block::empty`
abbrev pub empty : Location → Block
empty loc = block no_stmts [] loc

-- `Block::from_iter` and `Block::new`
abbrev pub from_stmts : Location → Stmts → Block
from_stmts loc ss = block ss [] loc
