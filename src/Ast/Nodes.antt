-- ===== src/Ast/Nodes.antt =====
-- crates/crunch-shared/src/trees/ast.rs: literals, expressions, statements and items. They hold one
-- another in lists and options, which are types of their own here.
use crunch_lang.Prelude.{ℕ, Bool, Option, List, [], ◌∷◌, Text}
use crunch_lang.Token.{Span}
use crunch_lang.Ast.Leaves.{
  Location, StrT, ItemPath, AstType, Located, Types, Sign, BinaryOp, CompOp, UnaryOp, AssignKind,
  Attribute, Vis, BlockColor, CallConv, Dest, Exposure, FuncArg, Generics,
}

mutual
  pub data LiteralVal : Type 0 where
    integer : Sign → ℕ → LiteralVal
    bool : Bool → LiteralVal
    string : Text → LiteralVal
    rune float : ℕ → LiteralVal
    array : Literals → LiteralVal
    struct : StrT → StructFields → LiteralVal

  pub data Literal : Type 0 where
    literal : LiteralVal → AstType → Location → Literal

  pub data Literals : Type 0 where
    nil : Literals
    cons : Literal → Literals → Literals

  pub data StructFields : Type 0 where
    no_fields : StructFields
    add_field : StructField → StructFields → StructFields

  pub data StructField : Type 0 where
    struct_field : StrT → Expr → Location → StructField

  pub data Pattern : Type 0 where
    literal_pattern : Literal → Pattern
    ident_pattern : StrT → Pattern
    path_pattern : ItemPath → Pattern
    wildcard : Pattern

  -- whether it is a reference, whether it is mutable, the pattern and the type
  pub data Binding : Type 0 where
    binding : Bool → Bool → Pattern → Option Located → Binding

  pub data Expr : Type 0 where
    expr : ExprKind → Location → Expr

  pub data ExprKind : Type 0 where
    if_ : IfConds → OptBlock → ExprKind
    return break : OptExpr → ExprKind
    continue : ExprKind
    while : Expr → Block → OptBlock → OptBlock → ExprKind
    loop : Block → OptBlock → ExprKind
    for : Expr → Expr → Block → OptBlock → OptBlock → ExprKind
    match : Expr → Arms → ExprKind
    variable : StrT → Location → ExprKind
    literal_expr : Literal → ExprKind
    unary_op : UnaryOp → Expr → ExprKind
    binary_op : Expr → BinaryOp → Expr → ExprKind
    comparison : Expr → CompOp → Expr → ExprKind
    assign : Expr → AssignKind → Expr → ExprKind
    paren : Expr → ExprKind
    array_expr tuple_expr : Exprs → ExprKind
    range index member_func_call : Expr → Expr → ExprKind
    func_call : Expr → Exprs → ExprKind
    reference : Bool → Expr → ExprKind
    cast : Expr → Located → ExprKind
    block_expr : Block → List BlockColor → ExprKind

  pub data Exprs : Type 0 where
    no_exprs : Exprs
    add_expr : Expr → Exprs → Exprs

  pub data OptExpr : Type 0 where
    no_expr : OptExpr
    an_expr : Expr → OptExpr

  pub data Block : Type 0 where
    block : Stmts → Location → Block

  pub data OptBlock : Type 0 where
    no_block : OptBlock
    a_block : Block → OptBlock

  pub data IfConds : Type 0 where
    no_conds : IfConds
    add_cond : IfCond → IfConds → IfConds

  pub data IfCond : Type 0 where
    if_cond : Expr → Block → IfCond

  pub data Arms : Type 0 where
    no_arms : Arms
    add_arm : Arm → Arms → Arms

  -- the binding, the guard and the body
  pub data Arm : Type 0 where
    arm : Binding → OptExpr → Block → Arm

  pub data Stmts : Type 0 where
    no_stmts : Stmts
    add_stmt : Stmt → Stmts → Stmts

  pub data Stmt : Type 0 where
    stmt : StmtKind → Location → Stmt

  -- A declaration of a variable has a name, a type, a value, and whether it is constant or mutable.
  pub data StmtKind : Type 0 where
    var_decl : StrT → Located → Expr → Bool → Bool → Location → StmtKind
    item_stmt : Item → StmtKind
    expr_stmt : Expr → StmtKind

  pub data Decorators : Type 0 where
    no_decorators : Decorators
    add_decorator : Decorator → Decorators → Decorators

  -- the name and its place, the arguments
  pub data Decorator : Type 0 where
    decorator : StrT → Location → Exprs → Location → Decorator

  pub data TypeMembers : Type 0 where
    no_members : TypeMembers
    add_member : TypeMember → TypeMembers → TypeMembers

  pub data TypeMember : Type 0 where
    type_member : Decorators → List Attribute → StrT → Located → Location → TypeMember

  pub data Variants : Type 0 where
    no_variants : Variants
    add_variant : Variant → Variants → Variants

  pub data Variant : Type 0 where
    unit_variant : StrT → Decorators → Variant
    tuple_variant : StrT → Types → Decorators → Variant

  pub data Items : Type 0 where
    no_items : Items
    add_item : Item → Items → Items

  -- the decorators, the attributes, the kind, the place, the name and the visibility
  pub data Item : Type 0 where
    item : Decorators → List Attribute → ItemKind → Location → Option StrT → Option Vis → Item

  -- A function has its generics, arguments, body, result and the place of its signature.
  pub data ItemKind : Type 0 where
    func : Generics → List FuncArg × Location → Block → Located → Location → ItemKind
    type : Generics → TypeMembers → ItemKind
    enum : Generics → Variants → ItemKind
    trait : Generics → Items → ItemKind
    import : ItemPath → Dest → Exposure → ItemKind
    extend_block : Located → Option Located → Items → ItemKind
    alias : Located → Located → ItemKind
    extern_block : Items → ItemKind
    extern_func : Generics → List FuncArg × Location → Located → CallConv → ItemKind

-- A `Vec` of nodes as the type of its list.
abbrev pub exprs_of : List Expr → Exprs
exprs_of [] = no_exprs
exprs_of (e ∷ es) = add_expr e (exprs_of es)

abbrev pub fields_of : List StructField → StructFields
fields_of [] = no_fields
fields_of (e ∷ es) = add_field e (fields_of es)

abbrev pub conds_of : List IfCond → IfConds
conds_of [] = no_conds
conds_of (e ∷ es) = add_cond e (conds_of es)

abbrev pub arms_of : List Arm → Arms
arms_of [] = no_arms
arms_of (e ∷ es) = add_arm e (arms_of es)

abbrev pub stmts_of : List Stmt → Stmts
stmts_of [] = no_stmts
stmts_of (e ∷ es) = add_stmt e (stmts_of es)

abbrev pub decorators_of : List Decorator → Decorators
decorators_of [] = no_decorators
decorators_of (e ∷ es) = add_decorator e (decorators_of es)

abbrev pub members_of : List TypeMember → TypeMembers
members_of [] = no_members
members_of (e ∷ es) = add_member e (members_of es)

abbrev pub variants_of : List Variant → Variants
variants_of [] = no_variants
variants_of (e ∷ es) = add_variant e (variants_of es)

abbrev pub items_of : List Item → Items
items_of [] = no_items
items_of (e ∷ es) = add_item e (items_of es)

abbrev pub expr_span : Expr → Span
expr_span (expr kind loc) = loc.span

abbrev pub block_span : Block → Span
block_span (block ss loc) = loc.span

abbrev pub item_loc : Item → Location
item_loc (item ds attrs kind loc name vis) = loc
