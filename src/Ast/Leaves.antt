-- ===== src/Ast/Leaves.antt =====
-- crates/crunch-shared/src/trees/ast.rs and trees/mod.rs: places, paths, types and operators.
use crunch_lang.Prelude.{ℕ, Bool, Option, List}
use crunch_lang.Token.{Span}

-- `Location`: a span in a file
pub record Location : Type 0 where
  pub span : Span
  pub file : ℕ

abbrev pub location : Span → ℕ → Location
location s f = record { span = s; file = f }

-- An interned string.
abbrev pub StrT : Type 0
StrT = ℕ

abbrev pub ItemPath : Type 0
ItemPath = List StrT

pub data TypeOp : Type 0 where
  and or : TypeOp

-- `Type`, the type `Locatable<&Type>` of a type at its place, and lists of these. (`Type` is no
-- name for a data type here.)
mutual
  pub data AstType : Type 0 where
    operand : Located → TypeOp → Located → AstType
    const : StrT → Located → AstType
    not paren : Located → AstType
    func : Types → Located → AstType
    trait tuple : Types → AstType
    bounded : ItemPath → Types → AstType
    item_path : ItemPath → AstType
    unknown bool string rune absurd unit : AstType
    integer : Option Bool → Option ℕ → AstType
    int_reg int_ptr : Bool → AstType
    float : ℕ → AstType
    array : Located → ℕ → AstType
    slice : Located → AstType
    pointer reference : Located → Bool → AstType

  pub data Located : Type 0 where
    at : AstType → Location → Located

  pub data Types : Type 0 where
    nil : Types
    cons : Located → Types → Types

abbrev pub type_span : Located → Span
type_span (at ty loc) = loc.span

-- `Vec::push`
unfoldable pub push_type : Types → Located → Types
push_type nil t = cons t nil
push_type (cons u ts) t = cons u (push_type ts t)

pub data Sign : Type 0 where
  positive negative : Sign

pub data BinaryOp : Type 0 where
  mult div add sub mod_ pow bit_and bit_or bit_xor shl shr : BinaryOp

pub data CompOp : Type 0 where
  equal not_equal less greater less_equal greater_equal : CompOp

pub data UnaryOp : Type 0 where
  positive negative not : UnaryOp

pub data AssignKind : Type 0 where
  normal : AssignKind
  binary_op : BinaryOp → AssignKind

-- `Attribute`, `Vis`, `BlockColor` and `CallConv`
pub data Attribute : Type 0 where
  const async unsafe : Attribute

pub data Vis : Type 0 where
  file_local package_ exposed : Vis

pub data BlockColor : Type 0 where
  unsafe async const : BlockColor

pub data CallConv : Type 0 where
  crunch c : CallConv

pub data Dest : Type 0 where
  native_lib package_ relative : Dest

pub data Exposure : Type 0 where
  none : StrT → Exposure
  all : Exposure
  items : List (ItemPath × StrT) → Exposure

pub record FuncArg : Type 0 where
  pub name : StrT
  pub ty : Located
  pub loc : Location

-- `Option<Locatable<Vec<Locatable<&Type>>>>`
abbrev pub Generics : Type 0
Generics = Option (Types × Location)
