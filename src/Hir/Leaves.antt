-- ===== src/Hir/Leaves.antt =====
-- crates/crunch-shared/src/trees/hir.rs: variables, types and their names, and the arguments,
-- members and declarations that hold no expressions.
use crunch_lang.Prelude.{ℕ, Bool, true, false, Option, List}
use crunch_lang.Ast.{StrT, ItemPath, Location, Attribute, Vis, CallConv}

-- A variable of the program, or one of the compiler's with its number.
pub data Var : Type 0 where
  user : StrT → Var
  auto : ℕ → Var

abbrev pub TypeId : Type 0
TypeId = ℕ

-- `variable` is a type that is another type's.
pub data TypeKind : Type 0 where
  unknown : TypeKind
  integer : Option Bool → Option ℕ → TypeKind
  string bool unit absurd : TypeKind
  array : TypeId → ℕ → TypeKind
  slice : TypeId → TypeKind
  reference pointer : TypeId → Bool → TypeKind
  variable : TypeId → TypeKind

-- `Type`
pub record HirType : Type 0 where
  pub kind : TypeKind
  pub loc : Location

abbrev pub hir_type_at : TypeKind → Location → HirType
hir_type_at k l = record { kind = k; loc = l }

unfoldable pub is_unit : TypeKind → Bool
is_unit TypeKind.unit = true
is_unit _ = false

unfoldable pub is_unknown : TypeKind → Bool
is_unknown TypeKind.unknown = true
is_unknown _ = false

unfoldable pub is_array : TypeKind → Bool
is_array (TypeKind.array element length) = true
is_array _ = false

unfoldable pub is_slice : TypeKind → Bool
is_slice (TypeKind.slice element) = true
is_slice _ = false

-- The tests of a `Type`. Its `is_slice` asks whether it is an array.
unfoldable pub type_is_unit : HirType → Bool
unfolding is_unit
type_is_unit ty = is_unit ty.kind

unfoldable pub type_is_unknown : HirType → Bool
unfolding is_unknown
type_is_unknown ty = is_unknown ty.kind

unfoldable pub type_is_array : HirType → Bool
unfolding is_array
type_is_array ty = is_array ty.kind

unfoldable pub type_is_slice : HirType → Bool
unfolding is_array
type_is_slice ty = is_array ty.kind

pub record FuncArg : Type 0 where
  pub name : Var
  pub kind : TypeId
  pub loc : Location

pub record ExternFunc : Type 0 where
  pub name : ItemPath
  pub vis : Vis
  pub args : List FuncArg × Location
  pub ret : TypeId
  pub callconv : CallConv
  pub loc : Location

pub record TypeMember : Type 0 where
  pub name : StrT
  pub ty : TypeId
  pub attrs : List Attribute
  pub loc : Location

pub record TypeDecl : Type 0 where
  pub generics : Option (List TypeId)
  pub members : List TypeMember
