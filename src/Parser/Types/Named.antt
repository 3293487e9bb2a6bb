-- ===== src/Parser/Types/Named.antt =====
-- crates/crunch-parser/src/parser/types.rs: types that begin with an identifier, and lists of types.
use crunch_lang.Prelude.{
  ℕ, zero, suc, ◌+◌, ◌^◌, ◌%◌, Bool, true, false, Option, none, some, [], ◌∷◌, codes, eq_text, drop,
  if◌then◌else◌,
}
use crunch_lang.Token.{Token, newline, int, right_paren, left_brace, right_brace, semicolon, comma}
use crunch_lang.Ast.{
  ItemPath, positive, negative, LiteralVal, Literal, literal, AstType, Located, Types, nil,
  push_type,
}
use crunch_lang.Parser.Core.{
  Context, Parse, ◌>>=◌, ◌>>◌, pure, fail, panics, out_of_fuel, token_location, negative_array_len,
  width_out_of_range, WidthKind, unsigned, signed,
}
use crunch_lang.Parser.Tokens.{left, peek_is, eat}
use crunch_lang.Parser.Literal.{sees, item_path, parse_literal}
use crunch_lang.Parser.Types.Tables.{builtin, is_sized, TypeCalls, located}

module _ (x : Context) (c : TypeCalls) where
  -- The types of a tuple or of bounds: `while parser.peek()?.ty() != RightBrace`.
  unfoldable pub type_list : ℕ → Types → Parse Types
  unfolding peek_is eat push_type
  type_list zero types = λ p. out_of_fuel
  type_list (suc fuel) types = do
    let more = (do
      ty ← c.ascribed_type
      let types' = push_type types ty
      let again = (do eat x comma []; type_list fuel types')
      comma_next ← peek_is x comma
      if comma_next then again else pure types')
    done ← peek_is x right_brace
    if done then pure types else more

  -- The same for the traits of a trait object, where newlines are skipped.
  unfoldable pub trait_list : ℕ → Types → Parse Types
  unfolding peek_is eat push_type
  trait_list zero types = λ p. out_of_fuel
  trait_list (suc fuel) types = do
    let skip = (do eat x newline []; trait_list fuel types)
    let more = (do
      ty ← c.ascribed_type
      let types' = push_type types ty
      let again = (do eat x comma []; trait_list fuel types')
      comma_next ← peek_is x comma
      if comma_next then again else pure types')
    let inside = (do blank ← peek_is x newline; if blank then skip else more)
    done ← peek_is x right_brace
    if done then pure types else inside

  -- The parameters of a function pointer, which nothing separates.
  unfoldable pub param_list : ℕ → Types → Parse Types
  unfolding peek_is eat push_type
  param_list zero types = λ p. out_of_fuel
  param_list (suc fuel) types = do
    let skip = (do eat x newline []; param_list fuel types)
    let more = (do ty ← c.ascribed_type; param_list fuel (push_type types ty))
    let inside = (do blank ← peek_is x newline; if blank then skip else more)
    done ← peek_is x right_paren
    if done then pure types else inside

  -- `.into_integer().expect(...)`, and the check of the sign; the length is cut to 64 bits.
  unfoldable pub array_length : Token → Literal → Parse ℕ
  array_length t (literal (LiteralVal.integer positive n) ty loc) = pure (n % 2 ^ 64)
  array_length t (literal (LiteralVal.integer negative n) ty loc) =
      fail negative_array_len (token_location x t)
  array_length t (literal val ty loc) = panics

  unfoldable pub array_type : Token → Parse Located
  unfolding eat parse_literal array_length
  array_type t = do
    eat x left_brace (newline ∷ [])
    element ← c.ascribed_type
    eat x semicolon (newline ∷ [])
    digits ← eat x int (newline ∷ [])
    lit ← parse_literal x c.frames digits
    len ← array_length digits lit
    e ← eat x right_brace (newline ∷ [])
    pure (located x (AstType.array element len) t.span e.span)

  unfoldable pub slice_type : Token → Parse Located
  unfolding eat
  slice_type t = do
    eat x left_brace (newline ∷ [])
    element ← c.ascribed_type
    e ← eat x right_brace (newline ∷ [])
    pure (located x (AstType.slice element) t.span e.span)

  unfoldable pub tuple_type : Token → Parse Located
  unfolding eat type_list
  tuple_type t = do
    eat x left_brace (newline ∷ [])
    types ← (λ p. type_list (left p + 1) nil p)
    e ← eat x right_brace (newline ∷ [])
    pure (located x (AstType.tuple types) t.span e.span)

  -- `lexical_core::parse` of the number behind the letter
  abbrev pub width_of : WidthKind → (ℕ → AstType) → Token → Option ℕ → Parse Located
  width_of kind make t none = fail (width_out_of_range kind (drop 1 t.source)) (token_location x t)
  width_of kind make t (some w) = pure (located x (make w) t.span t.span)

  unfoldable pub sized_type : WidthKind → (ℕ → AstType) → Token → Parse Located
  sized_type kind make t = width_of kind make t (x.parse_u16 (drop 1 t.source))

  unfoldable pub bounded_type : Token → ItemPath → Parse Located
  unfolding eat type_list
  bounded_type t path = do
    eat x left_brace []
    bounds ← (λ p. type_list (left p + 1) nil p)
    e ← eat x right_brace []
    pure (located x (AstType.bounded path bounds) t.span e.span)

  unfoldable pub custom_type : Token → Parse Located
  unfolding item_path bounded_type
  custom_type t = do
    path ← item_path x c.frames (x.intern t.source)
    is_bounded ← sees left_brace
    if is_bounded
        then bounded_type t path
        else pure (located x (AstType.item_path path) t.span t.span)

  abbrev pub integer_of : Bool → ℕ → AstType
  integer_of is_signed w = AstType.integer (some is_signed) (some w)

  -- The arms of the identifiers that no builtin name takes.
  unfoldable pub shaped_type : Token → Parse Located
  unfolding array_type slice_type tuple_type is_sized sized_type custom_type
  shaped_type t =
      if eq_text t.source (codes "arr")
      then array_type t
      else if eq_text t.source (codes "slice")
      then slice_type t
      else if eq_text t.source (codes "tup")
      then tuple_type t
      else if is_sized x.is_numeric b'u' t.source
      then sized_type unsigned (integer_of false) t
      else if is_sized x.is_numeric b'i' t.source
      then sized_type signed (integer_of true) t
      else if is_sized x.is_numeric b'f' t.source
      then sized_type WidthKind.float AstType.float t
      else custom_type t

  abbrev pub builtin_or_shaped : Token → Option AstType → Parse Located
  builtin_or_shaped t none = shaped_type t
  builtin_or_shaped t (some ty) = pure (located x ty t.span t.span)

  unfoldable pub named_type : Token → Parse Located
  unfolding builtin shaped_type
  named_type t = builtin_or_shaped t (builtin t.source)
