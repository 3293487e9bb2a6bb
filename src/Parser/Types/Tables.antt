-- ===== src/Parser/Types/Tables.antt =====
-- crates/crunch-parser/src/parser/types.rs: the tables that direct the parsing of types.
use crunch_lang.Prelude.{
  ℕ, Bool, true, false, Option, none, some, [], ◌∷◌, Text, codes, eq_text, all, ◌==◌, ◌&&◌, ◌||◌,
  if◌then◌else◌,
}
use crunch_lang.Token.{
  TokenType, Token, Span, merge, ident, bang, left_paren, function, type, const, ampersand, star,
  pipe, if_,
}
use crunch_lang.Ast.{location, AstType, Located, at}
use crunch_lang.Parser.Core.{Context, Parser, Parse}

pub data TypePrecedence : Type 0 where
  and or ternary : TypePrecedence

abbrev pub precedence : TypePrecedence → ℕ
precedence TypePrecedence.and = 6
precedence TypePrecedence.or = 4
precedence TypePrecedence.ternary = 1

-- `TypePrecedence::try_from`
abbrev pub type_precedence_of : TokenType → Option TypePrecedence
type_precedence_of ampersand = some TypePrecedence.and
type_precedence_of pipe = some TypePrecedence.or
type_precedence_of if_ = some TypePrecedence.ternary
type_precedence_of function = some TypePrecedence.ternary
type_precedence_of _ = none

abbrev pub precedence_or_zero : Option TypePrecedence → ℕ
precedence_or_zero none = 0
precedence_or_zero (some c) = precedence c

abbrev pub precedence_at : Option Token → ℕ
precedence_at none = 0
precedence_at (some t) = precedence_or_zero (type_precedence_of t.ty)

-- `type_precedence`
unfoldable pub type_precedence : Parser → ℕ
type_precedence p = precedence_at p.peek

-- The functions that `type_prefix` gives for a kind of token.
pub data TypePrefix : Type 0 where
  named negation grouping function_pointer trait_object const_parameter reference raw_pointer :
      TypePrefix

abbrev pub type_prefix_of : TokenType → Option TypePrefix
type_prefix_of ident = some TypePrefix.named
type_prefix_of bang = some TypePrefix.negation
type_prefix_of left_paren = some TypePrefix.grouping
type_prefix_of function = some TypePrefix.function_pointer
type_prefix_of type = some TypePrefix.trait_object
type_prefix_of const = some TypePrefix.const_parameter
type_prefix_of ampersand = some TypePrefix.reference
type_prefix_of star = some TypePrefix.raw_pointer
type_prefix_of _ = none

-- Whether `type_infix` gives a function, of which there is one.
abbrev pub is_type_infix : TokenType → Bool
is_type_infix ampersand = true
is_type_infix pipe = true
is_type_infix _ = false

-- The names of types that stand for themselves.
unfoldable pub builtin : Text → Option AstType
builtin s =
    if eq_text s (codes "str")
    then some AstType.string
    else if eq_text s (codes "rune")
    then some AstType.rune
    else if eq_text s (codes "bool")
    then some AstType.bool
    else if eq_text s (codes "unit")
    then some AstType.unit
    else if eq_text s (codes "absurd")
    then some AstType.absurd
    else if eq_text s (codes "ureg") || eq_text s (codes "ireg")
    then some (AstType.int_reg (eq_text s (codes "ireg")))
    else if eq_text s (codes "uptr") || eq_text s (codes "iptr")
    then some (AstType.int_ptr (eq_text s (codes "iptr")))
    else none

-- A letter with a number behind it.
unfoldable pub is_sized : (ℕ → Bool) → ℕ → Text → Bool
is_sized is_numeric letter [] = false
is_sized is_numeric letter (c ∷ []) = false
is_sized is_numeric letter (c ∷ d ∷ t) = (c == letter) && all is_numeric (d ∷ t)

-- The functions that recurse under a guard, at the number of frames that the limit still allows.
pub record TypeCalls : Type 0 where
  pub frames : ℕ
  pub ascribed_type : Parse Located
  pub ascribed_type_internal : ℕ → Parse Located
  pub type_prefix : TypePrefix → Token → Parse Located
  pub type_infix : Token → Located → Parse Located

abbrev pub located : Context → AstType → Span → Span → Located
located x ty a b = at ty (location (merge a b) x.file)
