-- ===== src/Parser/Core.antt =====
-- crates/crunch-parser/src/parser/mod.rs and crates/crunch-shared/src/error.rs: the state of a
-- `Parser`, and `ParseResult` as a monad over it.
use crunch_lang.Prelude.{ℕ, Bool, true, Option, List, [], ◌∷◌, ◌++◌, Text}
use crunch_lang.Token.{TokenType, Token, TokenStream, span}
use crunch_lang.Ast.{Location, location, StrT}
use crunch_lang.Escapes.{EscapeError}

pub data LiteralKind : Type 0 where
  float int bool : LiteralKind

pub data WidthKind : Type 0 where
  unsigned signed float : WidthKind

-- `Error` and `SyntaxError`, as far as the modelled parts raise them. A text that the source
-- formats is represented by what goes into it.
pub data Error : Type 0 where
  end_of_file : Error
  recursion_limit : ℕ → ℕ → Error
  expected : TokenType → Text → Error
  expected_one_of : List TokenType → Text → Error
  expected_operator : List TokenType → TokenType → Error
  expected_binary expected_unary : TokenType → Error
  could_not_parse : TokenType → Error
  invalid_literal : LiteralKind → Error
  not_a_literal : TokenType → Error
  escape : EscapeError → Error
  negative_array_len : Error
  width_out_of_range : WidthKind → Text → Error
  too_many_errors : ℕ → Error
  invalid_top_level : TokenType → Error
  no_attributes_allowed no_decorators_allowed no_visibility_allowed : TokenType → Error
  missing_import mutable_constant : Error
  only_methods only_extern_funcs trailing_attributes expected_call_conv : Error
  only_variants expected_attribute : TokenType → Error
  unrecognized_call_conv : Text → Error

-- `ErrorHandler`; the parser's one warning is `TooManyUnderscores`.
pub record ErrorHandler : Type 0 where
  pub errors : List (Error × Location)
  pub warnings : List Location
  pub fatal : Bool

unfoldable pub push_err : Error → Location → ErrorHandler → ErrorHandler
push_err e loc h = record h { errors = h.errors ++ (e, loc) ∷ []; fatal = true }

unfoldable pub push_warning : Location → ErrorHandler → ErrorHandler
push_warning loc h = record h { warnings = h.warnings ++ loc ∷ [] }

-- What stays fixed while a file is parsed: the file's id and length, the stack's limit, the number
-- of errors that ends the parsing, and the functions of other crates and of the standard library that the parser calls. Interning normalizes
-- an identifier and gives its handle; the parsers of `lexical_core` take the radix first.
pub record Context : Type 0 where
  pub file : ℕ
  pub length : ℕ
  pub max_depth : ℕ
  pub max_errors : ℕ
  pub intern : Text → StrT
  pub parse_u128 : ℕ → Text → Option ℕ
  pub parse_f64 : ℕ → Text → Option ℕ
  pub negate_f64 : ℕ → ℕ
  pub parse_u16 : Text → Option ℕ
  pub is_numeric : ℕ → Bool
  pub to_bytes : Text → List ℕ

pub record Parser : Type 0 where
  pub token_stream : TokenStream
  pub next : Option Token
  pub peek : Option Token
  pub error_handler : ErrorHandler

-- How a call ends: with a value, with an error, by a panic (`unwrap`, `expect`, `unreachable!`), or
-- in the model only, out of fuel. The parser's state outlives an error.
pub data Outcome {ℓ} (A : Type ℓ) : Type ℓ where
  ok : A → Parser → Outcome A
  err : Error → Location → Parser → Outcome A
  panic out_of_fuel : Outcome A

abbrev pub Parse {ℓ} : Type ℓ → Type ℓ
Parse A = Parser → Outcome A

abbrev pub bind {ℓ κ} : {A : Type ℓ} {B : Type κ} → Outcome A → (A → Parser → Outcome B) → Outcome B
bind (ok a p) f = f a p
bind (err e loc p) f = err e loc p
bind panic f = panic
bind out_of_fuel f = out_of_fuel

module _ {ℓ κ} {A : Type ℓ} {B : Type κ} where
  infixl 1 ◌>>=◌ ◌>>◌
  abbrev pub ◌>>=◌ : Parse A → (A → Parse B) → Parse B
  ◌>>=◌ m f p = bind (m p) f

  abbrev pub ◌>>◌ : Parse A → Parse B → Parse B
  ◌>>◌ m n p = bind (m p) λ _. n

module _ {ℓ} {A : Type ℓ} where
  abbrev pub pure : A → Parse A
  pure a p = ok a p

  abbrev pub fail : Error → Location → Parse A
  fail e loc p = err e loc p

abbrev pub panics {ℓ} : {A : Type ℓ} → Parse A
panics p = panic

-- `CurrentFile::eof`
abbrev pub eof : Context → Location
eof x = location (span x.length x.length) x.file

abbrev pub token_location : Context → Token → Location
token_location x t = location t.span x.file

-- `unwrap` or `expect` on a result
abbrev pub unwrap {ℓ} : {A : Type ℓ} → Outcome A → Outcome A
unwrap (ok a p) = ok a p
unwrap (err e loc p) = panic
unwrap panic = panic
unwrap out_of_fuel = out_of_fuel
