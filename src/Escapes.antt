-- ===== src/Escapes.antt =====
-- crates/crunch-parser/src/parser/string_escapes.rs: escape sequences of string and rune literals.
mod Tests
pub mod Post
mod Bounds
pub mod Safety
pub mod Fuel
pub mod Spelling
mod Digits
mod Numerals
pub mod RoundTrip
use crunch_lang.Prelude.{
  ℕ, zero, suc, ◌+◌, ◌-◌, ◌*◌, ◌^◌, Bool, ◌&&◌, ◌||◌, Option, none, some, List, [], ◌∷◌, ◌++◌, Text,
  ltb, leb, ◌==◌, if◌then◌else◌, length,
}

-- The syntax errors that this file raises. The texts that the source formats are represented by
-- what they are made of: the digits that an escape admits, or its letter and number.
pub data EscapeError : Type 0 where
  unrecognized_escape_seq : ℕ → EscapeError
  missing_escape_braces : EscapeError
  missing_escape_specifier : EscapeError
  invalid_escape_characters : ℕ → EscapeError
  invalid_escape_seq : ℕ → ℕ → EscapeError

-- `Result<A, (Error, Range<usize>)>`, and the ways in which the code could fail to return: a panic
-- (an overflow, an `unwrap` of `None`), and a loop that is out of fuel in the model.
pub data Outcome {ℓ} (A : Type ℓ) : Type ℓ where
  ok : A → Outcome A
  err : EscapeError → ℕ → ℕ → Outcome A
  panic : Outcome A
  out_of_fuel : Outcome A

-- A `CharStream` with the index that the functions thread beside it.
pub record Chars : Type 0 where
  pub rest : Text
  pub index : ℕ

abbrev pub chars : Text → ℕ → Chars
chars r i = record { rest = r; index = i }

abbrev pub Stream {ℓ} : Type ℓ → Type ℓ
Stream A = Chars → Outcome (A × Chars)

abbrev pub bind {ℓ κ} : {A : Type ℓ} {B : Type κ} → Outcome A → (A → Outcome B) → Outcome B
bind (ok a) f = f a
bind (err e lo hi) f = err e lo hi
bind panic f = panic
bind out_of_fuel f = out_of_fuel

module _ {ℓ κ} {A : Type ℓ} {B : Type κ} where
  infixl 1 ◌>>=◌ ◌>>◌
  abbrev pub ◌>>=◌ : Stream A → (A → Stream B) → Stream B
  p >>= q = λ s. bind (p s) λ (a, s'). q a s'

  abbrev pub ◌>>◌ : Stream A → Stream B → Stream B
  p >> q = p >>= λ _. q

abbrev pub pure {ℓ} : {A : Type ℓ} → A → Stream A
pure a s = ok (a, s)

-- `CharStream::next`, on the characters that remain and the index
unfoldable pub pop : Text → ℕ → Outcome (ℕ × Chars)
pop [] i = err missing_escape_specifier i i
pop (c ∷ r) i = ok (c, chars r (i + 1))

unfoldable pub next : Stream ℕ
unfolding pop
next s = pop s.rest s.index

-- `missing_braces!`
abbrev pub missing_braces {ℓ} : {A : Type ℓ} → Stream A
missing_braces s = err missing_escape_braces (s.index - 1) s.index

-- `if queue.next(index)? != c { return missing_braces!(index); }`
unfoldable pub brace : ℕ → Stream (Unit {0})
unfolding next
brace b = do c ← next; if c == b then pure tt else missing_braces

-- An unsigned operation at a width below `m`, which panics on overflow.
abbrev pub checked : ℕ → ℕ → Stream ℕ
checked m n = if ltb n m then pure n else λ _. panic

-- The digits that an escape admits: what `digit` becomes in the source's ladders, `none` where
-- they return `InvalidEscapeCharacters`.
unfoldable pub hex_digit : ℕ → Option ℕ
hex_digit c =
    if leb b'0' c && leb c b'9'
    then some (c - b'0')
    else if leb b'a' c && leb c b'f'
    then some (c - b'a' + 10)
    else if leb b'A' c && leb c b'F'
    then some (c - b'A' + 10)
    else none

unfoldable pub octal_digit : ℕ → Option ℕ
octal_digit c = if leb b'0' c && leb c b'7' then some (c - b'0') else none

unfoldable pub binary_digit : ℕ → Option ℕ
binary_digit c = if c == b'0' || c == b'1' then some (c - b'0') else none

abbrev pub accept : ℕ → Option ℕ → Stream ℕ
accept base none = λ s. err (invalid_escape_characters base) s.index s.index
accept base (some d) = pure d

-- `for i in (0..n).rev() { ...; number += digit * base.pow(i); }` over integers below `m`.
unfoldable pub number : ℕ → ℕ → (ℕ → Option ℕ) → ℕ → ℕ → Stream ℕ
unfolding next
number m base digit zero acc = pure acc
number m base digit (suc i) acc = do
  c ← next
  d ← accept base (digit c)
  p ← checked m (base ^ i)
  t ← checked m (d * p)
  acc' ← checked m (acc + t)
  number m base digit i acc'

-- `char::from_u32`: surrogates and numbers past the last code point are no characters.
unfoldable pub is_scalar : ℕ → Bool
is_scalar n = ltb n 0xd800 || (leb 0xe000 n && leb n 0x10ffff)

-- `Rune::from_u32`
unfoldable pub from_u32 : ℕ → Option ℕ
unfolding is_scalar
from_u32 n = if is_scalar n then some n else none

abbrev pub u8_mod : ℕ
u8_mod = 2 ^ 8

abbrev pub u32_mod : ℕ
u32_mod = 2 ^ 32

-- `Rune::from_u32(number).ok_or(...)`
abbrev pub scalar_or_error : ℕ → ℕ → ℕ → Stream ℕ
scalar_or_error letter start n s = elim (from_u32 n) [
  | some r ↦ ok (r, s)
  | none ↦ err (invalid_escape_seq letter n) start s.index
]

-- `Rune::from_u32(number as u32).unwrap()`
abbrev pub scalar_or_panic : ℕ → Stream ℕ
scalar_or_panic n s = elim (from_u32 n) [ some r ↦ ok (r, s) | none ↦ panic ]

unfoldable pub unicode_16 : ℕ → Stream ℕ
unfolding brace number from_u32 hex_digit
unicode_16 start = do
  brace b'{'
  n ← number u32_mod 16 hex_digit 4 0
  brace b'}'
  scalar_or_error b'u' start n

unfoldable pub unicode_32 : ℕ → Stream ℕ
unfolding brace number from_u32 hex_digit
unicode_32 start = do
  brace b'{'
  n ← number u32_mod 16 hex_digit 8 0
  brace b'}'
  scalar_or_error b'U' start n

unfoldable pub byte : Stream ℕ
unfolding brace number from_u32 hex_digit
byte = do brace b'{'; n ← number u8_mod 16 hex_digit 2 0; brace b'}'; scalar_or_panic n

unfoldable pub octal : ℕ → Stream ℕ
unfolding brace number from_u32 octal_digit
octal start = do
  brace b'{'
  n ← number u32_mod 8 octal_digit 3 0
  brace b'}'
  scalar_or_error b'o' start n

unfoldable pub binary : Stream ℕ
unfolding brace number from_u32 binary_digit
binary = do brace b'{'; n ← number u8_mod 2 binary_digit 8 0; brace b'}'; scalar_or_panic n

-- The arms that the two matches on the character behind a backslash share, the last one included.
unfoldable pub numeric_escape : ℕ → Stream ℕ
unfolding byte unicode_16 unicode_32 octal binary
numeric_escape c s =
    if c == b'x'
    then byte s
    else if c == b'u'
    then unicode_16 s.index s
    else if c == b'U'
    then unicode_32 s.index s
    else if c == b'o'
    then octal s.index s
    else if c == b'b'
    then binary s
    else err (unrecognized_escape_seq c) (s.index - 1) s.index

-- The match of `unescape_rune`.
unfoldable pub rune_escape : ℕ → Stream ℕ
unfolding numeric_escape
rune_escape c s =
    if c == 0x5c || (c == b'"' || c == 0x27)
    then pure c s
    else if c == b'n'
    then pure 10 s
    else if c == b'r'
    then pure 13 s
    else if c == b't'
    then pure 9 s
    else numeric_escape c s

-- The match of `unescape_string`, which has one more arm.
unfoldable pub string_escape : ℕ → Stream ℕ
unfolding rune_escape
string_escape c s = if c == b'0' then pure 0 s else rune_escape c s

-- The body of `while let Ok(c) = queue.next(&mut index)`: `out` is the string built so far, and
-- `again` the rounds that follow.
unfoldable pub unescape_char : (Text → Stream Text) → Text → Text → ℕ → Outcome (Text × Chars)
unfolding next string_escape
unescape_char again out [] i = ok (out, chars [] i)
unescape_char again out (c ∷ r) i =
    let s = chars r (i + 1) in
    if c == 0x5c
    then (do e ← next; v ← string_escape e; again (out ++ v ∷ [])) s
    else again (out ++ c ∷ []) s

unfoldable pub unescape_loop : ℕ → Text → Stream Text
unfolding unescape_char
unescape_loop zero out s = out_of_fuel
unescape_loop (suc fuel) out s = unescape_char (unescape_loop fuel) out s.rest s.index

-- Every round of the loop reads a character, so the text's length bounds the rounds.
unfoldable pub unescape_string : Text → Outcome Text
unfolding unescape_loop
unescape_string t = bind (unescape_loop (length t + 1) [] (chars t 0)) λ (out, _). ok out

unfoldable pub rune_char : Stream ℕ
unfolding next rune_escape
rune_char s =
    bind (next s) λ (c, s'). if c == 0x5c then (do e ← next; rune_escape e) s' else pure c s'

unfoldable pub unescape_rune : Text → Outcome ℕ
unfolding rune_char
unescape_rune t = bind (rune_char (chars t 0)) λ (v, _). ok v
