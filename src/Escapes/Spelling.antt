-- ===== src/Escapes/Spelling.antt =====
-- How a literal may spell a character: the forms of escape sequence, and what each stands for.
use crunch_lang.Prelude.{
  suc, codes, ◌==◌, if◌then◌else◌, ℕ, ◌+◌, ◌*◌, ◌≡◌, ◌≢◌, Option, some, none, List, [], ◌∷◌, ◌++◌,
  length, Text,
}
use crunch_lang.Escapes.Post.{IsScalar}

-- One spelling of one character. A numeric form holds the digits between its braces.
pub data Spelling : Type 0 where
  plain : ℕ → Spelling
  backslash double_quote single_quote newline carriage_return tab nul : Spelling
  hex hex_16 hex_32 oct bin : Text → Spelling

-- The place of a character in an alphabet whose first character has the number `i`.
abbrev pub position : Text → ℕ → ℕ → Option ℕ
position [] i c = none
position (b ∷ cs) i c = if c == b then some i else position cs (suc i) c

-- What a character stands for as a digit.
unfoldable pub hex_value : ℕ → Option ℕ
hex_value c = elim (position (codes "0123456789abcdef") 0 c) [
  | some d ↦ some d
  | none ↦ position (codes "ABCDEF") 10 c
]

abbrev pub octal_value : ℕ → Option ℕ
octal_value c = position (codes "01234567") 0 c

abbrev pub binary_value : ℕ → Option ℕ
binary_value c = position (codes "01") 0 c

-- The positional value of digits, the first one the most significant.
abbrev pub value_from : ℕ → (ℕ → Option ℕ) → ℕ → Text → Option ℕ
value_from base digit acc [] = some acc
value_from base digit acc (c ∷ cs) = elim (digit c) [
  | some d ↦ value_from base digit (acc * base + d) cs
  | none ↦ none
]

-- The digits are `count` in number and spell the character `v`.
abbrev pub Numeral : ℕ → (ℕ → Option ℕ) → ℕ → Text → ℕ → Type 0
Numeral base digit count ds v =
    (length ds ≡ count) × (value_from base digit 0 ds ≡ some v) × IsScalar v

-- The spelling is a legal one of the character `v`.
abbrev pub Means : Spelling → ℕ → Type 0
Means (plain c) v = (c ≢ 0x5c) × (v ≡ c)
Means Spelling.backslash v = v ≡ 0x5c
Means Spelling.double_quote v = v ≡ b'"'
Means Spelling.single_quote v = v ≡ 0x27
Means Spelling.newline v = v ≡ 10
Means Spelling.carriage_return v = v ≡ 13
Means Spelling.tab v = v ≡ 9
Means Spelling.nul v = v ≡ 0
Means (hex ds) v = Numeral 16 hex_value 2 ds v
Means (hex_16 ds) v = Numeral 16 hex_value 4 ds v
Means (hex_32 ds) v = Numeral 16 hex_value 8 ds v
Means (oct ds) v = Numeral 8 octal_value 3 ds v
Means (bin ds) v = Numeral 2 binary_value 8 ds v

abbrev braces : ℕ → Text → Text
braces letter ds = 0x5c ∷ letter ∷ b'{' ∷ (ds ++ b'}' ∷ [])

-- The characters of a spelling, as they stand in the source.
abbrev pub render : Spelling → Text
render (plain c) = c ∷ []
render Spelling.backslash = 0x5c ∷ 0x5c ∷ []
render Spelling.double_quote = 0x5c ∷ b'"' ∷ []
render Spelling.single_quote = 0x5c ∷ 0x27 ∷ []
render Spelling.newline = 0x5c ∷ b'n' ∷ []
render Spelling.carriage_return = 0x5c ∷ b'r' ∷ []
render Spelling.tab = 0x5c ∷ b't' ∷ []
render Spelling.nul = 0x5c ∷ b'0' ∷ []
render (hex ds) = braces b'x' ds
render (hex_16 ds) = braces b'u' ds
render (hex_32 ds) = braces b'U' ds
render (oct ds) = braces b'o' ds
render (bin ds) = braces b'b' ds

abbrev pub render_all : List Spelling → Text
render_all [] = []
render_all (p ∷ ps) = render p ++ render_all ps

-- The spellings, one by one, mean the characters of the text.
abbrev pub MeanAll : List Spelling → Text → Type 0
MeanAll [] [] = Unit
MeanAll [] (v ∷ vs) = ⊥
MeanAll (p ∷ ps) [] = ⊥
MeanAll (p ∷ ps) (v ∷ vs) = Means p v × MeanAll ps vs
