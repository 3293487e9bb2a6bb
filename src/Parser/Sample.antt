-- ===== src/Parser/Sample.antt =====
-- A context and tokens for the tests: decimal numbers only, and names that stand for themselves by
-- their first letter.
use crunch_lang.Prelude.{
  ℕ, ◌+◌, ◌-◌, ◌*◌, Bool, Option, none, some, [], ◌∷◌, Text, ltb, leb, ◌&&◌, if◌then◌else◌, all,
}
use crunch_lang.Token.{TokenType, Token, span}
use crunch_lang.Parser.Core.{Context}

abbrev decimal_from : ℕ → Text → ℕ
decimal_from acc [] = acc
decimal_from acc (c ∷ t) = decimal_from (acc * 10 + (c - b'0')) t

abbrev digit : ℕ → Bool
digit c = leb b'0' c && leb c b'9'

abbrev decimal : Text → Option ℕ
decimal t = if all digit t then some (decimal_from 0 t) else none

abbrev below : ℕ → Option ℕ → Option ℕ
below m none = none
below m (some n) = if ltb n m then some n else none

-- Interning stands for a name by its first letter.
abbrev first_letter : Text → ℕ
first_letter [] = 0
first_letter (c ∷ t) = c

abbrev pub sample_context : Context
sample_context = record {
  file = 0;
  length = 100;
  max_depth = 50;
  max_errors = 3;
  intern = first_letter;
  parse_u128 = λ radix t. decimal t;
  parse_f64 = λ radix t. decimal t;
  negate_f64 = λ b. b;
  parse_u16 = λ t. below 65536 (decimal t);
  is_numeric = digit;
  to_bytes = λ t. t;
}

abbrev pub tok : TokenType → Text → ℕ → Token
tok k s i = record { ty = k; source = s; span = span i (i + 1) }
