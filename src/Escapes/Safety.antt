-- ===== src/Escapes/Safety.antt =====
-- The escape decoder returns characters and errors within the text; it never panics.
use crunch_lang.Prelude.{
  ◌||◌, ℕ, zero, suc, ◌+◌, ◌≤◌, ◌<◌, refl, [], ◌∷◌, ◌++◌, arith, length, ◌==◌, Text,
}
use crunch_lang.Escapes.{
  Outcome, ok, err, Chars, chars, Stream, bind, is_scalar, hex_digit, octal_digit, binary_digit,
  u8_mod, u32_mod, scalar_or_error, scalar_or_panic, numeric_escape, rune_escape, string_escape,
  unescape_char, unescape_loop, unescape_string, rune_char, unescape_rune, byte, unicode_16,
  unicode_32, octal, binary,
}
use crunch_lang.Escapes.{EscapeError}
use crunch_lang.Escapes.Post.{
  IsScalar, AllScalar, At, Reads, returns, raises, Reads-bind, Reads-if, Reads-weaken,
}
use crunch_lang.Escapes.Bounds.{
  next-Reads, hex_digit-Below, octal_digit-Below, binary_digit-Below, from_u32-Reads_error,
  from_u32-Reads_panic, braced-Reads, ReadsScalar,
}

byte-Reads : ReadsScalar byte
unfolding byte
byte-Reads s total e =
    braced-Reads u8_mod 16 hex_digit 2 scalar_or_panic s total hex_digit-Below (omega arith)
      (omega arith) (λ n s' e' _ h. from_u32-Reads_panic n s' total e' h) e

binary-Reads : ReadsScalar binary
unfolding binary
binary-Reads s total e =
    braced-Reads u8_mod 2 binary_digit 8 scalar_or_panic s total binary_digit-Below (omega arith)
      (omega arith) (λ n s' e' _ h. from_u32-Reads_panic n s' total e' h) e

unicode_16-Reads :
    (s : Chars) (total : ℕ)
    → At total s
    → Reads total (length s.rest) IsScalar (unicode_16 s.index s)
unfolding unicode_16
unicode_16-Reads s total e =
    braced-Reads u32_mod 16 hex_digit 4 (scalar_or_error b'u' s.index) s total hex_digit-Below
      (omega arith) (omega arith)
      (λ n s' e' l h. from_u32-Reads_error b'u' s.index n s' total e' (omega arith)) e

unicode_32-Reads :
    (s : Chars) (total : ℕ)
    → At total s
    → Reads total (length s.rest) IsScalar (unicode_32 s.index s)
unfolding unicode_32
unicode_32-Reads s total e =
    braced-Reads u32_mod 16 hex_digit 8 (scalar_or_error b'U' s.index) s total hex_digit-Below
      (omega arith) (omega arith)
      (λ n s' e' l h. from_u32-Reads_error b'U' s.index n s' total e' (omega arith)) e

octal-Reads :
    (s : Chars) (total : ℕ) → At total s → Reads total (length s.rest) IsScalar (octal s.index s)
unfolding octal
octal-Reads s total e =
    braced-Reads u32_mod 8 octal_digit 3 (scalar_or_error b'o' s.index) s total octal_digit-Below
      (omega arith) (omega arith)
      (λ n s' e' l h. from_u32-Reads_error b'o' s.index n s' total e' (omega arith)) e

numeric_escape-Reads : (c : ℕ) → ReadsScalar (numeric_escape c)
unfolding numeric_escape
numeric_escape-Reads c s total e =
    Reads-if (c == b'x') (λ _. byte-Reads s total e)
      λ _.
        Reads-if (c == b'u') (λ _. unicode_16-Reads s total e)
          λ _.
            Reads-if (c == b'U') (λ _. unicode_32-Reads s total e)
              λ _.
                Reads-if (c == b'o') (λ _. octal-Reads s total e)
                  λ _.
                    Reads-if (c == b'b') (λ _. binary-Reads s total e)
                      λ _. raises (omega arith) (omega arith)

rune_escape-Reads : (c : ℕ) → IsScalar c → ReadsScalar (rune_escape c)
unfolding rune_escape is_scalar
rune_escape-Reads c h s total e =
    Reads-if (c == 0x5c || (c == b'"' || c == 0x27)) (λ _. returns e (omega arith) h)
      λ _.
        Reads-if (c == b'n') (λ _. returns e (omega arith) refl)
          λ _.
            Reads-if (c == b'r') (λ _. returns e (omega arith) refl)
              λ _.
                Reads-if (c == b't') (λ _. returns e (omega arith) refl)
                  λ _. numeric_escape-Reads c s total e

string_escape-Reads : (c : ℕ) → IsScalar c → ReadsScalar (string_escape c)
unfolding string_escape is_scalar
string_escape-Reads c h s total e =
    Reads-if (c == b'0') (λ _. returns e (omega arith) refl) λ _. rune_escape-Reads c h s total e

AllScalar-append : (t : Text) (c : ℕ) → AllScalar t → IsScalar c → AllScalar (t ++ c ∷ [])
AllScalar-append [] c h k = (k, tt)
AllScalar-append (x ∷ t) c h k = (h.0, AllScalar-append t c h.1 k)

-- The rounds that follow keep a string of characters.
abbrev Continues : ℕ → ℕ → (Text → Stream Text) → Type 0
Continues total left again =
    (out : Text) (s : Chars)
    → At total s
    → length s.rest < left
    → AllScalar out
    → Reads total left AllScalar (again out s)

unescape_char-Reads :
    (again : Text → Stream Text) (out r : Text) (i total left : ℕ)
    → Continues total left again
    → AllScalar out
    → At total (chars r i)
    → length r < suc left
    → Reads total (suc left) AllScalar (unescape_char again out r i)
unfolding unescape_char
unescape_char-Reads again out [] i total left k h e l = returns e (omega arith) h
unescape_char-Reads again out (c ∷ r) i total left k h e l =
    let s = chars r (i + 1) in
    let e' : At total s = (omega arith, e.1.1) in
    Reads-if (c == 0x5c)
      (λ _. Reads-bind (next-Reads s total e') λ x s₁ e₁ l₁ hx.
        Reads-bind (string_escape-Reads x hx s₁ total e₁) λ v s₂ e₂ l₂ hv.
          Reads-weaken (k (out ++ v ∷ []) s₂ e₂ (omega arith) (AllScalar-append out v h hv))
            (omega arith))
      (λ _.
        Reads-weaken (k (out ++ c ∷ []) s e' (omega arith) (AllScalar-append out c h e.1.0))
          (omega arith))

unescape_loop-Reads : (fuel total : ℕ) → Continues total fuel (unescape_loop fuel)
unfolding unescape_loop
unescape_loop-Reads zero total out s e l h = absurd (omega arith)
unescape_loop-Reads (suc fuel) total out s e l h =
    unescape_char-Reads (unescape_loop fuel) out s.rest s.index total fuel
      (unescape_loop-Reads fuel total) h e l

-- What a decoder gives for a text of `total` characters: a value of `P`, or an error about a range
-- of the text; never a panic, and never an end of fuel.
pub data Decodes {A : Type 0} (total : ℕ) (P : A → Type 0) : Outcome A → Type 0 where
  decoded : {a : A} → P a → Decodes total P (ok a)
  rejected : {e : EscapeError} {lo hi : ℕ} → lo ≤ hi → hi ≤ total → Decodes total P (err e lo hi)

Decodes-value :
    {A : Type 0} {total left : ℕ} {P : A → Type 0} {r : Outcome (A × Chars)}
    → Reads total left P r
    → Decodes total P (bind r λ (a, _). ok a)
Decodes-value (returns e l p) = decoded p
Decodes-value (raises a b) = rejected a b

-- Decoding a string literal of any characters gives a string of characters, or an error whose
-- range lies within the literal: no arithmetic overflows, no `unwrap` fails, and the loop ends.
pub unescape_string-Decodes :
    (t : Text) → AllScalar t → Decodes (length t) AllScalar (unescape_string t)
unfolding unescape_string
unescape_string-Decodes t h =
    Decodes-value (
      unescape_loop-Reads (length t + 1) (length t) [] (chars t 0) (omega arith, h) (omega arith)
        tt)

rune_char-Reads : ReadsScalar rune_char
unfolding rune_char
rune_char-Reads s total e = Reads-bind (next-Reads s total e) λ c s₁ e₁ l hc.
    Reads-if (c == 0x5c)
      (λ _.
        Reads-bind (next-Reads s₁ total e₁)
          λ x s₂ e₂ l₂ hx. Reads-weaken (rune_escape-Reads x hx s₂ total e₂) (omega arith))
      (λ _. returns e₁ (omega arith) hc)

-- Decoding a rune literal gives a character, or an error whose range lies within the literal.
pub unescape_rune-Decodes : (t : Text) → AllScalar t → Decodes (length t) IsScalar (unescape_rune t)
unfolding unescape_rune
unescape_rune-Decodes t h = Decodes-value (rune_char-Reads (chars t 0) (length t) (omega arith, h))
