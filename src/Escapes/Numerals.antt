-- ===== src/Escapes/Numerals.antt =====
-- The numeric escapes read the numbers that their digits spell.
use native.Mathlib.Nat.{pow-suc, pow-zero, one-le-pow}
use crunch_lang.Prelude.{
  ℕ, suc, ◌+◌, ◌*◌, ◌^◌, ◌<◌, ◌≤◌, ◌≡◌, refl, ◌≢◌, Option, some, none, [], ◌∷◌, ◌++◌, append_assoc,
  arith, length, Text, inl, inr, Option-cases, ==_iff, lt→ltb,
}
use crunch_lang.Escapes.{
  ok, chars, Stream, ◌>>=◌, ◌>>◌, brace, number, hex_digit, octal_digit, binary_digit, from_u32,
  scalar_or_error, scalar_or_panic, u8_mod, u32_mod, byte, unicode_16, unicode_32, octal, binary,
  numeric_escape,
}
use crunch_lang.Escapes.Post.{IsScalar}
use crunch_lang.Escapes.Bounds.{Below, hex_digit-Below, octal_digit-Below, binary_digit-Below}
use crunch_lang.Escapes.Digits.{hex_Numeral, octal_Numeral, binary_Numeral}
use crunch_lang.Escapes.Spelling.{hex_value, octal_value, binary_value, value_from, Numeral}

-- From the text `t` the stream reads `v` and leaves `r`, wherever in the source it stands.
abbrev pub Yields {ℓ} : {A : Type ℓ} → Stream A → Text → A → Text → Type ℓ
Yields p t v r = (k : ℕ) → (j : ℕ) × (p (chars t k) ≡ ok (v, chars r j))

Yields-bind :
    {A B : Type 0} (p : Stream A) (q : A → Stream B) {t t' r : Text} {a : A} {b : B}
    → Yields p t a t'
    → Yields (q a) t' b r
    → Yields (p >>= q) t b r
Yields-bind p q hp hq k = let (j, e) = hp k in let (l, e') = hq j in (l, rw e e')

brace-Yields : (b : ℕ) (r : Text) → Yields (brace b) (b ∷ r) tt r
unfolding brace
brace-Yields b r k = (k + 1, rw ((==_iff b b).1 refl))

none-ne-some : {n : ℕ} → ◌≢◌ {A = Option ℕ} none (some n)
none-ne-some = cc

module _ (m base : ℕ) (digit : ℕ → Option ℕ) (below : Below base digit) (big : 1 < base) where
  -- Behind the digits worth `h` there is room for `i + 1` more places; so there is behind the next
  -- digit `d` for `i`, and no number that the step computes reaches `m`.
  record Place (h d i acc : ℕ) : Type 0 where
    fits : (h * base + d + 1) * base ^ i ≤ m
    next_acc : acc + d * base ^ i ≡ (h * base + d) * base ^ i
    weight : base ^ i < m
    term : d * base ^ i < m
    sum : acc + d * base ^ i < m

  place :
      (h d i acc : ℕ)
      → d < base
      → (h + 1) * base ^ suc i ≤ m
      → acc ≡ h * base ^ suc i
      → Place h d i acc
  place h d i acc l k e =
      let pos = one-le-pow i base (omega arith) in
      let k' : (h + 1) * (base ^ i * base) ≤ m = rw (pow-suc base i) at k in
      let e' : acc ≡ h * (base ^ i * base) = rw (pow-suc base i) at e in
      let f : (h * base + d + 1) * base ^ i ≤ m = grind arith in
      let a : acc + d * base ^ i ≡ (h * base + d) * base ^ i = omega arith in
      record { fits = f; next_acc = a; weight = grind arith; term = grind arith; sum = grind arith }

  number-Yields :
      (ds : Text) (h n : ℕ) (r : Text)
      → (h + 1) * base ^ length ds ≤ m
      → value_from base digit h ds ≡ some n
      → (acc : ℕ) → acc ≡ h * base ^ length ds
      → Yields (number m base digit (length ds) acc) (ds ++ r) n r
  unfolding number
  number-Yields [] h n r fits e acc ea k =
      let ea' : acc ≡ h * 1 = rw (pow-zero base) at ea in
      let eh : h ≡ n = cc in let en : acc ≡ n = omega arith in (k, rw en)
  number-Yields (c ∷ cs) h n r fits e acc ea k = elim (Option-cases (digit c)) [
    | inl bad ↦ absurd (none-ne-some (rw (bad, value_from) at e))
    | inr (d, good) ↦
        let p = place h d (length cs) acc (below c d good) fits ea in
        let (j, e') =
          number-Yields cs (h * base + d) n r p.fits (rw (good, value_from) at e)
            (acc + d * base ^ length cs) p.next_acc (k + 1) in
        (
          j,
          rw
              (
                good,
                lt→ltb (base ^ length cs) m p.weight,
                lt→ltb (d * base ^ length cs) m p.term,
                lt→ltb (acc + d * base ^ length cs) m p.sum,
              )
              e',
        )
  ]

-- Braces round the digits of `v` read as `v`.
braced-Yields :
    (m base : ℕ) (digit : ℕ → Option ℕ) (count : ℕ) (finish : ℕ → Stream ℕ) (ds r : Text) (v : ℕ)
    → Below base digit
    → 1 < base
    → 1 * base ^ count ≤ m
    → Yields (finish v) r v r
    → Numeral base digit count ds v
    → Yields
        (brace b'{' >> (number m base digit count 0 >>= λ n. brace b'}' >> finish n))
        (b'{' ∷ (ds ++ b'}' ∷ r))
        v
        r
braced-Yields m base digit count finish ds r v below big room last (len, val, _) =
    Yields-bind (brace b'{') _ (brace-Yields b'{' _) (
      Yields-bind (number m base digit count 0) _
        (rw len at (
          number-Yields m base digit below big ds 0 v (b'}' ∷ r) (rw len room) val 0 (omega arith)))
        (Yields-bind (brace b'}') _ (brace-Yields b'}' r) last))

error-Yields :
    (letter start v : ℕ) (r : Text) → IsScalar v → Yields (scalar_or_error letter start v) r v r
unfolding from_u32
error-Yields letter start v r h k = (k, rw (h, scalar_or_error))

panic-Yields : (v : ℕ) (r : Text) → IsScalar v → Yields (scalar_or_panic v) r v r
unfolding from_u32
panic-Yields v r h k = (k, rw (h, scalar_or_panic))

-- The text of a numeric form, from its brace on.
abbrev body : Text → Text → Text
body ds r = b'{' ∷ ((ds ++ b'}' ∷ []) ++ r)

module _ (ds r : Text) (v : ℕ) where
  pub hex-Yields : Numeral 16 hex_value 2 ds v → Yields (numeric_escape b'x') (body ds r) v r
  unfolding numeric_escape byte
  hex-Yields n = rw append_assoc (
      braced-Yields u8_mod 16 hex_digit 2 scalar_or_panic ds r v hex_digit-Below (omega arith)
        (omega arith) (panic-Yields v r n.2) (hex_Numeral 2 v ds n))

  pub bin-Yields : Numeral 2 binary_value 8 ds v → Yields (numeric_escape b'b') (body ds r) v r
  unfolding numeric_escape binary
  bin-Yields n = rw append_assoc (
      braced-Yields u8_mod 2 binary_digit 8 scalar_or_panic ds r v binary_digit-Below (omega arith)
        (omega arith) (panic-Yields v r n.2) (binary_Numeral 8 v ds n))

  pub hex_16-Yields : Numeral 16 hex_value 4 ds v → Yields (numeric_escape b'u') (body ds r) v r
  unfolding numeric_escape unicode_16
  hex_16-Yields n = rw append_assoc λ k.
      braced-Yields u32_mod 16 hex_digit 4 (scalar_or_error b'u' k) ds r v hex_digit-Below
        (omega arith) (omega arith) (error-Yields b'u' k v r n.2) (hex_Numeral 4 v ds n) k

  pub hex_32-Yields : Numeral 16 hex_value 8 ds v → Yields (numeric_escape b'U') (body ds r) v r
  unfolding numeric_escape unicode_32
  hex_32-Yields n = rw append_assoc λ k.
      braced-Yields u32_mod 16 hex_digit 8 (scalar_or_error b'U' k) ds r v hex_digit-Below
        (omega arith) (omega arith) (error-Yields b'U' k v r n.2) (hex_Numeral 8 v ds n) k

  pub oct-Yields : Numeral 8 octal_value 3 ds v → Yields (numeric_escape b'o') (body ds r) v r
  unfolding numeric_escape octal
  oct-Yields n = rw append_assoc λ k.
      braced-Yields u32_mod 8 octal_digit 3 (scalar_or_error b'o' k) ds r v octal_digit-Below
        (omega arith) (omega arith) (error-Yields b'o' k v r n.2) (octal_Numeral 3 v ds n) k
