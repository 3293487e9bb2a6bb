-- ===== src/Escapes/Bounds.antt =====
-- Bounds on what the numeric escapes read: no number that they compute overflows.
use native.Mathlib.Nat.{pow-suc, pow-zero, one-le-pow}
use crunch_lang.Prelude.{
  ℕ, zero, suc, ◌+◌, ◌*◌, ◌^◌, ◌≤◌, ◌<◌, ◌≡◌, refl, Option, some, none, [], ◌∷◌, arith, Bool-cases,
  inl, inr, length, ◌==◌, Text,
}
use crunch_lang.Escapes.{
  Chars, chars, Stream, is_scalar, pop, next, brace, hex_digit, octal_digit, binary_digit, accept,
  number, from_u32, u8_mod, scalar_or_error, scalar_or_panic, ◌>>=◌, ◌>>◌,
}
use crunch_lang.Escapes.Post.{
  IsScalar, At, Reads, returns, raises, Reads-bind, Reads-weaken, checked-Reads,
}

pop-Reads :
    (r : Text) (i total : ℕ) → At total (chars r i) → Reads total (length r) IsScalar (pop r i)
unfolding pop
pop-Reads [] i total e = raises (omega arith) (omega arith)
pop-Reads (c ∷ r) i total e = returns (omega arith, e.1.1) (omega arith) e.1.0

pub next-Reads :
    (s : Chars) (total : ℕ) → At total s → Reads total (length s.rest) IsScalar (next s)
unfolding next
next-Reads s total e = pop-Reads s.rest s.index total e

brace-Reads :
    (b : ℕ) (s : Chars) (total : ℕ)
    → At total s
    → Reads total (length s.rest) (λ _. Unit {0}) (brace b s)
unfolding brace
brace-Reads b s total e = Reads-bind (next-Reads s total e) λ c s' e' l _.
    elim (Bool-cases (c == b)) [
      | inl p ↦ rw p (returns e' l tt)
      | inr p ↦ rw p (raises (omega arith) (omega arith))
    ]

-- Every value that a digit ladder accepts is below the base.
abbrev pub Below : ℕ → (ℕ → Option ℕ) → Type 0
Below base digit = (c d : ℕ) → digit c ≡ some d → d < base

pub hex_digit-Below : Below 16 hex_digit
unfolding hex_digit
hex_digit-Below c d h = ground arith

pub octal_digit-Below : Below 8 octal_digit
unfolding octal_digit
octal_digit-Below c d h = ground arith

pub binary_digit-Below : Below 2 binary_digit
unfolding binary_digit
binary_digit-Below c d h = ground arith

accept-Reads :
    (base : ℕ) (o : Option ℕ) (s : Chars) (total : ℕ)
    → At total s
    → Reads total (length s.rest) (λ d. o ≡ some d) (accept base o s)
accept-Reads base none s total e = raises (omega arith) (omega arith)
accept-Reads base (some d) s total e = returns e (omega arith) refl

module _ (m base : ℕ) (digit : ℕ → Option ℕ) (below : Below base digit) (big : 1 < base) where
  -- One place of a numeral fits if the number so far leaves room for it, and so does its weight.
  place :
      (d i acc : ℕ)
      → d < base
      → acc + base ^ suc i ≤ m
      → (acc + d * base ^ i + base ^ i ≤ m) × (base ^ i < m) × (1 ≤ base ^ i)
  place d i acc h k =
      let pos = one-le-pow i base (omega arith) in
      let k' : acc + base ^ i * base ≤ m = rw (pow-suc base i) at k in
      (grind arith, grind arith, pos)

  -- A numeral of `i` places fits below `m` when the places do, so no step overflows.
  number-Reads :
      (i acc : ℕ) (s : Chars) (total : ℕ)
      → At total s
      → acc + base ^ i ≤ m
      → Reads total (length s.rest) (λ n. n < m) (number m base digit i acc s)
  unfolding number
  number-Reads zero acc s total e h =
      returns e (omega arith) (let h' : acc + 1 ≤ m = rw (pow-zero base) at h in omega arith)
  number-Reads (suc i) acc s total e h = Reads-bind (next-Reads s total e) λ c s₁ e₁ l₁ _.
      Reads-bind (accept-Reads base (digit c) s₁ total e₁) λ d s₂ e₂ l₂ hd.
        let (fits, weight, pos) = place d i acc (below c d hd) h in
        Reads-bind (checked-Reads m (base ^ i) s₂ total weight e₂) λ p s₃ e₃ l₃ hp.
          Reads-bind (checked-Reads m (d * p) s₃ total (rw hp (omega arith)) e₃) λ t s₄ e₄ l₄ ht.
            Reads-bind (checked-Reads m (acc + t) s₄ total (rw (ht, hp) (omega arith)) e₄)
              λ acc' s₅ e₅ l₅ ha.
                Reads-weaken (number-Reads i acc' s₅ total e₅ (rw (ha, ht, hp) fits)) (omega arith)

pub from_u32-Reads_error :
    (letter start n : ℕ) (s : Chars) (total : ℕ)
    → At total s
    → start ≤ s.index
    → Reads total (length s.rest) IsScalar (scalar_or_error letter start n s)
unfolding from_u32
from_u32-Reads_error letter start n s total e h = elim (Bool-cases (is_scalar n)) [
  | inl p ↦ rw (p, scalar_or_error) (returns e (omega arith) p)
  | inr p ↦ rw (p, scalar_or_error) (raises (omega arith) (omega arith))
]

byte-IsScalar : (n : ℕ) → n < u8_mod → IsScalar n
unfolding is_scalar
byte-IsScalar n h = ground arith

pub from_u32-Reads_panic :
    (n : ℕ) (s : Chars) (total : ℕ)
    → At total s
    → n < u8_mod
    → Reads total (length s.rest) IsScalar (scalar_or_panic n s)
unfolding from_u32
from_u32-Reads_panic n s total e h =
    rw (byte-IsScalar n h, scalar_or_panic) (returns e (omega arith) (byte-IsScalar n h))

-- The shape that the five numeric escapes share: braces round a numeral, then a last step.
pub braced-Reads :
    (m base : ℕ) (digit : ℕ → Option ℕ) (count : ℕ) (finish : ℕ → Stream ℕ) (s : Chars) (total : ℕ)
    → Below base digit
    → 1 < base
    → base ^ count ≤ m
    → ((n : ℕ) (s' : Chars)
        → At total s'
        → length s'.rest ≤ length s.rest
        → n < m
        → Reads total (length s'.rest) IsScalar (finish n s'))
    → At total s
    → Reads total
        (length s.rest)
        IsScalar
        ((brace b'{' >> (number m base digit count 0 >>= λ n. brace b'}' >> finish n)) s)
braced-Reads m base digit count finish s total below big room last e =
    Reads-bind (brace-Reads b'{' s total e) λ _ s₁ e₁ l₁ _.
      Reads-bind (number-Reads m base digit below big count 0 s₁ total e₁ (omega arith))
        λ n s₂ e₂ l₂ h.
          Reads-bind (brace-Reads b'}' s₂ total e₂)
            λ _ s₃ e₃ l₃ _. Reads-weaken (last n s₃ e₃ (omega arith) h) (omega arith)

-- What every numeric escape does: it reads forward and returns a character, or raises an error.
abbrev pub ReadsScalar : Stream ℕ → Type 0
ReadsScalar p = (s : Chars) (total : ℕ) → At total s → Reads total (length s.rest) IsScalar (p s)
