-- ===== src/Escapes/Post.antt =====
-- Postconditions on the escape decoder's streams: what a call returns, what it leaves of the
-- input, and where the errors that it raises point.
use crunch_lang.Prelude.{
  Text, [], ◌∷◌, ℕ, ◌+◌, ◌≤◌, ◌<◌, ◌≡◌, refl, Bool, true, false, arith, if◌then◌else◌, length,
  lt→ltb,
}
use crunch_lang.Escapes.{Outcome, ok, err, Chars, Stream, bind, EscapeError, checked, is_scalar}

abbrev pub IsScalar : ℕ → Type 0
IsScalar n = is_scalar n ≡ true

abbrev pub AllScalar : Text → Type 0
AllScalar [] = Unit
AllScalar (c ∷ t) = IsScalar c × AllScalar t

-- A state in a text of `total` characters.
abbrev pub At : ℕ → Chars → Type 0
At total s = (s.index + length s.rest ≡ total) × AllScalar s.rest

-- A call from a state whose text ends at `total` and of which `left` characters remain: it
-- returns a value of `P` and reads forward, or raises an error about a range within the text.
pub data Reads {ℓ κ} {A : Type ℓ} (total left : ℕ) (P : A → Type κ)
    : Outcome (A × Chars) → Type (ℓ ⊔ κ) where
  returns :
      {a : A} {s : Chars} → At total s → length s.rest ≤ left → P a → Reads total left P (ok (a, s))
  raises : {e : EscapeError} {lo hi : ℕ} → lo ≤ hi → hi ≤ total → Reads total left P (err e lo hi)

module _ {ℓ κ ℓ' κ'} {A : Type ℓ} {B : Type ℓ'} {P : A → Type κ} {Q : B → Type κ'} where
  pub Reads-bind :
      {total left left' : ℕ} {r : Outcome (A × Chars)} {q : A → Stream B}
      → Reads total left P r
      → ((a : A) (s : Chars)
          → At total s
          → length s.rest ≤ left
          → P a
          → Reads total left' Q (q a s))
      → Reads total left' Q (bind r λ (a, s). q a s)
  Reads-bind (returns e l p) k = k _ _ e l p
  Reads-bind (raises a b) k = raises a b

module _ {ℓ κ} {A : Type ℓ} {P : A → Type κ} where
  pub Reads-if :
      (b : Bool) {total left : ℕ} {x y : Outcome (A × Chars)}
      → (b ≡ true → Reads total left P x)
      → (b ≡ false → Reads total left P y)
      → Reads total left P (if b then x else y)
  Reads-if true hx hy = hx refl
  Reads-if false hx hy = hy refl

  pub Reads-weaken :
      {total left left' : ℕ} {r : Outcome (A × Chars)}
      → Reads total left P r
      → left ≤ left'
      → Reads total left' P r
  Reads-weaken (returns e l p) h = returns e (omega arith) p
  Reads-weaken (raises a b) h = raises a b

pub checked-Reads :
    (m n : ℕ) (s : Chars) (total : ℕ)
    → n < m
    → At total s
    → Reads total (length s.rest) (λ k. k ≡ n) (checked m n s)
checked-Reads m n s total h e = rw (lt→ltb n m h) (returns e (omega arith) refl)
