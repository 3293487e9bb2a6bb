-- ===== src/Parser/Runs.antt =====
-- Postconditions on the parser's calls: how many tokens a call leaves, and what it returns.
use crunch_lang.Parser.Core.{ErrorHandler}
use crunch_lang.Prelude.{ℕ, ◌≤◌, ◌≡◌, refl, Bool, true, false, arith, if◌then◌else◌}
use crunch_lang.Ast.{Location}
use crunch_lang.Parser.Core.{Parser, Outcome, ok, err, Parse, bind, Error}
use crunch_lang.Parser.Tokens.{left}

-- `S` is the error handler that the calls began with.
module _ (S : ErrorHandler) where
  -- At most `n` tokens are left, and no error was recorded since.
  abbrev pub At : ℕ → Parser → Type 0
  At n p = (left p ≤ n) × (p.error_handler.errors ≡ S.errors) × (p.error_handler.fatal ≡ S.fatal)

  -- The call neither panics nor runs out of fuel: it returns a value of `P` with at most `n`
  -- tokens left, or an error with at most `m` tokens left.
  pub data Runs {ℓ κ} {A : Type ℓ} (n m : ℕ) (P : A → Type κ) : Outcome A → Type (ℓ ⊔ κ) where
    returns : {a : A} {p : Parser} → At n p → P a → Runs n m P (ok a p)
    raises : {e : Error} {loc : Location} {p : Parser} → At m p → Runs n m P (err e loc p)

module _ {ℓ κ ℓ' κ'} {S : ErrorHandler} {A : Type ℓ} {B : Type ℓ'} {P : A → Type κ}
    {Q : B → Type κ'} where
  pub Runs-bind :
      {n n' m : ℕ} {r : Outcome A} {f : A → Parser → Outcome B}
      → Runs S n m P r
      → ((a : A) (p : Parser) → At S n p → P a → Runs S n' m Q (f a p))
      → Runs S n' m Q (bind r f)
  Runs-bind (returns h x) k = k _ _ h x
  Runs-bind (raises h) k = raises h

  -- A call within a call, which may leave more on an error.
  pub Runs-then :
      {n n' m m' : ℕ} {r : Outcome A} {f : A → Parser → Outcome B}
      → Runs S n m' P r
      → m' ≤ m
      → ((a : A) (p : Parser) → At S n p → P a → Runs S n' m Q (f a p))
      → Runs S n' m Q (bind r f)
  Runs-then (returns h x) l k = k _ _ h x
  Runs-then (raises h) l k = raises (omega arith, h.1, h.2)

module _ {ℓ κ} {S : ErrorHandler} {A : Type ℓ} {P : A → Type κ} where
  pub Runs-if :
      (b : Bool) {n m : ℕ} (x y : Parse A) (p : Parser)
      → (b ≡ true → Runs S n m P (x p))
      → (b ≡ false → Runs S n m P (y p))
      → Runs S n m P ((if b then x else y) p)
  Runs-if true x y p hx hy = hx refl
  Runs-if false x y p hx hy = hy refl

  pub Runs-weaken :
      {n m n' m' : ℕ} {r : Outcome A} → Runs S n m P r → n ≤ n' → m ≤ m' → Runs S n' m' P r
  Runs-weaken (returns h x) a b = returns (omega arith, h.1, h.2) x
  Runs-weaken (raises h) a b = raises (omega arith, h.1, h.2)

  pub Runs-map {κ'} :
      {Q : A → Type κ'} {n m : ℕ} {r : Outcome A}
      → Runs S n m P r
      → ((a : A) → P a → Q a)
      → Runs S n m Q r
  Runs-map (returns h x) f = returns h (f _ x)
  Runs-map (raises h) f = raises h

  pub Runs-done : {k n m : ℕ} {a : A} {p : Parser} → At S k p → k ≤ n → P a → Runs S n m P (ok a p)
  Runs-done h l x = returns (omega arith, h.1, h.2) x
