-- ===== src/Ladder/Runs.antt =====
-- Postconditions on the operations of a ladder.
use crunch_lang.Prelude.{Option, none, some, ◌≡◌, subst}
use crunch_lang.Ladder.State.{Ladder, Lower, bind}

-- A panic, or a value and a ladder that meet `Q`.
pub data Runs {A : Type 0} (Q : A → Ladder → Type 0) : Option (A × Ladder) → Type 0 where
  panics : Runs Q none
  returns : {a : A} {s : Ladder} → Q a s → Runs Q (some (a, s))

infixl 1 ◌▷◌
pub ◌▷◌ :
    {A B : Type 0} {P : A → Ladder → Type 0} {Q : B → Ladder → Type 0} {r : Option (A × Ladder)}
    {f : A → Lower B}
    → Runs P r
    → ((a : A) (s : Ladder) → P a s → Runs Q (f a s))
    → Runs Q (bind r f)
panics ▷ k = panics
returns p ▷ k = k _ _ p

pub weaken :
    {A : Type 0} {P Q : A → Ladder → Type 0} {r : Option (A × Ladder)}
    → ((a : A) (s : Ladder) → P a s → Q a s)
    → Runs P r
    → Runs Q r
weaken g panics = panics
weaken g (returns p) = returns (g _ _ p)

-- The same as a function of the result.
abbrev Meets : {A : Type 0} → (A → Ladder → Type 0) → Option (A × Ladder) → Type 0
Meets Q none = Unit
Meets Q (some (a, s)) = Q a s

meets : {A : Type 0} {Q : A → Ladder → Type 0} {r : Option (A × Ladder)} → Runs Q r → Meets Q r
meets panics = tt
meets (returns q) = q

pub of_returned :
    {A : Type 0} {Q : A → Ladder → Type 0} {r : Option (A × Ladder)} {a : A} {s : Ladder}
    → Runs Q r
    → r ≡ some (a, s)
    → Q a s
of_returned {Q = Q} h e = subst (Meets Q) e (meets h)

pub any : {A : Type 0} (r : Option (A × Ladder)) → Runs (λ a s. Unit) r
any none = panics
any (some (a, s)) = returns tt
