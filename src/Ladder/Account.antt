-- ===== src/Ladder/Account.antt =====
-- What the variables of lowered code weigh against the counter of the ladder: an interface, whose
-- laws are those of a weight that grows with the counter.
use crunch_lang.Prelude.{ℕ, suc, ◌≤◌, ◌<◌, arith, ◌≡◌}
use crunch_lang.Hir.{Var, user, auto}

-- `Weighs x c d`: what is lowered while the counter goes from `c` to `d` weighs `x`.
pub record Account : Type 1 where
  pub join : ℕ → ℕ → ℕ
  pub declares : Var → ℕ
  pub uses : Var → ℕ
  pub Weighs : ℕ → ℕ → ℕ → Type 0
  pub assoc : (x y z : ℕ) → join (join x y) z ≡ join x (join y z)
  pub left_zero : (x : ℕ) → join 0 x ≡ x
  pub right_zero : (x : ℕ) → join x 0 ≡ x
  pub forth : {x c d : ℕ} → Weighs x c d → c ≤ d
  pub idle : {c d : ℕ} → c ≤ d → Weighs 0 c d
  pub early : {x c d e : ℕ} → c ≤ d → Weighs x d e → Weighs x c e
  pub late : {x c d e : ℕ} → Weighs x c d → d ≤ e → Weighs x c e
  pub seq : {x y c d e : ℕ} → Weighs x c d → Weighs y d e → Weighs (join x y) c e
  pub swapped : {x y c d e : ℕ} → Weighs x c d → Weighs y d e → Weighs (join y x) c e
  pub declared : {c : ℕ} → Weighs (declares (auto c)) c (suc c)
  pub used : {c d : ℕ} → c < d → Weighs (uses (auto c)) d d
  pub user_declared : {v c : ℕ} → Weighs (declares (user v)) c c
  pub user_used : {v c : ℕ} → Weighs (uses (user v)) c c

module _ (a : Account) where
  open a use {uses, Weighs, idle, late, early}

  pub nothing : {c : ℕ} → Weighs 0 c c
  nothing {c} = idle (omega arith)

  -- The counter did not move behind it, or in front of it.
  pub kept : {x c d e : ℕ} → Weighs x c d → e ≡ d → Weighs x c e
  kept p e = late p (omega arith)

  pub after : {x c d e : ℕ} → d ≡ c → Weighs x d e → Weighs x c e
  after e p = early (omega arith) p

  -- a variable that may be used wherever the counter is at least `d`
  abbrev pub IsNamed : Var → ℕ → Type 0
  IsNamed v d = (e : ℕ) → d ≤ e → Weighs (uses v) e e
