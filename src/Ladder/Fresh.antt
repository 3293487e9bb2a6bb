-- ===== src/Ladder/Fresh.antt =====
-- The variables that lowering makes: each is declared once, and the counter bounds their numbers.
use crunch_lang.Prelude.{
  ℕ, suc, ◌+◌, ◌≤◌, max, Option, none, some, List, [], ◌∷◌, arith, ◌≡◌, ◌==◌, ltb, if◌then◌else◌,
  subst,
}
use crunch_lang.Ast as Ast
use crunch_lang.Hir.{Var, user, auto, Item}
use crunch_lang.Hir.Tally.{tally_items}
use crunch_lang.Ladder.{Ladder, Context, new, Recall, keep_item, lower}
use crunch_lang.Ladder.Account.{Account, nothing}
use crunch_lang.Ladder.Runs.{returns, ◌▷◌, of_returned}
use crunch_lang.Ladder.Weight.{Costs}
use crunch_lang.Ladder.Weight.Visit.{visit_item-Costs, weight_item}

module _ (a : Account) (recall : Recall) where
  open a use {join, declares, uses, Weighs, seq, left_zero}

  keep_item-Weighs :
      (i : Option Item) (is : List Item) {c d e : ℕ}
      → Weighs (weight_item a recall i) c d
      → Weighs (tally_items join declares uses is) d e
      → Weighs (tally_items join declares uses (keep_item i is)) c e
  unfolding tally_items
  keep_item-Weighs none is {c} {d} {e} p q = subst (λ x. Weighs x c e) (left_zero _) (seq p q)
  keep_item-Weighs (some i) is p q = seq p q

  pub lower-Costs :
      (items : List Ast.Item) → Costs a (tally_items join declares uses) (lower recall items)
  unfolding lower tally_items
  lower-Costs [] s = returns (nothing a)
  lower-Costs (i ∷ items) s = visit_item-Costs a recall i s ▷ λ x s₁ p.
      lower-Costs items s₁ ▷ λ xs s₂ q. returns (keep_item-Weighs x xs p q)

-- Whether a variable is the compiler's with the number `n`.
abbrev pub is_auto : ℕ → Var → ℕ
is_auto n (user name) = 0
is_auto n (auto k) = if n == k then 1 else 0

-- One more than the number of a variable of the compiler.
abbrev pub reach : Var → ℕ
reach (user name) = 0
reach (auto k) = suc k

-- How often lowered items declare the compiler's variable `n`.
unfoldable pub declarations : ℕ → List Item → ℕ
unfolding tally_items
declarations n items = tally_items (λ x y. x + y) (is_auto n) (λ v. 0) items

-- The least number that is above every variable of the compiler in lowered items.
unfoldable pub variable_bound : List Item → ℕ
unfolding tally_items
variable_bound items = tally_items max reach reach items

abbrev below : ℕ → ℕ → ℕ
below n c = if ltb n c then 1 else 0

below_one : (x d n : ℕ) → x + below n 0 ≤ below n d → x ≤ 1
below_one x d n h = ground arith

-- Declarations of `n`, of which the counter allows one, when it passes `n`.
counts : ℕ → Account
counts n = record {
  join = λ x y. x + y;
  declares = is_auto n;
  uses = λ v. 0;
  Weighs = λ x c d. (c ≤ d) × (x + below n c ≤ below n d);
  assoc = λ x y z. omega arith;
  left_zero = λ x. omega arith;
  right_zero = λ x. omega arith;
  forth = λ p. p.0;
  idle = λ h. (h, ground arith);
  early = λ h p. (omega arith, ground arith);
  late = λ p h. (omega arith, ground arith);
  seq = λ p q. (omega arith, omega arith);
  swapped = λ p q. (omega arith, omega arith);
  declared = (omega arith, ground arith);
  used = λ h. (omega arith, omega arith);
  user_declared = (omega arith, omega arith);
  user_used = (omega arith, omega arith);
}

-- Numbers of variables, which the counter bounds.
bounds : Account
bounds = record {
  join = max;
  declares = reach;
  uses = reach;
  Weighs = λ x c d. (c ≤ d) × (x ≤ d);
  assoc = λ x y z. omega arith;
  left_zero = λ x. omega arith;
  right_zero = λ x. omega arith;
  forth = λ p. p.0;
  idle = λ h. (h, omega arith);
  early = λ h p. (omega arith, omega arith);
  late = λ p h. (omega arith, omega arith);
  seq = λ p q. (omega arith, omega arith);
  swapped = λ p q. (omega arith, omega arith);
  declared = (omega arith, omega arith);
  used = λ h. (omega arith, omega arith);
  user_declared = (omega arith, omega arith);
  user_used = (omega arith, omega arith);
}

module _ (recall : Recall) (items : List Ast.Item) (context : Context) where
  -- When items are lowered from the start, no compiler's variable is declared twice in the result.
  pub declarations-lower :
      (n : ℕ) (is : List Item) (s : Ladder)
      → lower recall items (new context) ≡ some (is, s)
      → declarations n is ≤ 1
  unfolding declarations counts
  declarations-lower n is s e =
      below_one _ s.variable_counter n
        (of_returned (lower-Costs (counts n) recall items (new context)) e).1

  -- When items are lowered from the start, the number of every compiler's variable in the result is
  -- below the counter of the ladder.
  pub variable_bound-lower :
      (is : List Item) (s : Ladder)
      → lower recall items (new context) ≡ some (is, s)
      → variable_bound is ≤ s.variable_counter
  unfolding variable_bound bounds
  variable_bound-lower is s e = (of_returned (lower-Costs bounds recall items (new context)) e).1
