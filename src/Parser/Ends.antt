-- ===== src/Parser/Ends.antt =====
-- Calls that end: with a value, with an error, or by a panic, and never out of fuel; and the number
-- of tokens that they pull.
pub mod Primitives
pub mod Good
pub mod Values
pub mod Control
pub mod Stmts
pub mod Functions
pub mod Decls
pub mod Items
use native.Mathlib.Numerals.{add-one}
use crunch_lang.Prelude.{
  ap, ℕ, zero, suc, ◌+◌, ◌-◌, ◌<◌, ◌≤◌, ◌≡◌, refl, ◌∙◌, Bool, true, false, Option, none, some, List,
  [], ◌∷◌, arith, if◌then◌else◌,
}
use crunch_lang.Token.{Token}
use crunch_lang.Ast.{Location}
use crunch_lang.Parser.Core.{
  Parser, ErrorHandler, Outcome, ok, err, panic, Parse, bind, Error, ◌>>=◌, pure, fail, panics,
}
use crunch_lang.Parser.Tokens.{left}
use crunch_lang.Parser.Loop.{Step, again, done, after, loop, while_loop}
use crunch_lang.Parser.Runs.{At, Runs, returns, raises}

-- Two error handlers have the same errors: only warnings may have been added.
pub record Same (h k : ErrorHandler) : Type 0 where
  pub same_errors : k.errors ≡ h.errors
  pub same_fatal : k.fatal ≡ h.fatal

pub Same-refl : {h : ErrorHandler} → Same h h
Same-refl = record { same_errors = refl; same_fatal = refl }

pub Same-trans : {h k l : ErrorHandler} → Same h k → Same k l → Same h l
Same-trans s t = record {
  same_errors = t.same_errors ∙ s.same_errors;
  same_fatal = t.same_fatal ∙ s.same_fatal;
}

abbrev pub weight : Bool → ℕ
weight true = 1
weight false = 0

At-Same : {s : ErrorHandler} {n : ℕ} (q : Parser) → At s n q → Same s q.error_handler
At-Same q u = record { same_errors = u.1; same_fatal = u.2 }

-- A call that began with at most `n` tokens left and the handler `h` ended: in a value, and a token
-- was pulled if `takes` says so of the value, in an error with no more tokens left, or in a panic.
-- The handler has the errors that it had.
pub data Ends {A : Type 0} (takes : A → Bool) (n : ℕ) (h : ErrorHandler) : Outcome A → Type 0 where
  value :
      {a : A} {q : Parser}
      → left q + weight (takes a) ≤ n
      → Same h q.error_handler
      → Ends takes n h (ok a q)
  error :
      {e : Error} {loc : Location} {q : Parser}
      → left q ≤ n
      → Same h q.error_handler
      → Ends takes n h (err e loc q)
  crash : Ends takes n h panic

abbrev pub Takes : {A : Type 0} → (A → Bool) → Parse A → Type 0
Takes takes f = (n : ℕ) (p : Parser) → left p ≤ n → Ends takes n p.error_handler (f p)

-- The call ends; the call ends and pulls a token whenever it gives a value.
abbrev pub Halts : {A : Type 0} → Parse A → Type 0
Halts f = Takes (λ _. false) f

abbrev pub Pulls : {A : Type 0} → Parse A → Type 0
Pulls f = Takes (λ _. true) f

-- Each round that goes round again pulls a token.
abbrev pub goes_on : {St A : Type 0} → (A → Bool) → Step St A → Bool
goes_on takes (again s) = true
goes_on takes (done a) = takes a

-- Rounds of a loop whose values are measured by `takes`, and of one that only ends.
abbrev pub RoundsTo : {St A : Type 0} → (A → Bool) → (St → Parse (Step St A)) → Type 0
RoundsTo {St} takes body = (s : St) → Takes (goes_on takes) (body s)

abbrev pub Rounds : {St A : Type 0} → (St → Parse (Step St A)) → Type 0
Rounds body = RoundsTo (λ _. false) body

weight-one : (t : Bool) → weight t ≤ 1
weight-one true = omega arith
weight-one false = omega arith

Ends-from :
    {A : Type 0} {takes : A → Bool} {n : ℕ} {h k : ErrorHandler} {r : Outcome A}
    → Same h k
    → Ends takes n k r
    → Ends takes n h r
Ends-from s (value u t) = value u (Same-trans s t)
Ends-from s (error u t) = error u (Same-trans s t)
Ends-from s crash = crash

Ends-pulled :
    {A : Type 0} {takes : A → Bool} {k n : ℕ} {h : ErrorHandler} {r : Outcome A}
    → Ends (λ _. false) k h r
    → k + 1 ≤ n
    → Ends takes n h r
Ends-pulled {takes = takes} (value u s) l = value (omega (arith, weight-one (takes _))) s
Ends-pulled (error u s) l = error (omega arith) s
Ends-pulled crash l = crash

Ends-weaken :
    {A : Type 0} {takes : A → Bool} {k n : ℕ} {h : ErrorHandler} {r : Outcome A}
    → Ends takes k h r
    → k ≤ n
    → Ends takes n h r
Ends-weaken (value u s) l = value (omega arith) s
Ends-weaken (error u s) l = error (omega arith) s
Ends-weaken crash l = crash

module _ {A B : Type 0} {n : ℕ} {h : ErrorHandler} {takes : B → Bool} {f : A → Parse B} where
  Ends-then :
      {r : Outcome A} → Ends (λ _. true) n h r → ((a : A) → Halts (f a)) → Ends takes n h (bind r f)
  Ends-then (value u s) k = Ends-from s (Ends-pulled (k _ _ _ (omega arith)) u)
  Ends-then (error u s) k = error u s
  Ends-then crash k = crash

  Ends-bind :
      {r : Outcome A}
      → Ends (λ _. false) n h r
      → ((a : A) → Takes takes (f a))
      → Ends takes n h (bind r f)
  Ends-bind (value u s) k = Ends-from s (k _ n _ (omega arith))
  Ends-bind (error u s) k = error u s
  Ends-bind crash k = crash

module _ {A B : Type 0} {takes : B → Bool} {m : Parse A} {f : A → Parse B} where
  infixr 1 ◌▸◌ ◌▹◌
  -- A call that pulls a token, and one that ends behind it.
  pub ◌▸◌ : Pulls m → ((a : A) → Halts (f a)) → Takes takes (λ p. bind (m p) f)
  ◌▸◌ h k n p l = Ends-then (h n p l) k

  -- A call that ends, and what follows it.
  pub ◌▹◌ : Halts m → ((a : A) → Takes takes (f a)) → Takes takes (λ p. bind (m p) f)
  ◌▹◌ h k n p l = Ends-bind (h n p l) k

module _ {A : Type 0} {takes : A → Bool} where
  pub Takes-if :
      (b : Bool) {f g : Parse A}
      → Takes takes f
      → Takes takes g
      → Takes takes (λ p. (if b then f else g) p)
  Takes-if true h k = h
  Takes-if false h k = k

  pub Takes-pure : (a : A) → takes a ≡ false → Takes takes (λ p. ok a p)
  Takes-pure a e n p l = value (omega (arith, ap weight e)) Same-refl

  pub Takes-fail : (e : Error) (loc : Location) → Takes takes (λ p. err e loc p)
  Takes-fail e loc n p l = error l Same-refl

  pub Takes-panics : Takes takes (λ p. panic)
  Takes-panics n p l = crash

  pub Takes-Pulls : {f : Parse A} → Pulls f → Takes takes f
  Takes-Pulls h n p l = weaken (h n p l)
    where
      weaken : {s : ErrorHandler} {r : Outcome A} → Ends (λ _. true) n s r → Ends takes n s r
      weaken (value u e) = value (omega (arith, weight-one (takes _))) e
      weaken (error u e) = error u e
      weaken crash = crash

module _ {A : Type 0} where
  pub Halts-pure : (a : A) → Halts (λ p. ok a p)
  Halts-pure a = Takes-pure a refl

  -- What the postconditions of the calls that never panic give.
  pub Runs-Halts :
      {P : A → Type 0} {f : Parse A}
      → ((s : ErrorHandler) (n : ℕ) (p : Parser) → At s n p → Runs s n n P (f p))
      → Halts f
  Runs-Halts h n p l = weaken (h p.error_handler n p (l, refl, refl))
    where
      weaken :
          {P : A → Type 0} {s : ErrorHandler} {r : Outcome A}
          → Runs s n n P r
          → Ends (λ _. false) n s r
      weaken (returns {p = q} u x) = value (omega arith) (At-Same q u)
      weaken (raises {p = q} u) = error u.0 (At-Same q u)

  pub Runs-Pulls :
      {f : Parse A}
      → ((s : ErrorHandler) (n : ℕ) (p : Parser) → At s n p → Runs s (n - 1) n (λ _. 1 ≤ n) (f p))
      → Pulls f
  Runs-Pulls h n p l = weaken (h p.error_handler n p (l, refl, refl))
    where
      weaken :
          {s : ErrorHandler} {r : Outcome A}
          → Runs s (n - 1) n (λ _. 1 ≤ n) r
          → Ends (λ _. true) n s r
      weaken (returns {p = q} u x) = value (omega arith) (At-Same q u)
      weaken (raises {p = q} u) = error u.0 (At-Same q u)

Takes-weak :
    {A : Type 0} {takes : A → Bool} {n : ℕ} {h : ErrorHandler} {r : Outcome A}
    → Ends takes n h r
    → Ends (λ _. false) n h r
Takes-weak (value u s) = value (omega arith) s
Takes-weak (error u s) = error u s
Takes-weak crash = crash

-- What follows a round of a loop.
Ends-after :
    {St A : Type 0} {takes : A → Bool} {n : ℕ} {h : ErrorHandler} {rounds : St → Parse A}
    {r : Outcome (Step St A)}
    → Ends (goes_on takes) n h r
    → ((s : St) (m : ℕ) (q : Parser)
        → left q ≤ m
        → m + 1 ≤ n
        → Ends takes m q.error_handler (rounds s q))
    → Ends takes n h (bind r (after rounds))
Ends-after (value {a = again s} {q = q} u e) k =
    Ends-from e (Ends-weaken (k s (left q) q (omega arith) u) (omega arith))
Ends-after (value {a = done a} u e) k = value u e
Ends-after (error u e) k = error u e
Ends-after crash k = crash

-- What follows a first round that pulls a token whatever it gives.
pub Ends-first :
    {St A : Type 0} {n : ℕ} {h : ErrorHandler} {rounds : St → Parse A} {r : Outcome (Step St A)}
    → Ends (λ _. true) n h r
    → ((s : St) (m : ℕ) (q : Parser)
        → left q ≤ m
        → m + 1 ≤ n
        → Ends (λ _. false) m q.error_handler (rounds s q))
    → Ends (λ _. true) n h (bind r (after rounds))
Ends-first (value {a = again s} {q = q} u e) k =
    Ends-from e (Ends-pulled (k s (left q) q (omega arith) u) u)
Ends-first (value {a = done a} u e) k = value u e
Ends-first (error u e) k = error u e
Ends-first crash k = crash

module _ {St A : Type 0} {takes : A → Bool} (body : St → Parse (Step St A))
    (h : RoundsTo takes body) where
  pub loop-Takes :
      (fuel : ℕ) (s : St) (n : ℕ) (p : Parser)
      → left p ≤ n
      → n < fuel
      → Ends takes n p.error_handler (loop body fuel s p)
  unfolding loop
  loop-Takes zero s n p l k = absurd (omega arith)
  loop-Takes (suc fuel) s n p l k =
      Ends-after (h s n p l) λ s' m q l' u. loop-Takes fuel s' m q l' (omega arith)

  -- A loop whose first round pulls a token pulls one.
  pub while_loop-first :
      (s : St) (n : ℕ) (p : Parser)
      → left p ≤ n
      → Ends (λ _. true) (left p) p.error_handler (body s p)
      → Ends (λ _. true) n p.error_handler (while_loop body s p)
  unfolding while_loop loop
  while_loop-first s n p l u = rw add-one (
      Ends-weaken
        (Ends-first u λ s' m q l' k. Takes-weak (loop-Takes (left p) s' m q l' (omega arith))) l)

  -- A loop whose rounds pull tokens ends.
  pub while_loop-Takes : (s : St) → Takes takes (while_loop body s)
  unfolding while_loop
  while_loop-Takes s n p l =
      Ends-weaken (loop-Takes (left p + 1) s (left p) p (omega arith) (omega arith)) l

module _ {A B : Type 0} {first : A → Bool} {takes : B → Bool} {m : Parse A} {f : A → Parse B} where
  -- A call that pulls a token for some values, and what follows it for each.
  pub Takes-either :
      Takes first m
      → ((a : A) → first a ≡ true → Halts (f a))
      → ((a : A) → first a ≡ false → Takes takes (f a))
      → Takes takes (λ p. bind (m p) f)
  Takes-either h k l n p b = follow (h n p b)
    where
      at :
          (a : A) (q : Parser) (t : Bool)
          → first a ≡ t
          → left q + weight t ≤ n
          → Ends takes n q.error_handler (f a q)
      at a q true e u = Ends-pulled (k a e (left q) q (omega arith)) u
      at a q false e u = l a e n q (omega arith)

      follow : {s : ErrorHandler} {r : Outcome A} → Ends first n s r → Ends takes n s (bind r f)
      follow (value u e) = Ends-from e (at _ _ _ refl u)
      follow (error u e) = error u e
      follow crash = crash
