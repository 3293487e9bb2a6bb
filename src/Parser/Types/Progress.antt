-- ===== src/Parser/Types/Progress.antt =====
-- The parser of types ends on every input: it pulls a token, never panics, and never runs out of
-- the fuel of its loops, whatever the depth that the stack's limit still allows.
use crunch_lang.Parser.Core.{ErrorHandler}
use crunch_lang.Prelude.{refl, ℕ, zero, suc, ◌-◌, ◌<◌, ◌≤◌, Option, none, some, arith, ltb}
use crunch_lang.Token.{Token}
use crunch_lang.Ast.{Located, Location}
use crunch_lang.Parser.{Context, Parser, Outcome, Error, ok, err, left, next}
use crunch_lang.Parser.Runs.{
  At, Runs, returns, raises, Runs-bind, Runs-if, Runs-map, Runs-weaken, Runs-done,
}
use crunch_lang.Parser.Progress.{next-Runs}
use crunch_lang.Parser.Keeps.{
  Keeps, Consumes, Consumes-bind, Keeps-bind, Keeps-pure, Keeps-fuel, type_op-Keeps,
}
use crunch_lang.Parser.Types.{
  TypeCalls, TypePrefix, infix_body, infix_loop, type_precedence, is_type_infix, or_could_not_parse,
  type_prefix_of, internal_body, type_calls,
}
use crunch_lang.Parser.Types.Lists.{Good, type-Keeps}
use crunch_lang.Parser.Types.Forms.{prefix_body-Keeps}

module _ (S : ErrorHandler) (x : Context) where
  next-Consumes : Consumes S (next x)
  next-Consumes n p h = Runs-map (next-Runs S x n p h) λ t r. r

  module _ (c : TypeCalls) (g : Good S c) where
    infix_body-Keeps : (t : Token) (lhs : Located) → Keeps S (infix_body x c t lhs)
    unfolding infix_body
    infix_body-Keeps t lhs =
        Keeps-bind (type-Keeps S x c g)
          λ rhs. Keeps-bind (type_op-Keeps S x c.frames t) λ op. Keeps-pure _

    -- Each round of the climb pulls the operator.
    infix_loop-Runs :
        (fuel n prec : ℕ) (lhs : Located) (p : Parser)
        → n < fuel
        → At S n p
        → Runs S n n (λ _. Unit {0}) (infix_loop x c fuel prec lhs p)
    unfolding infix_loop
    infix_loop-Runs zero n prec lhs p l h = absurd (omega arith)
    infix_loop-Runs (suc fuel) n prec lhs p l h =
        Runs-if (ltb prec (type_precedence p)) _ _ p
          (λ _. Runs-bind (next-Consumes n p h) λ t q hq pos.
            Runs-if (is_type_infix t.ty) _ _ q
              (λ _.
                Runs-weaken
                  (Runs-bind (g.infix_good t lhs (n - 1) q hq)
                    λ lhs' r hr _. infix_loop-Runs fuel (n - 1) prec lhs' r (omega arith) hr)
                  (omega arith) (omega arith))
              (λ _. Runs-done hq (omega arith) tt))
          (λ _. returns h tt)

    or_could_not_parse-Keeps :
        (t : Token) (o : Option TypePrefix) → Keeps S (or_could_not_parse x c t o)
    or_could_not_parse-Keeps t none n p h = raises h
    or_could_not_parse-Keeps t (some k) n p h = g.prefix_good k t n p h

    internal_body-Consumes : (prec : ℕ) → Consumes S (internal_body x c prec)
    unfolding internal_body
    internal_body-Consumes prec = Consumes-bind next-Consumes λ t.
        Keeps-bind (or_could_not_parse-Keeps t (type_prefix_of t.ty))
          λ lhs. Keeps-fuel (λ k. infix_loop x c k prec lhs) λ k n p. infix_loop-Runs k n prec lhs p

  pub type_calls-Good : (frames : ℕ) → Good S (type_calls x frames)
  unfolding type_calls
  type_calls-Good zero = record {
    type_good = λ n p h. raises h;
    internal_good = λ prec n p h. raises h;
    prefix_good = λ k t n p h. raises h;
    infix_good = λ t lhs n p h. raises h;
  }
  type_calls-Good (suc frames) =
      let c = type_calls x frames in
      let g = type_calls-Good frames in
      record {
        type_good = g.internal_good 0;
        internal_good = internal_body-Consumes c g;
        prefix_good = prefix_body-Keeps S x c g;
        infix_good = infix_body-Keeps c g;
      }

-- A call that began with `n` tokens left ended: in a value, and a token was pulled, or in an error.
pub data Ends (n : ℕ) : Outcome Located → Type 0 where
  parsed : {ty : Located} {q : Parser} → left q < n → Ends n (ok ty q)
  failed : {e : Error} {loc : Location} {q : Parser} → left q ≤ n → Ends n (err e loc q)

Ends-Runs :
    {h : ErrorHandler} {n : ℕ} {r : Outcome Located} → Runs h (n - 1) n (λ _. 1 ≤ n) r → Ends n r
Ends-Runs (returns h pos) = parsed (omega arith)
Ends-Runs (raises h) = failed h.0

-- The parser of a type ends, from every state and with every number of frames left: it neither
-- panics nor runs out of the fuel of its loops, and gives a type with fewer tokens left or an error
-- with no more tokens left than before.
pub ascribed_type-Ends :
    (x : Context) (frames : ℕ) (p : Parser) → Ends (left p) ((type_calls x frames).ascribed_type p)
ascribed_type-Ends x frames p =
    Ends-Runs
      ((type_calls-Good p.error_handler x frames).type_good (left p) p (omega arith, refl, refl))
