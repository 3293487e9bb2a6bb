-- ===== src/Parser/Grammar/Files.antt =====
-- `Parser::parse` ends: each round of its loop pulls a token, or brings the errors nearer to the
-- limit.
use crunch_lang.Prelude.{
  ℕ, zero, suc, ◌+◌, ◌-◌, ◌≤◌, ◌<◌, ◌≡◌, refl, Bool, true, false, Option, List, [], arith, leb,
  if◌then◌else◌, Bool-cases, leb-false→lt, ◌∷◌, ◌++◌, sym, subst, ◌∙◌, inl, inr,
}
use crunch_lang.Token.{Token}
use crunch_lang.Ast.{Item, Location}
use crunch_lang.Parser.Core.{Context, Parser, Outcome, Error, ErrorHandler, push_err}
use crunch_lang.Parser.Tokens.{left, new}
use crunch_lang.Parser.Blocks.{is_some}
use crunch_lang.Parser.Ends.{Ends, Same}
use crunch_lang.Parser.Ends.Primitives.{stress_eat-Halts}
use crunch_lang.Parser.Grammar.{
  Parsed, parsed, rejected, crashed, after_eaten, after_item, with_error, finish, parse_loop, parse,
}
use crunch_lang.Parser.Grammar.Ending.{item-Ends}

-- A list of errors that is not empty.
abbrev HasError : List (Error × Location) → Type 0
HasError [] = ⊥
HasError (e ∷ es) = Unit

HasError-append : (es : List (Error × Location)) (e : Error × Location) → HasError (es ++ e ∷ [])
HasError-append [] e = tt
HasError-append (d ∷ es) e = tt

-- A handler that an error was recorded in.
data IsFatal (h : ErrorHandler) : Type 0 where
  fatal : h.fatal ≡ true → HasError h.errors → IsFatal h

IsFatal-Same : {h k : ErrorHandler} → Same h k → IsFatal h → IsFatal k
IsFatal-Same s (fatal f e) = fatal (s.same_fatal ∙ f) (subst HasError (sym s.same_errors) e)

push_err-IsFatal : (e : Error) (loc : Location) (h : ErrorHandler) → IsFatal (push_err e loc h)
unfolding push_err
push_err-IsFatal e loc h = fatal refl (HasError-append h.errors (e, loc))

-- A handler is fatal exactly if errors were recorded in it.
data Honest (h : ErrorHandler) : Type 0 where
  clean : h.fatal ≡ false → h.errors ≡ [] → Honest h
  failed : IsFatal h → Honest h

Honest-Same : {h k : ErrorHandler} → Same h k → Honest h → Honest k
Honest-Same s (clean f e) = clean (s.same_fatal ∙ f) (s.same_errors ∙ e)
Honest-Same s (failed f) = failed (IsFatal-Same s f)

-- The parsing of a file ended: with its items and no error, with errors, or by a panic.
pub data Finishes : Parsed → Type 0 where
  accepted :
      {items : List Item} {h : ErrorHandler}
      → h.fatal ≡ false
      → h.errors ≡ []
      → Finishes (parsed items h)
  refused : {h : ErrorHandler} → h.fatal ≡ true → HasError h.errors → Finishes (rejected h)
  stopped : Finishes crashed

IsFatal-Finishes : {h : ErrorHandler} → IsFatal h → Finishes (rejected h)
IsFatal-Finishes (fatal f e) = refused f e

finish-Finishes : (items : List Item) (h : ErrorHandler) → Honest h → Finishes (finish items h)
finish-Finishes items h o = decide h.fatal refl o
  where
    decide :
        (b : Bool) → h.fatal ≡ b → Honest h → Finishes (if b then rejected h else parsed items h)
    decide true e (clean f g) = absurd cc
    decide true e (failed f) = IsFatal-Finishes f
    decide false e (clean f g) = accepted f g
    decide false e (failed (fatal f g)) = absurd cc

-- The rounds of the loop that follow finish, if there are fewer tokens or more errors.
abbrev Continues : ℕ → (List Item → ℕ → Parser → Parsed) → ℕ → Type 0
Continues limit rounds size =
    (items : List Item) (errors : ℕ) (p : Parser)
    → Honest p.error_handler
    → left p + (limit - errors) < size
    → Finishes (rounds items errors p)

module _ (x : Context) (rounds : List Item → ℕ → Parser → Parsed) (items : List Item) where
  after_eaten-Finishes :
      (errors n : ℕ) {h : ErrorHandler} {r : Outcome (Unit {0})}
      → Ends (λ _. false) n h r
      → IsFatal h
      → ((q : Parser)
          → IsFatal q.error_handler
          → left q ≤ n
          → Finishes (rounds items (errors + 1) q))
      → Finishes (after_eaten x rounds items errors r)
  after_eaten-Finishes errors n (Ends.value l s) f k = k _ (IsFatal-Same s f) (omega arith)
  after_eaten-Finishes errors n (Ends.error l s) f k = IsFatal-Finishes (IsFatal-Same s f)
  after_eaten-Finishes errors n Ends.crash f k = stopped

  -- An error that is not the last brings the limit nearer.
  shrinks :
      (errors n size : ℕ) {k : ℕ}
      → leb x.max_errors (errors + 1) ≡ false
      → n + (x.max_errors - errors) < suc size
      → k ≤ n
      → k + (x.max_errors - (errors + 1)) < size
  shrinks errors n size e b l = let m = leb-false→lt x.max_errors (errors + 1) e in omega arith

  after_item-Finishes :
      (errors n size : ℕ) {h : ErrorHandler} {r : Outcome (Option Item)}
      → Ends (λ _. true) n h r
      → Honest h
      → n + (x.max_errors - errors) < suc size
      → Continues x.max_errors rounds size
      → Finishes (after_item x rounds items errors r)
  unfolding after_item
  after_item-Finishes errors n size (Ends.value l s) f b k =
      k _ errors _ (Honest-Same s f) (omega arith)
  after_item-Finishes errors n size (Ends.error {e = e'} {loc = loc} {q = q} l s) f b k =
      elim (Bool-cases (leb x.max_errors (errors + 1))) [
        | inl e ↦
            rw e (IsFatal-Finishes (push_err-IsFatal _ loc (with_error e' loc q).error_handler))
        | inr e ↦ rw e (
            let r = with_error e' loc q in
            after_eaten-Finishes errors n (stress_eat-Halts x n r l)
              (push_err-IsFatal e' loc q.error_handler)
              λ q g l'. k items (errors + 1) q (failed g) (shrinks errors n size e b l'))
      ]
  after_item-Finishes errors n size Ends.crash f b k = stopped

module _ (x : Context) where
  parse_loop-Finishes : (fuel : ℕ) → Continues x.max_errors (parse_loop x fuel) fuel
  unfolding parse_loop
  parse_loop-Finishes zero items errors p f l = absurd (omega arith)
  parse_loop-Finishes (suc fuel) items errors p f l = elim (Bool-cases (is_some p.peek)) [
    | inl e ↦ rw e (
        after_item-Finishes x (parse_loop x fuel) items errors (left p) fuel (item-Ends x _ p e) f l
          (parse_loop-Finishes fuel))
    | inr e ↦ rw e (finish-Finishes items p.error_handler f)
  ]

  new-Honest : (tokens : List Token) → Honest (new tokens).error_handler
  unfolding new
  new-Honest tokens = clean refl refl

  -- Parsing a file with a new parser ends, for every list of tokens and whatever the limit of errors
  -- is: with its items and an error handler that is not fatal and holds no error, with an error
  -- handler that is fatal and holds an error at least, or by a panic. The fuel of the loop over the
  -- items is enough.
  pub parse-Finishes : (tokens : List Token) → Finishes (parse x (new tokens))
  unfolding parse
  parse-Finishes tokens =
      let p = new tokens in
      parse_loop-Finishes (left p + x.max_errors + 1) [] 0 p (new-Honest tokens) (omega arith)
