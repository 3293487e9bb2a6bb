-- ===== src/Parser/Progress.antt =====
-- The functions that pull tokens: what each consumes, and that none runs out of fuel.
use native.Mathlib.Numerals.{add-one}
use crunch_lang.Parser.Core.{ErrorHandler}
use crunch_lang.Prelude.{
  ap, ℕ, zero, suc, ◌+◌, ◌-◌, ◌<◌, ◌≤◌, ◌≡◌, Bool, true, false, refl, Option, none, some, List, [],
  ◌∷◌, arith, Bool-cases, Option-cases, inl, inr, length,
}
use crunch_lang.Token.{TokenType, Token, is_skipped, next_token, is_kind, contains, newline}
use crunch_lang.Parser.Core.{Context, Parser, Parse, ok, err, eof, end_of_file, bind}
use crunch_lang.Parser.Tokens.{
  or_end_of_file, held, left, advance, next, peek, peek_is, eat_loop, eat, eat_of_loop, eat_of,
  stress_eat_loop, stress_eat, eat_newlines_loop, eat_newlines, top_tokens, is_disjoint,
}
use crunch_lang.Parser.Runs.{At, Runs, returns, raises, Runs-bind, Runs-if, Runs-weaken, Runs-map}

-- Of a token that the stream gives the lexer has one less at least.
next_token-left :
    (c d : Bool) (ts : List Token) → let r = next_token c d ts in held r.0 + length r.1 ≤ length ts
unfolding next_token
next_token-left c d [] = omega arith
next_token-left c d (t ∷ ts) = elim (Bool-cases (is_skipped c d t.ty)) [
  | inl e ↦ rw e (let l = next_token-left c d ts in omega arith)
  | inr e ↦ rw e (omega arith)
]

module _ (S : ErrorHandler) where
  advance-At : (n : ℕ) (p : Parser) → At S n p → At S (n - held p.peek) (advance p)
  unfolding advance
  advance-At n p h =
      let l =
        next_token-left p.token_stream.skip_comments p.token_stream.skip_doc_comments
          p.token_stream.lexer in
      (omega arith, h.1, h.2)

module _ (x : Context) where
  pub next-eq : (p : Parser) (t : Token) → p.peek ≡ some t → next x p ≡ ok t (advance p)
  unfolding next
  next-eq p t e = ap (λ o. or_end_of_file x o (advance p)) e

  pub peek-eq : (p : Parser) (t : Token) → p.peek ≡ some t → peek x p ≡ ok t p
  unfolding peek
  peek-eq p t e = ap (λ o. or_end_of_file x o p) e

  pub peek-none : (p : Parser) → p.peek ≡ none → peek x p ≡ err end_of_file (eof x) p
  unfolding peek
  peek-none p e = ap (λ o. or_end_of_file x o p) e

  -- `eat` at a token of the wanted kind takes just that token.
  pub eat-eq :
      (p : Parser) (t : Token) (kind : TokenType) (ignoring : List TokenType)
      → contains ignoring kind ≡ false
      → p.peek ≡ some t
      → is_kind t.ty kind ≡ true
      → eat x kind ignoring p ≡ ok t (advance p)
  unfolding eat eat_loop
  eat-eq p t kind ignoring c e k = rw (next-eq p t e, c, add-one) (rw k)

module _ (S : ErrorHandler) (x : Context) where
  -- `next` gives a token and leaves one less, or fails with no token left.
  pub next-Runs : (n : ℕ) (p : Parser) → At S n p → Runs S (n - 1) n (λ t. 1 ≤ n) (next x p)
  unfolding next
  next-Runs n p h = give p.peek (advance-At S n p h) (omega arith)
    where
      give :
          (t : Option Token)
          → At S (n - held t) (advance p)
          → held t ≤ n
          → Runs S (n - 1) n (λ t. 1 ≤ n) (or_end_of_file x t (advance p))
      give none a l = raises (omega arith, a.1, a.2)
      give (some t) a l = returns a l

  pub peek-Runs : (n : ℕ) (p : Parser) → At S n p → Runs S n n (λ t. 1 ≤ n) (peek x p)
  unfolding peek
  peek-Runs n p h = give p.peek (omega arith)
    where
      give : (t : Option Token) → held t ≤ n → Runs S n n (λ t. 1 ≤ n) (or_end_of_file x t p)
      give none l = raises h
      give (some t) l = returns h l

  pub peek_is-Runs :
      (kind : TokenType) (n : ℕ) (p : Parser)
      → At S n p
      → Runs S n n (λ _. 1 ≤ n) (peek_is x kind p)
  unfolding peek_is
  peek_is-Runs kind n p h = Runs-bind (peek-Runs n p h) λ t q k s. returns k s

  -- Where the loops of `eat` and `eat_of` read on.
  again-Runs :
      {A : Type 0} {P : A → Type 0} {fuel n : ℕ} (f : Token → Parse A) (p : Parser)
      → n < suc fuel
      → At S n p
      → ((t : Token) (k : ℕ) (q : Parser) → k < fuel → At S k q → Runs S k k P (f t q))
      → Runs S n n P (bind (next x p) f)
  again-Runs {n = n} f p l h k =
      Runs-bind (next-Runs n p h)
        λ t q hq s. Runs-weaken (k t (n - 1) q (omega arith) hq) (omega arith) (omega arith)

  eat_loop-Runs :
      (fuel : ℕ) (kind : TokenType) (ignoring : List TokenType) (t : Token) (n : ℕ) (p : Parser)
      → n < fuel
      → At S n p
      → Runs S n n (λ u. is_kind u.ty kind ≡ true) (eat_loop x fuel kind ignoring t p)
  unfolding eat_loop
  eat_loop-Runs zero kind ignoring t n p l h = absurd (omega arith)
  eat_loop-Runs (suc fuel) kind ignoring t n p l h =
      Runs-if (is_kind t.ty kind) _ _ p (λ e. returns h e)
        λ _.
          Runs-if (contains ignoring t.ty) _ _ p
            (λ _. again-Runs _ p l h λ u k q l' h'. eat_loop-Runs fuel kind ignoring u k q l' h')
            (λ _. raises h)

  -- `eat` gives a token of the kind that it is told, and consumes it.
  pub eat-Runs :
      (kind : TokenType) (ignoring : List TokenType)
      → contains ignoring kind ≡ false
      → (n : ℕ) (p : Parser) → At S n p
      → Runs S (n - 1) n (λ u. (is_kind u.ty kind ≡ true) × (1 ≤ n)) (eat x kind ignoring p)
  unfolding eat
  eat-Runs kind ignoring c n p h = Runs-bind (next-Runs n p h) λ t q hq s.
      let hq' : At S (left q) q = (omega arith, hq.1, hq.2) in
      rw c (
        Runs-weaken
          (Runs-map (eat_loop-Runs (left q + 1) kind ignoring t (left q) q (omega arith) hq')
            λ u r. (r, s))
          hq.0 (omega arith))

  eat_of_loop-Runs :
      (fuel : ℕ) (kinds ignoring : List TokenType) (t : Token) (n : ℕ) (p : Parser)
      → n < fuel
      → At S n p
      → Runs S n n (λ u. contains kinds u.ty ≡ true) (eat_of_loop x fuel kinds ignoring t p)
  unfolding eat_of_loop
  eat_of_loop-Runs zero kinds ignoring t n p l h = absurd (omega arith)
  eat_of_loop-Runs (suc fuel) kinds ignoring t n p l h =
      Runs-if (contains kinds t.ty) _ _ p (λ e. returns h e)
        λ _.
          Runs-if (contains ignoring t.ty) _ _ p
            (λ _.
              again-Runs _ p l h λ u k q l' h'. eat_of_loop-Runs fuel kinds ignoring u k q l' h')
            (λ _. raises h)

  pub eat_of-Runs :
      (kinds ignoring : List TokenType)
      → is_disjoint ignoring kinds ≡ true
      → (n : ℕ) (p : Parser) → At S n p
      → Runs S (n - 1) n (λ u. (contains kinds u.ty ≡ true) × (1 ≤ n)) (eat_of x kinds ignoring p)
  unfolding eat_of
  eat_of-Runs kinds ignoring c n p h = Runs-bind (next-Runs n p h) λ t q hq s.
      let hq' : At S (left q) q = (omega arith, hq.1, hq.2) in
      rw c (
        Runs-weaken
          (Runs-map (eat_of_loop-Runs (left q + 1) kinds ignoring t (left q) q (omega arith) hq')
            λ u r. (r, s))
          hq.0 (omega arith))

  stress_eat_loop-Runs :
      (fuel n : ℕ) (p : Parser)
      → n < fuel
      → At S n p
      → Runs S n n (λ _. Unit {0}) (stress_eat_loop x fuel p)
  unfolding stress_eat_loop
  stress_eat_loop-Runs zero n p l h = absurd (omega arith)
  stress_eat_loop-Runs (suc fuel) n p l h = Runs-bind (peek-Runs n p h) λ t q hq s.
      Runs-if (contains top_tokens t.ty) _ _ q (λ _. returns hq tt)
        (λ _.
          again-Runs (λ _. stress_eat_loop x fuel) q l hq
            λ u k r l' h'. stress_eat_loop-Runs fuel k r l' h')

  -- `stress_eat` ends, at a token of one of the kinds or at the end of the file.
  pub stress_eat-Runs :
      (n : ℕ) (p : Parser) → At S n p → Runs S n n (λ _. Unit {0}) (stress_eat x p)
  unfolding stress_eat
  stress_eat-Runs n p h =
      let h' : At S (left p) p = (omega arith, h.1, h.2) in
      Runs-weaken (stress_eat_loop-Runs (left p + 1) (left p) p (omega arith) h') h.0 h.0

  -- The newline that was peeked at is there to be eaten.
  eat_newlines_loop-Runs :
      (fuel n eaten : ℕ) (p : Parser)
      → n < fuel
      → At S n p
      → Runs S n n (λ k. eaten ≤ k) (eat_newlines_loop x fuel eaten p)
  unfolding eat_newlines_loop peek_is
  eat_newlines_loop-Runs zero n eaten p l h = absurd (omega arith)
  eat_newlines_loop-Runs (suc fuel) n eaten p l h = elim (Option-cases p.peek) [
    | inl e ↦ rw (peek-none x p e) (raises h)
    | inr (t, e) ↦ rw (peek-eq x p t e) (
        Runs-if (is_kind t.ty newline) _ _ p
          (λ k. rw (eat-eq x p t newline [] refl e k) (
            let a = advance-At S n p h in
            let full : held p.peek ≡ 1 = ap held e in
            Runs-weaken
              (Runs-map
                (eat_newlines_loop-Runs fuel (n - 1) (eaten + 1) (advance p) (omega arith)
                  (omega arith, a.1, a.2))
                λ j r. omega arith)
              (omega arith) (omega arith)))
          (λ k. returns h (omega arith)))
  ]

  pub eat_newlines-Runs :
      (n : ℕ) (p : Parser) → At S n p → Runs S n n (λ k. 0 ≤ k) (eat_newlines x p)
  unfolding eat_newlines
  eat_newlines-Runs n p h =
      let h' : At S (left p) p = (omega arith, h.1, h.2) in
      Runs-weaken (eat_newlines_loop-Runs (left p + 1) (left p) 0 p (omega arith) h') h.0 h.0
