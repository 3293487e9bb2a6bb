-- ===== src/Parser/Eaten.antt =====
-- What `eat`, `eat_of` and `stress_eat` find among the tokens that the parser can see.
use crunch_lang.Prelude.{
  ℕ, zero, suc, ◌+◌, ◌<◌, ◌≤◌, ◌≡◌, Bool, true, false, List, [], ◌∷◌, arith, Bool-cases, inl, inr,
  length,
}
use crunch_lang.Token.{TokenType, Token, is_kind, contains}
use crunch_lang.Parser.Core.{
  Context, Parser, Outcome, Parse, Error, ok, err, eof, end_of_file, expected, expected_one_of,
  token_location, bind,
}
use crunch_lang.Parser.Tokens.{left, eat_loop, eat, eat_of_loop, eat_of, is_disjoint}
use crunch_lang.Parser.Visible.{visible, length-visible, Pulled, pulled, at_end, next-Pulled}

module _ (x : Context) where
  -- Where the search for a wanted token among those in sight ends: at the first that is wanted, at
  -- the first that is neither wanted nor ignored, or behind the last.
  pub data Eaten (want : TokenType → Bool) (ignoring : List TokenType) (refusal : Token → Error)
      : List Token → Outcome Token → Type 0 where
    found :
        {t : Token} {q : Parser}
        → want t.ty ≡ true
        → Eaten want ignoring refusal (t ∷ visible q) (ok t q)
    refused :
        {t : Token} {q : Parser}
        → want t.ty ≡ false
        → contains ignoring t.ty ≡ false
        → Eaten want ignoring refusal (t ∷ visible q) (err (refusal t) (token_location x t) q)
    ignored :
        {t : Token} {ts : List Token} {r : Outcome Token}
        → want t.ty ≡ false
        → contains ignoring t.ty ≡ true
        → Eaten want ignoring refusal ts r
        → Eaten want ignoring refusal (t ∷ ts) r
    missing : {q : Parser} → Eaten want ignoring refusal [] (err end_of_file (eof x) q)

  module _ {want : TokenType → Bool} {ignoring : List TokenType} {refusal : Token → Error} where
    Eaten-bind :
        {ts : List Token} {r : Outcome Token} {f : Token → Parse Token} (fuel : ℕ)
        → Pulled x ts r
        → length ts ≤ fuel
        → ((t : Token) (q : Parser)
            → length (visible q) < fuel
            → Eaten want ignoring refusal (t ∷ visible q) (f t q))
        → Eaten want ignoring refusal ts (bind r f)
    Eaten-bind fuel (pulled {t} {q}) l k = k t q (omega arith)
    Eaten-bind fuel at_end l k = missing

  eat_loop-Eaten :
      (kind : TokenType) (ignoring : List TokenType) (fuel : ℕ) (t : Token) (p : Parser)
      → length (visible p) < fuel
      → Eaten
          (λ k. is_kind k kind)
          ignoring
          (λ u. expected kind u.source)
          (t ∷ visible p)
          (eat_loop x fuel kind ignoring t p)
  unfolding eat_loop
  eat_loop-Eaten kind ignoring zero t p l = absurd (omega arith)
  eat_loop-Eaten kind ignoring (suc fuel) t p l = elim (Bool-cases (is_kind t.ty kind)) [
    | inl e ↦ rw e (found e)
    | inr e ↦ elim (Bool-cases (contains ignoring t.ty)) [
      | inl i ↦
          rw (e, i)
            (ignored e i (
              Eaten-bind fuel (next-Pulled x p) (omega arith)
                λ u q l'. eat_loop-Eaten kind ignoring fuel u q l'))
      | inr i ↦ rw (e, i) (refused e i)
    ]
  ]

  -- If the kind that it is to eat is not an ignored one, `eat` passes over the tokens that it is told
  -- to ignore. It gives the first other token if that is
  -- of its kind, and otherwise an error at that token, or at the end of the file if there is none;
  -- what stood behind that token is left.
  pub eat-Eaten :
      (kind : TokenType) (ignoring : List TokenType) (p : Parser)
      → contains ignoring kind ≡ false
      → Eaten
          (λ k. is_kind k kind)
          ignoring
          (λ u. expected kind u.source)
          (visible p)
          (eat x kind ignoring p)
  unfolding eat
  eat-Eaten kind ignoring p c = rw c (
      Eaten-bind (length (visible p)) (next-Pulled x p) (omega arith) λ t q l.
        let b = length-visible q in eat_loop-Eaten kind ignoring (left q + 1) t q (omega arith))

  eat_of_loop-Eaten :
      (kinds ignoring : List TokenType) (fuel : ℕ) (t : Token) (p : Parser)
      → length (visible p) < fuel
      → Eaten
          (contains kinds)
          ignoring
          (λ u. expected_one_of kinds u.source)
          (t ∷ visible p)
          (eat_of_loop x fuel kinds ignoring t p)
  unfolding eat_of_loop
  eat_of_loop-Eaten kinds ignoring zero t p l = absurd (omega arith)
  eat_of_loop-Eaten kinds ignoring (suc fuel) t p l = elim (Bool-cases (contains kinds t.ty)) [
    | inl e ↦ rw e (found e)
    | inr e ↦ elim (Bool-cases (contains ignoring t.ty)) [
      | inl i ↦
          rw (e, i)
            (ignored e i (
              Eaten-bind fuel (next-Pulled x p) (omega arith)
                λ u q l'. eat_of_loop-Eaten kinds ignoring fuel u q l'))
      | inr i ↦ rw (e, i) (refused e i)
    ]
  ]

  -- If no kind that it is to eat is an ignored one, `eat_of` passes over the tokens that it is told
  -- to ignore. It gives the first other token if that
  -- is of one of its kinds, and otherwise an error at that token, or at the end of the file if there
  -- is none; what stood behind that token is left.
  pub eat_of-Eaten :
      (kinds ignoring : List TokenType) (p : Parser)
      → is_disjoint ignoring kinds ≡ true
      → Eaten
          (contains kinds)
          ignoring
          (λ u. expected_one_of kinds u.source)
          (visible p)
          (eat_of x kinds ignoring p)
  unfolding eat_of
  eat_of-Eaten kinds ignoring p c = rw c (
      Eaten-bind (length (visible p)) (next-Pulled x p) (omega arith) λ t q l.
        let b = length-visible q in eat_of_loop-Eaten kinds ignoring (left q + 1) t q (omega arith))
