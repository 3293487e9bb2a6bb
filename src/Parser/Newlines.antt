-- ===== src/Parser/Newlines.antt =====
-- `eat_newlines` of crates/crunch-parser/src/parser/utils.rs: it eats the newlines in sight and counts them.
use crunch_lang.Prelude.{
  ℕ, zero, suc, ◌+◌, ◌<◌, ◌≡◌, refl, true, false, List, [], ◌∷◌, arith, Bool-cases, inl, inr,
  length,
}
use crunch_lang.Token.{Token, is_kind, newline}
use crunch_lang.Parser.Core.{Context, Parser, Outcome, ok, err, eof, end_of_file}
use crunch_lang.Parser.Tokens.{left, peek_is, advance, eat_newlines_loop, eat_newlines}
use crunch_lang.Parser.Progress.{peek-eq, peek-none, eat-eq}
use crunch_lang.Parser.Visible.{visible, length-visible, advance-visible, peek_of_empty}

module _ (x : Context) where
  -- From a count on, the newlines in front of the tokens in sight are eaten and counted, up to the
  -- first other token, which stays in sight.
  pub data Counts : ℕ → List Token → Outcome ℕ → Type 0 where
    counted :
        {n : ℕ} {t : Token} {ts : List Token} {q : Parser}
        → is_kind t.ty newline ≡ false
        → visible q ≡ t ∷ ts
        → Counts n (t ∷ ts) (ok n q)
    one_more :
        {n : ℕ} {t : Token} {ts : List Token} {r : Outcome ℕ}
        → is_kind t.ty newline ≡ true
        → Counts (n + 1) ts r
        → Counts n (t ∷ ts) r
    missing : {n : ℕ} {q : Parser} → Counts n [] (err end_of_file (eof x) q)

  eat_newlines_loop-Counts :
      (fuel n : ℕ) (ts : List Token) (p : Parser)
      → length ts < fuel
      → visible p ≡ ts
      → Counts n ts (eat_newlines_loop x fuel n p)
  unfolding eat_newlines_loop peek_is
  eat_newlines_loop-Counts zero n ts p l v = absurd (omega arith)
  eat_newlines_loop-Counts (suc fuel) n [] p l v = rw (peek-none x p (peek_of_empty p v)) missing
  eat_newlines_loop-Counts (suc fuel) n (t ∷ ts) p l v =
      let (e, w) = advance-visible p t ts v in
      elim (Bool-cases (is_kind t.ty newline)) [
        | inl k ↦
            rw (peek-eq x p t e, k, eat-eq x p t newline [] refl e k)
              (one_more k (eat_newlines_loop-Counts fuel (n + 1) ts (advance p) (omega arith) w))
        | inr k ↦ rw (peek-eq x p t e, k) (counted k v)
      ]

  -- `eat_newlines` eats the newlines in front of the tokens in sight and gives their number; the next
  -- token stays in sight, and with no other token behind the newlines it gives an error.
  pub eat_newlines-Counts : (p : Parser) → Counts 0 (visible p) (eat_newlines x p)
  unfolding eat_newlines
  eat_newlines-Counts p =
      let b = length-visible p in
      eat_newlines_loop-Counts (left p + 1) 0 (visible p) p (omega arith) refl
