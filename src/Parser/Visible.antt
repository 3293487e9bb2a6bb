-- ===== src/Parser/Visible.antt =====
-- What the functions that pull tokens do, told by the tokens that the parser can see.
use crunch_lang.Prelude.{
  ℕ, zero, suc, ◌+◌, ◌<◌, ◌≤◌, ◌≡◌, refl, sym, ap, subst, ◌∙◌, Bool, true, false, Option, none,
  some, List, [], ◌∷◌, arith, if◌then◌else◌, Bool-cases, Option-cases, inl, inr, length,
}
use crunch_lang.Token.{
  TokenType, space, comment, doc_comment, Token, TokenStream, is_skipped, next_token,
}
use crunch_lang.Parser.Core.{
  Context, Parser, Outcome, ok, err, panic, out_of_fuel, eof, end_of_file,
}
use crunch_lang.Parser.Tokens.{or_end_of_file, held, left, new, advance, next}

-- The tokens of a list that the stream does not pass over.
unfoldable pub kept : Bool → Bool → List Token → List Token
unfolding is_skipped
kept c d [] = []
kept c d (t ∷ ts) = if is_skipped c d t.ty then kept c d ts else t ∷ kept c d ts

-- The kinds that say nothing to the parser.
unfoldable pub is_blank : TokenType → Bool
is_blank space = true
is_blank comment = true
is_blank doc_comment = true
is_blank _ = false

unfoldable pub without_blanks : List Token → List Token
unfolding is_blank
without_blanks [] = []
without_blanks (t ∷ ts) = if is_blank t.ty then without_blanks ts else t ∷ without_blanks ts

is_skipped-eq-is_blank : (k : TokenType) → is_skipped true true k ≡ is_blank k
unfolding is_skipped is_blank
is_skipped-eq-is_blank space = refl
is_skipped-eq-is_blank comment = refl
is_skipped-eq-is_blank doc_comment = refl
is_skipped-eq-is_blank _ = refl

kept-without_blanks : (ts : List Token) → kept true true ts ≡ without_blanks ts
unfolding kept without_blanks
kept-without_blanks [] = refl
kept-without_blanks (t ∷ ts) =
    let ih = kept-without_blanks ts in
    rw (is_skipped-eq-is_blank t.ty)
      (elim (Bool-cases (is_blank t.ty)) [ inl e ↦ rw e ih | inr e ↦ rw e (ap (λ us. t ∷ us) ih) ])

abbrev in_front : Option Token → List Token → List Token
in_front none ts = []
in_front (some t) ts = t ∷ ts

-- The tokens that `next` will give, in their order.
abbrev pub visible : Parser → List Token
visible p =
    let s = p.token_stream in in_front p.peek (kept s.skip_comments s.skip_doc_comments s.lexer)

abbrev head_or : Token → List Token → Token
head_or t [] = t
head_or t (u ∷ us) = u

abbrev tail : List Token → List Token
tail [] = []
tail (u ∷ us) = us

nil_is_no_cons : {t : Token} {ts : List Token} → [] ≡ t ∷ ts → ⊥
nil_is_no_cons e = cc

next_token-kept :
    (c d : Bool) (ts : List Token)
    → let r = next_token c d ts in in_front r.0 (kept c d r.1) ≡ kept c d ts
unfolding next_token kept
next_token-kept c d [] = refl
next_token-kept c d (t ∷ ts) = elim (Bool-cases (is_skipped c d t.ty)) [
  | inl e ↦ rw e (next_token-kept c d ts)
  | inr e ↦ rw e refl
]

length-kept : (c d : Bool) (ts : List Token) → length (kept c d ts) ≤ length ts
unfolding kept
length-kept c d [] = omega arith
length-kept c d (t ∷ ts) =
    let ih = length-kept c d ts in
    elim (Bool-cases (is_skipped c d t.ty)) [
      | inl e ↦ rw e (omega arith)
      | inr e ↦ rw e (omega arith)
    ]

pub length-visible : (p : Parser) → length (visible p) ≤ left p
length-visible p = bound p.peek
  where
    s : TokenStream
    s = p.token_stream

    bound :
        (o : Option Token)
        → length (in_front o (kept s.skip_comments s.skip_doc_comments s.lexer))
          ≤ held o + length s.lexer
    bound none = omega arith
    bound (some t) = let l = length-kept s.skip_comments s.skip_doc_comments s.lexer in omega arith

-- A token was pulled from those in sight, or there was none.
pub data Pulled (x : Context) : List Token → Outcome Token → Type 0 where
  pulled : {t : Token} {q : Parser} → Pulled x (t ∷ visible q) (ok t q)
  at_end : {q : Parser} → Pulled x [] (err end_of_file (eof x) q)

module _ (x : Context) where
  pub next-Pulled : (p : Parser) → Pulled x (visible p) (next x p)
  unfolding next advance
  next-Pulled p = give p.peek
    where
      s : TokenStream
      s = p.token_stream

      rest : List Token
      rest = kept s.skip_comments s.skip_doc_comments s.lexer

      give : (o : Option Token) → Pulled x (in_front o rest) (or_end_of_file x o (advance p))
      give none = at_end
      give (some t) =
          subst (λ ts. Pulled x (t ∷ ts) (ok t (advance p)))
            (next_token-kept s.skip_comments s.skip_doc_comments s.lexer) pulled

  -- The tokens that repeated calls of `next` give.
  unfoldable pub drain : ℕ → Parser → List Token
  unfolding next
  drain zero p = []
  drain (suc fuel) p = elim (next x p) [
    | ok t q ↦ t ∷ drain fuel q
    | err e loc q ↦ []
    | panic ↦ []
    | out_of_fuel ↦ []
  ]

  abbrev drain_after : ℕ → Outcome Token → List Token
  drain_after fuel r = elim r [
    | ok t q ↦ t ∷ drain fuel q
    | err e loc q ↦ []
    | panic ↦ []
    | out_of_fuel ↦ []
  ]

  drain_after-Pulled :
      (fuel : ℕ) (ts : List Token) (r : Outcome Token)
      → Pulled x ts r
      → length ts < suc fuel
      → ((q : Parser) → length (visible q) < fuel → drain fuel q ≡ visible q)
      → drain_after fuel r ≡ ts
  drain_after-Pulled fuel _ _ (pulled {t} {q}) l k = ap (λ us. t ∷ us) (k q (omega arith))
  drain_after-Pulled fuel _ _ at_end l k = refl

  drain-visible : (fuel : ℕ) (p : Parser) → length (visible p) < fuel → drain fuel p ≡ visible p
  unfolding drain
  drain-visible zero p l = absurd (omega arith)
  drain-visible (suc fuel) p l =
      drain_after-Pulled fuel (visible p) (next x p) (next-Pulled p) l
        λ q l'. drain-visible fuel q l'

  new-visible : (ts : List Token) → visible (new ts) ≡ kept true true ts
  unfolding new
  new-visible ts = next_token-kept true true ts

  -- A new parser gives, call by call, all tokens of its file in their order, but those of the kinds
  -- `space`, `comment` and `doc_comment`.
  pub drain-new : (ts : List Token) → drain (length ts + 1) (new ts) ≡ without_blanks ts
  drain-new ts =
      let l = length-kept true true ts in
      let e = new-visible ts in
      drain-visible (length ts + 1) (new ts) (rw e (omega arith)) ∙ (e ∙ kept-without_blanks ts)

-- The first token in sight is the one peeked at, and `advance` takes it away.
pub advance-visible :
    (p : Parser) (t : Token) (ts : List Token)
    → visible p ≡ t ∷ ts
    → (p.peek ≡ some t) × (visible (advance p) ≡ ts)
unfolding advance
advance-visible p t ts v = elim (Option-cases p.peek) [
  | inl e ↦ absurd (nil_is_no_cons (sym (ap (λ o. in_front o rest) e) ∙ v))
  | inr (u, e) ↦
      let w : u ∷ rest ≡ t ∷ ts = sym (ap (λ o. in_front o rest) e) ∙ v in
      (
        e ∙ ap some (ap (head_or u) w),
        next_token-kept s.skip_comments s.skip_doc_comments s.lexer ∙ ap tail w,
      )
]
  where
    s : TokenStream
    s = p.token_stream

    rest : List Token
    rest = kept s.skip_comments s.skip_doc_comments s.lexer

-- With nothing in sight, nothing is peeked at.
pub peek_of_empty : (p : Parser) → visible p ≡ [] → p.peek ≡ none
peek_of_empty p v = elim (Option-cases p.peek) [
  | inl e ↦ e
  | inr (u, e) ↦
      let s = p.token_stream in
      let rest = kept s.skip_comments s.skip_doc_comments s.lexer in
      absurd (nil_is_no_cons (sym v ∙ ap (λ o. in_front o rest) e))
]
