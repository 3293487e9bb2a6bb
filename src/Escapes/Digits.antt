-- ===== src/Escapes/Digits.antt =====
-- The digits that the decoder admits are those of the alphabets of Escapes/Spelling.
use crunch_lang.Prelude.{
  ℕ, suc, ◌+◌, ◌*◌, ◌≡◌, refl, ◌∙◌, Option, some, none, [], ◌∷◌, Text, codes, ◌==◌, ==_iff,
  Bool-cases, Option-cases, inl, inr,
}
use crunch_lang.Escapes.{hex_digit, octal_digit, binary_digit}
use crunch_lang.Escapes.Spelling.{
  position, hex_value, octal_value, binary_value, value_from, Numeral,
}

-- The function gives the characters of an alphabet their numbers, from `i` on.
abbrev Numbers : (ℕ → Option ℕ) → Text → ℕ → Type 0
Numbers f [] i = Unit
Numbers f (c ∷ cs) i = (f c ≡ some i) × Numbers f cs (suc i)

none_is_no_some : {d : ℕ} → ◌≡◌ {A = Option ℕ} none (some d) → ⊥
none_is_no_some e = cc

position_lem :
    (f : ℕ → Option ℕ) (cs : Text) (i c d : ℕ)
    → Numbers f cs i
    → position cs i c ≡ some d
    → f c ≡ some d
position_lem f [] i c d h e = absurd (none_is_no_some e)
position_lem f (b ∷ cs) i c d h e = elim (Bool-cases (c == b)) [
  | inl t ↦
      let at_b : some i ≡ some d = rw t at e in
      let same : c ≡ b = (==_iff c b).0 t in rw (same, h.0) at_b
  | inr t ↦ position_lem f cs (suc i) c d h.1 (rw t at e)
]

hex_value-hex_digit : (c d : ℕ) → hex_value c ≡ some d → hex_digit c ≡ some d
unfolding hex_value hex_digit
hex_value-hex_digit c d e = elim (Option-cases (position (codes "0123456789abcdef") 0 c)) [
  | inl n ↦
      position_lem hex_digit (codes "ABCDEF") 10 c d
        (refl, (refl, (refl, (refl, (refl, (refl, tt)))))) (rw (hex_value, n) at e)
  | inr (k, s) ↦
      position_lem hex_digit (codes "0123456789abcdef") 0 c d lower (s ∙ (rw (hex_value, s) at e))
]
  where
    lower : Numbers hex_digit (codes "0123456789abcdef") 0
    lower = (
      refl,
      (
        refl,
        (
          refl,
          (
            refl,
            (
              refl,
              (
                refl,
                (refl, (refl, (refl, (refl, (refl, (refl, (refl, (refl, (refl, (refl, tt)))))))))),
              ),
            ),
          ),
        ),
      ),
    )

octal_value-octal_digit : (c d : ℕ) → octal_value c ≡ some d → octal_digit c ≡ some d
unfolding octal_digit
octal_value-octal_digit c d e =
    position_lem octal_digit (codes "01234567") 0 c d
      (refl, (refl, (refl, (refl, (refl, (refl, (refl, (refl, tt)))))))) e

binary_value-binary_digit : (c d : ℕ) → binary_value c ≡ some d → binary_digit c ≡ some d
unfolding binary_digit
binary_value-binary_digit c d e = position_lem binary_digit (codes "01") 0 c d (refl, (refl, tt)) e

module _ (base : ℕ) (f g : ℕ → Option ℕ) (agree : (c d : ℕ) → f c ≡ some d → g c ≡ some d) where
  value_from-agree :
      (acc v : ℕ) (cs : Text)
      → value_from base f acc cs ≡ some v
      → value_from base g acc cs ≡ some v
  value_from-agree acc v [] e = e
  value_from-agree acc v (c ∷ cs) e = elim (Option-cases (f c)) [
    | inl n ↦ absurd (none_is_no_some (rw (n, value_from) at e))
    | inr (d, s) ↦
        rw (agree c d s, value_from)
          (value_from-agree (acc * base + d) v cs (rw (s, value_from) at e))
  ]

  Numeral-agree : (count v : ℕ) (ds : Text) → Numeral base f count ds v → Numeral base g count ds v
  Numeral-agree count v ds (len, val, scalar) = (len, value_from-agree 0 v ds val, scalar)

module _ (count v : ℕ) (ds : Text) where
  pub hex_Numeral : Numeral 16 hex_value count ds v → Numeral 16 hex_digit count ds v
  hex_Numeral = Numeral-agree 16 hex_value hex_digit hex_value-hex_digit count v ds

  pub octal_Numeral : Numeral 8 octal_value count ds v → Numeral 8 octal_digit count ds v
  octal_Numeral = Numeral-agree 8 octal_value octal_digit octal_value-octal_digit count v ds

  pub binary_Numeral : Numeral 2 binary_value count ds v → Numeral 2 binary_digit count ds v
  binary_Numeral = Numeral-agree 2 binary_value binary_digit binary_value-binary_digit count v ds
