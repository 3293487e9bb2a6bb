-- ===== src/Escapes/RoundTrip.antt =====
-- A literal spelled out decodes to the characters that its spellings mean.
use crunch_lang.Prelude.{
  ℕ, zero, suc, ◌+◌, ◌<◌, ◌≤◌, ◌≡◌, refl, ◌≢◌, List, [], ◌∷◌, ◌++◌, append_assoc, append-nil, arith,
  length, length-append, Text, false, ◌==◌,
}
use crunch_lang.Escapes.{
  ok, Chars, chars, Stream, next, rune_escape, string_escape, unescape_char, unescape_loop,
  unescape_string, rune_char, unescape_rune,
}
use crunch_lang.Escapes.Spelling.{
  Spelling, plain, hex, hex_16, hex_32, oct, bin, Means, MeanAll, render, render_all,
}
use crunch_lang.Escapes.Numerals.{hex-Yields, bin-Yields, hex_16-Yields, hex_32-Yields, oct-Yields}

eq-false : (a b : ℕ) → a ≢ b → (a == b) ≡ false
eq-false a b h = ground arith

-- One round of the loop reads one spelling and appends the character that it means.
unescape_char-render :
    (again : Text → Stream Text) (out : Text) (p : Spelling) (v : ℕ) (r : Text)
    → Means p v
    → (k : ℕ)
    → (j : ℕ) × (unescape_char again out (render p ++ r) k ≡ again (out ++ v ∷ []) (chars r j))
unfolding unescape_char string_escape rune_escape next
unescape_char-render again out (plain c) v r (h, e) k = (k + 1, rw (eq-false c 0x5c h, e))
unescape_char-render again out Spelling.backslash v r e k = (k + 1 + 1, rw e)
unescape_char-render again out Spelling.double_quote v r e k = (k + 1 + 1, rw e)
unescape_char-render again out Spelling.single_quote v r e k = (k + 1 + 1, rw e)
unescape_char-render again out Spelling.newline v r e k = (k + 1 + 1, rw e)
unescape_char-render again out Spelling.carriage_return v r e k = (k + 1 + 1, rw e)
unescape_char-render again out Spelling.tab v r e k = (k + 1 + 1, rw e)
unescape_char-render again out Spelling.nul v r e k = (k + 1 + 1, rw e)
unescape_char-render again out (hex ds) v r h k =
    let (j, e) = hex-Yields ds r v h (k + 1 + 1) in (j, rw e)
unescape_char-render again out (hex_16 ds) v r h k =
    let (j, e) = hex_16-Yields ds r v h (k + 1 + 1) in (j, rw e)
unescape_char-render again out (hex_32 ds) v r h k =
    let (j, e) = hex_32-Yields ds r v h (k + 1 + 1) in (j, rw e)
unescape_char-render again out (oct ds) v r h k =
    let (j, e) = oct-Yields ds r v h (k + 1 + 1) in (j, rw e)
unescape_char-render again out (bin ds) v r h k =
    let (j, e) = bin-Yields ds r v h (k + 1 + 1) in (j, rw e)

unescape_loop-render_all :
    (ps : List Spelling) (vs out : Text) (fuel k : ℕ)
    → MeanAll ps vs
    → length ps < fuel
    → (s : Chars) × (unescape_loop fuel out (chars (render_all ps) k) ≡ ok (out ++ vs, s))
unfolding unescape_loop
unescape_loop-render_all ps vs out zero k h l = absurd (omega arith)
unescape_loop-render_all [] [] out (suc fuel) k h l = (chars [] k, rw append-nil)
unescape_loop-render_all [] (v ∷ vs) out (suc fuel) k h l = absurd h
unescape_loop-render_all (p ∷ ps) [] out (suc fuel) k h l = absurd h
unescape_loop-render_all (p ∷ ps) (v ∷ vs) out (suc fuel) k h l =
    let (j, e) = unescape_char-render (unescape_loop fuel) out p v (render_all ps) h.0 k in
    let (s, e') = unescape_loop-render_all ps vs (out ++ v ∷ []) fuel j h.1 (omega arith) in
    (s, rw (e, e', append_assoc))

length-render_pos : (p : Spelling) → 0 < length (render p)
length-render_pos (plain c) = omega arith
length-render_pos _ = omega arith

length-render_all : (ps : List Spelling) → length ps ≤ length (render_all ps)
length-render_all [] = omega arith
length-render_all (p ∷ ps) =
    omega
      (arith, length-render_all ps, length-render_pos p, length-append (render p) (render_all ps))

-- A string literal spelled out by legal spellings, in any mixture of the forms, decodes to the
-- characters that they mean.
pub unescape_string-render_all :
    (ps : List Spelling) (vs : Text) → MeanAll ps vs → unescape_string (render_all ps) ≡ ok vs
unfolding unescape_string
unescape_string-render_all ps vs h =
    let (s, e) =
      unescape_loop-render_all ps vs [] (length (render_all ps) + 1) 0 h
        (omega (arith, length-render_all ps)) in
    rw e

rune_char-render :
    (p : Spelling) (v : ℕ) (r : Text)
    → Means p v
    → p ≢ Spelling.nul
    → (j : ℕ) × (rune_char (chars (render p ++ r) 0) ≡ ok (v, chars r j))
unfolding rune_char next
rune_char-render (plain c) v r (h, e) n = (0 + 1, rw (eq-false c 0x5c h, e))
rune_char-render Spelling.backslash v r e n = (0 + 1 + 1, rw e)
rune_char-render Spelling.double_quote v r e n = (0 + 1 + 1, rw e)
rune_char-render Spelling.single_quote v r e n = (0 + 1 + 1, rw e)
rune_char-render Spelling.newline v r e n = (0 + 1 + 1, rw e)
rune_char-render Spelling.carriage_return v r e n = (0 + 1 + 1, rw e)
rune_char-render Spelling.tab v r e n = (0 + 1 + 1, rw e)
rune_char-render Spelling.nul v r e n = absurd (n refl)
rune_char-render (hex ds) v r h n = hex-Yields ds r v h (0 + 1 + 1)
rune_char-render (hex_16 ds) v r h n = hex_16-Yields ds r v h (0 + 1 + 1)
rune_char-render (hex_32 ds) v r h n = hex_32-Yields ds r v h (0 + 1 + 1)
rune_char-render (oct ds) v r h n = oct-Yields ds r v h (0 + 1 + 1)
rune_char-render (bin ds) v r h n = bin-Yields ds r v h (0 + 1 + 1)

-- A rune literal decodes to the character of its first spelling, unless that is the null escape,
-- whatever text follows it: nothing looks at the rest.
pub unescape_rune-render :
    (p : Spelling) (v : ℕ) (r : Text)
    → Means p v
    → p ≢ Spelling.nul
    → unescape_rune (render p ++ r) ≡ ok v
unfolding unescape_rune
unescape_rune-render p v r h n = let (j, e) = rune_char-render p v r h n in rw e
