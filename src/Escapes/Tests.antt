-- ===== src/Escapes/Tests.antt =====
-- Runs of the escape decoder, the source's own unit tests among them.
use crunch_lang.Prelude.{◌≡◌, refl, [], ◌∷◌, codes, arith}
use crunch_lang.Escapes.{unescape_string, unescape_rune, is_scalar, ok, err, missing_escape_braces}
use crunch_lang.Escapes.Post.{AllScalar, IsScalar}
use crunch_lang.Escapes.Safety.{Decodes, unescape_string-Decodes, unescape_rune-Decodes}
use crunch_lang.Escapes.Spelling.{hex_value, Spelling, plain, hex, bin}
use crunch_lang.Escapes.RoundTrip.{unescape_string-render_all, unescape_rune-render}

t1 : unescape_string (codes "a\\u{005A}\\x{fF}\\n") ≡ ok (97 ∷ 0x5a ∷ 0xff ∷ 10 ∷ [])
unfolding unescape_string
t1 = refl

t2 : unescape_string (codes "\\u2599}") ≡ err missing_escape_braces 2 3
unfolding unescape_string
t2 = refl

t3 : unescape_rune (codes "\\b{01000001}'") ≡ ok 65
unfolding unescape_rune
t3 = refl

unescape_string-Decodes_example : Decodes 7 AllScalar (unescape_string (codes "a\\x{5z}"))
unfolding is_scalar
unescape_string-Decodes_example =
    unescape_string-Decodes (codes "a\\x{5z}")
      (refl, (refl, (refl, (refl, (refl, (refl, (refl, tt)))))))

unescape_rune-Decodes_example : Decodes 2 IsScalar (unescape_rune (codes "\\x"))
unfolding is_scalar
unescape_rune-Decodes_example = unescape_rune-Decodes (codes "\\x") (refl, (refl, tt))

unescape_string-render_all_example : unescape_string (codes "a\\x{fF}\\n") ≡ ok (97 ∷ 255 ∷ 10 ∷ [])
unfolding is_scalar hex_value
unescape_string-render_all_example =
    unescape_string-render_all (plain 97 ∷ hex (codes "fF") ∷ Spelling.newline ∷ [])
      (97 ∷ 255 ∷ 10 ∷ []) (((λ e. omega arith), refl), ((refl, refl, refl), (refl, tt)))

unescape_rune-render_example : unescape_rune (codes "\\b{01000001}'") ≡ ok 65
unfolding is_scalar
unescape_rune-render_example =
    unescape_rune-render (bin (codes "01000001")) 65 (codes "'") (refl, refl, refl) (λ e. cc)
