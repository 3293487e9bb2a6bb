-- ===== src/Distance/Rows.antt =====
-- The rows of `levenshtein_distance` hold the distances of the beginnings of the texts.
use native.Mathlib.Numerals.{add-one}
use crunch_lang.Prelude.{
  ap, sym, subst, ◌∙◌, ℕ, zero, suc, ◌+◌, ◌≤◌, ◌≡◌, refl, Option, some, List, [], ◌∷◌, ◌++◌, length,
  Text, get_elem?, arith,
}
use crunch_lang.Distance.{
  fill_row, fill_rows, begin_row, range_from, text_len, char_len, and_then, put_front,
  levenshtein_distance,
}
use crunch_lang.Distance.Edits.{
  dist, dist-nil, Edits, dist-least, dist-Edits, backwards, backwards-twice, Edits-reverse,
}

-- The distances of a text to another and its extensions, all read backwards.
abbrev cells : Text → Text → Text → List ℕ
cells s t [] = dist s t ∷ []
cells s t (c ∷ cs) = dist s t ∷ cells s (c ∷ t) cs

abbrev behind : Text → Text → Text → List ℕ
behind s t [] = []
behind s t (c ∷ cs) = cells s (c ∷ t) cs

cells-eq : (s t cs : Text) → cells s t cs ≡ dist s t ∷ behind s t cs
cells-eq s t [] = refl
cells-eq s t (c ∷ cs) = refl

-- A row becomes the next one; the cells behind the characters of `right` stay as they are.
fill_row-cells :
    (c : ℕ) (s t cs : Text) (junk : List ℕ)
    → fill_row c cs (dist s t) (dist (c ∷ s) t) (behind s t cs ++ junk)
      ≡ some (cells (c ∷ s) t cs ++ junk)
unfolding fill_row
fill_row-cells c s t [] junk = refl
fill_row-cells c s t (d ∷ cs) junk =
    rw (cells-eq s (d ∷ t) cs)
      (ap (put_front (dist (c ∷ s) t)) (fill_row-cells c s (d ∷ t) cs junk))

begin_row-cells :
    (c : ℕ) (s right : Text) (junk : List ℕ)
    → begin_row c right (length s) (cells s [] right ++ junk)
      ≡ some (cells (c ∷ s) [] right ++ junk)
unfolding begin_row
begin_row-cells c s right junk =
    rw (cells-eq s [] right, add-one)
      (subst
        (λ k.
          fill_row c right k (suc (length s)) (behind s [] right ++ junk)
          ≡ some (cells (c ∷ s) [] right ++ junk))
        (dist-nil s) (fill_row-cells c s [] right junk))

fill_rows-cells :
    (left s right : Text) (junk : List ℕ)
    → fill_rows left right (length s) (cells s [] right ++ junk)
      ≡ some (cells (backwards s left) [] right ++ junk)
unfolding fill_rows
fill_rows-cells [] s right junk = refl
fill_rows-cells (c ∷ left) s right junk =
    rw (begin_row-cells c s right junk, add-one) (fill_rows-cells left (c ∷ s) right junk)

-- The row at the start, which is as long as the bytes of `right`.
range-cells :
    (t cs : Text) (n : ℕ)
    → length cs ≤ n
    → (junk : List ℕ) × (range_from (length t) n ≡ cells [] t cs ++ junk)
range-cells t [] zero l = ([], refl)
range-cells t [] (suc n) l = (range_from (suc (length t)) n, refl)
range-cells t (c ∷ cs) zero l = absurd (omega arith)
range-cells t (c ∷ cs) (suc n) l =
    let (junk, e) = range-cells (c ∷ t) cs n (omega arith) in (junk, ap (◌∷◌ (length t)) e)

char_len-positive : (c : ℕ) → 1 ≤ char_len c
char_len-positive c = ground arith

length-text_len : (t : Text) → length t ≤ text_len t
length-text_len [] = omega arith
length-text_len (c ∷ t) = omega (arith, char_len-positive c, length-text_len t)

last-cell :
    (s t cs : Text) (junk : List ℕ)
    → get_elem? (cells s t cs ++ junk) (length cs) ≡ some (dist s (backwards t cs))
last-cell s t [] junk = refl
last-cell s t (c ∷ cs) junk = last-cell s (c ∷ t) cs junk

distance-dist :
    (c : ℕ) (left : Text) (d : ℕ) (right : Text)
    → levenshtein_distance (c ∷ left) (d ∷ right)
      ≡ some (dist (backwards [] (c ∷ left)) (backwards [] (d ∷ right)))
unfolding levenshtein_distance
distance-dist c left d right =
    let (junk, e) =
      range-cells [] (d ∷ right) (text_len (d ∷ right)) (length-text_len (d ∷ right)) in
    ap
      (λ ds.
        and_then (fill_rows (c ∷ left) (d ∷ right) 0 ds) λ ds'. get_elem? ds' (length right + 1))
      e
    ∙ ap (λ o. and_then o λ ds'. get_elem? ds' (length right + 1))
        (fill_rows-cells (c ∷ left) [] (d ∷ right) junk)
    ∙ ap (get_elem? (cells (backwards [] (c ∷ left)) [] (d ∷ right) ++ junk))
        {y = suc (length right)} (omega arith)
    ∙ last-cell (backwards [] (c ∷ left)) [] (d ∷ right) junk

-- What is promised of a result: it is a number of edits that make one text the other, and no fewer
-- edits do.
pub data IsLeast (left right : Text) : Option ℕ → Type 0 where
  least :
      {n : ℕ}
      → Edits left right n
      → ((m : ℕ) → Edits left right m → n ≤ m)
      → IsLeast left right (some n)

dist-IsLeast : (s t : Text) → IsLeast s t (some (dist (backwards [] s) (backwards [] t)))
dist-IsLeast s t =
    least
      (subst (λ u. Edits u t (dist (backwards [] s) (backwards [] t))) (backwards-twice s)
        (subst
          (λ u. Edits (backwards [] (backwards [] s)) u (dist (backwards [] s) (backwards [] t)))
          (backwards-twice t) (Edits-reverse (dist-Edits (backwards [] s) (backwards [] t)))))
      λ m e. dist-least (Edits-reverse e)

-- The distance of two texts that are not empty is computed without an index out of bounds, and is
-- the least number of insertions, deletions and replacements of a character that make the first
-- text the second.
pub levenshtein_distance-IsLeast :
    (c : ℕ) (left : Text) (d : ℕ) (right : Text)
    → IsLeast (c ∷ left) (d ∷ right) (levenshtein_distance (c ∷ left) (d ∷ right))
levenshtein_distance-IsLeast c left d right =
    subst (IsLeast (c ∷ left) (d ∷ right)) (sym (distance-dist c left d right))
      (dist-IsLeast (c ∷ left) (d ∷ right))
