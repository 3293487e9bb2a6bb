-- ===== src/Distance.antt =====
-- crates/crunch-shared/src/distance.rs: `levenshtein_distance`.
mod Tests
pub mod Edits
pub mod Rows
pub mod Words
pub mod Match
pub mod Answer
pub mod Folds
pub mod Best
use crunch_lang.Prelude.{
  ℕ, zero, suc, ◌+◌, ◌-◌, min, Bool, true, false, Option, none, some, List, [], ◌∷◌, ◌==◌,
  if◌then◌else◌, Text, length, get_elem?, ltb,
}

-- The number of bytes of a character in UTF-8, and of a text (`str::len`).
abbrev pub char_len : ℕ → ℕ
char_len c = if ltb c 0x80 then 1 else if ltb c 0x800 then 2 else if ltb c 0x10000 then 3 else 4

abbrev pub text_len : Text → ℕ
text_len [] = 0
text_len (c ∷ t) = char_len c + text_len t

-- `0..=n`, from a start
abbrev pub range_from : ℕ → ℕ → List ℕ
range_from i zero = i ∷ []
range_from i (suc n) = i ∷ range_from (suc i) n

abbrev pub put_front : ℕ → Option (List ℕ) → Option (List ℕ)
put_front d none = none
put_front d (some ds) = some (d ∷ ds)

-- The loop over the characters of `right`: `cell` is `distances[j]`, the list the cells behind it. A
-- cell that is missing is an index out of bounds.
unfoldable pub fill_row : ℕ → Text → ℕ → ℕ → List ℕ → Option (List ℕ)
fill_row left_char [] current cell rest = some (cell ∷ rest)
fill_row left_char (c ∷ right) current cell [] = none
fill_row left_char (c ∷ right) current cell (next ∷ rest) =
    let changed = min (min current next) cell + 1 in
    let cell' = if left_char == c then current else changed in
    put_front cell (fill_row left_char right next cell' rest)

-- `distances[0] = current + 1`
abbrev pub begin_row : ℕ → Text → ℕ → List ℕ → Option (List ℕ)
unfolding fill_row
begin_row left_char right i [] = none
begin_row left_char right i (d ∷ ds) = fill_row left_char right i (i + 1) ds

abbrev pub and_then : {A B : Type 0} → Option A → (A → Option B) → Option B
and_then none f = none
and_then (some a) f = f a

-- The loop over the characters of `left`, from the index `i`.
unfoldable pub fill_rows : Text → Text → ℕ → List ℕ → Option (List ℕ)
unfolding begin_row
fill_rows [] right i ds = some ds
fill_rows (c ∷ left) right i ds =
    and_then (begin_row c right i ds) λ ds'. fill_rows left right (i + 1) ds'

-- The cell behind `t_last`, the index of the last character of `right`. An empty text ends the
-- function with the number of its own characters.
unfoldable pub levenshtein_distance : Text → Text → Option ℕ
unfolding fill_rows
levenshtein_distance [] right = some 0
levenshtein_distance (c ∷ left) [] = some 0
levenshtein_distance (c ∷ left) (d ∷ right) =
    and_then (fill_rows (c ∷ left) (d ∷ right) 0 (range_from 0 (text_len (d ∷ right))))
      λ ds. get_elem? ds (length right + 1)
