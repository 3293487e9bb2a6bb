-- ===== src/Distance/Match.antt =====
-- crates/crunch-shared/src/distance.rs: `find_best_match`.
use crunch_lang.Prelude.{
  ℕ, ◌/◌, max, Option, none, some, List, [], ◌∷◌, leb, ltb, if◌then◌else◌, Text, eq_text,
}
use crunch_lang.Distance.{text_len, and_then, levenshtein_distance}
use crunch_lang.Distance.Words.{WordMode, Pointer, sort_by_words}

-- The state of the fold: the last match up to case, and the nearest candidate with its distance.
abbrev pub Matches : Type 0
Matches = Option Pointer × Option (Pointer × ℕ)

abbrev pub nearer : Option (Pointer × ℕ) → Pointer → ℕ → Option (Pointer × ℕ)
nearer none c d = some (c, d)
nearer (some (p, e)) c d = if ltb d e then some (c, d) else some (p, e)

-- `max_distance.unwrap_or_else(...)`
abbrev pub max_or_third : Option ℕ → Text → ℕ
max_or_third none needle = max (text_len needle) 3 / 3
max_or_third (some n) needle = n

-- The match up to case comes first, then the nearest candidate, then a match by words.
abbrev pub choose : Matches → Option Pointer → Option Pointer
choose (some c, near) by_words = some c
choose (none, some (c, d)) by_words = some c
choose (none, none) by_words = by_words

unfoldable pub find_match_by_sorted_words :
    WordMode → Text → List Pointer → Option Pointer → Option Pointer
unfolding sort_by_words
find_match_by_sorted_words mode words [] result = result
find_match_by_sorted_words mode words (c ∷ haystack) result =
    let (address, name) = c in
    find_match_by_sorted_words mode words haystack
      (if eq_text (sort_by_words mode address name) words then some c else result)

-- `to_uppercase` is the standard library's.
module _ (to_uppercase : Text → Text) where
  abbrev pub same_case : Text → Option Pointer → Pointer → Option Pointer
  same_case needle last c =
      if eq_text (to_uppercase (c.1)) (to_uppercase needle) then some c else last

  -- The candidates that are near enough, folded.
  unfoldable pub fold_near : Text → ℕ → List Pointer → Matches → Option Matches
  unfolding levenshtein_distance
  fold_near needle limit [] found = some found
  fold_near needle limit (c ∷ haystack) found = and_then (levenshtein_distance needle (c.1)) λ d.
      fold_near needle limit haystack
        (if leb d limit then (same_case needle (found.0) c, nearer (found.1) c d) else found)

  unfoldable pub find_best_match :
      Pointer → List Pointer → Option ℕ → WordMode → Option (Option Pointer)
  unfolding fold_near find_match_by_sorted_words sort_by_words
  find_best_match needle haystack max_distance mode =
      let (address, name) = needle in
      let words = sort_by_words mode address name in
      and_then (fold_near name (max_or_third max_distance name) haystack (none, none))
        λ found. some (choose found (find_match_by_sorted_words mode words haystack none))
