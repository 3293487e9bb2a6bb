-- ===== src/Distance/Tests.antt =====
-- The distance of small texts.
use crunch_lang.Prelude.{◌≡◌, refl, none, some, codes, Text, List, [], ◌∷◌}
use crunch_lang.Distance.{levenshtein_distance}
use crunch_lang.Distance.Words.{WordMode, Pointer, sort_by_words, unsorted, sort_by_words-unsorted}
use crunch_lang.Distance.Match.{find_best_match}
use crunch_lang.Distance.Rows.{IsLeast, levenshtein_distance-IsLeast}

abbrev kitten : Text
kitten = codes "kitten"

abbrev sitting : Text
sitting = codes "sitting"

distance_of_words : levenshtein_distance kitten sitting ≡ some 3
unfolding levenshtein_distance
distance_of_words = refl

-- A text that is not empty is at the distance 0 of the empty one.
distance_to_nothing : levenshtein_distance kitten [] ≡ some 0
unfolding levenshtein_distance
distance_to_nothing = refl

levenshtein_distance-IsLeast_example : IsLeast kitten sitting (levenshtein_distance kitten sitting)
levenshtein_distance-IsLeast_example =
    levenshtein_distance-IsLeast b'k' (codes "itten") b's' (codes "itting")

-- `b_a` keeps its order.
sorts_nothing : sort_by_words WordMode.snake_case 0 (codes "b_a") ≡ codes "b_a_a"
unfolding sort_by_words
sorts_nothing = refl

sort_by_words-unsorted_example :
    sort_by_words WordMode.kebab_case 7 (codes "b-a") ≡ unsorted WordMode.kebab_case 7 (codes "b-a")
sort_by_words-unsorted_example = sort_by_words-unsorted WordMode.kebab_case 7 (codes "b-a")

abbrev names : List Pointer
names = (0, sitting) ∷ (10, codes "mitten") ∷ []

finds_mitten :
    find_best_match (λ t. t) (20, kitten) names none WordMode.snake_case
    ≡ some (some (10, codes "mitten"))
unfolding find_best_match
finds_mitten = refl
