-- ===== src/Distance/Best.antt =====
-- What `find_best_match` of crates/crunch-shared/src/distance.rs finds.
use crunch_lang.Prelude.{ℕ, ◌≡◌, Option, some, List, Text}
use crunch_lang.Distance.Words.{Pointer}
use crunch_lang.Distance.Match.{Matches}
use crunch_lang.Distance.Answer.{Names}
use crunch_lang.Distance.Folds.{LastOr, NearOr}

module _ (up : Text → Text) (needle : Text) (limit : ℕ) where
  abbrev Folded : List Pointer → Matches → Option Matches → Type 0
  Folded cs found o =
      (m : Matches) × (o ≡ some m)
      × LastOr (Names up needle limit) (found.0) cs (m.0)
      × NearOr needle limit (found.1) cs (m.1)
