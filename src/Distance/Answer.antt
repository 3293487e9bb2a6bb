-- ===== src/Distance/Answer.antt =====
-- The answers that a search for the best match may give, told without the folds of
-- crates/crunch-shared/src/distance.rs.
use crunch_lang.Prelude.{ℕ, ◌*◌, ◌+◌, ◌<◌, ◌≤◌, ◌≡◌, Option, none, some, List, [], ◌∷◌, Text}
use crunch_lang.Distance.{text_len, levenshtein_distance}
use crunch_lang.Distance.Words.{WordMode, Pointer, unsorted}

abbrev pub AllNot : (Pointer → Type 0) → List Pointer → Type 0
AllNot P [] = Unit
AllNot P (c ∷ cs) = ¬ P c × AllNot P cs

-- The last candidate of a kind.
pub data Last (P : Pointer → Type 0) (c : Pointer) : List Pointer → Type 0 where
  here : {cs : List Pointer} → P c → AllNot P cs → Last P c (c ∷ cs)
  later : {b : Pointer} {cs : List Pointer} → Last P c cs → Last P c (b ∷ cs)

-- The distance of a candidate from the needle.
abbrev pub At : Text → Pointer → ℕ → Type 0
At needle c d = levenshtein_distance needle (c.1) ≡ some d

-- A candidate that is near enough.
abbrev pub Reaches : Text → ℕ → Pointer → Type 0
Reaches needle limit c = (d : ℕ) × At needle c d × (d ≤ limit)

abbrev pub NoneBelow : Text → ℕ → List Pointer → Type 0
NoneBelow needle d [] = Unit
NoneBelow needle d (c ∷ cs) = ((e : ℕ) → At needle c e → d ≤ e) × NoneBelow needle d cs

-- The first of the candidates of the least distance.
pub data Nearest (needle : Text) (c : Pointer) (d : ℕ) : List Pointer → Type 0 where
  here : {cs : List Pointer} → At needle c d → NoneBelow needle d cs → Nearest needle c d (c ∷ cs)
  later :
      {b : Pointer} {e : ℕ} {cs : List Pointer}
      → At needle b e
      → d < e
      → Nearest needle c d cs
      → Nearest needle c d (b ∷ cs)

-- The limit of the distance: the one that is given, or a third of the needle's length in bytes, and
-- one at least.
pub data IsLimit (needle : Text) : Option ℕ → ℕ → Type 0 where
  given : {n : ℕ} → IsLimit needle (some n) n
  short : text_len needle < 3 → IsLimit needle none 1
  third :
      {n : ℕ}
      → 3 ≤ text_len needle
      → 3 * n ≤ text_len needle
      → text_len needle < 3 * n + 3
      → IsLimit needle none n

abbrev pub Names : (Text → Text) → Text → ℕ → Pointer → Type 0
Names up needle limit c = Reaches needle limit c × (up (c.1) ≡ up needle)

-- A candidate whose words are the needle's, in the same order.
abbrev pub HasWords : WordMode → Pointer → Pointer → Type 0
HasWords mode needle c = unsorted mode (c.0) (c.1) ≡ unsorted mode (needle.0) (needle.1)

-- The answers to a search, within a limit.
pub data Answers (up : Text → Text) (needle : Pointer) (limit : ℕ) (mode : WordMode)
    (haystack : List Pointer) : Option (Option Pointer) → Type 0 where
  same_name :
      {c : Pointer}
      → Last (Names up (needle.1) limit) c haystack
      → Answers up needle limit mode haystack (some (some c))
  nearest :
      {c : Pointer} {d : ℕ}
      → AllNot (Names up (needle.1) limit) haystack
      → Nearest (needle.1) c d haystack
      → d ≤ limit
      → Answers up needle limit mode haystack (some (some c))
  by_words :
      {c : Pointer}
      → AllNot (Reaches (needle.1) limit) haystack
      → Last (HasWords mode needle) c haystack
      → Answers up needle limit mode haystack (some (some c))
  nothing :
      AllNot (Reaches (needle.1) limit) haystack
      → AllNot (HasWords mode needle) haystack
      → Answers up needle limit mode haystack (some none)
