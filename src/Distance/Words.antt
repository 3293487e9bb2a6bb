-- ===== src/Distance/Words.antt =====
-- crates/crunch-shared/src/distance.rs: `sort_by_words`.
use crunch_lang.Prelude.{
  ℕ, suc, ◌+◌, ◌≤◌, ◌<◌, ◌≡◌, refl, ap, ◌∙◌, Bool, true, Bool-cases, inl, inr, List, [], ◌∷◌, ◌++◌,
  ◌==◌, ◌||◌, ◌&&◌, ltb, leb, if◌then◌else◌, Text, arith, lt→ltb,
}
use crunch_lang.Distance.{char_len, text_len}

pub data WordMode : Type 0 where
  snake_case kebab_case : WordMode

abbrev pub separator : WordMode → ℕ
separator WordMode.snake_case = b'_'
separator WordMode.kebab_case = b'-'

-- A `NonNull<str>`: the address of a word, and the word.
abbrev pub Pointer : Type 0
Pointer = ℕ × Text

-- `split`: `word` is the word so far, from its address on, and `here` the address that is reached.
unfoldable pub split : ℕ → ℕ → Text → ℕ → Text → List Pointer
split sep start word here [] = (start, word) ∷ []
split sep start word here (c ∷ t) =
    let next = here + char_len c in
    let cut = split sep next [] next t in
    let on = split sep start (word ++ c ∷ []) next t in if c == sep then (start, word) ∷ cut else on

-- The order of pointers: by address, then by length.
abbrev pub before : Pointer → Pointer → Bool
before (a, s) (b, t) = ltb a b || ((a == b) && leb (text_len s) (text_len t))

-- `sort`, which is stable: an element goes in front of the first that is not before it.
abbrev pub insert : Pointer → List Pointer → List Pointer
insert p [] = p ∷ []
insert p (q ∷ qs) = let behind = insert p qs in if before p q then p ∷ q ∷ qs else q ∷ behind

abbrev pub sort : List Pointer → List Pointer
sort [] = []
sort (p ∷ ps) = insert p (sort ps)

-- Each word with `_` behind it, and the last word once more.
abbrev pub joined : List Pointer → Text
joined [] = []
joined ((a, w) ∷ ps) = w ++ b'_' ∷ joined ps

abbrev pub last_word : List Pointer → Text
last_word [] = []
last_word ((a, w) ∷ []) = w
last_word (p ∷ q ∷ ps) = last_word (q ∷ ps)

-- The words of a name at an address, in the order of the pointers to them.
unfoldable pub sort_by_words : WordMode → ℕ → Text → Text
unfolding split
sort_by_words mode address name =
    let words = sort (split (separator mode) address [] address name) in
    joined words ++ last_word words

-- The addresses go up.
abbrev Ascends : ℕ → List Pointer → Type 0
Ascends a [] = Unit
Ascends a ((b, w) ∷ ps) = (a ≤ b) × Ascends (suc b) ps

char_len-positive : (c : ℕ) → 1 ≤ char_len c
char_len-positive c = ground arith

-- From some address on, all the more from a smaller one.
Ascends-weaken : (a b : ℕ) (ps : List Pointer) → a ≤ b → Ascends b ps → Ascends a ps
Ascends-weaken a b [] l h = tt
Ascends-weaken a b ((c, w) ∷ ps) l h = (omega (arith, h.0), h.1)

split-Ascends :
    (sep start : ℕ) (word : Text) (here : ℕ) (t : Text)
    → start ≤ here
    → Ascends start (split sep start word here t)
unfolding split
split-Ascends sep start word here [] l = (omega arith, tt)
split-Ascends sep start word here (c ∷ t) l =
    let next = here + char_len c in
    let p = char_len-positive c in
    elim (Bool-cases (c == sep)) [
      | inl e ↦ rw e (
        omega arith,
        Ascends-weaken (suc start) next (split sep next [] next t) (omega arith)
            (split-Ascends sep next [] next t (omega arith)),
      )
      | inr e ↦ rw e (split-Ascends sep start (word ++ c ∷ []) next t (omega arith))
    ]

before-less : (a : ℕ) (s : Text) (b : ℕ) (t : Text) → a < b → before (a, s) (b, t) ≡ true
before-less a s b t l = rw (lt→ltb a b l) refl

insert-first :
    (a : ℕ) (w : Text) (ps : List Pointer) → Ascends (suc a) ps → insert (a, w) ps ≡ (a, w) ∷ ps
insert-first a w [] h = refl
insert-first a w ((b, v) ∷ ps) h = rw (before-less a w b v (omega (arith, h.0))) refl

sort-same : (a : ℕ) (ps : List Pointer) → Ascends a ps → sort ps ≡ ps
sort-same a [] h = refl
sort-same a ((b, w) ∷ ps) h =
    ap (insert (b, w)) (sort-same (suc b) ps h.1) ∙ insert-first b w ps h.1

-- What `sort_by_words` gives without sorting.
abbrev pub unsorted : WordMode → ℕ → Text → Text
unfolding split
unsorted mode address name =
    let words = split (separator mode) address [] address name in joined words ++ last_word words

-- The words of a name are not sorted: they are pointers into the name, which are sorted by their
-- addresses, and so keep the order that they have in the name.
pub sort_by_words-unsorted :
    (mode : WordMode) (address : ℕ) (name : Text)
    → sort_by_words mode address name ≡ unsorted mode address name
unfolding sort_by_words unsorted
sort_by_words-unsorted mode address name =
    let words = split (separator mode) address [] address name in
    ap (λ ps. joined ps ++ last_word ps)
      (sort-same address words
        (split-Ascends (separator mode) address [] address name (omega arith)))
