-- ===== src/Distance/Folds.antt =====
-- The folds of `find_best_match` in crates/crunch-shared/src/distance.rs, one by one.
use crunch_lang.Prelude.{
  ℕ, ◌<◌, ◌≤◌, ◌≡◌, refl, sym, ap, ◌∙◌, Bool, true, false, Option, none, some, List, [], ◌∷◌, ◌==◌,
  ◌&&◌, ==_iff, ==_refl, arith, ltb, ltb→lt, if◌then◌else◌, Bool-cases, inl, inr, Text, eq_text,
}
use crunch_lang.Distance.{levenshtein_distance}
use crunch_lang.Distance.Rows.{IsLeast, least, levenshtein_distance-IsLeast}
use crunch_lang.Distance.Words.{WordMode, Pointer, sort_by_words, sort_by_words-unsorted}
use crunch_lang.Distance.Match.{nearer, find_match_by_sorted_words}
use crunch_lang.Distance.Answer.{AllNot, Last, At, Reaches, NoneBelow, Nearest, HasWords}

-- The distance of any two texts is computed.
pub distance-some : (s t : Text) → (d : ℕ) × (levenshtein_distance s t ≡ some d)
unfolding levenshtein_distance
distance-some [] t = (0, refl)
distance-some (c ∷ s) [] = (0, refl)
distance-some (c ∷ s) (d ∷ t) = computed (levenshtein_distance-IsLeast c s d t)
  where
    computed : {o : Option ℕ} → IsLeast (c ∷ s) (d ∷ t) o → (n : ℕ) × (o ≡ some n)
    computed (least {n = n} e l) = (n, refl)

-- A fold that keeps the last candidate of a kind, or what it began with.
pub data LastOr (P : Pointer → Type 0) (a : Option Pointer)
    : List Pointer → Option Pointer → Type 0 where
  kept : {cs : List Pointer} → AllNot P cs → LastOr P a cs a
  last : {c : Pointer} {cs : List Pointer} → Last P c cs → LastOr P a cs (some c)

-- A test that tells whether a candidate is of the kind.
pub data Tells (A : Type 0) : Bool → Type 0 where
  is : A → Tells A true
  is_not : ¬ A → Tells A false

pub LastOr-if :
    {P : Pointer → Type 0} {a r : Option Pointer} {c : Pointer} {cs : List Pointer} {b : Bool}
    → Tells (P c) b
    → LastOr P (if b then some c else a) cs r
    → LastOr P a (c ∷ cs) r
LastOr-if (is h) (kept k) = last (Last.here h k)
LastOr-if (is h) (last l) = last (Last.later l)
LastOr-if (is_not h) (kept k) = kept (h, k)
LastOr-if (is_not h) (last l) = last (Last.later l)

both : {b : Bool} (a : Bool) → (a && b) ≡ true → (a ≡ true) × (b ≡ true)
both true h = (refl, h)
both false h = cc

eq_text_sound : (s t : Text) → eq_text s t ≡ true → s ≡ t
eq_text_sound [] [] h = refl
eq_text_sound [] (d ∷ t) h = cc
eq_text_sound (c ∷ s) [] h = cc
eq_text_sound (c ∷ s) (d ∷ t) h =
    let (e, k) = both (c == d) h in let p = eq_text_sound s t k in let q = (==_iff c d).0 e in cc

eq_text_refl : (s : Text) → eq_text s s ≡ true
eq_text_refl [] = refl
eq_text_refl (c ∷ s) = rw (==_refl c) (eq_text_refl s)

pub LastOr-skip :
    {P : Pointer → Type 0} {a r : Option Pointer} {c : Pointer} {cs : List Pointer}
    → ¬ P c
    → LastOr P a cs r
    → LastOr P a (c ∷ cs) r
LastOr-skip h (kept k) = kept (h, k)
LastOr-skip h (last l) = last (Last.later l)

pub eq_text-Tells : (s t : Text) → Tells (s ≡ t) (eq_text s t)
eq_text-Tells s t = elim (Bool-cases (eq_text s t)) [
  | inl e ↦ rw e (is (eq_text_sound s t e))
  | inr e ↦ rw e (is_not λ p. differs (sym (ap (eq_text s) p) ∙ eq_text_refl s) e)
]
  where
    differs : {b : Bool} → b ≡ true → b ≡ false → ⊥
    differs p e = cc

pub words-LastOr :
    (mode : WordMode) (needle : Pointer) (cs : List Pointer) (a : Option Pointer)
    → let words = sort_by_words mode (needle.0) (needle.1) in
      LastOr (HasWords mode needle) a cs (find_match_by_sorted_words mode words cs a)
unfolding find_match_by_sorted_words
words-LastOr mode needle [] a = kept tt
words-LastOr mode needle (c ∷ cs) a = LastOr-if tells (words-LastOr mode needle cs _)
  where
    tells :
        Tells
          (HasWords mode needle c)
          (eq_text (sort_by_words mode (c.0) (c.1)) (sort_by_words mode (needle.0) (needle.1)))
    tells =
        rw
          (
            sort_by_words-unsorted mode (c.0) (c.1),
            sort_by_words-unsorted mode (needle.0) (needle.1),
          )
          (eq_text-Tells _ _)

pub ltb-false→le : (a b : ℕ) → ltb a b ≡ false → b ≤ a
ltb-false→le a b h = ground arith

abbrev get_or : ℕ → Option ℕ → ℕ
get_or n none = n
get_or n (some m) = m

-- What the fold makes of the nearest candidate so far.
pub data NearOr (needle : Text) (limit : ℕ)
    : Option (Pointer × ℕ) → List Pointer → Option (Pointer × ℕ) → Type 0 where
  none_reaches :
      {cs : List Pointer} → AllNot (Reaches needle limit) cs → NearOr needle limit none cs none
  stays :
      {p : Pointer} {e : ℕ} {cs : List Pointer}
      → e ≤ limit
      → NoneBelow needle e cs
      → NearOr needle limit (some (p, e)) cs (some (p, e))
  first :
      {c : Pointer} {d : ℕ} {cs : List Pointer}
      → d ≤ limit
      → Nearest needle c d cs
      → NearOr needle limit none cs (some (c, d))
  nearer_one :
      {p c : Pointer} {d e : ℕ} {cs : List Pointer}
      → d ≤ limit
      → d < e
      → Nearest needle c d cs
      → NearOr needle limit (some (p, e)) cs (some (c, d))

-- The nearest candidate so far is within the limit.
abbrev pub Fits : ℕ → Option (Pointer × ℕ) → Type 0
Fits limit none = Unit
Fits limit (some (p, e)) = e ≤ limit

pub nearer-Fits :
    (limit : ℕ) (n : Option (Pointer × ℕ)) (c : Pointer) (d : ℕ)
    → d ≤ limit
    → Fits limit n
    → Fits limit (nearer n c d)
nearer-Fits limit none c d l f = l
nearer-Fits limit (some (p, e)) c d l f = decide (ltb d e)
  where
    decide : (b : Bool) → Fits limit (if b then some (c, d) else some (p, e))
    decide true = l
    decide false = f

module _ (needle : Text) (limit : ℕ) (c : Pointer) (d : ℕ) (a : At needle c d) where
  -- The distance of a candidate is one number.
  At-unique : {e : ℕ} → At needle c e → d ≡ e
  At-unique b = ap (get_or 0) (sym a ∙ b)

  pub beyond : limit < d → ¬ Reaches needle limit c
  beyond l (e, b, k) = let q = At-unique b in omega arith

  least_of : {m : ℕ} → m ≤ d → (e : ℕ) → At needle c e → m ≤ e
  least_of l e b = let q = At-unique b in omega arith

  pub NearOr-beyond :
      {n r : Option (Pointer × ℕ)} {cs : List Pointer}
      → limit < d
      → NearOr needle limit n cs r
      → NearOr needle limit n (c ∷ cs) r
  NearOr-beyond l (none_reaches k) = none_reaches (beyond l, k)
  NearOr-beyond l (stays k m) = stays k (least_of (omega arith), m)
  NearOr-beyond l (first k m) = first k (Nearest.later a (omega arith) m)
  NearOr-beyond l (nearer_one k h m) = nearer_one k h (Nearest.later a (omega arith) m)

  NearOr-first :
      {r : Option (Pointer × ℕ)} {cs : List Pointer}
      → d ≤ limit
      → NearOr needle limit (some (c, d)) cs r
      → NearOr needle limit none (c ∷ cs) r
  NearOr-first l (stays k m) = first l (Nearest.here a m)
  NearOr-first l (nearer_one k h m) = first k (Nearest.later a h m)

  NearOr-nearer :
      {p : Pointer} {e : ℕ} {r : Option (Pointer × ℕ)} {cs : List Pointer}
      → d ≤ limit
      → d < e
      → NearOr needle limit (some (c, d)) cs r
      → NearOr needle limit (some (p, e)) (c ∷ cs) r
  NearOr-nearer l h (stays k m) = nearer_one l h (Nearest.here a m)
  NearOr-nearer l h (nearer_one k h' m) = nearer_one k (omega arith) (Nearest.later a h' m)

  NearOr-farther :
      {p : Pointer} {e : ℕ} {r : Option (Pointer × ℕ)} {cs : List Pointer}
      → e ≤ d
      → NearOr needle limit (some (p, e)) cs r
      → NearOr needle limit (some (p, e)) (c ∷ cs) r
  NearOr-farther h (stays k m) = stays k (least_of h, m)
  NearOr-farther h (nearer_one k h' m) = nearer_one k h' (Nearest.later a (omega arith) m)

  pub NearOr-near :
      {r : Option (Pointer × ℕ)} {cs : List Pointer} (n : Option (Pointer × ℕ))
      → d ≤ limit
      → NearOr needle limit (nearer n c d) cs r
      → NearOr needle limit n (c ∷ cs) r
  NearOr-near none l h = NearOr-first l h
  NearOr-near {r = r} {cs = cs} (some (p, e)) l h = decide (ltb d e) refl h
    where
      decide :
          (b : Bool)
          → ltb d e ≡ b
          → NearOr needle limit (if b then some (c, d) else some (p, e)) cs r
          → NearOr needle limit (some (p, e)) (c ∷ cs) r
      decide true q h' = NearOr-nearer l (ltb→lt d e q) h'
      decide false q h' = NearOr-farther (ltb-false→le d e q) h'
