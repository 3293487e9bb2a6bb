-- ===== src/Distance/Edits.antt =====
-- Edits of texts, and the least number of them by recursion.
use crunch_lang.Prelude.{◌⊎◌, append-nil}
use crunch_lang.Prelude.{
  ℕ, suc, ◌+◌, ◌≤◌, ◌≡◌, refl, ◌∙◌, subst, min, Bool, true, false, Bool-cases, inl, inr, [], ◌∷◌,
  ◌++◌, ◌==◌, ==_refl, ==_iff, if◌then◌else◌, Text, length, arith,
}

-- One text becomes another by so many insertions, deletions and replacements of a character.
pub data Edits : Text → Text → ℕ → Type 0 where
  finished : Edits [] [] 0
  kept : {s t : Text} {n : ℕ} (c : ℕ) → Edits s t n → Edits (c ∷ s) (c ∷ t) n
  replaced : {s t : Text} {n : ℕ} (c d : ℕ) → Edits s t n → Edits (c ∷ s) (d ∷ t) (suc n)
  deleted : {s t : Text} {n : ℕ} (c : ℕ) → Edits s t n → Edits (c ∷ s) t (suc n)
  inserted : {s t : Text} {n : ℕ} (d : ℕ) → Edits s t n → Edits s (d ∷ t) (suc n)

-- A character in front of a text whose distances are given by `f`.
abbrev pub extended : ℕ → ℕ → (Text → ℕ) → Text → ℕ
extended c n f [] = suc n
extended c n f (d ∷ t) = if c == d then f t else min (min (f t) (f (d ∷ t))) (extended c n f t) + 1

abbrev pub dist : Text → Text → ℕ
dist [] t = length t
dist (c ∷ s) t = extended c (length s) (dist s) t

pub dist-nil : (s : Text) → dist s [] ≡ length s
dist-nil [] = refl
dist-nil (c ∷ s) = refl

-- A character in front of the second text makes at most one more, or one less.
abbrev Inserts : Text → Type 0
Inserts s = (d : ℕ) (t : Text) → dist s (d ∷ t) ≤ dist s t + 1

abbrev Uninserts : Text → Type 0
Uninserts s = (d : ℕ) (t : Text) → dist s t ≤ dist s (d ∷ t) + 1

-- A character in front of the first text makes at most one less.
undeletes : (s : Text) → Inserts s → (c : ℕ) (t : Text) → dist s t ≤ dist (c ∷ s) t + 1
undeletes s h c [] = omega (arith, dist-nil s)
undeletes s h c (d ∷ t) = elim (Bool-cases (c == d)) [
  | inl e ↦ rw e (h d t)
  | inr e ↦ rw e (omega (arith, h d t, undeletes s h c t))
]

inserts : (s : Text) → Inserts s
inserts [] d t = omega arith
inserts (c ∷ s) d t = elim (Bool-cases (c == d)) [
  | inl e ↦ rw e (undeletes s (inserts s) c t)
  | inr e ↦ rw e (omega arith)
]

-- A character in front of the first text makes at most one more.
deletes : (s : Text) → Uninserts s → (c : ℕ) (t : Text) → dist (c ∷ s) t ≤ dist s t + 1
deletes s h c [] = omega (arith, dist-nil s)
deletes s h c (d ∷ t) = elim (Bool-cases (c == d)) [
  | inl e ↦ rw e (h d t)
  | inr e ↦ rw e (omega arith)
]

uninserts : (s : Text) → Uninserts s
uninserts [] d t = omega arith
uninserts (c ∷ s) d t = elim (Bool-cases (c == d)) [
  | inl e ↦ rw e (deletes s (uninserts s) c t)
  | inr e ↦ rw e (omega (arith, deletes s (uninserts s) c t, uninserts s d t))
]

replaces : (c d : ℕ) (s t : Text) → dist (c ∷ s) (d ∷ t) ≤ dist s t + 1
replaces c d s t = elim (Bool-cases (c == d)) [
  | inl e ↦ rw e (omega arith)
  | inr e ↦ rw e (omega arith)
]

-- No edits are fewer than the distance.
pub dist-least : {s t : Text} {n : ℕ} → Edits s t n → dist s t ≤ n
dist-least finished = omega arith
dist-least (kept {s} {t} c e) = rw (==_refl c) (dist-least e)
dist-least (replaced {s} {t} c d e) = omega (arith, replaces c d s t, dist-least e)
dist-least (deleted {s} {t} c e) = omega (arith, deletes s (uninserts s) c t, dist-least e)
dist-least (inserted {s} {t} d e) = omega (arith, inserts s d t, dist-least e)

min-cases : (a b : ℕ) → (min a b ≡ a) ⊎ (min a b ≡ b)
min-cases a b = ground arith

insert_all : (t : Text) → Edits [] t (length t)
insert_all [] = finished
insert_all (d ∷ t) = inserted d (insert_all t)

delete_all : (s : Text) → Edits s [] (length s)
delete_all [] = finished
delete_all (c ∷ s) = deleted c (delete_all s)

-- One more edit than the least of three numbers.
after_least :
    (s t : Text) (k l m : ℕ)
    → Edits s t (suc k)
    → Edits s t (suc l)
    → Edits s t (suc m)
    → Edits s t (min (min k l) m + 1)
after_least s t k l m a b c = elim (min-cases (min k l) m) [
  | inl e ↦ elim (min-cases k l) [
    | inl f ↦ subst (Edits s t) (omega (arith, e, f)) a
    | inr f ↦ subst (Edits s t) (omega (arith, e, f)) b
  ]
  | inr e ↦ subst (Edits s t) (omega (arith, e)) c
]

-- As many edits as the distance are enough.
pub dist-Edits : (s t : Text) → Edits s t (dist s t)
dist-Edits [] t = insert_all t
dist-Edits (c ∷ s) [] = delete_all (c ∷ s)
dist-Edits (c ∷ s) (d ∷ t) =
    decide (c == d) refl (dist-Edits s t) (dist-Edits s (d ∷ t)) (dist-Edits (c ∷ s) t)
  where
    decide :
        (b : Bool)
        → (c == d) ≡ b
        → Edits s t (dist s t)
        → Edits s (d ∷ t) (dist s (d ∷ t))
        → Edits (c ∷ s) t (dist (c ∷ s) t)
        → Edits
            (c ∷ s)
            (d ∷ t)
            (if b then dist s t else min (min (dist s t) (dist s (d ∷ t))) (dist (c ∷ s) t) + 1)
    decide true e k i j =
        subst (λ x. Edits (c ∷ s) (x ∷ t) (dist s t)) ((==_iff c d).0 e) (kept c k)
    decide false e k i j =
        after_least (c ∷ s) (d ∷ t) _ _ _ (replaced c d k) (deleted c i) (inserted d j)

-- A text backwards, in front of another.
abbrev pub backwards : Text → Text → Text
backwards acc [] = acc
backwards acc (c ∷ s) = backwards (c ∷ acc) s

backwards-backwards : (a b s : Text) → backwards a (backwards b s) ≡ backwards (s ++ a) b
backwards-backwards a b [] = refl
backwards-backwards a b (c ∷ s) = backwards-backwards a (c ∷ b) s

pub backwards-twice : (s : Text) → backwards [] (backwards [] s) ≡ s
backwards-twice s = backwards-backwards [] [] s ∙ append-nil s

Edits-backwards :
    {a b s t : Text} {m n : ℕ}
    → Edits s t n
    → Edits a b m
    → Edits (backwards a s) (backwards b t) (n + m)
Edits-backwards finished h = subst (Edits _ _) (omega arith) h
Edits-backwards (kept c e) h = Edits-backwards e (kept c h)
Edits-backwards {a} {b} (replaced {s} {t} c d e) h =
    subst (Edits _ _) (omega arith) (Edits-backwards e (replaced c d h))
Edits-backwards (deleted c e) h = subst (Edits _ _) (omega arith) (Edits-backwards e (deleted c h))
Edits-backwards (inserted d e) h =
    subst (Edits _ _) (omega arith) (Edits-backwards e (inserted d h))

pub Edits-reverse : {s t : Text} {n : ℕ} → Edits s t n → Edits (backwards [] s) (backwards [] t) n
Edits-reverse e = subst (Edits _ _) (omega arith) (Edits-backwards e finished)
