-- ===== src/Parser/Paths.antt =====
-- `item_path` of crates/crunch-parser/src/parser/utils.rs reads what a dotted path is written as.
use crunch_lang.Prelude.{
  ℕ, zero, suc, ◌+◌, ◌<◌, ◌≤◌, ◌≡◌, refl, ap, ◌∙◌, subst, Bool, true, false, List, [], ◌∷◌, ◌++◌,
  arith, length,
}
use crunch_lang.Token.{contains, TokenType, Token, is_kind, dot, ident, newline}
use crunch_lang.Ast.{ItemPath, StrT}
use crunch_lang.Parser.Core.{Context, Parser, Outcome, ok, bind}
use crunch_lang.Parser.Tokens.{left, eat}
use crunch_lang.Parser.Literal.{
  peeks_at, sees, item_path, item_path_rest, item_path_loop, add_stack_frame,
}
use crunch_lang.Parser.Progress.{eat-eq}
use crunch_lang.Parser.Visible.{visible, advance-visible, peek_of_empty, length-visible}

-- The call gives `a`, and `ts` is in sight behind it.
pub data Reads {A : Type 0} (a : A) (ts : List Token) : Outcome A → Type 0 where
  reads : {q : Parser} → visible q ≡ ts → Reads a ts (ok a q)

Reads-bind :
    {A B : Type 0} {a : A} {b : B} {ts us : List Token} {r : Outcome A} (f : A → Parser → Outcome B)
    → Reads a ts r
    → ((q : Parser) → visible q ≡ ts → Reads b us (f a q))
    → Reads b us (bind r f)
Reads-bind f (reads e) k = k _ e

-- A dot and the name behind it.
pub record Segment : Type 0 where
  pub point : Token
  pub name : Token

abbrev pub IsSegment : Segment → Type 0
IsSegment s = (is_kind s.point.ty dot ≡ true) × (is_kind s.name.ty ident ≡ true)

abbrev pub AllSegments : List Segment → Type 0
AllSegments [] = Unit
AllSegments (s ∷ ss) = IsSegment s × AllSegments ss

-- The tokens of a path behind its first name, in front of other tokens.
abbrev pub dotted : List Segment → List Token → List Token
dotted [] after = after
dotted (s ∷ ss) after = s.point ∷ s.name ∷ dotted ss after

abbrev pub NoDot : List Token → Type 0
NoDot [] = Unit
NoDot (t ∷ ts) = is_kind t.ty dot ≡ false

abbrev pub interned : Context → List Segment → ItemPath
interned x [] = []
interned x (s ∷ ss) = x.intern s.name.source ∷ interned x ss

push_append :
    (path : ItemPath) (a : StrT) (rest : ItemPath) → (path ++ a ∷ []) ++ rest ≡ path ++ a ∷ rest
push_append [] a rest = refl
push_append (b ∷ path) a rest = ap (λ p. b ∷ p) (push_append path a rest)

length-dotted : (ss : List Segment) (after : List Token) → length ss ≤ length (dotted ss after)
length-dotted [] after = omega arith
length-dotted (s ∷ ss) after = let ih = length-dotted ss after in omega arith

module _ (x : Context) where
  eat-Reads :
      (kind : TokenType) (ignoring : List TokenType) (t : Token) (ts : List Token) (p : Parser)
      → contains ignoring kind ≡ false
      → is_kind t.ty kind ≡ true
      → visible p ≡ t ∷ ts
      → Reads t ts (eat x kind ignoring p)
  eat-Reads kind ignoring t ts p c k v =
      let (e, w) = advance-visible p t ts v in rw (eat-eq x p t kind ignoring c e k) (reads w)

  -- The token in sight decides what `sees` gives.
  sees-some :
      (kind : TokenType) (t : Token) (ts : List Token) (p : Parser) (b : Bool)
      → is_kind t.ty kind ≡ b
      → visible p ≡ t ∷ ts
      → Reads b (t ∷ ts) (sees kind p)
  unfolding sees
  sees-some kind t ts p b k v =
      let e : peeks_at kind p.peek ≡ b = ap (peeks_at kind) (advance-visible p t ts v).0 ∙ k in
      subst (λ b'. Reads b' (t ∷ ts) (ok (peeks_at kind p.peek) p)) e (reads v)

  sees-NoDot :
      (ts : List Token) (p : Parser) → NoDot ts → visible p ≡ ts → Reads false ts (sees dot p)
  unfolding sees
  sees-NoDot (t ∷ ts) p k v = sees-some dot t ts p false k v
  sees-NoDot [] p k v =
      subst (λ b'. Reads b' [] (ok (peeks_at dot p.peek) p)) (ap (peeks_at dot) (peek_of_empty p v))
        (reads v)

  item_path_loop-Reads :
      (fuel : ℕ) (path : ItemPath) (name : Token) (ss : List Segment) (after : List Token)
      (p : Parser)
      → length ss < fuel
      → is_kind name.ty ident ≡ true
      → AllSegments ss
      → NoDot after
      → visible p ≡ name ∷ dotted ss after
      → Reads (path ++ x.intern name.source ∷ interned x ss) after (item_path_loop x fuel path p)
  unfolding item_path_loop
  item_path_loop-Reads zero path name ss after p l k a d v = absurd (omega arith)
  item_path_loop-Reads (suc fuel) path name [] after p l k a d v =
      Reads-bind _ (eat-Reads ident (newline ∷ []) name after p refl k v)
        λ q w. Reads-bind _ (sees-NoDot after q d w) λ r u. reads u
  item_path_loop-Reads (suc fuel) path name (s ∷ ss) after p l k a d v =
      Reads-bind _ (eat-Reads ident (newline ∷ []) name (dotted (s ∷ ss) after) p refl k v) λ q w.
        Reads-bind _ (sees-some dot s.point (s.name ∷ dotted ss after) q true a.0.0 w) λ r u.
          Reads-bind _
            (eat-Reads dot (newline ∷ []) s.point (s.name ∷ dotted ss after) r refl a.0.0 u)
            λ p' v'.
              subst
                (λ path'.
                  Reads path' after (item_path_loop x fuel (path ++ x.intern name.source ∷ []) p'))
                (push_append path (x.intern name.source) (x.intern s.name.source ∷ interned x ss))
                (item_path_loop-Reads fuel (path ++ x.intern name.source ∷ []) s.name ss after p'
                  (omega arith) a.0.1 a.1 d v')

  -- Where a frame is left, and a path's dots and names are in sight with no dot behind them,
  -- `item_path` reads all of it and nothing else, and gives its names in order behind the first.
  pub item_path-Reads :
      (frames : ℕ) (start : StrT) (ss : List Segment) (after : List Token) (p : Parser)
      → AllSegments ss
      → NoDot after
      → visible p ≡ dotted ss after
      → Reads (start ∷ interned x ss) after (item_path x (suc frames) start p)
  unfolding item_path item_path_rest add_stack_frame
  item_path-Reads frames start [] after p a d v =
      Reads-bind _ (sees-NoDot after p d v) λ q w. reads w
  item_path-Reads frames start (s ∷ ss) after p a d v =
      Reads-bind _ (sees-some dot s.point (s.name ∷ dotted ss after) p true a.0.0 v) λ q w.
        Reads-bind _ (eat-Reads dot [] s.point (s.name ∷ dotted ss after) q refl a.0.0 w) λ r u.
          Reads-bind _ (sees-some ident s.name (dotted ss after) r true a.0.1 u) λ p' v'.
            let b = length-visible p' in
            let c = length-dotted ss after in
            let e = ap length v' in
            item_path_loop-Reads (left p' + 1) (start ∷ []) s.name ss after p' (omega arith) a.0.1
              a.1 d v'
