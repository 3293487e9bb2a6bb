-- ===== src/Ladder/Resolves.antt =====
-- The numbers that lowering gives to types stand for these types in the context, and keep doing so.
use crunch_lang.Prelude.{
  true, Option, none, some, List, [], ◌∷◌, arith, ◌≡◌, refl, ◌⊎◌, inl, inr, ◌∙◌,
}
use mathlib.Core.Bool.{false≢true}
use crunch_lang.Ast as Ast
use crunch_lang.Hir.{TypeId, TypeKind, HirType, hir_type_at}
use crunch_lang.Ladder.{
  Context, Ladder, Lower, get, with_type, insert_type, hir_type, answer, query, Recall,
  visit_located, visit_type,
}
use crunch_lang.Ladder.Runs.{Runs, panics, returns, weaken, of_returned, ◌▷◌}
use crunch_lang.Ladder.Support.{HasRoom, is_some, is_some-Settles, supports_located}
use crunch_lang.Ladder.Support.Types.{insert-HasRoom, visit_located-Decides}

-- the map from numbers to types
abbrev pub Types : Type 0
Types = List (TypeId × HirType)

-- `Denotes types id ty`: `id` stands for a type of the HIR at the place of `ty`, whose parts stand
-- for those of `ty`. An integer as wide as a pointer is one of 64 bits.
unfoldable mutual
  pub Denotes : Types → TypeId → Ast.Located → Type 0
  Denotes types id (Ast.at ty loc) =
      (kind : TypeKind) × (get types id ≡ some (hir_type_at kind loc)) × Matches types kind ty

  pub Matches : Types → TypeKind → Ast.AstType → Type 0
  Matches types kind Ast.AstType.unknown = kind ≡ TypeKind.unknown
  Matches types kind Ast.AstType.unit = kind ≡ TypeKind.unit
  Matches types kind Ast.AstType.bool = kind ≡ TypeKind.bool
  Matches types kind Ast.AstType.string = kind ≡ TypeKind.string
  Matches types kind (Ast.AstType.integer signed width) = kind ≡ TypeKind.integer signed width
  Matches types kind (Ast.AstType.array element length) =
      (id : TypeId) × (kind ≡ TypeKind.array id length) × Denotes types id element
  Matches types kind (Ast.AstType.slice element) =
      (id : TypeId) × (kind ≡ TypeKind.slice id) × Denotes types id element
  Matches types kind (Ast.AstType.pointer pointee mutable) =
      (id : TypeId) × (kind ≡ TypeKind.pointer id mutable) × Denotes types id pointee
  Matches types kind (Ast.AstType.reference referee mutable) =
      (id : TypeId) × (kind ≡ TypeKind.reference id mutable) × Denotes types id referee
  Matches types kind (Ast.AstType.int_ptr signed) = kind ≡ TypeKind.integer (some signed) (some 64)
  Matches types kind _ = ⊥

-- What stood for a type still does.
abbrev pub Grows : Types → Types → Type 0
Grows types types' = (id : TypeId) (ty : HirType) → get types id ≡ some ty → get types' id ≡ some ty

module _ (types types' : Types) (g : Grows types types') where
  mutual
    unfolding Denotes

    pub Denotes-Grows :
        (id : TypeId) (ty : Ast.Located) → Denotes types id ty → Denotes types' id ty
    Denotes-Grows id (Ast.at ty loc) (kind, e, m) = (kind, g _ _ e, Matches-Grows kind ty m)

    pub Matches-Grows :
        (kind : TypeKind) (ty : Ast.AstType) → Matches types kind ty → Matches types' kind ty
    Matches-Grows kind Ast.AstType.unknown m = m
    Matches-Grows kind Ast.AstType.unit m = m
    Matches-Grows kind Ast.AstType.bool m = m
    Matches-Grows kind Ast.AstType.string m = m
    Matches-Grows kind (Ast.AstType.integer signed width) m = m
    Matches-Grows kind (Ast.AstType.array element length) (id, e, d) =
        (id, e, Denotes-Grows id element d)
    Matches-Grows kind (Ast.AstType.slice element) (id, e, d) = (id, e, Denotes-Grows id element d)
    Matches-Grows kind (Ast.AstType.pointer pointee mutable) (id, e, d) =
        (id, e, Denotes-Grows id pointee d)
    Matches-Grows kind (Ast.AstType.reference referee mutable) (id, e, d) =
        (id, e, Denotes-Grows id referee d)
    Matches-Grows kind (Ast.AstType.int_ptr signed) m = m
    Matches-Grows kind _ m = absurd m

-- The query answered `ty` with `id` before.
abbrev pub Gave : List (HirType × TypeId) → HirType → TypeId → Type 0
Gave [] ty id = ⊥
Gave ((ty', id') ∷ answers) ty id = ((ty ≡ ty') × (id ≡ id')) ⊎ Gave answers ty id

-- A memory that gives nothing but earlier answers to the same type.
abbrev pub IsHonest : Recall → Type 0
IsHonest recall =
    (answers : List (HirType × TypeId)) (ty : HirType) (id : TypeId)
    → recall answers ty ≡ some id
    → Gave answers ty id

-- Earlier answers stand for their types.
abbrev pub Held : List (HirType × TypeId) → Types → Type 0
Held answers types = (ty : HirType) (id : TypeId) → Gave answers ty id → get types id ≡ some ty

abbrev pub IsSound : Ladder → Type 0
IsSound s = HasRoom s × Held s.context.answers s.context.type_map

insert-Grows :
    (ty : HirType) (s : Ladder)
    → HasRoom s
    → Grows s.context.type_map (with_type ty s.context).type_map
unfolding get
insert-Grows ty s room id ty' e = let free = room s.context.type_id (omega arith) in ground arith

-- The new type stands for itself.
insert-get : (ty : HirType) (c : Context) → get (with_type ty c).type_map c.type_id ≡ some ty
unfolding get
insert-get ty c = ground arith

-- `m` keeps a ladder sound and its types, and gives numbers or kinds of which `P` holds there.
abbrev pub Resolves : {A : Type 0} → (Types → A → Type 0) → Lower A → Type 0
Resolves P m =
    (s : Ladder)
    → IsSound s
    → Runs
        (λ x s'.
          IsSound s' × Grows s.context.type_map s'.context.type_map × P s'.context.type_map x)
        (m s)

hir_type-Resolves : (ty : HirType) → Resolves (λ types id. get types id ≡ some ty) (hir_type ty)
unfolding hir_type insert_type
hir_type-Resolves ty s (room, held) = rw (room s.context.type_id (omega arith)) (
    returns (
      (
        insert-HasRoom ty s s.variable_counter room,
        λ ty' id h. insert-Grows ty s room id ty' (held ty' id h),
      ),
      insert-Grows ty s room,
      insert-get ty s.context,
    ))

answer-Resolves :
    (held : Option TypeId) (ty : HirType) (s : Ladder)
    → IsSound s
    → ((id : TypeId) → held ≡ some id → get s.context.type_map id ≡ some ty)
    → Runs
        (λ id s'.
          IsSound s'
          × Grows s.context.type_map s'.context.type_map
          × (get s'.context.type_map id ≡ some ty))
        (answer held ty s)
unfolding answer
answer-Resolves (some id) ty s sound h = returns (sound, (λ id ty e. e), h id refl)
answer-Resolves none ty s sound h = hir_type-Resolves ty s sound ▷ λ id s' ((room, held), g, e).
    returns ((room, λ ty' id' gave. remembered s' ty id held e ty' id' gave), g, e)
  where
    remembered :
        (s' : Ladder) (ty : HirType) (id : TypeId)
        → Held s'.context.answers s'.context.type_map
        → get s'.context.type_map id ≡ some ty
        → Held ((ty, id) ∷ s'.context.answers) s'.context.type_map
    remembered s' ty id held e ty' id' (inl (p, q)) = rw (p, q) e
    remembered s' ty id held e ty' id' (inr gave) = held ty' id' gave

-- A result that is there meets its postcondition.
found :
    {A : Type 0} {Q : A → Ladder → Type 0} (r : Option (A × Ladder))
    → is_some r ≡ true
    → Runs Q r
    → (a : A) × (s : Ladder) × (r ≡ some (a, s)) × Q a s
found none e h = absurd (false≢true e)
found (some (a, s)) e h = (a, s, refl, of_returned h refl)

module _ (recall : Recall) (honest : IsHonest recall) where
  query-Resolves : (ty : HirType) → Resolves (λ types id. get types id ≡ some ty) (query recall ty)
  unfolding query
  query-Resolves ty s sound =
      answer-Resolves (recall s.context.answers ty) ty s sound
        λ id e. sound.1 ty id (honest s.context.answers ty id e)

  mutual
    unfolding visit_located Denotes

    -- The number that a type is lowered to denotes it, and so do those given before.
    pub visit_located-Denotes :
        (ty : Ast.Located) → Resolves (λ types id. Denotes types id ty) (visit_located recall ty)
    visit_located-Denotes (Ast.at ty loc) s sound =
        visit_type-Matches ty s sound ▷ λ kind s₁ (sound₁, g₁, m).
        weaken
          (λ id s₂ (sound₂, g₂, e). (
            sound₂,
            (λ id' ty' h. g₂ id' ty' (g₁ id' ty' h)),
            (kind, e, Matches-Grows _ _ g₂ kind ty m),
          ))
          (query-Resolves (hir_type_at kind loc) s₁ sound₁)

    visit_type-Matches :
        (ty : Ast.AstType) → Resolves (λ types kind. Matches types kind ty) (visit_type recall ty)
    visit_type-Matches Ast.AstType.unknown s sound = returns (sound, (λ id ty e. e), refl)
    visit_type-Matches Ast.AstType.unit s sound = returns (sound, (λ id ty e. e), refl)
    visit_type-Matches Ast.AstType.bool s sound = returns (sound, (λ id ty e. e), refl)
    visit_type-Matches Ast.AstType.string s sound = returns (sound, (λ id ty e. e), refl)
    visit_type-Matches (Ast.AstType.integer signed width) s sound =
        returns (sound, (λ id ty e. e), refl)
    visit_type-Matches (Ast.AstType.array element length) s sound =
        visit_located-Denotes element s sound ▷ λ id s₁ (sound₁, g, d).
        returns (sound₁, g, (id, refl, d))
    visit_type-Matches (Ast.AstType.slice element) s sound =
        visit_located-Denotes element s sound ▷ λ id s₁ (sound₁, g, d).
        returns (sound₁, g, (id, refl, d))
    visit_type-Matches (Ast.AstType.pointer pointee mutable) s sound =
        visit_located-Denotes pointee s sound ▷ λ id s₁ (sound₁, g, d).
        returns (sound₁, g, (id, refl, d))
    visit_type-Matches (Ast.AstType.reference referee mutable) s sound =
        visit_located-Denotes referee s sound ▷ λ id s₁ (sound₁, g, d).
        returns (sound₁, g, (id, refl, d))
    visit_type-Matches (Ast.AstType.int_ptr signed) s sound = returns (sound, (λ id ty e. e), refl)
    visit_type-Matches _ s sound = panics

  -- When the memory of the query database gives only earlier answers to the same type, and earlier
  -- answers stand for their types, lowering a supported type returns a number that denotes the type
  -- in the context, earlier numbers stand for what they did, and the answers still stand for theirs.
  pub visit_located-supports_located :
      (ty : Ast.Located) (s : Ladder)
      → IsSound s
      → supports_located ty ≡ true
      → (id : TypeId) × (s' : Ladder) × (visit_located recall ty s ≡ some (id, s'))
        × IsSound s'
        × Grows s.context.type_map s'.context.type_map
        × Denotes s'.context.type_map id ty
  visit_located-supports_located ty s sound supported =
      let returned = is_some-Settles (visit_located-Decides recall ty s sound.0) ∙ supported in
      let (id, s', e, (sound', g, d)) =
        found (visit_located recall ty s) returned (visit_located-Denotes ty s sound) in
      (id, s', e, sound', g, d)
