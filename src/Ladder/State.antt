-- ===== src/Ladder/State.antt =====
-- crates/ladder/src/lib.rs, `Ladder` and its counter; crates/crunch-shared/src/context.rs, the types
-- of the HIR and their numbers. A panic of the source is `none`.
use crunch_lang.Prelude.{ℕ, suc, Option, none, some, List, [], ◌∷◌, if◌then◌else◌, ◌==◌}
use crunch_lang.Hir.{Var, auto, TypeId, HirType}

-- The arena of types: the next number, `type_map`, and the answers that the query `hir_type` has
-- given so far, which the query database keeps.
pub record Context : Type 0 where
  pub type_id : ℕ
  pub type_map : List (TypeId × HirType)
  pub answers : List (HirType × TypeId)

pub record Ladder : Type 0 where
  pub context : Context
  pub variable_counter : ℕ

abbrev pub ladder : Context → ℕ → Ladder
ladder c n = record { context = c; variable_counter = n }

-- `Ladder::new`
abbrev pub new : Context → Ladder
new context = ladder context 0

-- What an operation on a ladder gives.
abbrev pub Lower : Type 0 → Type 0
Lower A = Ladder → Option (A × Ladder)

abbrev pub pure : {A : Type 0} → A → Lower A
pure a s = some (a, s)

-- `todo!()`, `unreachable!()` and `expect` of nothing
abbrev pub todo : {A : Type 0} → Lower A
todo s = none

-- What follows a result, unless it is a panic.
abbrev pub bind : {A B : Type 0} → Option (A × Ladder) → (A → Lower B) → Option (B × Ladder)
bind none f = none
bind (some (a, s)) f = f a s

infixl 5 ◌>>=◌
abbrev pub ◌>>=◌ : {A B : Type 0} → Lower A → (A → Lower B) → Lower B
◌>>=◌ m f s = bind (m s) f

abbrev pub expect : {A : Type 0} → Option A → Lower A
expect none = todo
expect (some a) = pure a

-- `self.visit` of an option
abbrev pub visit_option : {A B : Type 0} → (A → Lower B) → Option A → Lower (Option B)
visit_option f none = pure none
visit_option f (some a) = f a >>= λ b. pure (some b)

-- `self.visit` of a vector
unfoldable pub visit_vec : {A B : Type 0} → (A → Lower B) → List A → Lower (List B)
visit_vec f [] = pure []
visit_vec f (a ∷ as_) = do b ← f a; bs ← visit_vec f as_; pure (b ∷ bs)

unfoldable pub next_var : Lower Var
next_var s = some (auto s.variable_counter, ladder s.context (suc s.variable_counter))

-- `HashMap::get` of `type_map`
unfoldable pub get : List (TypeId × HirType) → TypeId → Option HirType
get [] id = none
get ((k, ty) ∷ types) id = if k == id then some ty else get types id

-- `Context::get_hir_type`
unfoldable pub get_hir_type : Context → TypeId → Option HirType
unfolding get
get_hir_type c id = get c.type_map id

-- A context in which the next number stands for a type.
abbrev pub with_type : HirType → Context → Context
with_type ty c = record {
  type_id = suc c.type_id;
  type_map = (c.type_id, ty) ∷ c.type_map;
  answers = c.answers;
}

-- The next number for a type, if no other type has it.
unfoldable pub insert_type : Option HirType → HirType → Lower TypeId
insert_type none ty s = some (s.context.type_id, ladder (with_type ty s.context) s.variable_counter)
insert_type (some taken) ty s = none

-- `Context::hir_type`, which asserts that its number was free
unfoldable pub hir_type : HirType → Lower TypeId
unfolding get insert_type
hir_type ty s = insert_type (get s.context.type_map s.context.type_id) ty s

-- The query database's memory: from the answers so far and a type, the answer that it still holds.
abbrev pub Recall : Type 0
Recall = List (HirType × TypeId) → HirType → Option TypeId

abbrev pub remember : HirType → TypeId → Lower TypeId
remember ty id s =
    let c = s.context in
    some (
      id,
      ladder (record { type_id = c.type_id; type_map = c.type_map; answers = (ty, id) ∷ c.answers })
          s.variable_counter,
    )

unfoldable pub answer : Option TypeId → HirType → Lower TypeId
unfolding hir_type
answer (some id) ty = pure id
answer none ty = hir_type ty >>= remember ty

-- `db.hir_type`, the query: the answer that is held, or a new type.
unfoldable pub query : Recall → HirType → Lower TypeId
unfolding answer
query recall ty s = answer (recall s.context.answers ty) ty s
