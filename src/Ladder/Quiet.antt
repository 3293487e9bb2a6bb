-- ===== src/Ladder/Quiet.antt =====
-- The lowering of types makes no variables: it leaves the counter of the ladder as it is.
use crunch_lang.Prelude.{
  ◌==◌, Bool-cases, inl, inr, Option, none, some, List, [], ◌∷◌, ◌≡◌, refl, ◌∙◌,
}
use crunch_lang.Ast as Ast
use crunch_lang.Hir.{HirType, TypeId}
use crunch_lang.Ladder.State.{
  Ladder, Lower, pure, todo, ◌>>=◌, insert_type, answer, get, hir_type, Recall, query, expect,
  visit_option, visit_vec,
}
use crunch_lang.Ladder.Types.{
  visit_located, visit_type, visit_types, fresh_type, bool_type, unknown_type, visit_func_arg,
  visit_args, visit_extern_func, visit_members, visit_type_decl,
}
use crunch_lang.Ladder.Conditions.{merge_locations}
use crunch_lang.Ladder.State.{bind}
use crunch_lang.Token as Token
use crunch_lang.Ast.{Location, location}
use crunch_lang.Ladder.Runs.{Runs, panics, returns, weaken, ◌▷◌}

abbrev pub IsQuiet : {A : Type 0} → Lower A → Type 0
IsQuiet m = (s : Ladder) → Runs (λ _ s'. s'.variable_counter ≡ s.variable_counter) (m s)

pub pure-IsQuiet : {A : Type 0} (a : A) → IsQuiet (pure a)
pure-IsQuiet a s = returns refl

pub todo-IsQuiet : {A : Type 0} → IsQuiet (todo {A = A})
todo-IsQuiet s = panics

module _ {A B : Type 0} where
  -- one operation behind another
  pub bind-IsQuiet :
      {m : Lower A} {f : A → Lower B} → IsQuiet m → ((a : A) → IsQuiet (f a)) → IsQuiet (m >>= f)
  bind-IsQuiet m f s = m s ▷ λ a s' p. weaken (λ _ _ q. q ∙ p) (f a s')

module _ {A B : Type 0} where
  pub visit_option-IsQuiet :
      {f : A → Lower B} → ((a : A) → IsQuiet (f a)) → (o : Option A) → IsQuiet (visit_option f o)
  visit_option-IsQuiet f none = pure-IsQuiet _
  visit_option-IsQuiet f (some a) = bind-IsQuiet (f a) λ b. pure-IsQuiet _

  pub visit_vec-IsQuiet :
      {f : A → Lower B} → ((a : A) → IsQuiet (f a)) → (as_ : List A) → IsQuiet (visit_vec f as_)
  unfolding visit_vec
  visit_vec-IsQuiet f [] = pure-IsQuiet _
  visit_vec-IsQuiet f (a ∷ as_) =
      bind-IsQuiet (f a) λ b. bind-IsQuiet (visit_vec-IsQuiet f as_) λ bs. pure-IsQuiet _

pub expect-IsQuiet : {A : Type 0} (o : Option A) → IsQuiet (expect o)
expect-IsQuiet none = todo-IsQuiet
expect-IsQuiet (some a) = pure-IsQuiet _

pub hir_type-IsQuiet : (ty : HirType) → IsQuiet (hir_type ty)
unfolding hir_type
hir_type-IsQuiet ty s = insert_type-IsQuiet (get s.context.type_map s.context.type_id) ty s
  where
    insert_type-IsQuiet : (taken : Option HirType) (ty : HirType) → IsQuiet (insert_type taken ty)
    insert_type-IsQuiet none ty s = returns refl
    insert_type-IsQuiet (some taken) ty s = panics

pub answer-IsQuiet : (held : Option TypeId) (ty : HirType) → IsQuiet (answer held ty)
unfolding answer
answer-IsQuiet (some id) ty = pure-IsQuiet id
answer-IsQuiet none ty = bind-IsQuiet (hir_type-IsQuiet ty) λ id s. returns refl

module _ (recall : Recall) where
  pub query-IsQuiet : (ty : HirType) → IsQuiet (query recall ty)
  unfolding query
  query-IsQuiet ty s = answer-IsQuiet (recall s.context.answers ty) ty s

  mutual
    unfolding visit_located visit_type

    pub visit_located-IsQuiet : (ty : Ast.Located) → IsQuiet (visit_located recall ty)
    visit_located-IsQuiet (Ast.at ty loc) =
        bind-IsQuiet (visit_type-IsQuiet ty) λ kind. query-IsQuiet _

    pub visit_type-IsQuiet : (ty : Ast.AstType) → IsQuiet (visit_type recall ty)
    visit_type-IsQuiet Ast.AstType.unknown = pure-IsQuiet _
    visit_type-IsQuiet Ast.AstType.unit = pure-IsQuiet _
    visit_type-IsQuiet Ast.AstType.bool = pure-IsQuiet _
    visit_type-IsQuiet Ast.AstType.string = pure-IsQuiet _
    visit_type-IsQuiet (Ast.AstType.integer signed width) = pure-IsQuiet _
    visit_type-IsQuiet (Ast.AstType.array element length) =
        bind-IsQuiet (visit_located-IsQuiet element) λ id. pure-IsQuiet _
    visit_type-IsQuiet (Ast.AstType.slice element) =
        bind-IsQuiet (visit_located-IsQuiet element) λ id. pure-IsQuiet _
    visit_type-IsQuiet (Ast.AstType.pointer pointee mutable) =
        bind-IsQuiet (visit_located-IsQuiet pointee) λ id. pure-IsQuiet _
    visit_type-IsQuiet (Ast.AstType.reference referee mutable) =
        bind-IsQuiet (visit_located-IsQuiet referee) λ id. pure-IsQuiet _
    visit_type-IsQuiet (Ast.AstType.int_ptr signed) = pure-IsQuiet _
    visit_type-IsQuiet _ = todo-IsQuiet

  pub visit_types-IsQuiet : (ts : Ast.Types) → IsQuiet (visit_types recall ts)
  unfolding visit_types
  visit_types-IsQuiet Ast.Types.nil = pure-IsQuiet _
  visit_types-IsQuiet (Ast.Types.cons t ts) =
      bind-IsQuiet (visit_located-IsQuiet t)
        λ id. bind-IsQuiet (visit_types-IsQuiet ts) λ ids. pure-IsQuiet _

  pub unknown_type-IsQuiet : (loc : Ast.Location) → IsQuiet (unknown_type recall loc)
  unfolding unknown_type
  unknown_type-IsQuiet loc = query-IsQuiet _

  pub bool_type-IsQuiet : (loc : Ast.Location) → IsQuiet (bool_type recall loc)
  unfolding bool_type
  bool_type-IsQuiet loc = query-IsQuiet _

  pub visit_args-IsQuiet :
      (args : List Ast.FuncArg × Ast.Location) → IsQuiet (visit_args recall args)
  unfolding visit_args visit_func_arg
  visit_args-IsQuiet (args, loc) =
      bind-IsQuiet
        (visit_vec-IsQuiet
          (λ arg. bind-IsQuiet (visit_located-IsQuiet arg.ty) λ kind. pure-IsQuiet _) args)
        λ args. pure-IsQuiet _

  pub visit_extern_func-IsQuiet :
      (name : Option Ast.StrT) (vis : Option Ast.Vis) (args : List Ast.FuncArg × Ast.Location)
      (ret : Ast.Located) (callconv : Ast.CallConv) (loc : Ast.Location)
      → IsQuiet (visit_extern_func recall name vis args ret callconv loc)
  unfolding visit_extern_func
  visit_extern_func-IsQuiet name vis args ret callconv loc =
      bind-IsQuiet (expect-IsQuiet name) λ name. bind-IsQuiet (visit_args-IsQuiet args) λ args.
        bind-IsQuiet (expect-IsQuiet vis)
          λ vis. bind-IsQuiet (visit_located-IsQuiet ret) λ ret. pure-IsQuiet _

  pub visit_members-IsQuiet : (members : Ast.TypeMembers) → IsQuiet (visit_members recall members)
  unfolding visit_members
  visit_members-IsQuiet Ast.no_members = pure-IsQuiet _
  visit_members-IsQuiet (Ast.add_member (Ast.type_member ds attrs name ty loc) members) =
      bind-IsQuiet (visit_located-IsQuiet ty)
        λ ty. bind-IsQuiet (visit_members-IsQuiet members) λ members. pure-IsQuiet _

  pub visit_type_decl-IsQuiet :
      (generics : Ast.Generics) (members : Ast.TypeMembers)
      → IsQuiet (visit_type_decl recall generics members)
  unfolding visit_type_decl
  visit_type_decl-IsQuiet generics members =
      bind-IsQuiet (visit_option-IsQuiet (λ g. visit_types-IsQuiet g.0) generics)
        λ generics. bind-IsQuiet (visit_members-IsQuiet members) λ members. pure-IsQuiet _

pub fresh_type-IsQuiet : (loc : Ast.Location) → IsQuiet (fresh_type loc)
unfolding fresh_type
fresh_type-IsQuiet loc = hir_type-IsQuiet _

-- Two locations are merged, or the program panics.
pub merge_locations-Runs :
    {A : Type 0} {Q : A → Ladder → Type 0} (f : Location → Lower A) (a b : Location) (s : Ladder)
    → Runs Q (f (location (Token.merge a.span b.span) a.file) s)
    → Runs Q (bind (merge_locations a b s) f)
unfolding merge_locations
merge_locations-Runs f a b s r = elim (Bool-cases (a.file == b.file)) [
  | inl e ↦ rw e r
  | inr e ↦ rw e panics
]
