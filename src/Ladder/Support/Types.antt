-- ===== src/Ladder/Support/Types.antt =====
-- Lowering of types returns exactly if they are supported, and making a type always does.
use crunch_lang.Prelude.{ℕ, true, ◌&&◌, Option, none, some, List, [], ◌∷◌, arith}
use crunch_lang.Ast as Ast
use crunch_lang.Ast.{AssignKind, Location}
use crunch_lang.Hir.{HirType, TypeId}
use crunch_lang.Ladder.{
  Ladder, ladder, with_type, Lower, get, insert_type, hir_type, answer, query, Recall, expect,
  visit_option, visit_vec, visit_located, visit_type, visit_types, visit_func_arg, visit_args,
  visit_members, visit_type_decl, visit_extern_func, bool_type, unknown_type,
}
use crunch_lang.Ladder.Support.{
  is_some, supports_located, supports_type, supports_types, supports_args, supports_members,
  supports_generics, supports_opt_type, HasRoom, stops, returns, Decides, ◌▶◌, ◌▹◌,
}

-- An operation that returns from every ladder with room.
abbrev pub Succeeds : {A : Type 0} → Lower A → Type 0
Succeeds m = Decides true m

pub insert-HasRoom :
    (ty : HirType) (s : Ladder) (n : ℕ) → HasRoom s → HasRoom (ladder (with_type ty s.context) n)
unfolding get
insert-HasRoom ty s n room id le = rw (room id (omega arith)) (ground arith)

pub hir_type-Succeeds : (ty : HirType) → Succeeds (hir_type ty)
unfolding hir_type insert_type
hir_type-Succeeds ty s room =
    rw (room s.context.type_id (omega arith))
      (returns (insert-HasRoom ty s s.variable_counter room))

answer-Succeeds : (held : Option TypeId) (ty : HirType) → Succeeds (answer held ty)
unfolding answer
answer-Succeeds (some id) ty s room = returns room
answer-Succeeds none ty s room = hir_type-Succeeds ty s room ▹ λ id s₁ h. returns h

pub expect-Decides : {A : Type 0} (o : Option A) → Decides (is_some o) (expect o)
expect-Decides none s room = stops
expect-Decides (some a) s room = returns room

module _ (recall : Recall) where
  pub query-Succeeds : (ty : HirType) → Succeeds (query recall ty)
  unfolding query
  query-Succeeds ty s = answer-Succeeds (recall s.context.answers ty) ty s

  pub unknown_type-Succeeds : (loc : Location) → Succeeds (unknown_type recall loc)
  unfolding unknown_type
  unknown_type-Succeeds loc = query-Succeeds _

  pub bool_type-Succeeds : (loc : Location) → Succeeds (bool_type recall loc)
  unfolding bool_type
  bool_type-Succeeds loc = query-Succeeds _

  mutual
    unfolding visit_located supports_located

    pub visit_located-Decides :
        (ty : Ast.Located) → Decides (supports_located ty) (visit_located recall ty)
    visit_located-Decides (Ast.at ty loc) s h =
        visit_type-Decides ty s h ▹ λ kind s₁ h₁. query-Succeeds _ s₁ h₁

    pub visit_type-Decides : (ty : Ast.AstType) → Decides (supports_type ty) (visit_type recall ty)
    visit_type-Decides Ast.AstType.unknown s h = returns h
    visit_type-Decides Ast.AstType.unit s h = returns h
    visit_type-Decides Ast.AstType.bool s h = returns h
    visit_type-Decides Ast.AstType.string s h = returns h
    visit_type-Decides (Ast.AstType.integer signed width) s h = returns h
    visit_type-Decides (Ast.AstType.array element length) s h =
        visit_located-Decides element s h ▹ λ id s₁ h₁. returns h₁
    visit_type-Decides (Ast.AstType.slice element) s h =
        visit_located-Decides element s h ▹ λ id s₁ h₁. returns h₁
    visit_type-Decides (Ast.AstType.pointer pointee mutable) s h =
        visit_located-Decides pointee s h ▹ λ id s₁ h₁. returns h₁
    visit_type-Decides (Ast.AstType.reference referee mutable) s h =
        visit_located-Decides referee s h ▹ λ id s₁ h₁. returns h₁
    visit_type-Decides (Ast.AstType.int_ptr signed) s h = returns h
    visit_type-Decides _ s h = stops

  pub visit_types-Decides : (ts : Ast.Types) → Decides (supports_types ts) (visit_types recall ts)
  unfolding visit_types supports_types
  visit_types-Decides Ast.Types.nil s h = returns h
  visit_types-Decides (Ast.Types.cons t ts) s h = visit_located-Decides t s h ▶ λ id s₁ h₁.
      visit_types-Decides ts s₁ h₁ ▹ λ ids s₂ h₂. returns h₂

  visit_args_list-Decides :
      (args : List Ast.FuncArg)
      → Decides (supports_args args) (visit_vec (visit_func_arg recall) args)
  unfolding visit_vec visit_func_arg supports_args
  visit_args_list-Decides [] s h = returns h
  visit_args_list-Decides (arg ∷ args) s h =
      (visit_located-Decides arg.ty s h ▹ λ id s₁ h₁. returns h₁) ▶ λ x s₁ h₁.
      visit_args_list-Decides args s₁ h₁ ▹ λ xs s₂ h₂. returns h₂

  pub visit_args-Decides :
      (args : List Ast.FuncArg × Location) → Decides (supports_args args.0) (visit_args recall args)
  unfolding visit_args
  visit_args-Decides (args, loc) s h = visit_args_list-Decides args s h ▹ λ xs s₁ h₁. returns h₁

  pub visit_members-Decides :
      (members : Ast.TypeMembers)
      → Decides (supports_members members) (visit_members recall members)
  unfolding visit_members supports_members
  visit_members-Decides Ast.no_members s h = returns h
  visit_members-Decides (Ast.add_member (Ast.type_member _ attrs name ty loc) members) s h =
      visit_located-Decides ty s h ▶ λ id s₁ h₁.
      visit_members-Decides members s₁ h₁ ▹ λ xs s₂ h₂. returns h₂

  visit_generics-Decides :
      (generics : Ast.Generics)
      → Decides
          (supports_generics generics)
          (visit_option (λ (types, loc). visit_types recall types) generics)
  unfolding supports_generics
  visit_generics-Decides none s h = returns h
  visit_generics-Decides (some (types, loc)) s h =
      visit_types-Decides types s h ▹ λ xs s₁ h₁. returns h₁

  pub visit_type_decl-Decides :
      (generics : Ast.Generics) (members : Ast.TypeMembers)
      → Decides
          (supports_generics generics && supports_members members)
          (visit_type_decl recall generics members)
  unfolding visit_type_decl
  visit_type_decl-Decides generics members s h = visit_generics-Decides generics s h ▶ λ x s₁ h₁.
      visit_members-Decides members s₁ h₁ ▹ λ xs s₂ h₂. returns h₂

  pub visit_opt_type-Decides :
      (ty : Option Ast.Located)
      → Decides (supports_opt_type ty) (visit_option (visit_located recall) ty)
  unfolding supports_opt_type
  visit_opt_type-Decides none s h = returns h
  visit_opt_type-Decides (some ty) s h = visit_located-Decides ty s h ▹ λ id s₁ h₁. returns h₁

  pub visit_extern_func-Decides :
      (name : Option Ast.StrT) (vis : Option Ast.Vis) (args : List Ast.FuncArg × Location)
      (ret : Ast.Located) (callconv : Ast.CallConv) (loc : Location)
      → Decides
          (is_some name && (supports_args args.0 && (is_some vis && supports_located ret)))
          (visit_extern_func recall name vis args ret callconv loc)
  unfolding visit_extern_func
  visit_extern_func-Decides name vis args ret callconv loc s h =
      expect-Decides name s h ▶ λ n s₁ h₁. visit_args-Decides args s₁ h₁ ▶ λ xs s₂ h₂.
      expect-Decides vis s₂ h₂ ▶ λ v s₃ h₃. visit_located-Decides ret s₃ h₃ ▹ λ r s₄ h₄. returns h₄
