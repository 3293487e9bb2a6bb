-- ===== src/Ladder/Types.antt =====
-- crates/ladder/src/lib.rs: the lowering of types, generics, arguments of functions and members of
-- types, and the types that lowering names itself.
use crunch_lang.Prelude.{Option, some, List, [], ◌∷◌}
use crunch_lang.Ast as Ast
use crunch_lang.Hir.{TypeId, TypeKind, hir_type_at, user, FuncArg, ExternFunc, TypeMember, TypeDecl}
use crunch_lang.Ladder.State.{
  Lower, pure, todo, ◌>>=◌, expect, visit_option, visit_vec, hir_type, Recall, query,
}

-- a new type that is not known yet, past the query
unfoldable pub fresh_type : Ast.Location → Lower TypeId
unfolding hir_type
fresh_type loc = hir_type (hir_type_at TypeKind.unknown loc)

module _ (recall : Recall) where
  -- `visit` of a type at its place, and of a type
  unfoldable mutual
    unfolding query

    pub visit_located : Ast.Located → Lower TypeId
    visit_located (Ast.at ty loc) = do kind ← visit_type ty; query recall (hir_type_at kind loc)

    pub visit_type : Ast.AstType → Lower TypeKind
    visit_type Ast.AstType.unknown = pure TypeKind.unknown
    visit_type Ast.AstType.unit = pure TypeKind.unit
    visit_type Ast.AstType.bool = pure TypeKind.bool
    visit_type Ast.AstType.string = pure TypeKind.string
    visit_type (Ast.AstType.integer signed width) = pure (TypeKind.integer signed width)
    visit_type (Ast.AstType.array element length) = do
      element ← visit_located element
      pure (TypeKind.array element length)
    visit_type (Ast.AstType.slice element) = do
      element ← visit_located element
      pure (TypeKind.slice element)
    visit_type (Ast.AstType.pointer pointee mutable) = do
      pointee ← visit_located pointee
      pure (TypeKind.pointer pointee mutable)
    visit_type (Ast.AstType.reference referee mutable) = do
      referee ← visit_located referee
      pure (TypeKind.reference referee mutable)
    visit_type (Ast.AstType.int_ptr signed) = pure (TypeKind.integer (some signed) (some 64))
    visit_type _ = todo

  -- `visit` of the types of a generic list
  unfoldable pub visit_types : Ast.Types → Lower (List TypeId)
  unfolding visit_located
  visit_types Ast.Types.nil = pure []
  visit_types (Ast.Types.cons t ts) = do ty ← visit_located t; tys ← visit_types ts; pure (ty ∷ tys)

  -- a type that is not known yet, and the type of a Boolean, at a place
  unfoldable pub unknown_type : Ast.Location → Lower TypeId
  unfolding query
  unknown_type loc = query recall (hir_type_at TypeKind.unknown loc)

  unfoldable pub bool_type : Ast.Location → Lower TypeId
  unfolding query
  bool_type loc = query recall (hir_type_at TypeKind.bool loc)

  unfoldable pub visit_func_arg : Ast.FuncArg → Lower FuncArg
  unfolding visit_located
  visit_func_arg arg = do
    kind ← visit_located arg.ty
    pure (record { name = user arg.name; kind = kind; loc = arg.loc })

  unfoldable pub visit_args : List Ast.FuncArg × Ast.Location → Lower (List FuncArg × Ast.Location)
  unfolding visit_func_arg visit_vec
  visit_args (args, loc) = do args ← visit_vec visit_func_arg args; pure (args, loc)

  unfoldable pub visit_extern_func :
      Option Ast.StrT
      → Option Ast.Vis
      → List Ast.FuncArg × Ast.Location
      → Ast.Located
      → Ast.CallConv
      → Ast.Location
      → Lower ExternFunc
  unfolding visit_args visit_located
  visit_extern_func name vis args ret callconv loc = do
    name ← expect name
    args ← visit_args args
    vis ← expect vis
    ret ← visit_located ret
    pure (record {
      name = name ∷ [];
      vis = vis;
      args = args;
      ret = ret;
      callconv = callconv;
      loc = loc;
    })

  unfoldable pub visit_members : Ast.TypeMembers → Lower (List TypeMember)
  unfolding visit_located
  visit_members Ast.no_members = pure []
  visit_members (Ast.add_member (Ast.type_member _ attrs name ty loc) members) = do
    ty ← visit_located ty
    members ← visit_members members
    pure (record { name = name; ty = ty; attrs = attrs; loc = loc } ∷ members)

  unfoldable pub visit_type_decl : Ast.Generics → Ast.TypeMembers → Lower TypeDecl
  unfolding visit_types visit_members
  visit_type_decl generics members = do
    generics ← visit_option (λ (types, loc). visit_types types) generics
    members ← visit_members members
    pure (record { generics = generics; members = members })
