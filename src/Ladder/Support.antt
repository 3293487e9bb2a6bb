-- ===== src/Ladder/Support.antt =====
-- The part of the language that lowering to the HIR supports: an independent description, and what
-- an operation on a ladder does that returns exactly on it.
pub mod Types
pub mod Parts
pub mod Visit
use crunch_lang.Prelude.{
  ℕ, suc, ◌≤◌, Bool, true, false, ◌&&◌, Option, none, some, List, [], ◌∷◌, arith, ◌≡◌, refl, ◌==◌,
  if◌then◌else◌,
}
use crunch_lang.Ast as Ast
use crunch_lang.Ast.{AssignKind}
use crunch_lang.Ladder.Runs.{Runs}
use crunch_lang.Ladder.State.{Ladder, Lower, bind, pure, get}

abbrev pub is_some : {A : Type 0} → Option A → Bool
is_some none = false
is_some (some a) = true

-- Types that have a counterpart in the HIR.
unfoldable mutual
  pub supports_located : Ast.Located → Bool
  supports_located (Ast.at ty loc) = supports_type ty

  pub supports_type : Ast.AstType → Bool
  supports_type Ast.AstType.unknown = true
  supports_type Ast.AstType.unit = true
  supports_type Ast.AstType.bool = true
  supports_type Ast.AstType.string = true
  supports_type (Ast.AstType.integer signed width) = true
  supports_type (Ast.AstType.array element length) = supports_located element
  supports_type (Ast.AstType.slice element) = supports_located element
  supports_type (Ast.AstType.pointer pointee mutable) = supports_located pointee
  supports_type (Ast.AstType.reference referee mutable) = supports_located referee
  supports_type (Ast.AstType.int_ptr signed) = true
  supports_type _ = false

unfoldable pub supports_types : Ast.Types → Bool
unfolding supports_located
supports_types Ast.Types.nil = true
supports_types (Ast.Types.cons t ts) = supports_located t && supports_types ts

unfoldable pub supports_args : List Ast.FuncArg → Bool
unfolding supports_located
supports_args [] = true
supports_args (arg ∷ args) = supports_located arg.ty && supports_args args

unfoldable pub supports_members : Ast.TypeMembers → Bool
unfolding supports_located
supports_members Ast.no_members = true
supports_members (Ast.add_member (Ast.type_member _ attrs name ty loc) members) =
    supports_located ty && supports_members members

unfoldable pub supports_generics : Ast.Generics → Bool
unfolding supports_types
supports_generics none = true
supports_generics (some (types, loc)) = supports_types types

unfoldable pub supports_opt_type : Option Ast.Located → Bool
unfolding supports_located
supports_opt_type none = true
supports_opt_type (some ty) = supports_located ty

unfoldable pub is_variable : Ast.Expr → Bool
is_variable (Ast.expr (Ast.ExprKind.variable name name_loc) loc) = true
is_variable _ = false

-- The file of the place of a block, if there is one.
unfoldable pub file_of : Ast.OptBlock → Option ℕ
file_of Ast.no_block = none
file_of (Ast.a_block (Ast.block ss loc)) = some loc.file

-- Two files are the same, where both are given.
unfoldable pub agree : Option ℕ → Option ℕ → Bool
agree (some a) (some b) = a == b
agree none _ = true
agree (some a) none = true

-- Code all of whose parts that lowering reads are supported. It does not read the generics of
-- functions, the `else` of a `loop`, the left side of a plain assignment, and dropped blocks of items.
-- The blocks behind a `while` are in the same file, if both are there.
unfoldable mutual
  unfolding supports_located supports_types supports_args supports_members supports_generics
      supports_opt_type is_variable file_of agree

  pub supports_item : Ast.Item → Bool
  supports_item (Ast.item ds attrs (Ast.ItemKind.func generics args body ret sig) loc name vis) =
      is_some name
      && (supports_args args.0 && (supports_block body && (is_some vis && supports_located ret)))
  supports_item (Ast.item ds attrs (Ast.ItemKind.type generics members) loc name vis) =
      supports_generics generics && supports_members members
  supports_item (Ast.item ds attrs (Ast.ItemKind.extend_block target extender items) loc name vis) =
      true
  supports_item (Ast.item ds attrs (Ast.ItemKind.extern_block items) loc name vis) = true
  supports_item (Ast.item ds attrs (Ast.ItemKind.extern_func generics args ret conv) loc name vis) =
      is_some name && (supports_args args.0 && (is_some vis && supports_located ret))
  supports_item _ = false

  pub supports_stmt : Ast.Stmt → Bool
  supports_stmt (Ast.stmt (Ast.var_decl name ty val constant mutable decl_loc) loc) =
      supports_expr val && supports_located ty
  supports_stmt (Ast.stmt (Ast.item_stmt i) loc) = supports_item i
  supports_stmt (Ast.stmt (Ast.expr_stmt e) loc) = supports_expr e

  pub supports_stmts : Ast.Stmts → Bool
  supports_stmts Ast.no_stmts = true
  supports_stmts (Ast.add_stmt s ss) = supports_stmt s && supports_stmts ss

  pub supports_block : Ast.Block → Bool
  supports_block (Ast.block ss loc) = supports_stmts ss

  pub supports_opt_block : Ast.OptBlock → Bool
  supports_opt_block Ast.no_block = true
  supports_opt_block (Ast.a_block b) = supports_block b

  pub supports_expr : Ast.Expr → Bool
  supports_expr (Ast.expr kind loc) = supports_kind kind

  pub supports_kind : Ast.ExprKind → Bool
  supports_kind (Ast.ExprKind.if_ clauses else_) =
      supports_conds clauses && supports_opt_block else_
  supports_kind (Ast.ExprKind.return value) = supports_opt_expr value
  supports_kind (Ast.ExprKind.break value) = supports_opt_expr value
  supports_kind Ast.ExprKind.continue = true
  supports_kind (Ast.ExprKind.while cond body then_ else_) =
      supports_expr cond
      && (supports_block body
          && (supports_opt_block then_
              && (supports_opt_block else_ && agree (file_of then_) (file_of else_))))
  supports_kind (Ast.ExprKind.loop body else_) = supports_block body
  supports_kind (Ast.ExprKind.match var arms) = supports_expr var && supports_arms arms
  supports_kind (Ast.ExprKind.variable name name_loc) = true
  supports_kind (Ast.ExprKind.literal_expr l) = supports_literal l
  supports_kind (Ast.ExprKind.binary_op lhs op rhs) = supports_expr lhs && supports_expr rhs
  supports_kind (Ast.ExprKind.comparison lhs op rhs) = supports_expr lhs && supports_expr rhs
  supports_kind (Ast.ExprKind.assign lhs AssignKind.normal rhs) = supports_expr rhs
  supports_kind (Ast.ExprKind.assign lhs (AssignKind.binary_op op) rhs) =
      supports_expr lhs && supports_expr rhs
  supports_kind (Ast.ExprKind.paren inner) = supports_expr inner
  supports_kind (Ast.ExprKind.index var offset) = supports_expr var && supports_expr offset
  supports_kind (Ast.ExprKind.func_call caller args) = supports_exprs args && is_variable caller
  supports_kind (Ast.ExprKind.reference mutable e) = supports_expr e
  supports_kind (Ast.ExprKind.cast e ty) = supports_expr e && supports_located ty
  supports_kind (Ast.ExprKind.block_expr b colors) = supports_block b
  supports_kind _ = false

  pub supports_exprs : Ast.Exprs → Bool
  supports_exprs Ast.no_exprs = true
  supports_exprs (Ast.add_expr e es) = supports_expr e && supports_exprs es

  pub supports_opt_expr : Ast.OptExpr → Bool
  supports_opt_expr Ast.no_expr = true
  supports_opt_expr (Ast.an_expr e) = supports_expr e

  pub supports_conds : Ast.IfConds → Bool
  supports_conds Ast.no_conds = true
  supports_conds (Ast.add_cond (Ast.if_cond cond body) conds) =
      supports_expr cond && (supports_block body && supports_conds conds)

  pub supports_arms : Ast.Arms → Bool
  supports_arms Ast.no_arms = true
  supports_arms (Ast.add_arm (Ast.arm bind guard body) arms) =
      supports_binding bind
      && (supports_opt_expr guard && (supports_block body && supports_arms arms))

  pub supports_binding : Ast.Binding → Bool
  supports_binding (Ast.binding reference mutable pattern_ ty) =
      supports_pattern pattern_ && supports_opt_type ty

  pub supports_pattern : Ast.Pattern → Bool
  supports_pattern (Ast.literal_pattern l) = supports_literal l
  supports_pattern _ = true

  pub supports_literal : Ast.Literal → Bool
  supports_literal (Ast.literal val ty loc) = supports_literal_val val && supports_type ty

  pub supports_literal_val : Ast.LiteralVal → Bool
  supports_literal_val (Ast.LiteralVal.array elements) = supports_literals elements
  supports_literal_val (Ast.LiteralVal.struct name fields) = supports_fields fields
  supports_literal_val _ = true

  pub supports_literals : Ast.Literals → Bool
  supports_literals Ast.Literals.nil = true
  supports_literals (Ast.Literals.cons l ls) = supports_literal l && supports_literals ls

  pub supports_fields : Ast.StructFields → Bool
  supports_fields Ast.no_fields = true
  supports_fields (Ast.add_field (Ast.struct_field name value loc) fs) =
      supports_expr value && supports_fields fs

unfoldable pub supports_items : List Ast.Item → Bool
unfolding supports_item
supports_items [] = true
supports_items (i ∷ items) = supports_item i && supports_items items

-- No type has a number from the next one on.
abbrev pub HasRoom : Ladder → Type 0
HasRoom s = (id : ℕ) → s.context.type_id ≤ id → get s.context.type_map id ≡ none

-- A result that is a value, with room for types, exactly if `b` is true.
pub data Settles {A : Type 0} : Bool → Option (A × Ladder) → Type 0 where
  stops : Settles false none
  returns : {a : A} {s : Ladder} → HasRoom s → Settles true (some (a, s))

-- `m` returns from every ladder with room, exactly if `b` is true.
abbrev pub Decides : {A : Type 0} → Bool → Lower A → Type 0
Decides b m = (s : Ladder) → HasRoom s → Settles b (m s)

infixl 1 ◌▶◌ ◌▹◌
pub ◌▶◌ :
    {A B : Type 0} {b c : Bool} {r : Option (A × Ladder)} {f : A → Lower B}
    → Settles b r
    → ((a : A) (s : Ladder) → HasRoom s → Settles c (f a s))
    → Settles (b && c) (bind r f)
stops ▶ k = stops
returns h ▶ k = k _ _ h

-- The rest cannot fail.
pub ◌▹◌ :
    {A B : Type 0} {b : Bool} {r : Option (A × Ladder)} {f : A → Lower B}
    → Settles b r
    → ((a : A) (s : Ladder) → HasRoom s → Settles true (f a s))
    → Settles b (bind r f)
stops ▹ k = stops
returns h ▹ k = k _ _ h

-- The same, with a postcondition of the result that a panic does not have to meet.
pub with_post :
    {A B : Type 0} {b c : Bool} {Q : A → Ladder → Type 0} {r : Option (A × Ladder)}
    {f : A → Lower B}
    → Settles b r
    → Runs Q r
    → ((a : A) (s : Ladder) → HasRoom s → Q a s → Settles c (f a s))
    → Settles (b && c) (bind r f)
with_post stops post k = stops
with_post (returns h) (Runs.returns q) k = k _ _ h q

-- The verdict of a result.
pub is_some-Settles :
    {A : Type 0} {b : Bool} {r : Option (A × Ladder)} → Settles b r → is_some r ≡ b
is_some-Settles stops = refl
is_some-Settles (returns h) = refl
