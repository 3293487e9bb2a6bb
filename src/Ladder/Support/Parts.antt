-- ===== src/Ladder/Support/Parts.antt =====
-- Lowering of matches, loops and operators returns exactly if their parts are supported.
use crunch_lang.Prelude.{
  ℕ, ◌≡◌, sym, subst, Bool, true, false, ◌&&◌, Option, none, some, ◌==◌, ==_refl, Bool-cases, inl,
  inr,
}
use crunch_lang.Ast as Ast
use crunch_lang.Ast.{AssignKind, Location}
use crunch_lang.Hir.{Var, Expr, Exprs, OptExpr, Block, Stmts, Arms, empty}
use crunch_lang.Ladder.{
  Lower, pure, Recall, next_var, fresh_type, bool_literal, bool_arm, guarded_arm, merge_locations,
  block_statement, push_blocks, block_location, visit_then_and_else, visit_if_only, else_arms,
  visit_if_guards, declare_value, visit_return_value, assigned_var, visit_assign, visit_func_call,
  visit_indexee, visit_offset, visit_index, declare_loop_broken, break_loop, test_condition,
  visit_while, expr_location,
}
use crunch_lang.Ladder.Support.{is_some, agree, stops, returns, Decides, ◌▶◌, ◌▹◌, with_post}
use crunch_lang.Ladder.Runs.{Runs}
use crunch_lang.Ladder.State.{Ladder}
use crunch_lang.Ladder.Support.Types.{
  Succeeds, hir_type-Succeeds, unknown_type-Succeeds, bool_type-Succeeds,
}

fresh_type-Succeeds : (loc : Location) → Succeeds (fresh_type loc)
unfolding fresh_type
fresh_type-Succeeds loc = hir_type-Succeeds _

-- The file of the place of a lowered block, if there is one.
abbrev block_file : Option Block → Option ℕ
block_file none = none
block_file (some b) = some (block_location b).file

-- The block that the operation returns is in this file.
abbrev pub IsOf : Option ℕ → Lower (Option Block) → Type 0
IsOf f m = (s : Ladder) → Runs (λ b s'. block_file b ≡ f) (m s)

pure-Succeeds : {A : Type 0} (a : A) → Succeeds (pure a)
pure-Succeeds a s h = returns h

next_var-Succeeds : Succeeds next_var
unfolding next_var
next_var-Succeeds s h = returns h

module _ (recall : Recall) where
  bool_literal-Succeeds : (b : Bool) (loc : Location) → Succeeds (bool_literal recall b loc)
  unfolding bool_literal
  bool_literal-Succeeds b loc s h = bool_type-Succeeds recall loc s h ▹ λ ty s₁ h₁. returns h₁

  bool_arm-Decides :
      (b : Bool) (loc : Location) {c : Bool} {m : Lower Block}
      → Decides c m
      → Decides c (bool_arm recall b loc m)
  unfolding bool_arm
  bool_arm-Decides b loc m s h = bool_literal-Succeeds b loc s h ▶ λ l s₁ h₁.
      m s₁ h₁ ▹ λ body s₂ h₂. unknown_type-Succeeds recall loc s₂ h₂ ▹ λ ty s₃ h₃. returns h₃

  pub guarded_arm-Succeeds :
      (guard : OptExpr) (body : Block) → Succeeds (guarded_arm recall guard body)
  unfolding guarded_arm
  guarded_arm-Succeeds guard body s h = unknown_type-Succeeds recall _ s h ▹ λ ty s₁ h₁. returns h₁

  merge_locations-Decides : (a b : Location) → Decides (a.file == b.file) (merge_locations a b)
  unfolding merge_locations
  merge_locations-Decides a b s h = elim (Bool-cases (a.file == b.file)) [
    | inl e ↦ rw e (returns h)
    | inr e ↦ rw e stops
  ]

  block_statement-Decides :
      (then_loc else_loc : Location) (v : Var) (then_block else_block : Block)
      → Decides
          (then_loc.file == else_loc.file)
          (block_statement recall then_loc else_loc v then_block else_block)
  unfolding block_statement
  block_statement-Decides then_loc else_loc v then_block else_block s₀ h₀ =
      merge_locations-Decides then_loc else_loc s₀ h₀ ▹ λ loc s h.
      bool_type-Succeeds recall _ s h ▹ λ ty s₁ h₁. bool_literal-Succeeds true _ s₁ h₁ ▹ λ l s₂ h₂.
      bool_arm-Decides true _ (pure-Succeeds else_block) s₂ h₂ ▹ λ broken s₃ h₃.
      bool_arm-Decides false _ (pure-Succeeds then_block) s₃ h₃ ▹ λ unbroken s₄ h₄.
      unknown_type-Succeeds recall _ s₄ h₄ ▹ λ ty₁ s₅ h₅. returns h₅

  block_statement-Succeeds :
      (loc : Location) (v : Var) (then_block else_block : Block)
      → Succeeds (block_statement recall loc loc v then_block else_block)
  block_statement-Succeeds loc v then_block else_block =
      subst (λ b. Decides b (block_statement recall loc loc v then_block else_block))
        (==_refl loc.file) (block_statement-Decides loc loc v then_block else_block)

  push_blocks-Decides :
      (scope : Block) (v : Var) (then_block else_block : Option Block)
      → Decides
          (agree (block_file then_block) (block_file else_block))
          (push_blocks recall scope v then_block else_block)
  unfolding push_blocks agree
  push_blocks-Decides scope v none none s h = returns h
  push_blocks-Decides scope v (some t) none s h =
      block_statement-Succeeds (block_location t) v t (empty _) s h ▹ λ x s₁ h₁. returns h₁
  push_blocks-Decides scope v none (some e) s h =
      block_statement-Succeeds (block_location e) v (empty _) e s h ▹ λ x s₁ h₁. returns h₁
  push_blocks-Decides scope v (some t) (some e) s h =
      block_statement-Decides (block_location t) (block_location e) v t e s h ▹ λ x s₁ h₁.
      returns h₁

  -- the body, the `else` block and the condition, in the order of the visits
  pub visit_if_only-Decides :
      (loc cond_loc : Location) {b c d : Bool} {cond : Lower Expr} {body : Lower Block}
      {else_ : Lower (Option Block)}
      → Decides b body
      → Decides c else_
      → Decides d cond
      → Decides (b && (c && d)) (visit_if_only recall loc cond_loc cond body else_)
  unfolding visit_if_only
  visit_if_only-Decides loc cond_loc body else_ cond s h =
      bool_arm-Decides true cond_loc body s h ▶ λ on_true s₁ h₁.
      bool_arm-Decides false cond_loc (λ s h. else_ s h ▹ λ e s₁ h₁. returns h₁) s₁ h₁
      ▶ λ on_false s₂ h₂.
          cond s₂ h₂ ▹ λ e s₃ h₃. unknown_type-Succeeds recall loc s₃ h₃ ▹ λ ty s₄ h₄. returns h₄

  pub else_arms-Succeeds : (e : Option Block) → Succeeds (else_arms recall e)
  unfolding else_arms
  else_arms-Succeeds none s h = returns h
  else_arms-Succeeds (some b) s h = guarded_arm-Succeeds _ b s h ▹ λ m s₁ h₁. returns h₁

  pub visit_if_guards-Decides :
      (loc : Location) {b : Bool} {arms : Lower Arms}
      → Decides b arms
      → Decides b (visit_if_guards recall loc arms)
  unfolding visit_if_guards
  visit_if_guards-Decides loc arms s h = arms s h ▹ λ x s₁ h₁.
      bool_literal-Succeeds true loc s₁ h₁ ▹ λ l s₂ h₂.
      unknown_type-Succeeds recall loc s₂ h₂ ▹ λ ty s₃ h₃. returns h₃

  declare_loop_broken-Succeeds :
      (loc cond_loc : Location) (v : Var) → Succeeds (declare_loop_broken recall loc cond_loc v)
  unfolding declare_loop_broken
  declare_loop_broken-Succeeds loc cond_loc v s h =
      bool_literal-Succeeds false cond_loc s h ▹ λ l s₁ h₁.
      bool_type-Succeeds recall loc s₁ h₁ ▹ λ ty s₂ h₂. returns h₂

  break_loop-Succeeds : (loc : Location) (v : Var) → Succeeds (break_loop recall loc v)
  unfolding break_loop
  break_loop-Succeeds loc v s h = bool_literal-Succeeds true loc s h ▹ λ l s₁ h₁. returns h₁

  test_condition-Succeeds : (v : Var) (cond : Expr) → Succeeds (test_condition recall v cond)
  unfolding test_condition
  test_condition-Succeeds v cond s h =
      bool_arm-Decides true _ (pure-Succeeds (empty (expr_location cond))) s h ▹ λ on_true s₁ h₁.
      bool_arm-Decides false _ (break_loop-Succeeds (expr_location cond) v) s₁ h₁
      ▹ λ on_false s₂ h₂. unknown_type-Succeeds recall _ s₂ h₂ ▹ λ ty s₃ h₃. returns h₃

  visit_then_and_else-Decides :
      (scope : Block) (v : Var) {b c : Bool} {f g : Option ℕ} {then_ else_ : Lower (Option Block)}
      → Decides b then_
      → IsOf f then_
      → Decides c else_
      → IsOf g else_
      → Decides (b && (c && agree f g)) (visit_then_and_else recall scope v then_ else_)
  unfolding visit_then_and_else
  visit_then_and_else-Decides scope v then_ then_in else_ else_in s h =
      with_post (then_ s h) (then_in s) λ t s₁ h₁ p.
        with_post (else_ s₁ h₁) (else_in s₁)
          λ e s₂ h₂ q. rw (sym p, sym q) (push_blocks-Decides scope v t e s₂ h₂)

  pub visit_while-Decides :
      (loc cond_loc body_loc : Location) {b c d e : Bool} {cond : Lower Expr} {body : Lower Stmts}
      {f g : Option ℕ} {then_ else_ : Lower (Option Block)}
      → Decides b cond
      → Decides c body
      → Decides d then_
      → IsOf f then_
      → Decides e else_
      → IsOf g else_
      → Decides
          (b && (c && (d && (e && agree f g))))
          (visit_while recall loc cond_loc body_loc cond body then_ else_)
  unfolding visit_while
  visit_while-Decides loc cond_loc body_loc cond body then_ then_in else_ else_in s h =
      next_var-Succeeds s h ▶ λ v s₁ h₁.
      declare_loop_broken-Succeeds loc cond_loc v s₁ h₁ ▶ λ decl s₂ h₂. cond s₂ h₂ ▶ λ x s₃ h₃.
      test_condition-Succeeds v x s₃ h₃ ▶ λ test s₄ h₄. body s₄ h₄ ▶ λ ss s₅ h₅.
      visit_then_and_else-Decides _ v then_ then_in else_ else_in s₅ h₅ ▹ λ scope s₆ h₆. returns h₆

declare_value-Decides :
    (loc : Location) {b : Bool} {m : Lower Expr} → Decides b m → Decides b (declare_value loc m)
unfolding declare_value
declare_value-Decides loc m s h = m s h ▹ λ e s₁ h₁.
    next_var-Succeeds s₁ h₁ ▹ λ v s₂ h₂. fresh_type-Succeeds loc s₂ h₂ ▹ λ ty s₃ h₃. returns h₃

pub visit_return_value-Decides :
    (loc : Location) {b : Bool} {m : Lower Expr}
    → Decides b m
    → Decides b (visit_return_value loc m)
unfolding visit_return_value
visit_return_value-Decides loc m s h = declare_value-Decides loc m s h ▹ λ d s₁ h₁. returns h₁

assigned_var-Succeeds : (name : Option Ast.StrT) → Succeeds (assigned_var name)
unfolding assigned_var
assigned_var-Succeeds (some name) s h = returns h
assigned_var-Succeeds none s h = next_var-Succeeds s h

pub visit_assign_op-Decides :
    (loc : Location) (name : Option Ast.StrT) (op : Ast.BinaryOp) {b c : Bool}
    {lhs rhs : Lower Expr}
    → Decides b lhs
    → Decides c rhs
    → Decides (b && c) (visit_assign loc name (AssignKind.binary_op op) lhs rhs)
unfolding visit_assign
visit_assign_op-Decides loc name op lhs rhs s h = assigned_var-Succeeds name s h ▶ λ v s₁ h₁.
    lhs s₁ h₁ ▶ λ l s₂ h₂. rhs s₂ h₂ ▹ λ r s₃ h₃. returns h₃

pub visit_assign_normal-Decides :
    (loc : Location) (name : Option Ast.StrT) {c : Bool} (lhs : Lower Expr) {rhs : Lower Expr}
    → Decides c rhs
    → Decides c (visit_assign loc name AssignKind.normal lhs rhs)
unfolding visit_assign
visit_assign_normal-Decides loc name lhs rhs s h =
    assigned_var-Succeeds name s h ▶ λ v s₁ h₁. rhs s₁ h₁ ▹ λ r s₂ h₂. returns h₂

pub visit_func_call-Decides :
    (loc : Location) (name : Option Ast.StrT) {b : Bool} {args : Lower Exprs}
    → Decides b args
    → Decides (b && is_some name) (visit_func_call loc name args)
unfolding visit_func_call
visit_func_call-Decides loc (some name) args s h = args s h ▶ λ x s₁ h₁. returns h₁
visit_func_call-Decides loc none args s h = args s h ▶ λ x s₁ h₁. stops

-- A variable is not visited.
abbrev pub operand : Option Ast.StrT → Bool → Bool
operand (some name) b = true
operand none b = b

visit_indexee-Decides :
    (loc : Location) (name : Option Ast.StrT) {b : Bool} {m : Lower Expr}
    → Decides b m
    → Decides (operand name b) (visit_indexee loc name m)
unfolding visit_indexee
visit_indexee-Decides loc (some name) m s h = returns h
visit_indexee-Decides loc none m s h = declare_value-Decides loc m s h ▹ λ d s₁ h₁. returns h₁

visit_offset-Decides :
    (loc : Location) (name : Option Ast.StrT) {b : Bool} {m : Lower Expr} (scope : Stmts)
    → Decides b m
    → Decides (operand name b) (visit_offset loc name m scope)
unfolding visit_offset
visit_offset-Decides loc (some name) scope m s h =
    fresh_type-Succeeds loc s h ▹ λ ty s₁ h₁. returns h₁
visit_offset-Decides loc none scope m s h = declare_value-Decides loc m s h ▹ λ d s₁ h₁. returns h₁

pub visit_index-Decides :
    (loc : Location) (var index : Option Ast.StrT) {b c : Bool} {m k : Lower Expr}
    → Decides b m
    → Decides c k
    → Decides (operand var b && operand index c) (visit_index loc var m index k)
unfolding visit_index
visit_index-Decides loc var index m k s h = visit_indexee-Decides loc var m s h ▶ λ x s₁ h₁.
    visit_offset-Decides loc index x.0 k s₁ h₁ ▹ λ y s₂ h₂. returns h₂
