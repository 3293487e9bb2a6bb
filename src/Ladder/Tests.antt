-- ===== src/Ladder/Tests.antt =====
-- A small program, lowered, and the results on it.
use crunch_lang.Prelude.{map, ℕ, ◌≤◌, true, false, Option, none, some, List, [], ◌∷◌, ◌≡◌, refl}
use crunch_lang.Token.{span}
use crunch_lang.Ast as Ast
use crunch_lang.Ast.{location}
use crunch_lang.Hir.{TypeId, Item}
use crunch_lang.Hir.Scopes.{ClosedItems}
use crunch_lang.Ladder.{
  visit_extern_func, Context, Ladder, new, Recall, get, lower, visit_item, query, hir_type,
  insert_type, answer, next_var, visit_vec, visit_located, unknown_type, fresh_type, bool_type,
  visit_args, bool_literal, bool_arm, block_statement, merge_locations, push_blocks,
  visit_then_and_else, declare_loop_broken, break_loop, test_condition, visit_while, variable_of,
  declare_value, visit_return_value, visit_indexee, visit_offset, visit_index,
}
use crunch_lang.Ladder.Fresh.{
  declarations, variable_bound, declarations-lower, variable_bound-lower,
}
use crunch_lang.Ladder.Resolves.{IsSound, Grows, Denotes, visit_located-supports_located}
use crunch_lang.Unnest.{flatten, sizes}
use crunch_lang.Unnest.Levels.{levels}
use crunch_lang.Ladder.Order.{form_of, forms, lower-flatten}
use crunch_lang.Ladder.Closed.Visit.{lower-ClosedItems}
use crunch_lang.Ladder.Support.{is_some, supports_items, supports_located}
use crunch_lang.Ladder.Support.Visit.{lower-supports_items}

abbrev here : Ast.Location
here = location (span 0 1) 0

abbrev named : ℕ → Ast.Expr
named x = Ast.expr (Ast.ExprKind.variable x here) here

abbrev number : ℕ → Ast.Expr
number n =
    Ast.expr
      (Ast.ExprKind.literal_expr
        (Ast.literal (Ast.LiteralVal.integer Ast.Sign.positive n) Ast.AstType.unknown here))
      here

abbrev statements : Ast.Stmts → Ast.Block
statements ss = Ast.block ss here

-- while 7 { break } then {} else {}, and return 7[3]
abbrev looping : Ast.Expr
looping =
    Ast.expr
      (Ast.ExprKind.while (named 7)
        (statements (
          Ast.add_stmt
            (Ast.stmt (Ast.expr_stmt (Ast.expr (Ast.ExprKind.break Ast.no_expr) here)) here)
            Ast.no_stmts))
        (Ast.a_block (statements Ast.no_stmts)) (Ast.a_block (statements Ast.no_stmts)))
      here

abbrev returning : Ast.Expr
returning =
    Ast.expr
      (Ast.ExprKind.return (Ast.an_expr (Ast.expr (Ast.ExprKind.index (named 7) (number 3)) here)))
      here

abbrev main : Ast.Item
main =
    Ast.item Ast.no_decorators []
      (Ast.ItemKind.func none ([], here)
        (statements (
          Ast.add_stmt (Ast.stmt (Ast.expr_stmt looping) here)
            (Ast.add_stmt (Ast.stmt (Ast.expr_stmt returning) here) Ast.no_stmts)))
        (Ast.at Ast.AstType.unit here) here)
      here (some 1) (some Ast.Vis.exposed)

abbrev program : List Ast.Item
program = main ∷ []

abbrev no_types : Context
no_types = record { type_id = 0; type_map = []; answers = [] }

-- a memory that forgets, and one that knows its last answer
abbrev forgetful : Recall
forgetful answers ty = none

abbrev from_some : List Item × Ladder → Option (List Item × Ladder) → List Item × Ladder
from_some d none = d
from_some d (some r) = r

abbrev lowered : List Item × Ladder
lowered = from_some ([], new no_types) (lower forgetful program (new no_types))

-- The loop's variable, the index and the returned value.
counter_after : lowered.1.variable_counter ≡ 3
unfolding lower visit_item query hir_type insert_type answer get next_var visit_vec visit_located
    unknown_type fresh_type bool_type visit_args bool_literal bool_arm block_statement
    merge_locations push_blocks visit_then_and_else declare_loop_broken break_loop test_condition
    visit_while variable_of declare_value visit_return_value visit_indexee visit_offset visit_index
counter_after = refl

lower-supports_items_example :
    is_some (lower forgetful program (new no_types)) ≡ supports_items program
unfolding get
lower-supports_items_example = lower-supports_items forgetful program no_types (λ id le. refl)

supported : supports_items program ≡ true
unfolding supports_items
supported = refl

returns_program : lower forgetful program (new no_types) ≡ some (lowered.0, lowered.1)
unfolding lower visit_item query hir_type insert_type answer get next_var visit_vec visit_located
    unknown_type fresh_type bool_type visit_args bool_literal bool_arm block_statement
    merge_locations push_blocks visit_then_and_else declare_loop_broken break_loop test_condition
    visit_while variable_of declare_value visit_return_value visit_indexee visit_offset visit_index
returns_program = refl

declarations-lower_example : declarations 2 lowered.0 ≤ 1
declarations-lower_example =
    declarations-lower forgetful program no_types 2 lowered.0 lowered.1 returns_program

variable_bound-lower_example : variable_bound lowered.0 ≤ lowered.1.variable_counter
variable_bound-lower_example =
    variable_bound-lower forgetful program no_types lowered.0 lowered.1 returns_program

lower-ClosedItems_example : ClosedItems lowered.0
lower-ClosedItems_example =
    lower-ClosedItems forgetful program no_types lowered.0 lowered.1 returns_program

-- &[bool]
abbrev reference_type : Ast.Located
reference_type =
    Ast.at
      (Ast.AstType.reference (Ast.at (Ast.AstType.slice (Ast.at Ast.AstType.bool here)) here) false)
      here

visit_located-supports_located_example :
    (id : TypeId) × (s : Ladder) × (visit_located forgetful reference_type (new no_types)
      ≡ some (id, s))
    × IsSound s
    × Grows [] s.context.type_map
    × Denotes s.context.type_map id reference_type
unfolding get supports_located
visit_located-supports_located_example =
    visit_located-supports_located forgetful (λ answers ty id e. cc) reference_type (new no_types)
      ((λ id le. refl), λ ty id gave. absurd gave) refl

-- An external function, which stands in an external block.
abbrev external : Ast.Item
external =
    Ast.item Ast.no_decorators []
      (Ast.ItemKind.extern_func none ([], here) (Ast.at Ast.AstType.unit here) Ast.CallConv.c) here
      (some 5) (some Ast.Vis.exposed)

abbrev nested : List Ast.Item
nested =
    Ast.item Ast.no_decorators [] (Ast.ItemKind.extern_block (Ast.add_item external Ast.no_items))
      here none none
    ∷ []

abbrev lowered_external : List Item × Ladder
lowered_external = from_some ([], new no_types) (lower forgetful (external ∷ []) (new no_types))

flatten-nested : flatten nested ≡ some (external ∷ [])
unfolding flatten
flatten-nested = refl

returns_external :
    lower forgetful (external ∷ []) (new no_types) ≡ some (lowered_external.0, lowered_external.1)
unfolding lower visit_item query hir_type insert_type answer get visit_vec visit_located visit_args
    visit_extern_func
returns_external = refl

lower-flatten_example : map form_of lowered_external.0 ≡ forms (levels (sizes nested) nested)
lower-flatten_example =
    lower-flatten forgetful nested (external ∷ []) no_types lowered_external.0 lowered_external.1
      flatten-nested returns_external
