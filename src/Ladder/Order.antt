-- ===== src/Ladder/Order.antt =====
-- Lowering keeps the items of a flattened file, in their order and with their names.
use crunch_lang.Prelude.{Option, none, some, List, [], ◌∷◌, map, ◌≡◌, refl, sym, ◌∙◌}
use crunch_lang.Ast as Ast
use crunch_lang.Hir as Hir
use crunch_lang.Unnest.{sizes, flatten}
use crunch_lang.Unnest.Levels.{levels, flatten-levels, some-injective}
use crunch_lang.Ladder.{
  Context, new, Ladder, expect, Recall, visit_item, visit_args, visit_block, visit_located,
  visit_type_decl, visit_extern_func, keep_item, lower,
}
use crunch_lang.Ladder.Runs.{Runs, panics, returns, any, of_returned, ◌▷◌}

-- What an item declares: a function, an external function, or a type, which has no name in the HIR.
pub data Form : Type 0 where
  function extern_function : Ast.ItemPath → Form
  type : Form

abbrev pub form_of : Hir.Item → Form
form_of (Hir.function name vis args body ret loc sig) = function name
form_of (Hir.extern_func f) = extern_function f.name
form_of (Hir.Item.type decl) = Form.type

-- The form of an item that has one and a name.
abbrev pub ast_form : Ast.Item → Option Form
ast_form (Ast.item ds attrs (Ast.ItemKind.func g args body ret sig) loc (some name) vis) =
    some (function (name ∷ []))
ast_form (Ast.item ds attrs (Ast.ItemKind.extern_func g args ret conv) loc (some name) vis) =
    some (extern_function (name ∷ []))
ast_form (Ast.item ds attrs (Ast.ItemKind.type g _) loc name vis) = some Form.type
ast_form _ = none

abbrev keep_form : Option Form → List Form → List Form
keep_form none forms = forms
keep_form (some f) forms = f ∷ forms

abbrev pub forms : List Ast.Item → List Form
forms [] = []
forms (i ∷ items) = keep_form (ast_form i) (forms items)

abbrev opt_form : Option Hir.Item → Option Form
opt_form none = none
opt_form (some i) = some (form_of i)

forms-keep_item :
    (i : Option Hir.Item) (is : List Hir.Item)
    → map form_of (keep_item i is) ≡ keep_form (opt_form i) (map form_of is)
forms-keep_item none is = refl
forms-keep_item (some i) is = refl

module _ (recall : Recall) where
  visit_extern_func-name :
      (name : Ast.StrT) (vis : Option Ast.Vis) (args : List Ast.FuncArg × Ast.Location)
      (ret : Ast.Located) (conv : Ast.CallConv) (loc : Ast.Location) (s : Ladder)
      → Runs
          (λ f s'. f.name ≡ name ∷ [])
          (visit_extern_func recall (some name) vis args ret conv loc s)
  unfolding visit_extern_func
  visit_extern_func-name name vis args ret conv loc s = any (visit_args recall args s) ▷ λ xs s₁ u₁.
      any (expect vis s₁) ▷ λ v s₂ u₂. any (visit_located recall ret s₂) ▷ λ r s₃ u₃. returns refl

  visit_item-form :
      (i : Ast.Item) (s : Ladder) → Runs (λ x s'. opt_form x ≡ ast_form i) (visit_item recall i s)
  unfolding visit_item visit_extern_func
  visit_item-form (Ast.item ds attrs (Ast.ItemKind.func g args body ret sig) loc none vis) s =
      panics
  visit_item-form (Ast.item ds attrs (Ast.ItemKind.func g args body ret sig) loc (some n) vis) s =
      any (visit_args recall args s) ▷ λ x s₁ u₁. any (visit_block recall body s₁) ▷ λ b s₂ u₂.
      any (expect vis s₂) ▷ λ v s₃ u₃. any (visit_located recall ret s₃) ▷ λ r s₄ u₄. returns refl
  visit_item-form (Ast.item ds attrs (Ast.ItemKind.type g members) loc name vis) s =
      any (visit_type_decl recall g members s) ▷ λ d s₁ u. returns refl
  visit_item-form (Ast.item ds attrs (Ast.ItemKind.enum g _) loc name vis) s = panics
  visit_item-form (Ast.item ds attrs (Ast.ItemKind.trait g methods) loc name vis) s = panics
  visit_item-form (Ast.item ds attrs (Ast.ItemKind.import file dest exposes) loc name vis) s =
      panics
  visit_item-form (Ast.item ds attrs (Ast.ItemKind.extend_block t e items) loc name vis) s =
      returns refl
  visit_item-form (Ast.item ds attrs (Ast.ItemKind.alias aliased actual) loc name vis) s = panics
  visit_item-form (Ast.item ds attrs (Ast.ItemKind.extern_block items) loc name vis) s =
      returns refl
  visit_item-form (Ast.item ds attrs (Ast.ItemKind.extern_func g args ret conv) loc none vis) s =
      panics
  visit_item-form (Ast.item ds attrs (Ast.ItemKind.extern_func g args ret conv) loc (some n) vis)
        s =
      visit_extern_func-name n vis args ret conv loc s ▷ λ f s₁ e.
      returns (λ i. some (extern_function (e i)))

  lower-forms :
      (items : List Ast.Item) (s : Ladder)
      → Runs (λ is s'. map form_of is ≡ forms items) (lower recall items s)
  unfolding lower
  lower-forms [] s = returns refl
  lower-forms (i ∷ items) s = visit_item-form i s ▷ λ x s₁ p.
      lower-forms items s₁ ▷ λ xs s₂ q. returns (forms-keep_item x xs ∙ λ i. keep_form (p i) (q i))

  -- When a file's items are flattened and lowered, and lowering returns, the result has the functions,
  -- external functions and types of the file, level by level of its external blocks and in the order
  -- of the file, with the names of the functions, and nothing else.
  pub lower-flatten :
      (items out : List Ast.Item) (context : Context) (is : List Hir.Item) (s : Ladder)
      → flatten items ≡ some out
      → lower recall out (new context) ≡ some (is, s)
      → map form_of is ≡ forms (levels (sizes items) items)
  lower-flatten items out context is s e h = of_returned (lower-forms out (new context)) h ∙ λ i.
      forms (some-injective out _ (sym e ∙ flatten-levels items) i)
