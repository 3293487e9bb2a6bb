-- ===== src/Ladder.antt =====
-- crates/ladder/src/lib.rs: the lowering of the syntax tree to the HIR.
pub mod Account
pub mod Runs
pub mod Quiet
pub mod Weight
pub mod Fresh
pub mod Order
pub mod Resolves
mod Tests
pub mod Support
pub mod Closed
mod State
mod Types
mod Conditions
mod Loops
mod Operators
mod Visit
unfoldable pub use State.*
unfoldable pub use Types.*
unfoldable pub use Conditions.*
unfoldable pub use Loops.*
unfoldable pub use Operators.*
unfoldable pub use Visit.*
use crunch_lang.Prelude.{Option, none, some, List, [], ◌∷◌}
use crunch_lang.Ast as Ast
use crunch_lang.Hir as Hir

-- An item that lowering may have dropped, in front of others.
abbrev pub keep_item : Option Hir.Item → List Hir.Item → List Hir.Item
keep_item none is = is
keep_item (some i) is = i ∷ is

-- `Ladder::lower`
unfoldable pub lower : Recall → List Ast.Item → Lower (List Hir.Item)
unfolding visit_item
lower recall [] = pure []
lower recall (i ∷ items) = do
  i ← visit_item recall i
  items ← lower recall items
  pure (keep_item i items)
