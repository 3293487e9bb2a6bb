-- ===== src/Unnest.antt =====
-- crates/crunch-parser/src/unnest_externs.rs: `FlattenExternals`, which moves the items of external
-- blocks to the top of a file.
mod Tests
pub mod Levels
use crunch_lang.Prelude.{
  ℕ, zero, suc, ◌+◌, Bool, true, false, Option, none, some, List, [], ◌∷◌, ◌++◌, if◌then◌else◌,
}
use crunch_lang.Ast.{Item, item, Items, no_items, add_item, ItemKind}

-- The items of a block, as a list.
abbrev pub list_of : Items → List Item
list_of no_items = []
list_of (add_item i is) = i ∷ list_of is

-- `visit_item`: the items that are still to come, and whether this one stays.
abbrev pub visit_item : List Item → Item → List Item × Bool
visit_item items (item ds as_ (ItemKind.extern_block block_items) loc name vis) =
    (items ++ list_of block_items, false)
visit_item items i = (items, true)

abbrev pub keep : List Item → Item → Bool → List Item
keep out i kept = if kept then out ++ i ∷ [] else out

-- The loop of `flatten`, on fuel: none if it runs out.
unfoldable pub flatten_loop : ℕ → List Item → List Item → Option (List Item)
flatten_loop fuel [] out = some out
flatten_loop zero (i ∷ items) out = none
flatten_loop (suc fuel) (i ∷ items) out =
    let (items', kept) = visit_item items i in flatten_loop fuel items' (keep out i kept)

-- The number of items, with those inside of external blocks.
abbrev mutual
  pub size : Item → ℕ
  size (item ds as_ (ItemKind.extern_block block_items) loc name vis) = suc (size_items block_items)
  size (item ds as_ kind loc name vis) = 1

  pub size_items : Items → ℕ
  size_items no_items = 0
  size_items (add_item i is) = size i + size_items is

abbrev pub sizes : List Item → ℕ
sizes [] = 0
sizes (i ∷ items) = size i + sizes items

-- Each round takes an item away, so that their number bounds the rounds.
unfoldable pub flatten : List Item → Option (List Item)
unfolding flatten_loop
flatten items = flatten_loop (sizes items) items []
