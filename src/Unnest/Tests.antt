-- ===== src/Unnest/Tests.antt =====
-- Flattening of a file with a function and two external blocks, one inside of the other.
use crunch_lang.Prelude.{ℕ, ◌≡◌, refl, none, some, List, [], ◌∷◌}
use crunch_lang.Token.{span}
use crunch_lang.Ast.{location, Item, item, ItemKind, Exposure, Dest, items_of, decorators_of}
use crunch_lang.Unnest.{flatten, sizes}
use crunch_lang.Unnest.Levels.{levels, flatten-levels, NoBlocks, flatten-flatten}

-- An import of a name, and a block.
abbrev imported : ℕ → Item
imported n =
    item (decorators_of []) [] (ItemKind.import (n ∷ []) Dest.relative (Exposure.none n))
      (location (span 0 1) 0) none none

abbrev block_of : List Item → Item
block_of items =
    item (decorators_of []) [] (ItemKind.extern_block (items_of items)) (location (span 0 1) 0) none
      none

abbrev nested : List Item
nested = block_of (imported 1 ∷ block_of (imported 2 ∷ []) ∷ imported 3 ∷ []) ∷ imported 4 ∷ []

abbrev flat : List Item
flat = imported 4 ∷ imported 1 ∷ imported 3 ∷ imported 2 ∷ []

flattens : flatten nested ≡ some flat
unfolding flatten
flattens = refl

flatten-levels_example : flatten nested ≡ some (levels (sizes nested) nested)
flatten-levels_example = flatten-levels nested

flatten-flatten_example : NoBlocks flat × (flatten flat ≡ some flat)
flatten-flatten_example = flatten-flatten nested flat flattens
