-- ===== src/Parser/Item/Bodies.antt =====
-- crates/crunch-parser/src/parser/item.rs: `item`, `item_impl` and the declarations behind them.
use crunch_lang.Prelude.{Option, none, some, List, [], ◌∷◌, ◌++◌, if◌then◌else◌}
use crunch_lang.Token.{TokenType, Token}
use crunch_lang.Ast.{Attribute, Vis, Decorator, Item, item_loc}
use crunch_lang.Parser.Core.{
  Context, Parse, ◌>>=◌, ◌>>◌, pure, fail, token_location, no_attributes_allowed,
  no_visibility_allowed, invalid_top_level,
}
use crunch_lang.Parser.Tokens.{next, peek}
use crunch_lang.Parser.Loop.{Step, again, done, while_loop}
use crunch_lang.Parser.Calls.{Calls, Declaration, Front}
use crunch_lang.Parser.Blocks.{has_peek}
use crunch_lang.Parser.Item.Parts.{vis, attr, vis_or_default}
use crunch_lang.Parser.Item.Functions.{function, extern_func}
use crunch_lang.Parser.Item.TypeDecls.{
  type_decl, enum_decl, trait_decl, extern_block, empty_front, is_empty,
}
use crunch_lang.Parser.Item.Imports.{import, alias, extend_block}

-- The arms of `item_impl`.
pub data ItemForm : Type 0 where
  decorator visibility attribute blank other : ItemForm
  declared : Declaration → ItemForm

abbrev pub item_form : TokenType → ItemForm
item_form TokenType.at_sign = ItemForm.decorator
item_form TokenType.exposed = ItemForm.visibility
item_form TokenType.package_ = ItemForm.visibility
item_form TokenType.const = ItemForm.attribute
item_form TokenType.unsafe = ItemForm.attribute
item_form TokenType.function = ItemForm.declared Declaration.function
item_form TokenType.type = ItemForm.declared Declaration.type_decl
item_form TokenType.extend = ItemForm.declared Declaration.extend_block
item_form TokenType.enum = ItemForm.declared Declaration.enum_decl
item_form TokenType.trait = ItemForm.declared Declaration.trait_decl
item_form TokenType.import = ItemForm.declared Declaration.import
item_form TokenType.alias = ItemForm.declared Declaration.alias
item_form TokenType.extern = ItemForm.declared Declaration.extern_block
item_form TokenType.newline = ItemForm.blank
item_form TokenType.space = ItemForm.blank
item_form _ = ItemForm.other

module _ (x : Context) (c : Calls) where
  abbrev declare : Declaration → Front → Parse Item
  declare d front = c.declaration d front.decorators front.attributes (vis_or_default front.vis)

  -- The visibility in front of an external block is an error once the block is parsed.
  abbrev pub without_vis : Item → Option Vis → Parse (Option Item × Front)
  without_vis i none = pure (some i, empty_front)
  without_vis i (some v) = fail (no_visibility_allowed TokenType.extern) (item_loc i)

  -- An import takes no attributes, an extension leaves the visibility in front of it.
  abbrev pub run_declared : Declaration → Token → Front → Parse (Option Item × Front)
  run_declared Declaration.import t front =
      if is_empty front.attributes
      then (do i ← declare Declaration.import front; pure (some i, empty_front))
      else fail (no_attributes_allowed TokenType.import) (token_location x t)
  run_declared Declaration.extern_block t front = do
    i ← declare Declaration.extern_block front
    without_vis i front.vis
  run_declared Declaration.extend_block t front = do
    i ← declare Declaration.extend_block front
    pure (some i, record empty_front { vis = front.vis })
  run_declared d t front = do i ← declare d front; pure (some i, empty_front)

  abbrev pub run_item : ItemForm → Token → Front → Parse (Option Item × Front)
  unfolding next vis attr
  run_item ItemForm.decorator t front = do
    ds ← c.decorator front.decorators
    pure (none, record front { decorators = ds })
  run_item ItemForm.visibility t front = do
    v ← vis x c.frames
    pure (none, record front { vis = some v })
  run_item ItemForm.attribute t front = do
    u ← next x
    a ← attr x c.frames u
    pure (none, record front { attributes = front.attributes ++ a ∷ [] })
  run_item (ItemForm.declared d) t front = run_declared d t front
  run_item ItemForm.blank t front = do next x; pure (none, front)
  run_item ItemForm.other t front = fail (invalid_top_level t.ty) (token_location x t)

  -- Without an item, the function is to be called again with the front that it returns.
  unfoldable pub item_impl_body : Front → Parse (Option Item × Front)
  unfolding peek run_item
  item_impl_body front = do t ← peek x; run_item (item_form t.ty) t front

  abbrev pub item_step : Option Item × Front → Parse (Step Front (Option Item))
  item_step (none, front) = pure (again front)
  item_step (some i, front) = pure (done (some i))

  unfoldable pub item_round : Front → Parse (Step Front (Option Item))
  unfolding has_peek
  item_round front = do
    more ← has_peek
    if more then (do r ← c.item_impl front; item_step r) else pure (done none)

  -- What stands in front of an item that the end of the file cuts off is lost.
  unfoldable pub item_body : Parse (Option Item)
  unfolding while_loop item_round
  item_body = while_loop item_round empty_front

  unfoldable pub declaration_body : Declaration → List Decorator → List Attribute → Vis → Parse Item
  unfolding function type_decl extend_block enum_decl trait_decl import alias extern_block
      extern_func
  declaration_body Declaration.function ds as_ v = function x c ds as_ v
  declaration_body Declaration.type_decl ds as_ v = type_decl x c ds as_ v
  declaration_body Declaration.extend_block ds as_ v = extend_block x c
  declaration_body Declaration.enum_decl ds as_ v = enum_decl x c ds as_ v
  declaration_body Declaration.trait_decl ds as_ v = trait_decl x c ds as_ v
  declaration_body Declaration.import ds as_ v = import x c ds v
  declaration_body Declaration.alias ds as_ v = alias x c ds as_ v
  declaration_body Declaration.extern_block ds as_ v = extern_block x c ds as_
  declaration_body Declaration.extern_func ds as_ v = extern_func x c ds as_ v
