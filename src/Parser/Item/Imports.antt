-- ===== src/Parser/Item/Imports.antt =====
-- crates/crunch-parser/src/parser/item.rs: imports, aliases and extensions.
use crunch_lang.Prelude.{Option, none, some, List, [], ◌∷◌, ◌++◌, ◌&&◌, if◌then◌else◌}
use crunch_lang.Token.{TokenType, Token, Span, merge}
use crunch_lang.Ast.{
  StrT, ItemPath, Located, Attribute, Vis, Dest, Exposure, Decorator, decorator, decorators_of,
  Item, item, ItemKind, items_of,
}
use crunch_lang.Parser.Core.{
  Context, Parse, ◌>>=◌, ◌>>◌, pure, fail, panics, token_location, missing_import,
  no_decorators_allowed,
}
use crunch_lang.Parser.Tokens.{peek, peek_is, eat}
use crunch_lang.Parser.Loop.{Step, again, done, while_loop}
use crunch_lang.Parser.Literal.{item_path}
use crunch_lang.Parser.Calls.{Calls, Front, here}
use crunch_lang.Parser.Blocks.{eat_if, push_some}
use crunch_lang.Parser.Item.TypeDecls.{empty_front, is_empty}

abbrev pub last_segment : ItemPath → Option StrT
last_segment [] = none
last_segment (s ∷ []) = some s
last_segment (s ∷ t ∷ path) = last_segment (t ∷ path)

abbrev decorator_span : Decorator → Span
decorator_span (decorator name name_loc args loc) = loc.span

abbrev pub last_span : Span → List Decorator → Span
last_span s [] = s
last_span s (d ∷ ds) = last_span (decorator_span d) ds

module _ (x : Context) (c : Calls) where
  unfoldable pub destination : Parse Dest
  unfolding eat_if
  destination = do
    library ← eat_if x TokenType.library (TokenType.newline ∷ [])
    let otherwise = (do
      in_package ← eat_if x TokenType.package_ (TokenType.newline ∷ [])
      pure (if in_package then Dest.package_ else Dest.relative))
    if library then pure Dest.native_lib else otherwise

  unfoldable pub alias_name : Parse StrT
  unfolding eat
  alias_name = do name ← eat x TokenType.ident (TokenType.newline ∷ []); pure (x.intern name.source)

  abbrev pub or_panic : Option StrT → Parse StrT
  or_panic none = panics
  or_panic (some s) = pure s

  unfoldable pub exposed_round :
      List (ItemPath × StrT) → Parse (Step (List (ItemPath × StrT)) (List (ItemPath × StrT)))
  unfolding peek_is eat eat_if item_path alias_name
  exposed_round made = do
    let more = (do
      name ← eat x TokenType.ident (TokenType.newline ∷ [])
      path ← item_path x c.frames (x.intern name.source)
      renamed ← eat_if x TokenType.as_ (TokenType.newline ∷ [])
      alias ← (if renamed then alias_name else or_panic (last_segment path))
      let made' = made ++ (path, alias) ∷ []
      comma ← eat_if x TokenType.comma (TokenType.newline ∷ [])
      if comma then pure (again made') else pure (done made'))
    ended ← peek_is x TokenType.newline
    if ended then pure (done made) else more

  abbrev pub or_missing : Token → Option StrT → Parse StrT
  or_missing t none = fail missing_import (token_location x t)
  or_missing t (some s) = pure s

  -- The next token's place is asked for before it is known to be needed.
  unfoldable pub whole_module : ItemPath → Parse Exposure
  unfolding eat_if peek alias_name
  whole_module file = do
    renamed ← eat_if x TokenType.as_ (TokenType.newline ∷ [])
    let last = (do t ← peek x; or_missing t (last_segment file))
    alias ← (if renamed then alias_name else last)
    pure (Exposure.none alias)

  unfoldable pub exposure : ItemPath → Parse Exposure
  unfolding eat_if while_loop exposed_round whole_module
  exposure file = do
    exposing ← eat_if x TokenType.exposing (TokenType.newline ∷ [])
    let members = (do made ← while_loop exposed_round []; pure (Exposure.items made))
    let listed = (do
      star ← eat_if x TokenType.star (TokenType.newline ∷ [])
      if star then pure Exposure.all else members)
    if exposing then listed else whole_module file

  abbrev pub import_item : Span → ItemKind → Vis → List Decorator → Parse Item
  import_item s kind v [] = pure (item (decorators_of []) [] kind (here x s) none (some v))
  import_item s kind v (d ∷ ds) =
      fail (no_decorators_allowed TokenType.import)
        (here x (merge (decorator_span d) (last_span (decorator_span d) ds)))

  unfoldable pub import : List Decorator → Vis → Parse Item
  unfolding eat item_path destination exposure
  import decorators v = do
    start ← eat x TokenType.import (TokenType.newline ∷ [])
    name ← eat x TokenType.ident (TokenType.newline ∷ [])
    file ← item_path x c.frames (x.intern name.source)
    dest ← destination
    exposes ← exposure file
    e ← eat x TokenType.newline []
    import_item (merge start.span e.span) (ItemKind.import file dest exposes) v decorators

  unfoldable pub alias : List Decorator → List Attribute → Vis → Parse Item
  unfolding eat
  alias decorators attrs v = do
    start ← eat x TokenType.alias (TokenType.newline ∷ [])
    alias_type ← c.ascribed_type
    eat x TokenType.equal (TokenType.newline ∷ [])
    actual ← c.ascribed_type
    e ← eat x TokenType.newline []
    pure (
        item (decorators_of decorators) attrs (ItemKind.alias alias_type actual)
          (here x (merge start.span e.span)) none (some v))

  unfoldable pub extender : Parse (Option Located)
  unfolding eat_if
  extender = do
    given ← eat_if x TokenType.with_ (TokenType.newline ∷ [])
    if given then (do ty ← c.ascribed_type; pure (some ty)) else pure none

  unfoldable pub extend_round :
      Front × List Item → Parse (Step (Front × List Item) (Front × List Item))
  unfolding peek_is
  extend_round (front, made) = do
    let more = (do (o, front') ← c.item_impl front; pure (again (front', push_some made o)))
    ended ← peek_is x TokenType.end
    if ended then pure (done (front, made)) else more

  -- A decorator or an attribute without an item runs into a `todo!`.
  unfoldable pub extension : Span → Located → Option Located → Front → List Item → Parse Item
  unfolding eat
  extension start target by front made = do
    let ended = (do
      e ← eat x TokenType.end []
      pure (
          item (decorators_of []) [] (ItemKind.extend_block target by (items_of made))
            (here x (merge start e.span)) none none))
    if is_empty front.decorators && is_empty front.attributes then ended else panics

  unfoldable pub extend_block : Parse Item
  unfolding eat extender while_loop extend_round extension
  extend_block = do
    start ← eat x TokenType.extend (TokenType.newline ∷ [])
    target ← c.ascribed_type
    by ← extender
    eat x TokenType.newline []
    (front, made) ← while_loop extend_round (empty_front, [])
    extension start.span target by front made
