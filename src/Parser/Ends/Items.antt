-- ===== src/Parser/Ends/Items.antt =====
-- The parsers of items end, whatever stands in front of the item.
use crunch_lang.Prelude.{refl, Option, none, some, List, [], ◌∷◌, ◌&&◌}
use crunch_lang.Token.{TokenType, Token, Span}
use crunch_lang.Ast.{ItemPath, StrT, Located, Attribute, Vis, Decorator, Item, ItemKind}
use crunch_lang.Parser.Core.{Context}
use crunch_lang.Parser.Loop.{done}
use crunch_lang.Parser.Calls.{Calls, Declaration, Front}
use crunch_lang.Parser.Ends.{
  Takes, Halts, Pulls, Rounds, RoundsTo, ◌▸◌, ◌▹◌, Takes-if, Takes-pure, Takes-fail, Takes-panics,
  Takes-Pulls, Halts-pure, while_loop-Takes,
}
use crunch_lang.Parser.Ends.Primitives.{
  has_peek-Halts, next-Pulls, peek-Halts, peek_is-Halts, eat-Pulls, eat_if-Halts, item_path-Halts,
}
use crunch_lang.Parser.Ends.Good.{Good, is_given}
use crunch_lang.Parser.Item.{
  last_segment, destination, alias_name, or_panic, exposed_round, or_missing, whole_module,
  exposure, import_item, import, alias, extender, extend_round, extension, extend_block, ItemForm,
  item_form, empty_front, is_empty, without_vis, run_declared, run_item, item_impl_body, item_step,
  item_round, item_body, declaration_body,
}
use crunch_lang.Parser.Ends.Functions.{vis-Pulls, attr-Halts, function-Pulls, extern_func-Pulls}
use crunch_lang.Parser.Ends.Decls.{
  trait_decl-Pulls, extern_block-Pulls, enum_decl-Pulls, type_decl-Pulls,
}

module _ (x : Context) (c : Calls) (g : Good c) where
  destination-Halts : Halts (destination x c)
  unfolding destination
  destination-Halts = eat_if-Halts x TokenType.library (TokenType.newline ∷ []) ▹ λ library.
      Takes-if library (Halts-pure _)
        (eat_if-Halts x TokenType.package_ (TokenType.newline ∷ []) ▹ λ in_package. Halts-pure _)

  alias_name-Pulls : Pulls (alias_name x c)
  unfolding alias_name
  alias_name-Pulls = eat-Pulls x TokenType.ident (TokenType.newline ∷ []) ▸ λ name. Halts-pure _

  or_panic-Halts : (o : Option StrT) → Halts (or_panic x c o)
  or_panic-Halts none = Takes-panics
  or_panic-Halts (some s) = Halts-pure s

  exposed_round-Rounds : Rounds (exposed_round x c)
  unfolding exposed_round
  exposed_round-Rounds made = peek_is-Halts x TokenType.newline ▹ λ ended.
      Takes-if ended (Takes-pure _ refl) (
        eat-Pulls x TokenType.ident (TokenType.newline ∷ []) ▸ λ name.
        item_path-Halts x c.frames (x.intern name.source) ▹ λ path.
        eat_if-Halts x TokenType.as_ (TokenType.newline ∷ []) ▹ λ renamed.
        Takes-if renamed (Takes-Pulls alias_name-Pulls) (or_panic-Halts (last_segment path))
        ▹ λ alias. eat_if-Halts x TokenType.comma (TokenType.newline ∷ []) ▹ λ comma.
            Takes-if comma (Halts-pure _) (Halts-pure _))

  or_missing-Halts : (t : Token) (o : Option StrT) → Halts (or_missing x c t o)
  or_missing-Halts t none = Takes-fail _ _
  or_missing-Halts t (some s) = Halts-pure s

  whole_module-Halts : (file : ItemPath) → Halts (whole_module x c file)
  unfolding whole_module
  whole_module-Halts file = eat_if-Halts x TokenType.as_ (TokenType.newline ∷ []) ▹ λ renamed.
      Takes-if renamed (Takes-Pulls alias_name-Pulls)
        (peek-Halts x ▹ λ t. or_missing-Halts t (last_segment file))
      ▹ λ alias. Halts-pure _

  exposure-Halts : (file : ItemPath) → Halts (exposure x c file)
  unfolding exposure
  exposure-Halts file = eat_if-Halts x TokenType.exposing (TokenType.newline ∷ []) ▹ λ exposing.
      Takes-if exposing
        (eat_if-Halts x TokenType.star (TokenType.newline ∷ []) ▹ λ star.
          Takes-if star (Halts-pure _)
            (while_loop-Takes (exposed_round x c) exposed_round-Rounds [] ▹ λ made. Halts-pure _))
        (whole_module-Halts file)

  import_item-Halts :
      (s : Span) (kind : ItemKind) (v : Vis) (ds : List Decorator)
      → Halts (import_item x c s kind v ds)
  import_item-Halts s kind v [] = Halts-pure _
  import_item-Halts s kind v (d ∷ ds) = Takes-fail _ _

  import-Pulls : (ds : List Decorator) (v : Vis) → Pulls (import x c ds v)
  unfolding import
  import-Pulls ds v = eat-Pulls x TokenType.import (TokenType.newline ∷ []) ▸ λ start.
      eat-Pulls x TokenType.ident (TokenType.newline ∷ []) ▸ λ name.
      item_path-Halts x c.frames (x.intern name.source) ▹ λ file. destination-Halts ▹ λ dest.
      exposure-Halts file ▹ λ exposes.
      eat-Pulls x TokenType.newline [] ▸ λ e. import_item-Halts _ _ v ds

  alias-Pulls : (ds : List Decorator) (as_ : List Attribute) (v : Vis) → Pulls (alias x c ds as_ v)
  unfolding alias
  alias-Pulls ds as_ v = eat-Pulls x TokenType.alias (TokenType.newline ∷ []) ▸ λ start.
      g.type_pulls ▸ λ alias_type. eat-Pulls x TokenType.equal (TokenType.newline ∷ []) ▸ λ _.
      g.type_pulls ▸ λ actual. eat-Pulls x TokenType.newline [] ▸ λ e. Halts-pure _

  extender-Halts : Halts (extender x c)
  unfolding extender
  extender-Halts = eat_if-Halts x TokenType.with_ (TokenType.newline ∷ []) ▹ λ given.
      Takes-if given (g.type_pulls ▸ λ ty. Halts-pure _) (Halts-pure _)

  extend_round-Rounds : Rounds (extend_round x c)
  unfolding extend_round
  extend_round-Rounds (front, made) = peek_is-Halts x TokenType.end ▹ λ ended.
      Takes-if ended (Takes-pure _ refl) (g.item_impl_pulls front ▸ λ r. Halts-pure _)

  extension-Halts :
      (s : Span) (target : Located) (by : Option Located) (front : Front) (made : List Item)
      → Halts (extension x c s target by front made)
  unfolding extension
  extension-Halts s target by front made =
      Takes-if (is_empty front.decorators && is_empty front.attributes)
        (eat-Pulls x TokenType.end [] ▸ λ e. Halts-pure _) Takes-panics

  extend_block-Pulls : Pulls (extend_block x c)
  unfolding extend_block
  extend_block-Pulls = eat-Pulls x TokenType.extend (TokenType.newline ∷ []) ▸ λ start.
      g.type_pulls ▸ λ target. extender-Halts ▹ λ by. eat-Pulls x TokenType.newline [] ▸ λ _.
      while_loop-Takes (extend_round x c) extend_round-Rounds (empty_front, []) ▹ λ (front, made).
      extension-Halts start.span target by front made

  pub declaration_body-Pulls :
      (d : Declaration) (ds : List Decorator) (as_ : List Attribute) (v : Vis)
      → Pulls (declaration_body x c d ds as_ v)
  unfolding declaration_body
  declaration_body-Pulls Declaration.function ds as_ v = function-Pulls x c g ds as_ v
  declaration_body-Pulls Declaration.type_decl ds as_ v = type_decl-Pulls x c g ds as_ v
  declaration_body-Pulls Declaration.extend_block ds as_ v = extend_block-Pulls
  declaration_body-Pulls Declaration.enum_decl ds as_ v = enum_decl-Pulls x c g ds as_ v
  declaration_body-Pulls Declaration.trait_decl ds as_ v = trait_decl-Pulls x c g ds as_ v
  declaration_body-Pulls Declaration.import ds as_ v = import-Pulls ds v
  declaration_body-Pulls Declaration.alias ds as_ v = alias-Pulls ds as_ v
  declaration_body-Pulls Declaration.extern_block ds as_ v = extern_block-Pulls x c g ds as_
  declaration_body-Pulls Declaration.extern_func ds as_ v = extern_func-Pulls x c g ds as_ v

  without_vis-Halts : (i : Item) (o : Option Vis) → Halts (without_vis x c i o)
  without_vis-Halts i none = Halts-pure _
  without_vis-Halts i (some v) = Takes-fail _ _

  run_declared-Pulls :
      (d : Declaration) (t : Token) (front : Front) → Pulls (run_declared x c d t front)
  run_declared-Pulls Declaration.import t front =
      Takes-if (is_empty front.attributes)
        (g.declaration_pulls Declaration.import _ _ _ ▸ λ i. Halts-pure _) (Takes-fail _ _)
  run_declared-Pulls Declaration.extern_block t front =
      g.declaration_pulls Declaration.extern_block _ _ _ ▸ λ i. without_vis-Halts i front.vis
  run_declared-Pulls Declaration.extend_block t front =
      g.declaration_pulls Declaration.extend_block _ _ _ ▸ λ i. Halts-pure _
  run_declared-Pulls d t front = g.declaration_pulls d _ _ _ ▸ λ i. Halts-pure _

  run_item-Pulls : (k : ItemForm) (t : Token) (front : Front) → Pulls (run_item x c k t front)
  unfolding item_impl_body
  run_item-Pulls ItemForm.decorator t front =
      g.decorator_pulls front.decorators ▸ λ ds. Halts-pure _
  run_item-Pulls ItemForm.visibility t front = vis-Pulls x c.frames ▸ λ v. Halts-pure _
  run_item-Pulls ItemForm.attribute t front =
      next-Pulls x ▸ λ u. attr-Halts x c.frames u ▹ λ a. Halts-pure _
  run_item-Pulls (ItemForm.declared d) t front = run_declared-Pulls d t front
  run_item-Pulls ItemForm.blank t front = next-Pulls x ▸ λ _. Halts-pure _
  run_item-Pulls ItemForm.other t front = Takes-fail _ _

  -- A call of `item_impl` that gives no item has pulled a token too.
  pub item_impl_body-Pulls : (front : Front) → Pulls (item_impl_body x c front)
  unfolding item_impl_body
  item_impl_body-Pulls front = peek-Halts x ▹ λ t. run_item-Pulls (item_form t.ty) t front

  pub item_step-Halts : (r : Option Item × Front) → Halts (item_step x c r)
  item_step-Halts (none, front) = Halts-pure _
  item_step-Halts (some i, front) = Halts-pure _

  pub item_round-Rounds : RoundsTo is_given (item_round x c)
  unfolding item_round
  item_round-Rounds front = has_peek-Halts ▹ λ more.
      Takes-if more (g.item_impl_pulls front ▸ item_step-Halts) (Takes-pure (done none) refl)

  pub item_body-Takes : Takes is_given (item_body x c)
  unfolding item_body
  item_body-Takes = while_loop-Takes (item_round x c) item_round-Rounds empty_front
