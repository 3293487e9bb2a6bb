-- ===== src/Parser/Item/TypeDecls.antt =====
-- crates/crunch-parser/src/parser/item.rs: declarations of types, enumerations and traits, and blocks
-- of external functions.
use crunch_lang.Prelude.{
  Bool, true, false, not, none, some, List, [], ◌∷◌, ◌++◌, ◌||◌, if◌then◌else◌,
}
use crunch_lang.Token.{TokenType, Token, merge}
use crunch_lang.Ast.{
  AstType, nil, at, type_span, Attribute, Vis, Decorator, decorators_of, Item, item, ItemKind,
  items_of, TypeMember, type_member, members_of, Variant, unit_variant, tuple_variant, variants_of,
}
use crunch_lang.Parser.Core.{
  Context, Parse, Error, ◌>>=◌, ◌>>◌, pure, fail, token_location, invalid_top_level,
  trailing_attributes, only_methods, only_extern_funcs, only_variants,
}
use crunch_lang.Parser.Tokens.{next, peek, eat}
use crunch_lang.Parser.Loop.{Step, again, done, while_loop}
use crunch_lang.Parser.Calls.{Calls, Declaration, Front, here}
use crunch_lang.Parser.Blocks.{eat_if}
use crunch_lang.Parser.Item.Parts.{vis, attr, vis_or_default, type_round}

-- The arms of the four loops: a decorator, a visibility, what the loop collects, a blank line, the
-- end, or an error.
pub data BodyForm : Type 0 where
  decorator visibility method member blank ended other : BodyForm

abbrev pub body_form : TokenType → BodyForm
body_form TokenType.end = BodyForm.ended
body_form TokenType.at_sign = BodyForm.decorator
body_form TokenType.exposed = BodyForm.visibility
body_form TokenType.package_ = BodyForm.visibility
body_form TokenType.function = BodyForm.method
body_form TokenType.ident = BodyForm.member
body_form TokenType.newline = BodyForm.blank
body_form _ = BodyForm.other

abbrev pub is_empty {ℓ} : {A : Type ℓ} → List A → Bool
is_empty [] = true
is_empty (a ∷ made) = false

abbrev pub empty_front : Front
empty_front = record { decorators = []; attributes = []; vis = none }

module _ (x : Context) (c : Calls) where
  -- The loops over the functions of a trait and of an external block. The visibility is kept from
  -- one function to the next.
  abbrev pub run_function :
      Declaration
      → Error
      → Front × List Item
      → Token
      → BodyForm
      → Parse (Step (Front × List Item) (List Item))
  unfolding eat vis
  run_function d e (front, made) t BodyForm.ended = pure (done made)
  run_function d e (front, made) t BodyForm.decorator = do
    ds ← c.decorator front.decorators
    pure (again (record front { decorators = ds }, made))
  run_function d e (front, made) t BodyForm.visibility = do
    v ← vis x c.frames
    pure (again (record front { vis = some v }, made))
  run_function d e (front, made) t BodyForm.method = do
    i ← c.declaration d front.decorators front.attributes (vis_or_default front.vis)
    pure (again (record front { decorators = []; attributes = [] }, made ++ i ∷ []))
  run_function d e (front, made) t BodyForm.blank = do
    eat x TokenType.newline []
    pure (again (front, made))
  run_function d e (front, made) t BodyForm.member = fail e (token_location x t)
  run_function d e (front, made) t BodyForm.other = fail e (token_location x t)

  unfoldable pub function_round :
      Declaration → Error → Front × List Item → Parse (Step (Front × List Item) (List Item))
  unfolding peek run_function
  function_round d e s = do t ← peek x; run_function d e s t (body_form t.ty)

  unfoldable pub trait_decl : List Decorator → List Attribute → Vis → Parse Item
  unfolding eat while_loop function_round
  trait_decl decorators attrs v = do
    start ← eat x TokenType.trait (TokenType.newline ∷ [])
    name ← eat x TokenType.ident (TokenType.newline ∷ [])
    generics ← c.generics
    eat x TokenType.newline []
    methods ← while_loop (function_round Declaration.function only_methods) (empty_front, [])
    e ← eat x TokenType.end (TokenType.newline ∷ [])
    pure (
        item (decorators_of decorators) attrs (ItemKind.trait generics (items_of methods))
          (here x (merge start.span e.span)) (some (x.intern name.source)) (some v))

  unfoldable pub extern_block : List Decorator → List Attribute → Parse Item
  unfolding eat while_loop function_round
  extern_block decorators attrs = do
    start ← eat x TokenType.extern (TokenType.newline ∷ [])
    made ← while_loop (function_round Declaration.extern_func only_extern_funcs) (empty_front, [])
    e ← eat x TokenType.end (TokenType.newline ∷ [])
    pure (
        item (decorators_of decorators) attrs (ItemKind.extern_block (items_of made))
          (here x (merge start.span e.span)) none none)

  unfoldable pub variant : List Decorator → Parse Variant
  unfolding eat eat_if while_loop type_round
  variant decorators = do
    name ← eat x TokenType.ident (TokenType.newline ∷ [])
    let n = x.intern name.source
    let ds = decorators_of decorators
    let with_types = (do
      types ← while_loop (type_round x c TokenType.right_paren) nil
      eat x TokenType.right_paren (TokenType.newline ∷ [])
      pure (tuple_variant n types ds))
    open_ ← eat_if x TokenType.left_paren (TokenType.newline ∷ [])
    made ← (if open_ then with_types else pure (unit_variant n ds))
    eat x TokenType.newline []
    pure made

  abbrev pub run_variant :
      List Decorator × List Variant
      → Token
      → BodyForm
      → Parse (Step (List Decorator × List Variant) (List Variant))
  unfolding eat variant
  run_variant (ds, made) t BodyForm.ended = pure (done made)
  run_variant (ds, made) t BodyForm.decorator = do ds' ← c.decorator ds; pure (again (ds', made))
  run_variant (ds, made) t BodyForm.member = do v ← variant ds; pure (again ([], made ++ v ∷ []))
  run_variant (ds, made) t BodyForm.blank = do eat x TokenType.newline []; pure (again (ds, made))
  run_variant (ds, made) t _ = fail (only_variants t.ty) (token_location x t)

  unfoldable pub variant_round :
      List Decorator × List Variant → Parse (Step (List Decorator × List Variant) (List Variant))
  unfolding peek run_variant
  variant_round s = do t ← peek x; run_variant s t (body_form t.ty)

  unfoldable pub enum_decl : List Decorator → List Attribute → Vis → Parse Item
  unfolding eat while_loop variant_round
  enum_decl decorators attrs v = do
    start ← eat x TokenType.enum (TokenType.newline ∷ [])
    name ← eat x TokenType.ident (TokenType.newline ∷ [])
    generics ← c.generics
    eat x TokenType.newline []
    made ← while_loop variant_round ([], [])
    e ← eat x TokenType.end (TokenType.newline ∷ [])
    pure (
        item (decorators_of decorators) attrs (ItemKind.enum generics (variants_of made))
          (here x (merge start.span e.span)) (some (x.intern name.source)) (some v))

  -- A member, and the comma behind it.
  unfoldable pub type_member_decl : List Decorator → List Attribute → Parse TypeMember
  unfolding eat eat_if
  type_member_decl decorators attrs = do
    name ← eat x TokenType.ident (TokenType.newline ∷ [])
    given ← eat_if x TokenType.colon (TokenType.newline ∷ [])
    ty ← (if given then c.ascribed_type else pure (at AstType.unit (here x name.span)))
    eat x TokenType.comma []
    pure (
        type_member (decorators_of decorators) attrs (x.intern name.source) ty
          (here x (merge name.span (type_span ty))))

  -- What the loop of `type_decl` holds.
  abbrev pub MemberState : Type 0
  MemberState = List Decorator × List Attribute × List TypeMember

  abbrev pub run_member : MemberState → Token → BodyForm → Parse (Step MemberState MemberState)
  unfolding eat next attr type_member_decl
  run_member (ds, as_, made) t BodyForm.ended = pure (done (ds, as_, made))
  run_member (ds, as_, made) t BodyForm.decorator = do
    ds' ← c.decorator ds
    pure (again (ds', as_, made))
  run_member (ds, as_, made) t BodyForm.visibility = do
    u ← next x
    a ← attr x c.frames u
    pure (again (ds, as_ ++ a ∷ [], made))
  run_member (ds, as_, made) t BodyForm.member = do
    m ← type_member_decl ds as_
    pure (again ([], [], made ++ m ∷ []))
  run_member (ds, as_, made) t BodyForm.blank = do
    eat x TokenType.newline []
    pure (again (ds, as_, made))
  run_member (ds, as_, made) t _ = fail (invalid_top_level t.ty) (token_location x t)

  unfoldable pub member_round : MemberState → Parse (Step MemberState MemberState)
  unfolding peek run_member
  member_round s = do t ← peek x; run_member s t (body_form t.ty)

  unfoldable pub type_decl : List Decorator → List Attribute → Vis → Parse Item
  unfolding eat peek while_loop member_round
  type_decl decorators attrs v = do
    start ← eat x TokenType.type (TokenType.newline ∷ [])
    name ← eat x TokenType.ident (TokenType.newline ∷ [])
    generics ← c.generics
    eat x TokenType.newline []
    (ds, as_, made) ← while_loop member_round ([], [], [])
    e ← eat x TokenType.end (TokenType.newline ∷ [])
    let trailing = (do t ← peek x; fail trailing_attributes (token_location x t))
    let whole =
        item (decorators_of decorators) attrs (ItemKind.type generics (members_of made))
          (here x (merge start.span e.span)) (some (x.intern name.source)) (some v)
    if not (is_empty as_) || not (is_empty ds) then trailing else pure whole
