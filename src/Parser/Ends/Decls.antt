-- ===== src/Parser/Ends/Decls.antt =====
-- The parsers of the declarations of types, enumerations and traits end, and pull a token.
use crunch_lang.Prelude.{refl, false, not, List, [], ◌∷◌, ◌||◌}
use crunch_lang.Token.{TokenType, Token}
use crunch_lang.Ast.{nil, Attribute, Vis, Decorator, Item, Variant}
use crunch_lang.Parser.Core.{Context}
use crunch_lang.Parser.Calls.{Calls, Declaration, Front}
use crunch_lang.Parser.Ends.{
  goes_on, Takes, Pulls, Rounds, ◌▸◌, ◌▹◌, Takes-if, Takes-pure, Takes-fail, Takes-Pulls,
  Halts-pure, while_loop-Takes,
}
use crunch_lang.Parser.Ends.Primitives.{next-Pulls, peek-Halts, eat-Pulls, eat_if-Halts}
use crunch_lang.Parser.Ends.Good.{Good}
use crunch_lang.Parser.Core.{Error}
use crunch_lang.Parser.Item.{
  BodyForm, body_form, empty_front, is_empty, run_function, function_round, trait_decl,
  extern_block, type_round, variant, run_variant, variant_round, enum_decl, type_member_decl,
  run_member, member_round, MemberState, type_decl,
}
use crunch_lang.Parser.Core.{only_methods, only_extern_funcs}
use crunch_lang.Parser.Ends.Functions.{vis-Pulls, attr-Halts, type_round-Rounds}

module _ (x : Context) (c : Calls) (g : Good c) where
  run_function-Takes :
      (d : Declaration) (e : Error) (s : Front × List Item) (t : Token) (k : BodyForm)
      → Takes (goes_on λ _. false) (run_function x c d e s t k)
  unfolding function_round
  run_function-Takes d e (front, made) t BodyForm.ended = Takes-pure _ refl
  run_function-Takes d e (front, made) t BodyForm.decorator =
      g.decorator_pulls front.decorators ▸ λ ds. Halts-pure _
  run_function-Takes d e (front, made) t BodyForm.visibility =
      vis-Pulls x c.frames ▸ λ v. Halts-pure _
  run_function-Takes d e (front, made) t BodyForm.method =
      g.declaration_pulls d _ _ _ ▸ λ i. Halts-pure _
  run_function-Takes d e (front, made) t BodyForm.blank =
      eat-Pulls x TokenType.newline [] ▸ λ _. Halts-pure _
  run_function-Takes d e (front, made) t BodyForm.member = Takes-fail _ _
  run_function-Takes d e (front, made) t BodyForm.other = Takes-fail _ _

  function_round-Rounds : (d : Declaration) (e : Error) → Rounds (function_round x c d e)
  unfolding function_round
  function_round-Rounds d e s = peek-Halts x ▹ λ t. run_function-Takes d e s t (body_form t.ty)

  pub trait_decl-Pulls :
      (ds : List Decorator) (as_ : List Attribute) (v : Vis) → Pulls (trait_decl x c ds as_ v)
  unfolding trait_decl
  trait_decl-Pulls ds as_ v = eat-Pulls x TokenType.trait (TokenType.newline ∷ []) ▸ λ start.
      eat-Pulls x TokenType.ident (TokenType.newline ∷ []) ▸ λ name. g.generics_halts ▹ λ generics.
      eat-Pulls x TokenType.newline [] ▸ λ _.
      while_loop-Takes (function_round x c Declaration.function only_methods)
        (function_round-Rounds Declaration.function only_methods) (empty_front, [])
      ▹ λ methods. eat-Pulls x TokenType.end (TokenType.newline ∷ []) ▸ λ e. Halts-pure _

  pub extern_block-Pulls :
      (ds : List Decorator) (as_ : List Attribute) → Pulls (extern_block x c ds as_)
  unfolding extern_block
  extern_block-Pulls ds as_ = eat-Pulls x TokenType.extern (TokenType.newline ∷ []) ▸ λ start.
      while_loop-Takes (function_round x c Declaration.extern_func only_extern_funcs)
        (function_round-Rounds Declaration.extern_func only_extern_funcs) (empty_front, [])
      ▹ λ made. eat-Pulls x TokenType.end (TokenType.newline ∷ []) ▸ λ e. Halts-pure _

  variant-Pulls : (ds : List Decorator) → Pulls (variant x c ds)
  unfolding variant
  variant-Pulls ds = eat-Pulls x TokenType.ident (TokenType.newline ∷ []) ▸ λ name.
      eat_if-Halts x TokenType.left_paren (TokenType.newline ∷ []) ▹ λ open_.
      Takes-if open_
        (while_loop-Takes (type_round x c TokenType.right_paren)
            (type_round-Rounds x c g TokenType.right_paren) nil
          ▹ λ types. eat-Pulls x TokenType.right_paren (TokenType.newline ∷ []) ▸ λ _. Halts-pure _)
        (Halts-pure _)
      ▹ λ made. eat-Pulls x TokenType.newline [] ▸ λ _. Halts-pure made

  run_variant-Takes :
      (s : List Decorator × List Variant) (t : Token) (k : BodyForm)
      → Takes (goes_on λ _. false) (run_variant x c s t k)
  unfolding variant_round
  run_variant-Takes (ds, made) t BodyForm.ended = Takes-pure _ refl
  run_variant-Takes (ds, made) t BodyForm.decorator = g.decorator_pulls ds ▸ λ ds'. Halts-pure _
  run_variant-Takes (ds, made) t BodyForm.member = variant-Pulls ds ▸ λ v. Halts-pure _
  run_variant-Takes (ds, made) t BodyForm.blank =
      eat-Pulls x TokenType.newline [] ▸ λ _. Halts-pure _
  run_variant-Takes (ds, made) t _ = Takes-fail _ _

  variant_round-Rounds : Rounds (variant_round x c)
  unfolding variant_round
  variant_round-Rounds s = peek-Halts x ▹ λ t. run_variant-Takes s t (body_form t.ty)

  pub enum_decl-Pulls :
      (ds : List Decorator) (as_ : List Attribute) (v : Vis) → Pulls (enum_decl x c ds as_ v)
  unfolding enum_decl
  enum_decl-Pulls ds as_ v = eat-Pulls x TokenType.enum (TokenType.newline ∷ []) ▸ λ start.
      eat-Pulls x TokenType.ident (TokenType.newline ∷ []) ▸ λ name. g.generics_halts ▹ λ generics.
      eat-Pulls x TokenType.newline [] ▸ λ _.
      while_loop-Takes (variant_round x c) variant_round-Rounds ([], []) ▹ λ made.
      eat-Pulls x TokenType.end (TokenType.newline ∷ []) ▸ λ e. Halts-pure _

  type_member_decl-Pulls :
      (ds : List Decorator) (as_ : List Attribute) → Pulls (type_member_decl x c ds as_)
  unfolding type_member_decl
  type_member_decl-Pulls ds as_ = eat-Pulls x TokenType.ident (TokenType.newline ∷ []) ▸ λ name.
      eat_if-Halts x TokenType.colon (TokenType.newline ∷ []) ▹ λ given.
      Takes-if given (Takes-Pulls g.type_pulls) (Halts-pure _) ▹ λ ty.
      eat-Pulls x TokenType.comma [] ▸ λ _. Halts-pure _

  run_member-Takes :
      (s : MemberState x c) (t : Token) (k : BodyForm)
      → Takes (goes_on λ _. false) (run_member x c s t k)
  unfolding member_round
  run_member-Takes (ds, as_, made) t BodyForm.ended = Takes-pure _ refl
  run_member-Takes (ds, as_, made) t BodyForm.decorator = g.decorator_pulls ds ▸ λ ds'. Halts-pure _
  run_member-Takes (ds, as_, made) t BodyForm.visibility =
      next-Pulls x ▸ λ u. attr-Halts x c.frames u ▹ λ a. Halts-pure _
  run_member-Takes (ds, as_, made) t BodyForm.member =
      type_member_decl-Pulls ds as_ ▸ λ m. Halts-pure _
  run_member-Takes (ds, as_, made) t BodyForm.blank =
      eat-Pulls x TokenType.newline [] ▸ λ _. Halts-pure _
  run_member-Takes (ds, as_, made) t _ = Takes-fail _ _

  member_round-Rounds : Rounds (member_round x c)
  unfolding member_round
  member_round-Rounds s = peek-Halts x ▹ λ t. run_member-Takes s t (body_form t.ty)

  pub type_decl-Pulls :
      (ds : List Decorator) (as_ : List Attribute) (v : Vis) → Pulls (type_decl x c ds as_ v)
  unfolding type_decl
  type_decl-Pulls ds as_ v = eat-Pulls x TokenType.type (TokenType.newline ∷ []) ▸ λ start.
      eat-Pulls x TokenType.ident (TokenType.newline ∷ []) ▸ λ name. g.generics_halts ▹ λ generics.
      eat-Pulls x TokenType.newline [] ▸ λ _.
      while_loop-Takes (member_round x c) member_round-Rounds ([], [], []) ▹ λ (ds', as', made).
      eat-Pulls x TokenType.end (TokenType.newline ∷ []) ▸ λ e.
      Takes-if (not (is_empty as') || not (is_empty ds')) (peek-Halts x ▹ λ t. Takes-fail _ _)
        (Halts-pure _)
