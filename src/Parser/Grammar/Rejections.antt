-- ===== src/Parser/Grammar/Rejections.antt =====
-- What cannot stand in front of an item: decorators of an import, a visibility of an external block.
use crunch_lang.Prelude.{ℕ, zero, suc, ◌≡◌, Option, some, List, [], ◌∷◌}
use crunch_lang.Token.{TokenType, Token}
use crunch_lang.Ast.{Attribute, Vis, Decorator}
use crunch_lang.Parser.Core.{Context, Parser, Outcome}
use crunch_lang.Parser.Tokens.{eat}
use crunch_lang.Parser.Literal.{item_path}
use crunch_lang.Parser.Progress.{peek-eq}
use crunch_lang.Parser.Calls.{Calls, Declaration}
use crunch_lang.Parser.Item.{
  import, destination, exposure, vis_or_default, declaration_body, item_impl_body,
}
use crunch_lang.Parser.Grammar.{calls}
use crunch_lang.Parser.Grammar.Delimiters.{Yields, raises, Yields-bind, Yields-with}

-- The call returns no value.
abbrev pub Fruitless : {A : Type 0} → Outcome A → Type 0
Fruitless r = Yields (λ _. ⊥) r

module _ (x : Context) where
  import-Fruitless :
      (c : Calls) (d : Decorator) (ds : List Decorator) (v : Vis) (p : Parser)
      → Fruitless (import x c (d ∷ ds) v p)
  unfolding import
  import-Fruitless c d ds v p =
      Yields-bind (eat x TokenType.import (TokenType.newline ∷ []) p) _ λ start p₁.
        Yields-bind (eat x TokenType.ident (TokenType.newline ∷ []) p₁) _ λ name p₂.
          Yields-bind (item_path x c.frames (x.intern name.source) p₂) _ λ file p₃.
            Yields-bind (destination x c p₃) _ λ dest p₄.
              Yields-bind (exposure x c file p₄) _
                λ exposes p₅. Yields-bind (eat x TokenType.newline [] p₅) _ λ e p₆. raises

  declaration-Fruitless :
      (n : ℕ) (d : Decorator) (ds : List Decorator) (as_ : List Attribute) (v : Vis) (p : Parser)
      → Fruitless ((calls x n).declaration Declaration.import (d ∷ ds) as_ v p)
  unfolding calls declaration_body
  declaration-Fruitless zero d ds as_ v p = raises
  declaration-Fruitless (suc n) d ds as_ v p = import-Fruitless (calls x n) d ds v p

  -- Where decorators stand in front of an import, with or without attributes and a visibility, no
  -- item comes of it, whatever it consists of.
  pub item_impl-import :
      (n : ℕ) (d : Decorator) (ds : List Decorator) (as_ : List Attribute) (o : Option Vis)
      (t : Token) (p : Parser)
      → p.peek ≡ some t
      → t.ty ≡ TokenType.import
      → Fruitless
          ((calls x n).item_impl (record { decorators = d ∷ ds; attributes = as_; vis = o }) p)
  unfolding calls item_impl_body
  item_impl-import zero d ds as_ o t p e k = raises
  item_impl-import (suc n) d ds [] o t p e k =
      rw (peek-eq x p t e, k)
        (Yields-with _ (declaration-Fruitless n d ds [] (vis_or_default o) p) λ i q h. absurd h)
  item_impl-import (suc n) d ds (a ∷ as_) o t p e k = rw (peek-eq x p t e, k) raises

  -- Where a visibility stands in front of an external block, no item comes of it, whatever it
  -- consists of.
  pub item_impl-extern_block :
      (n : ℕ) (ds : List Decorator) (as_ : List Attribute) (v : Vis) (t : Token) (p : Parser)
      → p.peek ≡ some t
      → t.ty ≡ TokenType.extern
      → Fruitless
          ((calls x n).item_impl (record { decorators = ds; attributes = as_; vis = some v }) p)
  unfolding calls item_impl_body
  item_impl-extern_block zero ds as_ v t p e k = raises
  item_impl-extern_block (suc n) ds as_ v t p e k =
      rw (peek-eq x p t e, k)
        (Yields-bind ((calls x n).declaration Declaration.extern_block ds as_ v p) _ λ i q. raises)
