-- ===== src/Parser/Keeps.antt =====
-- Calls that end and never panic, put together: sequences, branches and loops on fuel.
use crunch_lang.Parser.Core.{ErrorHandler}
use crunch_lang.Prelude.{
  ℕ, zero, suc, ◌+◌, ◌-◌, ◌<◌, ◌≤◌, ◌≡◌, refl, sym, subst, Bool, true, false, Option, none, some,
  List, [], ◌∷◌, arith, if◌then◌else◌,
}
use crunch_lang.Token.{TokenType, Token, contains, is_kind, int, ident, dot, newline}
use crunch_lang.Ast.{Location, Literal, literal, LiteralVal, ItemPath, StrT}
use crunch_lang.Parser.Core.{Context, Parser, Parse, ok, err, bind, Error, LiteralKind}
use crunch_lang.Parser.Tokens.{left, peek, peek_is, eat, eat_of, is_disjoint}
use crunch_lang.Parser.Literal.{
  sees, item_path, item_path_rest, item_path_loop, add_stack_frame, parse_literal, literal_of,
  int_literal, or_invalid, warn_underscores,
}
use crunch_lang.Parser.Operators.{or_fail, type_op, type_op_of}
use crunch_lang.Parser.Runs.{
  At, Runs, returns, raises, Runs-bind, Runs-then, Runs-if, Runs-weaken, Runs-map, Runs-done,
}
use crunch_lang.Parser.Progress.{peek-Runs, peek_is-Runs, eat-Runs, eat_of-Runs}

-- A kind that compares equal to `int` is `int`.
int_of_is_kind : (k : TokenType) → is_kind k int ≡ true → k ≡ int
int_of_is_kind int h = refl
int_of_is_kind _ h = cc

abbrev pub IsInteger : Literal → Type 0
IsInteger (literal (LiteralVal.integer sign n) ty loc) = Unit
IsInteger (literal _ ty loc) = ⊥

module _ (S : ErrorHandler) where
  -- The call ends in a value or an error, and no token comes back.
  abbrev pub Keeps : {A : Type 0} → Parse A → Type 0
  Keeps f = (n : ℕ) (p : Parser) → At S n p → Runs S n n (λ _. Unit {0}) (f p)

  -- The call also pulls a token.
  abbrev pub Consumes : {A : Type 0} → Parse A → Type 0
  Consumes f = (n : ℕ) (p : Parser) → At S n p → Runs S (n - 1) n (λ _. 1 ≤ n) (f p)

module _ {S : ErrorHandler} where
  module _ {A B : Type 0} {f : Parse A} {g : A → Parse B} where
    pub Keeps-bind : Keeps S f → ((a : A) → Keeps S (g a)) → Keeps S (λ p. bind (f p) g)
    Keeps-bind k l n p h = Runs-bind (k n p h) λ a q hq _. l a n q hq

    pub Consumes-bind : Consumes S f → ((a : A) → Keeps S (g a)) → Consumes S (λ p. bind (f p) g)
    Consumes-bind k l n p h = Runs-bind (k n p h) λ a q hq pos.
        Runs-map (Runs-weaken (l a (n - 1) q hq) (omega arith) (omega arith)) λ _ _. pos

  module _ {A : Type 0} where
    pub Keeps-if :
        (b : Bool) {f g : Parse A} → Keeps S f → Keeps S g → Keeps S (λ p. (if b then f else g) p)
    Keeps-if true k l = k
    Keeps-if false k l = l

    pub Keeps-pure : (a : A) → Keeps S (λ p. ok a p)
    Keeps-pure a n p h = returns h tt

    pub Keeps-fail : (e : Error) (loc : Location) → Keeps S {A = A} (λ p. err e loc p)
    Keeps-fail e loc n p h = raises h

    pub Keeps-Consumes : {f : Parse A} → Consumes S f → Keeps S f
    Keeps-Consumes k n p h = Runs-map (Runs-weaken (k n p h) (omega arith) (omega arith)) λ _ _. tt

    -- A loop whose rounds the tokens left bound.
    pub Keeps-fuel :
        (f : ℕ → Parse A)
        → ((fuel n : ℕ) (p : Parser) → n < fuel → At S n p → Runs S n n (λ _. Unit {0}) (f fuel p))
        → Keeps S (λ p. f (left p + 1) p)
    Keeps-fuel f k n p h =
        let h' : At S (left p) p = (omega arith, h.1, h.2) in
        Runs-weaken (k (left p + 1) (left p) p (omega arith) h') h.0 h.0

module _ (S : ErrorHandler) (x : Context) where
  pub eat-Consumes :
      (kind : TokenType) (ignoring : List TokenType)
      → contains ignoring kind ≡ false
      → Consumes S (eat x kind ignoring)
  eat-Consumes kind ignoring c n p h = Runs-map (eat-Runs S x kind ignoring c n p h) λ t r. r.1

  pub eat-Keeps :
      (kind : TokenType) (ignoring : List TokenType)
      → contains ignoring kind ≡ false
      → Keeps S (eat x kind ignoring)
  eat-Keeps kind ignoring c = Keeps-Consumes (eat-Consumes kind ignoring c)

  pub eat_of-Keeps :
      (kinds ignoring : List TokenType)
      → is_disjoint ignoring kinds ≡ true
      → Keeps S (eat_of x kinds ignoring)
  eat_of-Keeps kinds ignoring c n p h =
      Runs-map (Runs-weaken (eat_of-Runs S x kinds ignoring c n p h) (omega arith) (omega arith))
        λ _ _. tt

  pub peek-Keeps : Keeps S (peek x)
  peek-Keeps n p h = Runs-map (peek-Runs S x n p h) λ _ _. tt

  pub peek_is-Keeps : (kind : TokenType) → Keeps S (peek_is x kind)
  peek_is-Keeps kind n p h = Runs-map (peek_is-Runs S x kind n p h) λ _ _. tt

  pub sees-Keeps : (kind : TokenType) → Keeps S (sees kind)
  unfolding sees
  sees-Keeps kind n p h = returns h tt

  pub add_stack_frame-Keeps : (frames : ℕ) → Keeps S (add_stack_frame x frames)
  unfolding add_stack_frame
  add_stack_frame-Keeps zero n p h = raises h
  add_stack_frame-Keeps (suc frames) n p h = returns h tt

  item_path_loop-Runs :
      (fuel n : ℕ) (path : ItemPath) (p : Parser)
      → n < fuel
      → At S n p
      → Runs S n n (λ _. Unit {0}) (item_path_loop x fuel path p)
  unfolding item_path_loop
  item_path_loop-Runs zero n path p l h = absurd (omega arith)
  item_path_loop-Runs (suc fuel) n path p l h =
      Runs-bind (eat-Consumes ident (newline ∷ []) refl n p h) λ seg q hq pos.
        Runs-then (sees-Keeps dot (n - 1) q hq) (omega arith) λ more q₁ h₁ _.
          Runs-if more _ _ q₁
            (λ _.
              Runs-then (eat-Keeps dot (newline ∷ []) refl (n - 1) q₁ h₁) (omega arith) λ t q₂ h₂ _.
                Runs-weaken (item_path_loop-Runs fuel (n - 1) _ q₂ (omega arith) h₂) (omega arith)
                  (omega arith))
            (λ _. Runs-done h₁ (omega arith) tt)

  item_path_rest-Keeps : (path : ItemPath) → Keeps S (item_path_rest x path)
  unfolding item_path_rest
  item_path_rest-Keeps path = Keeps-bind (sees-Keeps ident) λ more.
      Keeps-if more
        (Keeps-fuel (λ k. item_path_loop x k path) λ k n p. item_path_loop-Runs k n path p)
        (Keeps-pure path)

  -- `item_path` ends.
  pub item_path-Keeps : (frames : ℕ) (start : StrT) → Keeps S (item_path x frames start)
  unfolding item_path
  item_path-Keeps frames start = Keeps-bind (add_stack_frame-Keeps frames) λ _.
      Keeps-bind (sees-Keeps dot) λ more.
        Keeps-if more (Keeps-bind (eat-Keeps dot [] refl) λ _. item_path_rest-Keeps (start ∷ []))
          (Keeps-pure (start ∷ []))

  pub warn_underscores-Keeps : (t : Token) (places : List ℕ) → Keeps S (warn_underscores x t places)
  unfolding warn_underscores
  warn_underscores-Keeps t [] n p h = returns h tt
  warn_underscores-Keeps t (i ∷ places) n p h =
      warn_underscores-Keeps t places n (record p { error_handler = _ }) (h.0, h.1, h.2)

  pub or_invalid-Keeps :
      (kind : LiteralKind) (t : Token) (o : Option ℕ) → Keeps S (or_invalid x kind t o)
  unfolding or_invalid
  or_invalid-Keeps kind t none n p h = raises h
  or_invalid-Keeps kind t (some k) n p h = returns h tt

  int_literal-Runs :
      (t : Token) (n : ℕ) (p : Parser) → At S n p → Runs S n n IsInteger (int_literal x t p)
  unfolding int_literal
  int_literal-Runs t n p h =
      Runs-bind (warn_underscores-Keeps t _ n p h) λ _ q hq _.
        Runs-bind (or_invalid-Keeps LiteralKind.int t _ n q hq) λ k r hr _. returns hr tt

  -- An integer token gives an integer, so the `expect` behind it holds.
  pub parse_literal-Runs :
      (frames : ℕ) (t : Token)
      → is_kind t.ty int ≡ true
      → (n : ℕ) (p : Parser) → At S n p
      → Runs S n n IsInteger (parse_literal x frames t p)
  unfolding parse_literal
  parse_literal-Runs frames t k n p h = Runs-bind (add_stack_frame-Keeps frames n p h) λ _ q hq _.
      subst (λ kind. Runs S n n IsInteger (literal_of x kind t q)) (sym (int_of_is_kind t.ty k))
        (int_literal-Runs t n q hq)

  or_fail-Keeps : {A : Type 0} (e : Error) (t : Token) (o : Option A) → Keeps S (or_fail x e t o)
  or_fail-Keeps e t none n p h = raises h
  or_fail-Keeps e t (some a) n p h = returns h tt

  pub type_op-Keeps : (frames : ℕ) (t : Token) → Keeps S (type_op x frames t)
  unfolding type_op
  type_op-Keeps frames t =
      Keeps-bind (add_stack_frame-Keeps frames) λ _. or_fail-Keeps _ t (type_op_of t.ty)
