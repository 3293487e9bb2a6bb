-- ===== src/Parser/Types/Forms.antt =====
-- Each form of type ends in a type or an error: its parser neither panics nor runs on.
use crunch_lang.Parser.Core.{ErrorHandler}
use crunch_lang.Prelude.{
  refl, ℕ, ◌-◌, arith, true, false, Option, none, some, [], ◌∷◌, eq_text, codes, drop,
}
use crunch_lang.Token.{
  Token, contains, newline, int, ident, colon, semicolon, const, mut, left_brace, right_brace,
  left_paren, right_paren, right_arrow,
}
use crunch_lang.Ast.{AstType, ItemPath, nil, Literal, literal, LiteralVal, positive, negative}
use crunch_lang.Parser.{Context, Parse, bind, eat, parse_literal, WidthKind, unsigned, signed}
use crunch_lang.Parser.Runs.{returns, raises, Runs-bind, Runs-weaken}
use crunch_lang.Parser.Progress.{eat-Runs}
use crunch_lang.Parser.Keeps.{
  IsInteger, Keeps, Keeps-bind, Keeps-if, Keeps-pure, eat-Keeps, eat_of-Keeps, peek-Keeps,
  sees-Keeps, item_path-Keeps, parse_literal-Runs,
}
use crunch_lang.Parser.Types.{
  TypeCalls, TypePrefix, array_length, array_type, slice_type, tuple_type, width_of, sized_type,
  bounded_type, custom_type, shaped_type, builtin, builtin_or_shaped, named_type, is_sized,
  integer_of, negation_type, grouped_type, function_pointer_type, trait_object_type, const_type,
  reference_type, pointer_type, prefix_body,
}
use crunch_lang.Parser.Types.Lists.{
  Good, type-Keeps, type_list-Keeps, trait_list-Keeps, param_list-Keeps,
}

module _ (S : ErrorHandler) (x : Context) (c : TypeCalls) (g : Good S c) where
  any_type : Keeps S c.ascribed_type
  any_type = type-Keeps S x c g

  array_length-Keeps :
      (t : Token) (lit : Literal) → IsInteger lit → Keeps S (array_length x c t lit)
  unfolding array_length
  array_length-Keeps t (literal (LiteralVal.integer positive k) ty loc) i n p h = returns h tt
  array_length-Keeps t (literal (LiteralVal.integer negative k) ty loc) i n p h = raises h
  array_length-Keeps t (literal (LiteralVal.bool b) ty loc) i n p h = absurd i
  array_length-Keeps t (literal (LiteralVal.string s) ty loc) i n p h = absurd i
  array_length-Keeps t (literal (LiteralVal.rune r) ty loc) i n p h = absurd i
  array_length-Keeps t (literal (LiteralVal.float f) ty loc) i n p h = absurd i
  array_length-Keeps t (literal (LiteralVal.array ls) ty loc) i n p h = absurd i
  array_length-Keeps t (literal (LiteralVal.struct name members) ty loc) i n p h = absurd i

  -- The digits of a length, and what stands behind them: the `expect` on the integer holds.
  length-Keeps :
      {B : Type 0} {f : Token → ℕ → Parse B}
      → ((t : Token) (len : ℕ) → Keeps S (f t len))
      → Keeps S (λ p.
        bind
          (eat x int (newline ∷ []) p)
          λ t q. bind (parse_literal x c.frames t q) λ lit r. bind (array_length x c t lit r) (f t))
  length-Keeps k n p h = Runs-bind (eat-Runs S x int (newline ∷ []) refl n p h) λ t q hq s.
      Runs-weaken
        (Runs-bind (parse_literal-Runs S x c.frames t s.0 (n - 1) q hq) λ lit r hr i.
          Runs-bind (array_length-Keeps t lit i (n - 1) r hr) λ len u hu _. k t len (n - 1) u hu)
        (omega arith) (omega arith)

  array_type-Keeps : (t : Token) → Keeps S (array_type x c t)
  unfolding array_type
  array_type-Keeps t = Keeps-bind (eat-Keeps S x left_brace (newline ∷ []) refl) λ _.
      Keeps-bind any_type λ element. Keeps-bind (eat-Keeps S x semicolon (newline ∷ []) refl) λ _.
        length-Keeps
          λ digits len. Keeps-bind (eat-Keeps S x right_brace (newline ∷ []) refl) λ e. Keeps-pure _

  slice_type-Keeps : (t : Token) → Keeps S (slice_type x c t)
  unfolding slice_type
  slice_type-Keeps t = Keeps-bind (eat-Keeps S x left_brace (newline ∷ []) refl) λ _.
      Keeps-bind any_type
        λ element. Keeps-bind (eat-Keeps S x right_brace (newline ∷ []) refl) λ e. Keeps-pure _

  tuple_type-Keeps : (t : Token) → Keeps S (tuple_type x c t)
  unfolding tuple_type
  tuple_type-Keeps t = Keeps-bind (eat-Keeps S x left_brace (newline ∷ []) refl) λ _.
      Keeps-bind (type_list-Keeps S x c g nil)
        λ types. Keeps-bind (eat-Keeps S x right_brace (newline ∷ []) refl) λ e. Keeps-pure _

  width_of-Keeps :
      (kind : WidthKind) (make : ℕ → AstType) (t : Token) (o : Option ℕ)
      → Keeps S (width_of x c kind make t o)
  width_of-Keeps kind make t none n p h = raises h
  width_of-Keeps kind make t (some w) n p h = returns h tt

  sized_type-Keeps :
      (kind : WidthKind) (make : ℕ → AstType) (t : Token) → Keeps S (sized_type x c kind make t)
  unfolding sized_type
  sized_type-Keeps kind make t = width_of-Keeps kind make t (x.parse_u16 (drop 1 t.source))

  bounded_type-Keeps : (t : Token) (path : ItemPath) → Keeps S (bounded_type x c t path)
  unfolding bounded_type
  bounded_type-Keeps t path = Keeps-bind (eat-Keeps S x left_brace [] refl) λ _.
      Keeps-bind (type_list-Keeps S x c g nil)
        λ bounds. Keeps-bind (eat-Keeps S x right_brace [] refl) λ e. Keeps-pure _

  custom_type-Keeps : (t : Token) → Keeps S (custom_type x c t)
  unfolding custom_type
  custom_type-Keeps t = Keeps-bind (item_path-Keeps S x c.frames (x.intern t.source)) λ path.
      Keeps-bind (sees-Keeps S x left_brace)
        λ is_bounded. Keeps-if is_bounded (bounded_type-Keeps t path) (Keeps-pure _)

  shaped_type-Keeps : (t : Token) → Keeps S (shaped_type x c t)
  unfolding shaped_type
  shaped_type-Keeps t = Keeps-if (eq_text t.source (codes "arr")) (array_type-Keeps t) (
      Keeps-if (eq_text t.source (codes "slice")) (slice_type-Keeps t) (
        Keeps-if (eq_text t.source (codes "tup")) (tuple_type-Keeps t) (
          Keeps-if (is_sized x.is_numeric b'u' t.source)
            (sized_type-Keeps unsigned (integer_of x c false) t)
            (Keeps-if (is_sized x.is_numeric b'i' t.source)
              (sized_type-Keeps signed (integer_of x c true) t)
              (Keeps-if (is_sized x.is_numeric b'f' t.source)
                (sized_type-Keeps WidthKind.float AstType.float t) (custom_type-Keeps t))))))

  builtin_or_shaped-Keeps : (t : Token) (o : Option AstType) → Keeps S (builtin_or_shaped x c t o)
  builtin_or_shaped-Keeps t none = shaped_type-Keeps t
  builtin_or_shaped-Keeps t (some ty) = Keeps-pure _

  named_type-Keeps : (t : Token) → Keeps S (named_type x c t)
  unfolding named_type
  named_type-Keeps t = builtin_or_shaped-Keeps t (builtin t.source)

  negation_type-Keeps : (t : Token) → Keeps S (negation_type x c t)
  unfolding negation_type
  negation_type-Keeps t = Keeps-bind any_type λ ty. Keeps-pure _

  grouped_type-Keeps : (t : Token) → Keeps S (grouped_type x c t)
  unfolding grouped_type
  grouped_type-Keeps t =
      Keeps-bind any_type
        λ ty. Keeps-bind (eat-Keeps S x right_paren (newline ∷ []) refl) λ e. Keeps-pure _

  function_pointer_type-Keeps : (t : Token) → Keeps S (function_pointer_type x c t)
  unfolding function_pointer_type
  function_pointer_type-Keeps t = Keeps-bind (eat-Keeps S x left_paren (newline ∷ []) refl) λ _.
      Keeps-bind (param_list-Keeps S x c g nil) λ params.
        Keeps-bind (eat-Keeps S x right_paren (newline ∷ []) refl) λ e.
          Keeps-bind (sees-Keeps S x right_arrow)
            λ arrow. Keeps-bind (Keeps-if arrow any_type (Keeps-pure _)) λ ret. Keeps-pure _

  trait_object_type-Keeps : (t : Token) → Keeps S (trait_object_type x c t)
  unfolding trait_object_type
  trait_object_type-Keeps t = Keeps-bind (eat-Keeps S x left_brace (newline ∷ []) refl) λ _.
      Keeps-bind (trait_list-Keeps S x c g nil)
        λ types. Keeps-bind (eat-Keeps S x right_brace [] refl) λ e. Keeps-pure _

  const_type-Keeps : (t : Token) → Keeps S (const_type x c t)
  unfolding const_type
  const_type-Keeps t =
      Keeps-bind (eat-Keeps S x ident (newline ∷ []) refl)
        λ name. Keeps-bind (eat-Keeps S x colon [] refl) λ _. Keeps-bind any_type λ ty. Keeps-pure _

  reference_type-Keeps : (t : Token) → Keeps S (reference_type x c t)
  unfolding reference_type
  reference_type-Keeps t = Keeps-bind (peek-Keeps S x) λ q.
      Keeps-bind
        (Keeps-if (contains (const ∷ mut ∷ []) q.ty)
          (Keeps-bind (eat_of-Keeps S x (const ∷ mut ∷ []) [] refl) λ m. Keeps-pure _)
          (Keeps-pure false))
        λ mutable. Keeps-bind any_type λ referee. Keeps-pure _

  pointer_type-Keeps : (t : Token) → Keeps S (pointer_type x c t)
  unfolding pointer_type
  pointer_type-Keeps t =
      Keeps-bind (eat_of-Keeps S x (const ∷ mut ∷ []) [] refl)
        λ m. Keeps-bind any_type λ pointee. Keeps-pure _

  pub prefix_body-Keeps : (k : TypePrefix) (t : Token) → Keeps S (prefix_body x c k t)
  unfolding prefix_body
  prefix_body-Keeps TypePrefix.named t = named_type-Keeps t
  prefix_body-Keeps TypePrefix.negation t = negation_type-Keeps t
  prefix_body-Keeps TypePrefix.grouping t = grouped_type-Keeps t
  prefix_body-Keeps TypePrefix.function_pointer t = function_pointer_type-Keeps t
  prefix_body-Keeps TypePrefix.trait_object t = trait_object_type-Keeps t
  prefix_body-Keeps TypePrefix.const_parameter t = const_type-Keeps t
  prefix_body-Keeps TypePrefix.reference t = reference_type-Keeps t
  prefix_body-Keeps TypePrefix.raw_pointer t = pointer_type-Keeps t
