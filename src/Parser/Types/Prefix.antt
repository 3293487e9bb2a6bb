-- ===== src/Parser/Types/Prefix.antt =====
-- crates/crunch-parser/src/parser/types.rs: the other forms of type, and the climbing itself.
use crunch_lang.Prelude.{ℕ, zero, suc, ◌+◌, false, Option, none, some, [], ◌∷◌, ltb, if◌then◌else◌}
use crunch_lang.Token.{
  Token, is_kind, contains, ident, newline, left_paren, right_paren, left_brace, right_brace, const,
  colon, mut, right_arrow,
}
use crunch_lang.Ast.{AstType, Located, nil, type_span}
use crunch_lang.Parser.Core.{
  Context, Parse, ◌>>=◌, ◌>>◌, pure, fail, out_of_fuel, eof, token_location, recursion_limit,
  could_not_parse,
}
use crunch_lang.Parser.Tokens.{left, next, peek, eat, eat_of}
use crunch_lang.Parser.Literal.{sees}
use crunch_lang.Parser.Operators.{type_op}
use crunch_lang.Parser.Types.Tables.{
  type_prefix_of, TypePrefix, type_precedence, is_type_infix, TypeCalls, located,
}
use crunch_lang.Parser.Types.Named.{named_type, trait_list, param_list}

module _ (x : Context) (c : TypeCalls) where
  unfoldable pub negation_type : Token → Parse Located
  negation_type t = do ty ← c.ascribed_type; pure (located x (AstType.not ty) t.span (type_span ty))

  unfoldable pub grouped_type : Token → Parse Located
  unfolding eat
  grouped_type t = do
    ty ← c.ascribed_type
    e ← eat x right_paren (newline ∷ [])
    pure (located x (AstType.paren ty) t.span e.span)

  -- The arrow in front of a result type is seen, and not eaten.
  unfoldable pub function_pointer_type : Token → Parse Located
  unfolding eat param_list
  function_pointer_type t = do
    eat x left_paren (newline ∷ [])
    params ← (λ p. param_list x c (left p + 1) nil p)
    e ← eat x right_paren (newline ∷ [])
    arrow ← sees right_arrow
    ret ← (if arrow then c.ascribed_type else pure (located x AstType.unit t.span e.span))
    pure (located x (AstType.func params ret) t.span (type_span ret))

  unfoldable pub trait_object_type : Token → Parse Located
  unfolding eat trait_list
  trait_object_type t = do
    eat x left_brace (newline ∷ [])
    types ← (λ p. trait_list x c (left p + 1) nil p)
    e ← eat x right_brace []
    pure (located x (AstType.trait types) t.span e.span)

  unfoldable pub const_type : Token → Parse Located
  unfolding eat
  const_type t = do
    name ← eat x ident (newline ∷ [])
    eat x colon []
    ty ← c.ascribed_type
    pure (located x (AstType.const (x.intern name.source) ty) t.span (type_span ty))

  unfoldable pub reference_type : Token → Parse Located
  unfolding eat_of peek
  reference_type t = do
    q ← peek x
    mutable ←
        (if contains (const ∷ mut ∷ []) q.ty
          then (do m ← eat_of x (const ∷ mut ∷ []) []; pure (is_kind m.ty mut))
          else pure false)
    referee ← c.ascribed_type
    pure (located x (AstType.reference referee mutable) t.span (type_span referee))

  unfoldable pub pointer_type : Token → Parse Located
  unfolding eat_of
  pointer_type t = do
    m ← eat_of x (const ∷ mut ∷ []) []
    pointee ← c.ascribed_type
    pure (located x (AstType.pointer pointee (is_kind m.ty mut)) t.span (type_span pointee))

  unfoldable pub prefix_body : TypePrefix → Token → Parse Located
  unfolding named_type negation_type grouped_type function_pointer_type trait_object_type const_type
      reference_type pointer_type
  prefix_body TypePrefix.named t = named_type x c t
  prefix_body TypePrefix.negation t = negation_type t
  prefix_body TypePrefix.grouping t = grouped_type t
  prefix_body TypePrefix.function_pointer t = function_pointer_type t
  prefix_body TypePrefix.trait_object t = trait_object_type t
  prefix_body TypePrefix.const_parameter t = const_type t
  prefix_body TypePrefix.reference t = reference_type t
  prefix_body TypePrefix.raw_pointer t = pointer_type t

  unfoldable pub infix_body : Token → Located → Parse Located
  unfolding type_op
  infix_body t lhs = do
    rhs ← c.ascribed_type
    op ← type_op x c.frames t
    pure (located x (AstType.operand lhs op rhs) (type_span lhs) (type_span rhs))

  -- `while precedence < self.type_precedence() { ... }`; a token that no function takes ends the
  -- loop behind it.
  unfoldable pub infix_loop : ℕ → ℕ → Located → Parse Located
  unfolding next type_precedence
  infix_loop zero prec lhs = λ p. out_of_fuel
  infix_loop (suc fuel) prec lhs = λ p.
      let climb = (do
        t ← next x
        let again = (do lhs' ← c.type_infix t lhs; infix_loop fuel prec lhs')
        if is_type_infix t.ty then again else pure lhs) in
      (if ltb prec (type_precedence p) then climb else pure lhs) p

  abbrev pub or_could_not_parse : Token → Option TypePrefix → Parse Located
  or_could_not_parse t none = fail (could_not_parse t.ty) (token_location x t)
  or_could_not_parse t (some k) = c.type_prefix k t

  unfoldable pub internal_body : ℕ → Parse Located
  unfolding next infix_loop
  internal_body prec = do
    t ← next x
    lhs ← or_could_not_parse t (type_prefix_of t.ty)
    (λ p. infix_loop (left p + 1) prec lhs p)

module _ (x : Context) where
  abbrev pub too_deep : {A : Type 0} → Parse A
  too_deep = fail (recursion_limit (x.max_depth + 1) x.max_depth) (eof x)

  -- Each guard takes one of the frames that are left; with none left it is an error.
  unfoldable pub type_calls : ℕ → TypeCalls
  unfolding internal_body infix_body prefix_body
  type_calls zero = record {
    frames = 0;
    ascribed_type = too_deep;
    ascribed_type_internal = λ prec. too_deep;
    type_prefix = λ k t. too_deep;
    type_infix = λ t lhs. too_deep;
  }
  type_calls (suc n) =
      let c = type_calls n in
      record {
        frames = suc n;
        ascribed_type = c.ascribed_type_internal 0;
        ascribed_type_internal = internal_body x c;
        type_prefix = prefix_body x c;
        type_infix = infix_body x c;
      }
