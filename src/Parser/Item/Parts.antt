-- ===== src/Parser/Item/Parts.antt =====
-- crates/crunch-parser/src/parser/item.rs: visibilities, attributes, decorators, generics, arguments.
use crunch_lang.Prelude.{ℕ, Option, none, some, List, [], ◌∷◌, ◌++◌, if◌then◌else◌}
use crunch_lang.Token.{TokenType, Token, Span, merge, is_kind}
use crunch_lang.Ast.{
  Location, Types, nil, push_type, Generics, FuncArg, Attribute, Vis, Expr, exprs_of, Decorator,
  decorator,
}
use crunch_lang.Parser.Core.{
  Context, Parse, ◌>>=◌, ◌>>◌, pure, fail, panics, token_location, expected_attribute,
}
use crunch_lang.Parser.Tokens.{peek_is, eat, eat_of}
use crunch_lang.Parser.Loop.{Step, again, done, while_loop}
use crunch_lang.Parser.Literal.{sees, add_stack_frame}
use crunch_lang.Parser.Calls.{Calls, here}
use crunch_lang.Parser.Blocks.{eat_if}

-- `Vis::default`
abbrev pub vis_or_default : Option Vis → Vis
vis_or_default none = Vis.file_local
vis_or_default (some v) = v

module _ (x : Context) where
  unfoldable pub vis : ℕ → Parse Vis
  unfolding add_stack_frame eat_of
  vis frames = do
    add_stack_frame x frames
    t ← eat_of x (TokenType.exposed ∷ TokenType.package_ ∷ []) []
    if is_kind t.ty TokenType.exposed
        then pure Vis.exposed
        else if is_kind t.ty TokenType.package_
        then pure Vis.package_
        else panics

  unfoldable pub attr : ℕ → Token → Parse Attribute
  unfolding add_stack_frame
  attr frames t = do
    add_stack_frame x frames
    if is_kind t.ty TokenType.const
        then pure Attribute.const
        else if is_kind t.ty TokenType.unsafe
        then pure Attribute.unsafe
        else fail (expected_attribute t.ty) (token_location x t)

module _ (x : Context) (c : Calls) where
  unfoldable pub decorator_round : List Expr → Parse (Step (List Expr) (List Expr))
  unfolding peek_is eat
  decorator_round args = do
    let more = (do
      arg ← c.expr
      let args' = args ++ arg ∷ []
      let next_round = (do eat x TokenType.comma (TokenType.newline ∷ []); pure (again args'))
      comma_next ← sees TokenType.comma
      if comma_next then next_round else pure (done args'))
    closed ← peek_is x TokenType.right_paren
    if closed then pure (done args) else more

  -- The arguments, and the place of the parenthesis behind them or of the name.
  unfoldable pub decorator_args : Token → Parse (List Expr × Span)
  unfolding eat eat_if while_loop decorator_round
  decorator_args name = do
    let given = (do
      args ← while_loop decorator_round []
      e ← eat x TokenType.right_paren (TokenType.newline ∷ [])
      pure (args, e.span))
    open_ ← eat_if x TokenType.left_paren (TokenType.newline ∷ [])
    if open_ then given else pure ([], name.span)

  unfoldable pub decorator_body : List Decorator → Parse (List Decorator)
  unfolding eat decorator_args
  decorator_body decorators = do
    start ← eat x TokenType.at_sign (TokenType.newline ∷ [])
    name ← eat x TokenType.ident (TokenType.newline ∷ [])
    (args, end_span) ← decorator_args name
    let made =
        decorator (x.intern name.source) (here x name.span) (exprs_of args)
          (here x (merge start.span end_span))
    pure (decorators ++ made ∷ [])

  -- Types with commas between them, up to the bracket of the given kind.
  unfoldable pub type_round : TokenType → Types → Parse (Step Types Types)
  unfolding peek_is eat_if push_type
  type_round close types = do
    let more = (do
      ty ← c.ascribed_type
      let types' = push_type types ty
      comma ← eat_if x TokenType.comma (TokenType.newline ∷ [])
      if comma then pure (again types') else pure (done types'))
    closed ← peek_is x close
    if closed then pure (done types) else more

  unfoldable pub generics_body : Parse Generics
  unfolding eat while_loop type_round
  generics_body = do
    let given = (do
      start ← eat x TokenType.left_brace (TokenType.newline ∷ [])
      types ← while_loop (type_round TokenType.right_brace) nil
      e ← eat x TokenType.right_brace (TokenType.newline ∷ [])
      pure (some (types, here x (merge start.span e.span))))
    open_ ← sees TokenType.left_brace
    if open_ then given else pure none

  -- The name of an argument, and where it stands: at `const` if that is in front of it.
  unfoldable pub argument_name : Parse (Token × Span)
  unfolding eat eat_of
  argument_name = do
    t ← eat_of x (TokenType.ident ∷ TokenType.const ∷ []) (TokenType.newline ∷ [])
    let behind_const = (do
      name ← eat x TokenType.ident (TokenType.newline ∷ [])
      pure (name, t.span))
    if is_kind t.ty TokenType.ident
        then pure (t, t.span)
        else if is_kind t.ty TokenType.const
        then behind_const
        else panics

  unfoldable pub parameter_round : List FuncArg → Parse (Step (List FuncArg) (List FuncArg))
  unfolding peek_is eat eat_if argument_name
  parameter_round args = do
    let more = (do
      (name, span) ← argument_name
      eat x TokenType.colon (TokenType.newline ∷ [])
      ty ← c.ascribed_type
      let arg : FuncArg = record { name = x.intern name.source; ty = ty; loc = here x span }
      let args' = args ++ arg ∷ []
      comma ← eat_if x TokenType.comma (TokenType.newline ∷ [])
      if comma then pure (again args') else pure (done args'))
    closed ← peek_is x TokenType.right_paren
    if closed then pure (done args) else more

  unfoldable pub function_args_body : Parse (List FuncArg × Location)
  unfolding eat while_loop parameter_round
  function_args_body = do
    start ← eat x TokenType.left_paren (TokenType.newline ∷ [])
    args ← while_loop parameter_round []
    e ← eat x TokenType.right_paren (TokenType.newline ∷ [])
    pure (args, here x (merge start.span e.span))
