-- ===== src/Parser/Item/Functions.antt =====
-- crates/crunch-parser/src/parser/item.rs: functions, external functions and calling conventions.
use crunch_lang.Prelude.{
  ℕ, ◌+◌, Bool, Option, none, some, List, [], ◌∷◌, Text, codes, eq_text, map, leb, ◌&&◌, ◌==◌,
  if◌then◌else◌,
}
use crunch_lang.Token.{TokenType, Span, merge}
use crunch_lang.Ast.{
  Location, StrT, AstType, Located, at, Attribute, Vis, CallConv, expr, Exprs, no_exprs, add_expr,
  ExprKind, Literal, literal, LiteralVal, Decorator, decorator, decorators_of, Item, item, ItemKind,
  block_span,
}
use crunch_lang.Parser.Core.{
  Context, Parse, ◌>>=◌, ◌>>◌, pure, fail, panics, expected_call_conv, unrecognized_call_conv,
}
use crunch_lang.Parser.Tokens.{peek_is, eat, eat_newlines}
use crunch_lang.Parser.Calls.{Calls, here}

-- `eq_ignore_ascii_case`
abbrev pub lower : ℕ → ℕ
lower c = if leb b'A' c && leb c b'Z' then c + 32 else c

abbrev pub same_text : Text → Text → Bool
same_text s t = eq_text (map lower s) (map lower t)

-- `CallConv::from_str`
unfoldable pub call_conv_of : Text → Option CallConv
call_conv_of s =
    if same_text s (codes "c")
    then some CallConv.c
    else if same_text s (codes "crunch")
    then some CallConv.crunch
    else none

abbrev decorator_name : Decorator → StrT
decorator_name (decorator name name_loc args loc) = name

abbrev behind :
    Decorator → Option (Decorator × List Decorator) → Option (Decorator × List Decorator)
behind d none = none
behind d (some (found, rest)) = some (found, d ∷ rest)

-- `position` and `remove`: the first decorator of a name, and the others.
unfoldable pub take_decorator : StrT → List Decorator → Option (Decorator × List Decorator)
take_decorator name [] = none
take_decorator name (d ∷ ds) =
    let rest = take_decorator name ds in
    if decorator_name d == name then some (d, ds) else behind d rest

-- `find_map(|arg| arg.as_literal())`
unfoldable pub first_literal : Exprs → Option Literal
first_literal no_exprs = none
first_literal (add_expr (expr (ExprKind.literal_expr l) loc) es) = some l
first_literal (add_expr (expr kind loc) es) = first_literal es

module _ (x : Context) where
  abbrev pub from_text : Location → Text → Option CallConv → Parse CallConv
  from_text loc s none = fail (unrecognized_call_conv s) loc
  from_text loc s (some conv) = pure conv

  abbrev pub conv_of_literal : Location → Option Literal → Parse CallConv
  unfolding call_conv_of
  conv_of_literal loc none = fail expected_call_conv loc
  conv_of_literal loc (some (literal (LiteralVal.string s) ty at_literal)) =
      from_text at_literal s (call_conv_of s)
  conv_of_literal loc (some (literal val ty at_literal)) = fail expected_call_conv at_literal

  -- The arm of a missing decorator is a `todo!`.
  abbrev pub conv_of_decorator :
      Option (Decorator × List Decorator) → Parse (CallConv × List Decorator)
  unfolding first_literal conv_of_literal
  conv_of_decorator none = panics
  conv_of_decorator (some (decorator name name_loc args loc, rest)) = do
    conv ← conv_of_literal loc (first_literal args)
    pure (conv, rest)

  -- The convention, and the decorators without the one that gives it.
  unfoldable pub callconv : List Decorator → Parse (CallConv × List Decorator)
  unfolding take_decorator conv_of_decorator
  callconv decorators = conv_of_decorator (take_decorator (x.intern (codes "callconv")) decorators)

module _ (x : Context) (c : Calls) where
  unfoldable pub result_type : Parse (Option (Located × Span))
  unfolding peek_is eat
  result_type = do
    let given = (do
      arrow ← eat x TokenType.right_arrow []
      ty ← c.ascribed_type
      pure (some (ty, merge arrow.span arrow.span)))
    arrow_next ← peek_is x TokenType.right_arrow
    if arrow_next then given else pure none

  abbrev pub span_or : Span → Option (Located × Span) → Span
  span_or s none = s
  span_or s (some (ty, arrow)) = arrow

  abbrev pub type_or_unit : Span → Option (Located × Span) → Located
  type_or_unit s none = at AstType.unit (here x s)
  type_or_unit s (some (ty, arrow)) = ty

  unfoldable pub function : List Decorator → List Attribute → Vis → Parse Item
  unfolding eat result_type eat_newlines
  function decorators attrs vis = do
    start ← eat x TokenType.function (TokenType.newline ∷ [])
    name ← eat x TokenType.ident (TokenType.newline ∷ [])
    generics ← c.generics
    (args, args_loc) ← c.function_args
    returns ← result_type
    eat x TokenType.newline []
    let sig = merge start.span (span_or args_loc.span returns)
    eat_newlines x
    body ← c.block (TokenType.end ∷ [])
    let kind = ItemKind.func generics (args, args_loc) body (type_or_unit sig returns) (here x sig)
    pure (
        item (decorators_of decorators) attrs kind (here x (merge start.span (block_span body)))
          (some (x.intern name.source)) (some vis))

  unfoldable pub extern_func : List Decorator → List Attribute → Vis → Parse Item
  unfolding eat result_type callconv
  extern_func decorators attrs vis = do
    start ← eat x TokenType.function (TokenType.newline ∷ [])
    name ← eat x TokenType.ident (TokenType.newline ∷ [])
    generics ← c.generics
    args ← c.function_args
    returns ← result_type
    e ← eat x TokenType.semicolon []
    let whole = merge start.span e.span
    (conv, others) ← callconv x decorators
    pure (
        item (decorators_of others) attrs
          (ItemKind.extern_func generics args (type_or_unit whole returns) conv) (here x whole)
          (some (x.intern name.source)) (some vis))
