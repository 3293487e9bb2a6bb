-- ===== src/Parser/Expr/Values.antt =====
-- crates/crunch-parser/src/parser/expr.rs: variables, literals and other simple expressions.
use crunch_lang.Prelude.{true, false, List, [], ◌∷◌, ◌++◌, codes, eq_text, if◌then◌else◌}
use crunch_lang.Token.{TokenType, Token, merge}
use crunch_lang.Ast.{
  Expr, expr, ExprKind, exprs_of, expr_span, no_expr, an_expr, AstType, literal, LiteralVal,
  StructField, struct_field, fields_of, BlockColor,
}
use crunch_lang.Parser.Core.{Context, Parse, ◌>>=◌, ◌>>◌, pure}
use crunch_lang.Parser.Tokens.{peek_is, eat, eat_newlines}
use crunch_lang.Parser.Loop.{Step, again, done, while_loop}
use crunch_lang.Parser.Literal.{parse_literal}
use crunch_lang.Parser.Operators.{unary_op}
use crunch_lang.Parser.Calls.{Calls, here, node}
use crunch_lang.Parser.Blocks.{has_peek, block_returning}

module _ (x : Context) (c : Calls) where
  unfoldable pub reference : Token → Parse Expr
  unfolding peek_is eat
  reference amp = do
    mut_next ← peek_is x TokenType.mut
    mutable ← (if mut_next then (do eat x TokenType.mut []; pure true) else pure false)
    e ← c.expr
    pure (node x (ExprKind.reference mutable e) amp.span (expr_span e))

  unfoldable pub paren_expr : Token → Parse Expr
  unfolding eat
  paren_expr paren = do
    e ← c.expr
    close ← eat x TokenType.right_paren (TokenType.newline ∷ [])
    pure (node x (ExprKind.paren e) paren.span close.span)

  unfoldable pub postfix_expr : Token → Parse Expr
  unfolding unary_op
  postfix_expr t = do
    operand ← c.expr
    op ← unary_op x c.frames t
    pure (node x (ExprKind.unary_op op operand) t.span (expr_span operand))

  unfoldable pub literal_expr : Token → Parse Expr
  unfolding parse_literal
  literal_expr lit = do
    l ← parse_literal x c.frames lit
    pure (node x (ExprKind.literal_expr l) lit.span lit.span)

  abbrev variable_at : Token → Expr
  variable_at t = node x (ExprKind.variable (x.intern t.source) (here x t.span)) t.span t.span

  unfoldable pub variable : Token → Parse Expr
  variable t = pure (variable_at t)

  -- The value of a field, which is the variable of its name if none is given.
  unfoldable pub field_value : Token → Parse Expr
  unfolding peek_is eat
  field_value field = do
    given ← peek_is x TokenType.colon
    if given
        then (do eat x TokenType.colon []; eat x TokenType.equal []; c.expr)
        else pure (variable_at field)

  unfoldable pub field_round : List StructField → Parse (Step (List StructField) (List StructField))
  unfolding eat peek_is eat_newlines has_peek field_value
  field_round fields = do
    let more = (do
      field ← eat x TokenType.ident (TokenType.newline ∷ [])
      value ← field_value field
      let made =
          struct_field (x.intern field.source) value (here x (merge field.span (expr_span value)))
      let fields' = fields ++ made ∷ []
      let next_round = (do eat x TokenType.comma []; pure (again fields'))
      eat_newlines x
      comma_next ← peek_is x TokenType.comma
      if comma_next then next_round else pure (done fields'))
    let inside = (do
      eat_newlines x
      ended ← peek_is x TokenType.end
      if ended then pure (done fields) else more)
    open_ ← has_peek
    if open_ then inside else pure (done fields)

  unfoldable pub struct_literal : Token → Parse Expr
  unfolding eat while_loop field_round
  struct_literal t = do
    eat x TokenType.is []
    let name = x.intern t.source
    fields ← while_loop field_round []
    e ← eat x TokenType.end (TokenType.newline ∷ [])
    let loc = here x (merge t.span e.span)
    let value =
        literal (LiteralVal.struct name (fields_of fields)) (AstType.item_path (name ∷ [])) loc
    pure (expr (ExprKind.literal_expr value) loc)

  unfoldable pub continue_expr : Token → Parse Expr
  unfolding eat
  continue_expr t = do eat x TokenType.newline []; pure (node x ExprKind.continue t.span t.span)

  unfoldable pub break_expr : Token → Parse Expr
  unfolding peek_is
  break_expr t = do
    ended ← peek_is x TokenType.newline
    if ended
        then pure (node x (ExprKind.break no_expr) t.span t.span)
        else (do e ← c.expr; pure (node x (ExprKind.break (an_expr e)) t.span (expr_span e)))

  unfoldable pub return_expr : Token → Parse Expr
  unfolding peek_is
  return_expr t = do
    ended ← peek_is x TokenType.newline
    if ended
        then pure (node x (ExprKind.return no_expr) t.span t.span)
        else (do e ← c.expr; pure (node x (ExprKind.return (an_expr e)) t.span (expr_span e)))

  unfoldable pub element_round : List Expr → Parse (Step (List Expr) (List Expr))
  unfolding peek_is eat
  element_round elements = do
    let more = (do
      e ← c.expr
      let elements' = elements ++ e ∷ []
      let next_round = (do eat x TokenType.comma (TokenType.newline ∷ []); pure (again elements'))
      comma_next ← peek_is x TokenType.comma
      if comma_next then next_round else pure (done elements'))
    closed ← peek_is x TokenType.right_brace
    if closed then pure (done elements) else more

  unfoldable pub array_or_tuple : Token → Parse Expr
  unfolding eat while_loop element_round
  array_or_tuple t = do
    eat x TokenType.left_brace (TokenType.newline ∷ [])
    elements ← while_loop element_round []
    e ← eat x TokenType.right_brace (TokenType.newline ∷ [])
    let es = exprs_of elements
    let kind =
        if eq_text t.source (codes "arr") then ExprKind.array_expr es else ExprKind.tuple_expr es
    pure (node x kind t.span e.span)

  unfoldable pub unsafe_block : Token → Parse Expr
  unfolding block_returning
  unsafe_block t = do
    (contents, e) ← block_returning x c (TokenType.end ∷ [])
    pure (node x (ExprKind.block_expr contents (BlockColor.unsafe ∷ [])) t.span e.span)
