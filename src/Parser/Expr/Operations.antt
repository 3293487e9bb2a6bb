-- ===== src/Parser/Expr/Operations.antt =====
-- crates/crunch-parser/src/parser/expr.rs: what follows a first operand.
use crunch_lang.Prelude.{List, [], ◌∷◌, ◌++◌, if◌then◌else◌}
use crunch_lang.Token.{TokenType, Token}
use crunch_lang.Ast.{Expr, ExprKind, exprs_of, expr_span, type_span}
use crunch_lang.Parser.Core.{Context, Parse, ◌>>=◌, ◌>>◌, pure}
use crunch_lang.Parser.Tokens.{peek_is, eat, eat_newlines}
use crunch_lang.Parser.Loop.{Step, again, done, while_loop}
use crunch_lang.Parser.Operators.{comp_op, bin_op, assign_kind}
use crunch_lang.Parser.Calls.{Calls, Operation, node}

module _ (x : Context) (c : Calls) where
  unfoldable pub comparison : Token → Expr → Parse Expr
  unfolding comp_op
  comparison t lhs = do
    rhs ← c.expr
    op ← comp_op x c.frames t
    pure (node x (ExprKind.comparison lhs op rhs) (expr_span lhs) (expr_span rhs))

  unfoldable pub binary_operation : Token → Expr → Parse Expr
  unfolding bin_op
  binary_operation t lhs = do
    rhs ← c.expr
    op ← bin_op x c.frames t
    pure (node x (ExprKind.binary_op lhs op rhs) (expr_span lhs) (expr_span rhs))

  unfoldable pub assignment : Token → Expr → Parse Expr
  unfolding eat assign_kind
  assignment t lhs = do
    equal ← eat x TokenType.equal (TokenType.newline ∷ [])
    op ← assign_kind x c.frames equal
    rhs ← c.expr
    pure (node x (ExprKind.assign lhs op rhs) (expr_span lhs) (expr_span rhs))

  unfoldable pub exotic_assignment : Token → Expr → Parse Expr
  unfolding assign_kind
  exotic_assignment t lhs = do
    op ← assign_kind x c.frames t
    rhs ← c.expr
    pure (node x (ExprKind.assign lhs op rhs) (expr_span lhs) (expr_span rhs))

  unfoldable pub ranges : Token → Expr → Parse Expr
  ranges t start = do
    end ← c.expr
    pure (node x (ExprKind.range start end) (expr_span start) (expr_span end))

  unfoldable pub dotted_call : Token → Expr → Parse Expr
  dotted_call t member = do
    func ← c.expr
    pure (node x (ExprKind.member_func_call member func) (expr_span member) (expr_span func))

  unfoldable pub argument_round : List Expr → Parse (Step (List Expr) (List Expr))
  unfolding peek_is eat eat_newlines
  argument_round args = do
    let more = (do
      arg ← c.expr
      let args' = args ++ arg ∷ []
      let next_round = (do
        eat x TokenType.comma (TokenType.newline ∷ [])
        eat_newlines x
        pure (again args'))
      comma_next ← peek_is x TokenType.comma
      if comma_next then next_round else pure (done args'))
    closed ← peek_is x TokenType.right_paren
    if closed then pure (done args) else more

  unfoldable pub function_call : Token → Expr → Parse Expr
  unfolding eat eat_newlines while_loop argument_round
  function_call t caller = do
    eat_newlines x
    args ← while_loop argument_round []
    e ← eat x TokenType.right_paren (TokenType.newline ∷ [])
    pure (node x (ExprKind.func_call caller (exprs_of args)) (expr_span caller) e.span)

  unfoldable pub as_cast : Token → Expr → Parse Expr
  as_cast t casted = do
    ty ← c.ascribed_type
    pure (node x (ExprKind.cast casted ty) (expr_span casted) (type_span ty))

  -- The place begins at the index.
  unfoldable pub index_array : Token → Expr → Parse Expr
  unfolding eat
  index_array t var = do
    i ← c.expr
    e ← eat x TokenType.right_brace (TokenType.newline ∷ [])
    pure (node x (ExprKind.index var i) (expr_span i) e.span)

  unfoldable pub operation_body : Operation → Token → Expr → Parse Expr
  unfolding comparison binary_operation assignment exotic_assignment ranges dotted_call
      function_call as_cast index_array
  operation_body Operation.function_call t lhs = function_call t lhs
  operation_body Operation.dotted_call t lhs = dotted_call t lhs
  operation_body Operation.ranges t lhs = ranges t lhs
  operation_body Operation.index_array t lhs = index_array t lhs
  operation_body Operation.as_cast t lhs = as_cast t lhs
  operation_body Operation.assignment t lhs = assignment t lhs
  operation_body Operation.exotic_assignment t lhs = exotic_assignment t lhs
  operation_body Operation.comparison t lhs = comparison t lhs
  operation_body Operation.binary_operation t lhs = binary_operation t lhs
