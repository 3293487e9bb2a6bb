-- ===== src/Parser/Expr/Control.antt =====
-- crates/crunch-parser/src/parser/expr.rs: conditionals, matches and loops.
use crunch_lang.Prelude.{List, [], ◌∷◌, ◌++◌, if◌then◌else◌}
use crunch_lang.Token.{TokenType, Token, Span, is_kind}
use crunch_lang.Ast.{
  Expr, ExprKind, expr_span, OptExpr, no_expr, an_expr, OptBlock, no_block, a_block, block_span,
  IfCond, if_cond, conds_of, Arm, arm, arms_of,
}
use crunch_lang.Parser.Core.{Context, Parse, ◌>>=◌, ◌>>◌, pure, panics}
use crunch_lang.Parser.Tokens.{peek_is, eat}
use crunch_lang.Parser.Loop.{Step, again, done, while_loop}
use crunch_lang.Parser.Calls.{Calls, Prefix, node}
use crunch_lang.Parser.Blocks.{block_returning}
use crunch_lang.Parser.Expr.Values.{
  variable, struct_literal, array_or_tuple, return_expr, break_expr, continue_expr, paren_expr,
  reference, postfix_expr, literal_expr, unsafe_block,
}

-- Where the loop of `if_expr` ends: the place of its end, the clauses behind the first, the `else`.
pub record Clauses : Type 0 where
  pub end_span : Span
  pub clauses : List IfCond
  pub else_ : OptBlock

abbrev pub loop_span : OptBlock → Span → Span
loop_span no_block s = s
loop_span (a_block b) s = block_span b

module _ (x : Context) (c : Calls) where
  abbrev pub end_else : List TokenType
  end_else = TokenType.end ∷ TokenType.else_ ∷ []

  abbrev pub end_then : List TokenType
  end_then = TokenType.end ∷ TokenType.then_ ∷ []

  -- A round takes the last delimiter and the clauses so far.
  unfoldable pub clause_round : Token × List IfCond → Parse (Step (Token × List IfCond) Clauses)
  unfolding peek_is eat block_returning
  clause_round (delimiter, clauses) = do
    let else_if = (do
      eat x TokenType.if_ []
      cond ← c.expr
      eat x TokenType.newline []
      (body, delim) ← block_returning x c end_else
      pure (again (delim, clauses ++ if_cond cond body ∷ [])))
    let last = (do
      body ← c.block (TokenType.end ∷ [])
      pure (done (record { end_span = block_span body; clauses = clauses; else_ = a_block body })))
    let at_else = (do nested ← peek_is x TokenType.if_; if nested then else_if else last)
    let at_end =
        pure (done (record { end_span = delimiter.span; clauses = clauses; else_ = no_block }))
    if is_kind delimiter.ty TokenType.else_
        then at_else
        else if is_kind delimiter.ty TokenType.end
        then at_end
        else panics

  -- The first clause is pushed behind the others.
  unfoldable pub if_expr : Token → Parse Expr
  unfolding eat block_returning while_loop clause_round
  if_expr t = do
    cond ← c.expr
    eat x TokenType.newline []
    (body, delim) ← block_returning x c end_else
    rest ← while_loop clause_round (delim, [])
    let clauses = conds_of (rest.clauses ++ if_cond cond body ∷ [])
    pure (node x (ExprKind.if_ clauses rest.else_) (expr_span cond) rest.end_span)

  unfoldable pub guard : Parse OptExpr
  unfolding peek_is eat
  guard = do
    given ← peek_is x TokenType.where_
    if given
        then (do eat x TokenType.where_ (TokenType.newline ∷ []); e ← c.expr; pure (an_expr e))
        else pure no_expr

  unfoldable pub arm_round : List Arm → Parse (Step (List Arm) (List Arm))
  unfolding peek_is eat guard
  arm_round arms = do
    let more = (do
      bind ← c.binding
      g ← guard
      eat x TokenType.right_rocket (TokenType.newline ∷ [])
      body ← c.block (TokenType.end ∷ [])
      pure (again (arms ++ arm bind g body ∷ [])))
    let skip = (do eat x TokenType.newline []; pure (again arms))
    let inside = (do blank ← peek_is x TokenType.newline; if blank then skip else more)
    ended ← peek_is x TokenType.end
    if ended then pure (done arms) else inside

  unfoldable pub match_expr : Token → Parse Expr
  unfolding eat while_loop arm_round
  match_expr t = do
    var ← c.expr
    eat x TokenType.newline []
    arms ← while_loop arm_round []
    e ← eat x TokenType.end (TokenType.newline ∷ [])
    pure (node x (ExprKind.match var (arms_of arms)) (expr_span var) e.span)

  unfoldable pub while_expr : Token → Parse Expr
  unfolding eat
  while_expr t = do
    cond ← c.expr
    eat x TokenType.newline []
    body ← c.block end_then
    then_ ← c.then_block
    else_ ← c.else_block
    pure (
        node x (ExprKind.while cond body then_ else_) (expr_span cond)
          (loop_span else_ (loop_span then_ (block_span body))))

  unfoldable pub loop_expr : Token → Parse Expr
  unfolding eat
  loop_expr t = do
    start ← eat x TokenType.newline []
    body ← c.block end_then
    else_ ← c.else_block
    pure (node x (ExprKind.loop body else_) start.span (loop_span else_ (block_span body)))

  unfoldable pub for_expr : Token → Parse Expr
  unfolding eat
  for_expr t = do
    var ← c.expr
    eat x TokenType.in_ (TokenType.newline ∷ [])
    cond ← c.expr
    eat x TokenType.newline []
    body ← c.block end_then
    then_ ← c.then_block
    else_ ← c.else_block
    pure (
        node x (ExprKind.for var cond body then_ else_) (expr_span var)
          (loop_span else_ (loop_span then_ (block_span body))))

  unfoldable pub block_at : TokenType → List TokenType → Parse OptBlock
  unfolding peek_is
  block_at kind breaks = do
    given ← peek_is x kind
    if given then (do b ← c.block breaks; pure (a_block b)) else pure no_block

  unfoldable pub then_block : Parse OptBlock
  unfolding block_at
  then_block = block_at TokenType.then_ end_else

  unfoldable pub else_block : Parse OptBlock
  unfolding block_at
  else_block = block_at TokenType.else_ (TokenType.end ∷ [])

  unfoldable pub prefix_body : Prefix → Token → Parse Expr
  unfolding variable struct_literal array_or_tuple if_expr match_expr while_expr loop_expr for_expr
      return_expr break_expr continue_expr paren_expr reference postfix_expr literal_expr
      unsafe_block
  prefix_body Prefix.variable t = variable x c t
  prefix_body Prefix.struct_literal t = struct_literal x c t
  prefix_body Prefix.array_or_tuple t = array_or_tuple x c t
  prefix_body Prefix.if_expr t = if_expr t
  prefix_body Prefix.match_expr t = match_expr t
  prefix_body Prefix.while_expr t = while_expr t
  prefix_body Prefix.loop_expr t = loop_expr t
  prefix_body Prefix.for_expr t = for_expr t
  prefix_body Prefix.return_expr t = return_expr x c t
  prefix_body Prefix.break_expr t = break_expr x c t
  prefix_body Prefix.continue_expr t = continue_expr x c t
  prefix_body Prefix.paren_expr t = paren_expr x c t
  prefix_body Prefix.reference t = reference x c t
  prefix_body Prefix.postfix_expr t = postfix_expr x c t
  prefix_body Prefix.literal_expr t = literal_expr x c t
  prefix_body Prefix.unsafe_block t = unsafe_block x c t
