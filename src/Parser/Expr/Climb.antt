-- ===== src/Parser/Expr/Climb.antt =====
-- crates/crunch-parser/src/parser/expr.rs: `parse_expr`, the climbing over operators.
use crunch_lang.Prelude.{ℕ, Option, none, some, ltb, if◌then◌else◌}
use crunch_lang.Token.{TokenType, Token}
use crunch_lang.Ast.{Expr}
use crunch_lang.Parser.Core.{Context, Parse, ◌>>=◌, pure, fail, token_location, could_not_parse}
use crunch_lang.Parser.Tokens.{next, peek_is}
use crunch_lang.Parser.Loop.{Step, again, done, while_loop}
use crunch_lang.Parser.Calls.{Calls, Prefix, Operation}
use crunch_lang.Parser.Expr.Tables.{
  ExprPrefix, guarded, expr_prefix, expr_postfix, expr_infix, expr_precedence,
}

module _ (x : Context) (c : Calls) where
  unfoldable pub ident_expr : Token → Parse Expr
  unfolding peek_is
  ident_expr t = do
    structure ← peek_is x TokenType.is
    if structure then c.prefix Prefix.struct_literal t else c.prefix Prefix.variable t

  abbrev pub run_prefix : Token → Option ExprPrefix → Parse Expr
  run_prefix t none = fail (could_not_parse t.ty) (token_location x t)
  run_prefix t (some ExprPrefix.ident_expr) = ident_expr t
  run_prefix t (some (guarded k)) = c.prefix k t

  abbrev pub postfix_at : Option Token → Option Operation
  postfix_at none = none
  postfix_at (some t) = expr_postfix t.ty

  abbrev pub run_postfix : Expr → Option Operation → Parse Expr
  unfolding next
  run_postfix lhs none = pure lhs
  run_postfix lhs (some o) = do t ← next x; c.operation o t lhs

  -- At most one postfix function is called.
  unfoldable pub take_postfix : Expr → Parse Expr
  unfolding run_postfix
  take_postfix lhs p = run_postfix lhs (postfix_at p.peek) p

  abbrev pub run_infix : Expr → Token → Option Operation → Parse (Step Expr Expr)
  run_infix lhs t none = pure (done lhs)
  run_infix lhs t (some o) = do lhs' ← c.operation o t lhs; pure (again lhs')

  -- A token that no function takes ends the loop behind it.
  unfoldable pub infix_round : ℕ → Expr → Parse (Step Expr Expr)
  unfolding next expr_precedence
  infix_round prec lhs p =
      let climb = (do t ← next x; run_infix lhs t (expr_infix t.ty)) in
      (if ltb prec (expr_precedence p) then climb else pure (done lhs)) p

  unfoldable pub parse_expr_body : ℕ → Parse Expr
  unfolding next take_postfix while_loop infix_round ident_expr expr_prefix
  parse_expr_body prec = do
    t ← next x
    lhs ← run_prefix t (expr_prefix t)
    lhs' ← take_postfix lhs
    while_loop (infix_round prec) lhs'
