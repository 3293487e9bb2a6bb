-- ===== src/Parser/Ends/Control.antt =====
-- The parsers of conditionals, matches and loops end, and so does the climbing over operators.
use crunch_lang.Prelude.{ℕ, refl, Option, none, some, List, [], ◌∷◌, ltb}
use crunch_lang.Token.{TokenType, Token, is_kind}
use crunch_lang.Ast.{Expr}
use crunch_lang.Parser.Core.{Context}
use crunch_lang.Parser.Calls.{Calls, Prefix, Operation}
use crunch_lang.Parser.Ends.{
  Halts, Pulls, Rounds, ◌▸◌, ◌▹◌, Takes-if, Takes-pure, Takes-fail, Takes-panics, Halts-pure,
  while_loop-Takes,
}
use crunch_lang.Parser.Ends.Primitives.{next-Pulls, peek_is-Halts, eat-Pulls}
use crunch_lang.Parser.Ends.Good.{Good, block_returning-Pulls}
use crunch_lang.Parser.Expr.{
  clause_round, end_else, end_then, if_expr, guard, arm_round, match_expr, while_expr, loop_expr,
  for_expr, block_at, then_block, else_block, prefix_body, variable, ident_expr, run_prefix,
  run_postfix, take_postfix, run_infix, infix_round, parse_expr_body,
}
use crunch_lang.Parser.Expr.Tables.{ExprPrefix, guarded, expr_prefix, expr_infix, expr_precedence}
use crunch_lang.Parser.Ends.Values.{
  reference-Halts, paren_expr-Halts, postfix_expr-Halts, literal_expr-Halts, struct_literal-Halts,
  continue_expr-Halts, break_expr-Halts, return_expr-Halts, array_or_tuple-Halts,
  unsafe_block-Halts,
}

module _ (x : Context) (c : Calls) (g : Good c) where
  -- A clause begins with `if`, and the last block is a block.
  clause_round-Rounds : Rounds (clause_round x c)
  unfolding clause_round
  clause_round-Rounds (delimiter, clauses) =
      Takes-if (is_kind delimiter.ty TokenType.else_)
        (peek_is-Halts x TokenType.if_ ▹ λ nested.
          Takes-if nested
            (eat-Pulls x TokenType.if_ [] ▸ λ _. g.expr_pulls ▸ λ cond.
              eat-Pulls x TokenType.newline [] ▸ λ _.
              block_returning-Pulls x c g (end_else x c) ▸ λ b. Halts-pure _)
            (g.block_pulls (TokenType.end ∷ []) ▸ λ body. Halts-pure _))
        (Takes-if (is_kind delimiter.ty TokenType.end) (Takes-pure _ refl) Takes-panics)

  if_expr-Halts : (t : Token) → Halts (if_expr x c t)
  unfolding if_expr
  if_expr-Halts t = g.expr_pulls ▸ λ cond. eat-Pulls x TokenType.newline [] ▸ λ _.
      block_returning-Pulls x c g (end_else x c) ▸ λ b.
      while_loop-Takes (clause_round x c) clause_round-Rounds (b.1, []) ▹ λ rest. Halts-pure _

  guard-Halts : Halts (guard x c)
  unfolding guard
  guard-Halts = peek_is-Halts x TokenType.where_ ▹ λ given.
      Takes-if given
        (eat-Pulls x TokenType.where_ (TokenType.newline ∷ []) ▸ λ _.
          g.expr_pulls ▸ λ e. Halts-pure _)
        (Halts-pure _)

  arm_round-Rounds : Rounds (arm_round x c)
  unfolding arm_round
  arm_round-Rounds arms = peek_is-Halts x TokenType.end ▹ λ ended.
      Takes-if ended (Takes-pure _ refl) (
        peek_is-Halts x TokenType.newline ▹ λ blank.
        Takes-if blank (eat-Pulls x TokenType.newline [] ▸ λ _. Halts-pure _) (
          g.binding_pulls ▸ λ bind. guard-Halts ▹ λ gd.
          eat-Pulls x TokenType.right_rocket (TokenType.newline ∷ []) ▸ λ _.
          g.block_pulls (TokenType.end ∷ []) ▸ λ body. Halts-pure _))

  match_expr-Halts : (t : Token) → Halts (match_expr x c t)
  unfolding match_expr
  match_expr-Halts t = g.expr_pulls ▸ λ var. eat-Pulls x TokenType.newline [] ▸ λ _.
      while_loop-Takes (arm_round x c) arm_round-Rounds [] ▹ λ arms.
      eat-Pulls x TokenType.end (TokenType.newline ∷ []) ▸ λ e. Halts-pure _

  while_expr-Halts : (t : Token) → Halts (while_expr x c t)
  unfolding while_expr
  while_expr-Halts t = g.expr_pulls ▸ λ cond. eat-Pulls x TokenType.newline [] ▸ λ _.
      g.block_pulls (end_then x c) ▸ λ body.
      g.then_halts ▹ λ then_. g.else_halts ▹ λ else_. Halts-pure _

  loop_expr-Halts : (t : Token) → Halts (loop_expr x c t)
  unfolding loop_expr
  loop_expr-Halts t = eat-Pulls x TokenType.newline [] ▸ λ start.
      g.block_pulls (end_then x c) ▸ λ body. g.else_halts ▹ λ else_. Halts-pure _

  for_expr-Halts : (t : Token) → Halts (for_expr x c t)
  unfolding for_expr
  for_expr-Halts t = g.expr_pulls ▸ λ var. eat-Pulls x TokenType.in_ (TokenType.newline ∷ []) ▸ λ _.
      g.expr_pulls ▸ λ cond. eat-Pulls x TokenType.newline [] ▸ λ _.
      g.block_pulls (end_then x c) ▸ λ body.
      g.then_halts ▹ λ then_. g.else_halts ▹ λ else_. Halts-pure _

  block_at-Halts : (kind : TokenType) (breaks : List TokenType) → Halts (block_at x c kind breaks)
  unfolding block_at
  block_at-Halts kind breaks = peek_is-Halts x kind ▹ λ given.
      Takes-if given (g.block_pulls breaks ▸ λ b. Halts-pure _) (Halts-pure _)

  pub then_block-Halts : Halts (then_block x c)
  unfolding then_block
  then_block-Halts = block_at-Halts TokenType.then_ (end_else x c)

  pub else_block-Halts : Halts (else_block x c)
  unfolding else_block
  else_block-Halts = block_at-Halts TokenType.else_ (TokenType.end ∷ [])

  -- Every function at the beginning of an expression ends.
  pub prefix_body-Halts : (k : Prefix) (t : Token) → Halts (prefix_body x c k t)
  unfolding prefix_body variable
  prefix_body-Halts Prefix.variable t = Halts-pure _
  prefix_body-Halts Prefix.struct_literal t = struct_literal-Halts x c g t
  prefix_body-Halts Prefix.array_or_tuple t = array_or_tuple-Halts x c g t
  prefix_body-Halts Prefix.if_expr t = if_expr-Halts t
  prefix_body-Halts Prefix.match_expr t = match_expr-Halts t
  prefix_body-Halts Prefix.while_expr t = while_expr-Halts t
  prefix_body-Halts Prefix.loop_expr t = loop_expr-Halts t
  prefix_body-Halts Prefix.for_expr t = for_expr-Halts t
  prefix_body-Halts Prefix.return_expr t = return_expr-Halts x c g t
  prefix_body-Halts Prefix.break_expr t = break_expr-Halts x c g t
  prefix_body-Halts Prefix.continue_expr t = continue_expr-Halts x c g t
  prefix_body-Halts Prefix.paren_expr t = paren_expr-Halts x c g t
  prefix_body-Halts Prefix.reference t = reference-Halts x c g t
  prefix_body-Halts Prefix.postfix_expr t = postfix_expr-Halts x c g t
  prefix_body-Halts Prefix.literal_expr t = literal_expr-Halts x c g t
  prefix_body-Halts Prefix.unsafe_block t = unsafe_block-Halts x c g t

  run_prefix-Halts : (t : Token) (o : Option ExprPrefix) → Halts (run_prefix x c t o)
  unfolding ident_expr
  run_prefix-Halts t none = Takes-fail _ _
  run_prefix-Halts t (some ExprPrefix.ident_expr) = peek_is-Halts x TokenType.is ▹ λ structure.
      Takes-if structure (g.prefix_halts Prefix.struct_literal t) (g.prefix_halts Prefix.variable t)
  run_prefix-Halts t (some (guarded k)) = g.prefix_halts k t

  take_postfix-Halts : (lhs : Expr) → Halts (take_postfix x c lhs)
  unfolding take_postfix
  take_postfix-Halts lhs n p l = behind _ n p l
    where
      behind : (o : Option Operation) → Halts (run_postfix x c lhs o)
      behind none = Halts-pure lhs
      behind (some o) = next-Pulls x ▸ λ t. g.operation_halts o t lhs

  run_infix-Halts : (lhs : Expr) (t : Token) (o : Option Operation) → Halts (run_infix x c lhs t o)
  run_infix-Halts lhs t none = Halts-pure _
  run_infix-Halts lhs t (some o) = g.operation_halts o t lhs ▹ λ lhs'. Halts-pure _

  -- A round of the climb pulls the operator.
  infix_round-Rounds : (prec : ℕ) → Rounds (infix_round x c prec)
  unfolding infix_round
  infix_round-Rounds prec lhs n p l =
      Takes-if (ltb prec (expr_precedence p))
        (next-Pulls x ▸ λ t. run_infix-Halts lhs t (expr_infix t.ty)) (Takes-pure _ refl) n p l

  pub parse_expr_body-Pulls : (prec : ℕ) → Pulls (parse_expr_body x c prec)
  unfolding parse_expr_body
  parse_expr_body-Pulls prec = next-Pulls x ▸ λ t. run_prefix-Halts t (expr_prefix t) ▹ λ lhs.
      take_postfix-Halts lhs ▹ λ lhs'.
      while_loop-Takes (infix_round x c prec) (infix_round-Rounds prec) lhs'
