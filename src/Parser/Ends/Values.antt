-- ===== src/Parser/Ends/Values.antt =====
-- The parsers of simple expressions and of operators end.
use crunch_lang.Prelude.{refl, true, false, [], ◌∷◌, ◌++◌}
use crunch_lang.Token.{TokenType, Token, merge}
use crunch_lang.Ast.{Expr, expr_span, struct_field}
use crunch_lang.Parser.Core.{Context}
use crunch_lang.Parser.Loop.{again, done}
use crunch_lang.Parser.Calls.{here, Calls, Operation}
use crunch_lang.Parser.Ends.{
  Halts, Rounds, ◌▸◌, ◌▹◌, Takes-if, Takes-pure, Takes-Pulls, Halts-pure, while_loop-Takes,
}
use crunch_lang.Parser.Ends.Primitives.{
  has_peek-Halts, peek_is-Halts, eat-Pulls, eat_newlines-Halts, assign_kind-Halts, comp_op-Halts,
  bin_op-Halts, unary_op-Halts, parse_literal-Halts,
}
use crunch_lang.Parser.Ends.Good.{Good, block_returning-Pulls}
use crunch_lang.Parser.Expr.{
  reference, paren_expr, postfix_expr, literal_expr, field_value, field_round, struct_literal,
  continue_expr, break_expr, return_expr, element_round, array_or_tuple, unsafe_block, comparison,
  binary_operation, assignment, exotic_assignment, ranges, dotted_call, argument_round,
  function_call, as_cast, index_array, operation_body,
}

module _ (x : Context) (c : Calls) (g : Good c) where
  pub reference-Halts : (t : Token) → Halts (reference x c t)
  unfolding reference
  reference-Halts t = peek_is-Halts x TokenType.mut ▹ λ mut_next.
      Takes-if mut_next (eat-Pulls x TokenType.mut [] ▸ λ _. Halts-pure true) (Halts-pure false)
      ▹ λ mutable. g.expr_pulls ▸ λ e. Halts-pure _

  pub paren_expr-Halts : (t : Token) → Halts (paren_expr x c t)
  unfolding paren_expr
  paren_expr-Halts t = g.expr_pulls ▸ λ e.
      eat-Pulls x TokenType.right_paren (TokenType.newline ∷ []) ▸ λ close. Halts-pure _

  pub postfix_expr-Halts : (t : Token) → Halts (postfix_expr x c t)
  unfolding postfix_expr
  postfix_expr-Halts t = g.expr_pulls ▸ λ operand. unary_op-Halts x c.frames t ▹ λ op. Halts-pure _

  pub literal_expr-Halts : (t : Token) → Halts (literal_expr x c t)
  unfolding literal_expr
  literal_expr-Halts t = parse_literal-Halts x c.frames t ▹ λ l. Halts-pure _

  field_value-Halts : (field : Token) → Halts (field_value x c field)
  unfolding field_value
  field_value-Halts field = peek_is-Halts x TokenType.colon ▹ λ given.
      Takes-if given
        (eat-Pulls x TokenType.colon [] ▸ λ _.
          eat-Pulls x TokenType.equal [] ▸ λ _. Takes-Pulls g.expr_pulls)
        (Halts-pure _)

  -- A field begins with its name.
  field_round-Rounds : Rounds (field_round x c)
  unfolding field_round
  field_round-Rounds fs = has_peek-Halts ▹ λ open_.
      Takes-if open_
        (eat_newlines-Halts x ▹ λ _. peek_is-Halts x TokenType.end ▹ λ ended.
          Takes-if ended (Takes-pure (done fs) refl) (
            eat-Pulls x TokenType.ident (TokenType.newline ∷ []) ▸ λ field.
            field_value-Halts field ▹ λ value. eat_newlines-Halts x ▹ λ _.
            peek_is-Halts x TokenType.comma ▹ λ comma.
            let made =
              struct_field (x.intern field.source) value
                (here x (merge field.span (expr_span value))) in
            Takes-if comma
              (eat-Pulls x TokenType.comma [] ▸ λ _. Halts-pure (again (fs ++ made ∷ [])))
              (Halts-pure (done (fs ++ made ∷ [])))))
        (Takes-pure (done fs) refl)

  pub struct_literal-Halts : (t : Token) → Halts (struct_literal x c t)
  unfolding struct_literal
  struct_literal-Halts t = eat-Pulls x TokenType.is [] ▸ λ _.
      while_loop-Takes (field_round x c) field_round-Rounds [] ▹ λ fs.
      eat-Pulls x TokenType.end (TokenType.newline ∷ []) ▸ λ e. Halts-pure _

  pub continue_expr-Halts : (t : Token) → Halts (continue_expr x c t)
  unfolding continue_expr
  continue_expr-Halts t = eat-Pulls x TokenType.newline [] ▸ λ _. Halts-pure _

  pub break_expr-Halts : (t : Token) → Halts (break_expr x c t)
  unfolding break_expr
  break_expr-Halts t = peek_is-Halts x TokenType.newline ▹ λ ended.
      Takes-if ended (Halts-pure _) (g.expr_pulls ▸ λ e. Halts-pure _)

  pub return_expr-Halts : (t : Token) → Halts (return_expr x c t)
  unfolding return_expr
  return_expr-Halts t = peek_is-Halts x TokenType.newline ▹ λ ended.
      Takes-if ended (Halts-pure _) (g.expr_pulls ▸ λ e. Halts-pure _)

  element_round-Rounds : Rounds (element_round x c)
  unfolding element_round
  element_round-Rounds es = peek_is-Halts x TokenType.right_brace ▹ λ closed.
      Takes-if closed (Takes-pure _ refl) (
        g.expr_pulls ▸ λ e. peek_is-Halts x TokenType.comma ▹ λ comma.
        Takes-if comma (eat-Pulls x TokenType.comma (TokenType.newline ∷ []) ▸ λ _. Halts-pure _)
          (Halts-pure _))

  pub array_or_tuple-Halts : (t : Token) → Halts (array_or_tuple x c t)
  unfolding array_or_tuple
  array_or_tuple-Halts t = eat-Pulls x TokenType.left_brace (TokenType.newline ∷ []) ▸ λ _.
      while_loop-Takes (element_round x c) element_round-Rounds [] ▹ λ es.
      eat-Pulls x TokenType.right_brace (TokenType.newline ∷ []) ▸ λ e. Halts-pure _

  pub unsafe_block-Halts : (t : Token) → Halts (unsafe_block x c t)
  unfolding unsafe_block
  unsafe_block-Halts t = block_returning-Pulls x c g (TokenType.end ∷ []) ▸ λ b. Halts-pure _

  argument_round-Rounds : Rounds (argument_round x c)
  unfolding argument_round
  argument_round-Rounds args = peek_is-Halts x TokenType.right_paren ▹ λ closed.
      Takes-if closed (Takes-pure _ refl) (
        g.expr_pulls ▸ λ e. peek_is-Halts x TokenType.comma ▹ λ comma.
        Takes-if comma
          (eat-Pulls x TokenType.comma (TokenType.newline ∷ []) ▸ λ _.
            eat_newlines-Halts x ▹ λ _. Halts-pure _)
          (Halts-pure _))

  function_call-Halts : (t : Token) (lhs : Expr) → Halts (function_call x c t lhs)
  unfolding function_call
  function_call-Halts t lhs = eat_newlines-Halts x ▹ λ _.
      while_loop-Takes (argument_round x c) argument_round-Rounds [] ▹ λ args.
      eat-Pulls x TokenType.right_paren (TokenType.newline ∷ []) ▸ λ e. Halts-pure _

  -- Every function behind a first operand ends.
  pub operation_body-Halts :
      (o : Operation) (t : Token) (lhs : Expr) → Halts (operation_body x c o t lhs)
  unfolding operation_body comparison binary_operation assignment exotic_assignment ranges
      dotted_call as_cast index_array
  operation_body-Halts Operation.function_call t lhs = function_call-Halts t lhs
  operation_body-Halts Operation.dotted_call t lhs = g.expr_pulls ▸ λ e. Halts-pure _
  operation_body-Halts Operation.ranges t lhs = g.expr_pulls ▸ λ e. Halts-pure _
  operation_body-Halts Operation.index_array t lhs = g.expr_pulls ▸ λ i.
      eat-Pulls x TokenType.right_brace (TokenType.newline ∷ []) ▸ λ e. Halts-pure _
  operation_body-Halts Operation.as_cast t lhs = g.type_pulls ▸ λ ty. Halts-pure _
  operation_body-Halts Operation.assignment t lhs =
      eat-Pulls x TokenType.equal (TokenType.newline ∷ []) ▸ λ equal.
      assign_kind-Halts x c.frames equal ▹ λ op. g.expr_pulls ▸ λ rhs. Halts-pure _
  operation_body-Halts Operation.exotic_assignment t lhs =
      assign_kind-Halts x c.frames t ▹ λ op. g.expr_pulls ▸ λ rhs. Halts-pure _
  operation_body-Halts Operation.comparison t lhs =
      g.expr_pulls ▸ λ rhs. comp_op-Halts x c.frames t ▹ λ op. Halts-pure _
  operation_body-Halts Operation.binary_operation t lhs =
      g.expr_pulls ▸ λ rhs. bin_op-Halts x c.frames t ▹ λ op. Halts-pure _
