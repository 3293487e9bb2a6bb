-- ===== src/Parser/Ends/Stmts.antt =====
-- The parsers of statements, blocks, bindings and patterns end, and pull a token.
use crunch_lang.Prelude.{◌≡◌, false, Option, none, some, List, [], ◌∷◌, ◌&&◌}
use crunch_lang.Token.{TokenType, Token, is_kind, contains}
use crunch_lang.Ast.{Item}
use crunch_lang.Parser.Core.{Context}
use crunch_lang.Parser.Calls.{Calls}
use crunch_lang.Parser.Ends.{
  Halts, Pulls, ◌▸◌, ◌▹◌, Takes-if, Takes-fail, Takes-panics, Takes-either, Halts-pure,
}
use crunch_lang.Parser.Ends.Primitives.{
  sees-Halts, peek-Halts, eat-Pulls, eat_of-Pulls, eat_if-Halts, item_path-Halts,
  parse_literal-Halts,
}
use crunch_lang.Parser.Ends.Good.{Good, is_given, block_returning-Pulls}
use crunch_lang.Parser.Stmt.{
  StmtForm, stmt_form, variable_type, variable_stmt, stmt_of_item, run_stmt, stmt_body, block_body,
  literal_kinds, pattern_body, binding_mode, binding_type, binding_body,
}

module _ (x : Context) (c : Calls) (g : Good c) where
  variable_type-Halts : (name : Token) → Halts (variable_type x c name)
  unfolding variable_type
  variable_type-Halts name = eat-Pulls x TokenType.colon (TokenType.newline ∷ []) ▸ λ _.
      eat_if-Halts x TokenType.newline [] ▹ λ _. eat_if-Halts x TokenType.equal [] ▹ λ inferred.
      Takes-if inferred (Halts-pure _) (
        g.type_pulls ▸ λ ty. eat-Pulls x TokenType.colon (TokenType.newline ∷ []) ▸ λ _.
        eat-Pulls x TokenType.equal [] ▸ λ _. Halts-pure ty)

  variable_stmt-Pulls : Pulls (variable_stmt x c)
  unfolding variable_stmt
  variable_stmt-Pulls =
      eat_of-Pulls x (TokenType.let_ ∷ TokenType.const ∷ []) (TokenType.newline ∷ []) ▸ λ start.
      eat_if-Halts x TokenType.mut (TokenType.newline ∷ []) ▹ λ mutable.
      eat-Pulls x TokenType.ident (TokenType.newline ∷ []) ▸ λ name.
      variable_type-Halts name ▹ λ ty. g.expr_pulls ▸ λ val. eat-Pulls x TokenType.newline [] ▸ λ _.
      Takes-if (is_kind start.ty TokenType.const && mutable) (Takes-fail _ _) (Halts-pure _)

  given-Halts : (o : Option Item) → Halts (stmt_of_item x c o)
  given-Halts none = Takes-panics
  given-Halts (some i) = Halts-pure _

  missing-Pulls : (o : Option Item) → is_given o ≡ false → Pulls (stmt_of_item x c o)
  missing-Pulls none e = Takes-panics
  missing-Pulls (some i) e = cc

  run_stmt-Pulls : (k : StmtForm) → Pulls (run_stmt x c k)
  unfolding run_stmt
  run_stmt-Pulls StmtForm.blank = eat-Pulls x TokenType.newline [] ▸ λ _. Halts-pure _
  run_stmt-Pulls StmtForm.variable = variable_stmt-Pulls
  run_stmt-Pulls StmtForm.item = Takes-either g.item_takes (λ o _. given-Halts o) missing-Pulls
  run_stmt-Pulls StmtForm.expression =
      g.expr_pulls ▸ λ e. eat-Pulls x TokenType.newline [] ▸ λ end. Halts-pure _

  pub stmt_body-Pulls : Pulls (stmt_body x c)
  unfolding stmt_body
  stmt_body-Pulls = peek-Halts x ▹ λ t. run_stmt-Pulls (stmt_form t.ty)

  pub block_body-Pulls : (breaks : List TokenType) → Pulls (block_body x c breaks)
  unfolding block_body
  block_body-Pulls breaks = block_returning-Pulls x c g breaks ▸ λ b. Halts-pure _

  pub pattern_body-Pulls : Pulls (pattern_body x c)
  unfolding pattern_body
  pattern_body-Pulls =
      eat_of-Pulls x (TokenType.ident ∷ literal_kinds x c) (TokenType.newline ∷ []) ▸ λ t.
      Takes-if (contains (literal_kinds x c) t.ty)
        (parse_literal-Halts x c.frames t ▹ λ l. Halts-pure _)
        (Takes-if (is_kind t.ty TokenType.ident)
          (sees-Halts TokenType.dot ▹ λ dotted.
            Takes-if dotted (item_path-Halts x c.frames (x.intern t.source) ▹ λ path. Halts-pure _)
              (Halts-pure _))
          Takes-panics)

  binding_type-Halts : Halts (binding_type x c)
  unfolding binding_type
  binding_type-Halts = sees-Halts TokenType.colon ▹ λ given.
      Takes-if given (eat-Pulls x TokenType.colon [] ▸ λ _. g.type_pulls ▸ λ ty. Halts-pure _)
        (Halts-pure _)

  pub binding_body-Pulls : Pulls (binding_body x c)
  unfolding binding_body binding_mode
  binding_body-Pulls =
      (eat_if-Halts x TokenType.ref [] ▹ λ reference.
      eat_if-Halts x TokenType.mut [] ▹ λ mutable. Halts-pure _)
      ▹ λ mode. g.pattern_pulls ▸ λ pattern. binding_type-Halts ▹ λ ty. Halts-pure _
