-- ===== src/Parser/Stmt.antt =====
-- crates/crunch-parser/src/parser/stmt.rs and patterns.rs: statements, blocks, bindings and patterns.
use crunch_lang.Prelude.{Bool, Option, none, some, List, [], ◌∷◌, ◌&&◌, if◌then◌else◌}
use crunch_lang.Token.{TokenType, Token, merge, is_kind, contains}
use crunch_lang.Ast.{
  AstType, Located, at, expr_span, Stmt, stmt, StmtKind, Item, item_loc, Block, Binding, binding,
  Pattern,
}
use crunch_lang.Parser.Core.{Context, Parse, ◌>>=◌, ◌>>◌, pure, fail, panics, mutable_constant}
use crunch_lang.Parser.Tokens.{peek, eat, eat_of}
use crunch_lang.Parser.Literal.{sees, item_path, parse_literal}
use crunch_lang.Parser.Calls.{Calls, here}
use crunch_lang.Parser.Blocks.{eat_if, block_returning}

-- The arms of `stmt`.
pub data StmtForm : Type 0 where
  blank variable item expression : StmtForm

abbrev pub stmt_form : TokenType → StmtForm
stmt_form TokenType.newline = StmtForm.blank
stmt_form TokenType.let_ = StmtForm.variable
stmt_form TokenType.const = StmtForm.variable
stmt_form TokenType.at_sign = StmtForm.item
stmt_form TokenType.exposed = StmtForm.item
stmt_form TokenType.package_ = StmtForm.item
stmt_form TokenType.function = StmtForm.item
stmt_form TokenType.type = StmtForm.item
stmt_form TokenType.extend = StmtForm.item
stmt_form TokenType.trait = StmtForm.item
stmt_form TokenType.import = StmtForm.item
stmt_form TokenType.alias = StmtForm.item
stmt_form _ = StmtForm.expression

module _ (x : Context) (c : Calls) where
  -- What stands between a variable's name and its value.
  unfoldable pub variable_type : Token → Parse Located
  unfolding eat eat_if
  variable_type name = do
    eat x TokenType.colon (TokenType.newline ∷ [])
    eat_if x TokenType.newline []
    inferred ← eat_if x TokenType.equal []
    let given = (do
      ty ← c.ascribed_type
      eat x TokenType.colon (TokenType.newline ∷ [])
      eat x TokenType.equal []
      pure ty)
    if inferred then pure (at AstType.unknown (here x name.span)) else given

  unfoldable pub variable_stmt : Parse (Option Stmt)
  unfolding eat eat_of eat_if variable_type
  variable_stmt = do
    start ← eat_of x (TokenType.let_ ∷ TokenType.const ∷ []) (TokenType.newline ∷ [])
    let constant = is_kind start.ty TokenType.const
    mutable ← eat_if x TokenType.mut (TokenType.newline ∷ [])
    name ← eat x TokenType.ident (TokenType.newline ∷ [])
    ty ← variable_type name
    val ← c.expr
    eat x TokenType.newline []
    let loc = here x (merge start.span (expr_span val))
    let made = StmtKind.var_decl (x.intern name.source) ty val constant mutable loc
    if constant && mutable then fail mutable_constant loc else pure (some (stmt made loc))

  abbrev pub stmt_of_item : Option Item → Parse (Option Stmt)
  stmt_of_item none = panics
  stmt_of_item (some i) = pure (some (stmt (StmtKind.item_stmt i) (item_loc i)))

  unfoldable pub run_stmt : StmtForm → Parse (Option Stmt)
  unfolding eat variable_stmt
  run_stmt StmtForm.blank = do eat x TokenType.newline []; pure none
  run_stmt StmtForm.variable = variable_stmt
  run_stmt StmtForm.item = do o ← c.item; stmt_of_item o
  run_stmt StmtForm.expression = do
    e ← c.expr
    end ← eat x TokenType.newline []
    pure (some (stmt (StmtKind.expr_stmt e) (here x (merge (expr_span e) end.span))))

  unfoldable pub stmt_body : Parse (Option Stmt)
  unfolding peek run_stmt
  stmt_body = do t ← peek x; run_stmt (stmt_form t.ty)

  unfoldable pub block_body : List TokenType → Parse Block
  unfolding block_returning
  block_body breaks = do (b, e) ← block_returning x c breaks; pure b

  abbrev pub literal_kinds : List TokenType
  literal_kinds =
      TokenType.int ∷ TokenType.bool ∷ TokenType.float ∷ TokenType.string ∷ TokenType.rune ∷ []

  unfoldable pub pattern_body : Parse Pattern
  unfolding eat_of parse_literal item_path
  pattern_body = do
    t ← eat_of x (TokenType.ident ∷ literal_kinds) (TokenType.newline ∷ [])
    let a_literal = (do l ← parse_literal x c.frames t; pure (Pattern.literal_pattern l))
    let name = x.intern t.source
    let a_path = (do path ← item_path x c.frames name; pure (Pattern.path_pattern path))
    let a_name = (do
      dotted ← sees TokenType.dot
      if dotted then a_path else pure (Pattern.ident_pattern name))
    if contains literal_kinds t.ty
        then a_literal
        else if is_kind t.ty TokenType.ident
        then a_name
        else panics

  -- Whether a binding is by reference, and whether it is mutable.
  unfoldable pub binding_mode : Parse (Bool × Bool)
  unfolding eat_if
  binding_mode = do
    reference ← eat_if x TokenType.ref []
    mutable ← eat_if x TokenType.mut []
    pure (reference, mutable)

  unfoldable pub binding_type : Parse (Option Located)
  unfolding eat
  binding_type = do
    given ← sees TokenType.colon
    if given then (do eat x TokenType.colon []; ty ← c.ascribed_type; pure (some ty)) else pure none

  unfoldable pub binding_body : Parse Binding
  unfolding binding_mode binding_type
  binding_body = do
    (reference, mutable) ← binding_mode
    pattern ← c.pattern
    ty ← binding_type
    pure (binding reference mutable pattern ty)
