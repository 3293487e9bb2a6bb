-- ===== src/Parser/Blocks.antt =====
-- crates/crunch-parser/src/parser/stmt.rs: `block_returning`, and looking ahead without an error.
use crunch_lang.Prelude.{
  Bool, true, false, not, Option, none, some, List, [], ◌∷◌, ◌++◌, if◌then◌else◌,
}
use crunch_lang.Token.{TokenType, Token, merge, contains}
use crunch_lang.Ast.{Block, block, stmts_of, Stmt}
use crunch_lang.Parser.Core.{Context, Parse, ok, ◌>>=◌, ◌>>◌, pure}
use crunch_lang.Parser.Tokens.{peek, peek_is, eat, eat_of}
use crunch_lang.Parser.Loop.{Step, again, done, while_loop}
use crunch_lang.Parser.Calls.{Calls, here}

abbrev pub is_some : Option Token → Bool
is_some none = false
is_some (some t) = true

-- `self.peek().is_ok()`
unfoldable pub has_peek : Parse Bool
has_peek p = ok (is_some p.peek) p

abbrev pub is_outside : List TokenType → Option Token → Bool
is_outside breaks none = false
is_outside breaks (some t) = not (contains breaks t.ty)

-- `self.peek().map(|p| !breaks.contains(&p.ty()))`, where an error ends the loop
unfoldable pub sees_other : List TokenType → Parse Bool
sees_other breaks p = ok (is_outside breaks p.peek) p

-- `if let Some(stmt) = stmt { stmts.push(stmt); }`
abbrev pub push_some {ℓ} : {A : Type ℓ} → List A → Option A → List A
push_some made none = made
push_some made (some a) = made ++ a ∷ []

-- `if self.peek()?.ty() == kind { self.eat(kind, ignoring)?; }`, and whether it was
unfoldable pub eat_if : Context → TokenType → List TokenType → Parse Bool
unfolding peek_is eat
eat_if x kind ignoring = do
  given ← peek_is x kind
  if given then (do eat x kind ignoring; pure true) else pure false

module _ (x : Context) (c : Calls) where
  unfoldable pub block_round : List TokenType → List Stmt → Parse (Step (List Stmt) (List Stmt))
  block_round breaks stmts = do
    more ← sees_other breaks
    if more then (do s ← c.stmt; pure (again (push_some stmts s))) else pure (done stmts)

  -- The block, and the token that ended it.
  unfoldable pub block_returning : List TokenType → Parse (Block × Token)
  unfolding peek eat_of while_loop block_round
  block_returning breaks = do
    start ← peek x
    stmts ← while_loop (block_round breaks) []
    end ← eat_of x breaks (TokenType.newline ∷ [])
    pure (block (stmts_of stmts) (here x (merge start.span end.span)), end)
