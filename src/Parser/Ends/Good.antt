-- ===== src/Parser/Ends/Good.antt =====
-- What the guarded functions of the parser promise each other, and the blocks that call them.
use crunch_lang.Prelude.{ℕ, refl, Bool, true, false, Option, none, some, List, [], ◌∷◌}
use crunch_lang.Token.{TokenType, Token}
use crunch_lang.Ast.{Expr, Attribute, Vis, Decorator}
use crunch_lang.Parser.Core.{Context}
use crunch_lang.Parser.Calls.{Calls, Prefix, Operation, Declaration, Front}
use crunch_lang.Parser.Blocks.{block_round, block_returning}
use crunch_lang.Parser.Ends.{
  Takes, Halts, Pulls, Rounds, ◌▸◌, ◌▹◌, Takes-if, Takes-pure, Halts-pure, while_loop-Takes,
}
use crunch_lang.Parser.Ends.Primitives.{sees_other-Halts, peek-Halts, eat_of-Pulls}

-- Whether an item was parsed.
abbrev pub is_given : {A : Type 0} → Option A → Bool
is_given none = false
is_given (some a) = true

-- Every function ends. Those that a loop calls in its rounds, or that are called in front of a loop
-- of their own, pull a token.
pub record Good (c : Calls) : Type 0 where
  pub type_pulls : Pulls c.ascribed_type
  pub expr_pulls : Pulls c.expr
  pub parse_expr_pulls : (prec : ℕ) → Pulls (c.parse_expr prec)
  pub prefix_halts : (k : Prefix) (t : Token) → Halts (c.prefix k t)
  pub operation_halts : (o : Operation) (t : Token) (lhs : Expr) → Halts (c.operation o t lhs)
  pub then_halts : Halts c.then_block
  pub else_halts : Halts c.else_block
  pub stmt_pulls : Pulls c.stmt
  pub block_pulls : (breaks : List TokenType) → Pulls (c.block breaks)
  pub binding_pulls : Pulls c.binding
  pub pattern_pulls : Pulls c.pattern
  pub item_takes : Takes is_given c.item
  pub item_impl_pulls : (front : Front) → Pulls (c.item_impl front)
  pub declaration_pulls :
      (d : Declaration) (ds : List Decorator) (as_ : List Attribute) (v : Vis)
      → Pulls (c.declaration d ds as_ v)
  pub decorator_pulls : (ds : List Decorator) → Pulls (c.decorator ds)
  pub args_pulls : Pulls c.function_args
  pub generics_halts : Halts c.generics

module _ (x : Context) (c : Calls) (g : Good c) where
  block_round-Rounds : (breaks : List TokenType) → Rounds (block_round x c breaks)
  unfolding block_round
  block_round-Rounds breaks stmts = sees_other-Halts breaks ▹ λ more.
      Takes-if more (g.stmt_pulls ▸ λ s. Halts-pure _) (Takes-pure _ refl)

  pub block_returning-Pulls : (breaks : List TokenType) → Pulls (block_returning x c breaks)
  unfolding block_returning
  block_returning-Pulls breaks = peek-Halts x ▹ λ start.
      while_loop-Takes (block_round x c breaks) (block_round-Rounds breaks) [] ▹ λ stmts.
      eat_of-Pulls x breaks (TokenType.newline ∷ []) ▸ λ end. Halts-pure _
