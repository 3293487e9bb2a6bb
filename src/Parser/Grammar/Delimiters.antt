-- ===== src/Parser/Grammar/Delimiters.antt =====
-- The blocks behind a loop: at the `then` or `else` that would begin one, no block can be parsed.
use crunch_lang.Prelude.{
  ap, ◌∙◌, ℕ, zero, suc, ◌≡◌, refl, true, false, Bool-cases, Option-cases, inl, inr, none, some,
  List, [], ◌∷◌, not,
}
use native.Mathlib.Numerals.{add-one}
use crunch_lang.Token.{TokenType, Token, contains, is_kind}
use crunch_lang.Ast.{Location, Expr, expr, ExprKind, OptBlock, no_block, a_block}
use crunch_lang.Parser.Core.{Context, Parser, Outcome, ok, err, panic, out_of_fuel, bind, Error}
use crunch_lang.Parser.Tokens.{eat, peek_is}
use crunch_lang.Parser.Progress.{next-eq, peek-eq, peek-none}
use crunch_lang.Parser.Loop.{while_loop, loop}
use crunch_lang.Parser.Blocks.{is_outside, sees_other, block_round, block_returning}
use crunch_lang.Parser.Calls.{Prefix}
use crunch_lang.Parser.Expr.{
  parse_expr_body, block_at, then_block, else_block, end_else, end_then, while_expr, loop_expr,
  for_expr, prefix_body,
}
use crunch_lang.Parser.Expr.Tables.{expr_prefix}
use crunch_lang.Parser.Stmt.{StmtForm, stmt_form, stmt_body, run_stmt, block_body}
use crunch_lang.Parser.Grammar.{calls}

-- The call gave an error.
pub data IsError {A : Type 0} : Outcome A → Type 0 where
  is_error : {e : Error} {loc : Location} {p : Parser} → IsError (err e loc p)

IsError-bind :
    {A B : Type 0} {r : Outcome A} (f : A → Parser → Outcome B) → IsError r → IsError (bind r f)
IsError-bind f is_error = is_error

-- A token that begins an expression statement, but no expression.
abbrev Barren : Token → Type 0
Barren t = (stmt_form t.ty ≡ StmtForm.expression) × (expr_prefix t ≡ none)

module _ (x : Context) (p : Parser) (t : Token) (e : p.peek ≡ some t) (b : Barren t) where
  parse_expr-IsError : (n prec : ℕ) → IsError ((calls x n).parse_expr prec p)
  unfolding calls parse_expr_body
  parse_expr-IsError zero prec = is_error
  parse_expr-IsError (suc n) prec = rw (next-eq x p t e, b.1) is_error

  expr-IsError : (n : ℕ) → IsError ((calls x n).expr p)
  unfolding calls
  expr-IsError zero = is_error
  expr-IsError (suc n) = parse_expr-IsError n 0

  stmt-IsError : (n : ℕ) → IsError ((calls x n).stmt p)
  unfolding calls stmt_body run_stmt
  stmt-IsError zero = is_error
  stmt-IsError (suc n) = rw (peek-eq x p t e, b.0) (IsError-bind _ (expr-IsError n))

  sees_other-eq :
      (breaks : List TokenType) → contains breaks t.ty ≡ false → sees_other breaks p ≡ ok true p
  unfolding sees_other
  sees_other-eq breaks c = ap (λ o. ok (is_outside breaks o) p) e ∙ ap (λ b. ok (not b) p) c

  block-IsError :
      (n : ℕ) (breaks : List TokenType)
      → contains breaks t.ty ≡ false
      → IsError ((calls x n).block breaks p)
  unfolding calls block_body block_returning block_round while_loop loop
  block-IsError zero breaks c = is_error
  block-IsError (suc n) breaks c =
      rw (peek-eq x p t e, add-one)
        (rw (sees_other-eq breaks c)
          (IsError-bind _ (IsError-bind _ (IsError-bind _ (IsError-bind _ (stmt-IsError n))))))

-- What a call returns, if it returns.
pub data Yields {A : Type 0} (P : A → Type 0) : Outcome A → Type 0 where
  yields : {a : A} {p : Parser} → P a → Yields P (ok a p)
  raises : {e : Error} {loc : Location} {p : Parser} → Yields P (err e loc p)
  crashes : Yields P panic
  stuck : Yields P out_of_fuel

pub Yields-with :
    {A B : Type 0} {P : A → Type 0} {Q : B → Type 0} {r : Outcome A} (f : A → Parser → Outcome B)
    → Yields P r
    → ((a : A) (p : Parser) → P a → Yields Q (f a p))
    → Yields Q (bind r f)
Yields-with f (yields h) k = k _ _ h
Yields-with f raises k = raises
Yields-with f crashes k = crashes
Yields-with f stuck k = stuck

pub Yields-bind :
    {A B : Type 0} {Q : B → Type 0} (r : Outcome A) (f : A → Parser → Outcome B)
    → ((a : A) (p : Parser) → Yields Q (f a p))
    → Yields Q (bind r f)
Yields-bind (ok a p) f k = k a p
Yields-bind (err e loc p) f k = raises
Yields-bind panic f k = crashes
Yields-bind out_of_fuel f k = stuck

IsError-Yields :
    {A B : Type 0} {Q : B → Type 0} {r : Outcome A} (f : A → Parser → Outcome B)
    → IsError r
    → Yields Q (bind r f)
IsError-Yields f is_error = raises

abbrev pub IsAbsent : OptBlock → Type 0
IsAbsent no_block = Unit
IsAbsent (a_block b) = ⊥

then_of_is_kind : (k : TokenType) → is_kind k TokenType.then_ ≡ true → k ≡ TokenType.then_
then_of_is_kind TokenType.then_ h = refl
then_of_is_kind _ h = cc

else_of_is_kind : (k : TokenType) → is_kind k TokenType.else_ ≡ true → k ≡ TokenType.else_
else_of_is_kind TokenType.else_ h = refl
else_of_is_kind _ h = cc

module _ (x : Context) where
  block_at-IsAbsent :
      (kind : TokenType) (breaks : List TokenType) (n : ℕ) (p : Parser)
      → ((t : Token) → is_kind t.ty kind ≡ true → Barren t × (contains breaks t.ty ≡ false))
      → Yields IsAbsent (block_at x (calls x n) kind breaks p)
  unfolding block_at peek_is
  block_at-IsAbsent kind breaks n p h = elim (Option-cases p.peek) [
    | inl e ↦ rw (peek-none x p e) raises
    | inr (t, e) ↦ elim (Bool-cases (is_kind t.ty kind)) [
      | inl k ↦
          rw (peek-eq x p t e, k)
            (let (b, c) = h t k in IsError-Yields _ (block-IsError x p t e b n breaks c))
      | inr k ↦ rw (peek-eq x p t e, k) (yields tt)
    ]
  ]

  -- The parser of the `then` block of a loop never returns a block: the `then` that it peeks at is
  -- still there when the statements of the block are parsed, and begins none.
  pub then_block-IsAbsent : (n : ℕ) (p : Parser) → Yields IsAbsent ((calls x n).then_block p)
  unfolding calls then_block expr_prefix
  then_block-IsAbsent zero p = raises
  then_block-IsAbsent (suc n) p =
      block_at-IsAbsent TokenType.then_ (end_else x (calls x n)) n p
        λ t k. rw (then_of_is_kind t.ty k) ((refl, refl), refl)

  -- The parser of the `else` block of a loop never returns a block, for the same reason.
  pub else_block-IsAbsent : (n : ℕ) (p : Parser) → Yields IsAbsent ((calls x n).else_block p)
  unfolding calls else_block expr_prefix
  else_block-IsAbsent zero p = raises
  else_block-IsAbsent (suc n) p =
      block_at-IsAbsent TokenType.else_ (TokenType.end ∷ []) n p
        λ t k. rw (else_of_is_kind t.ty k) ((refl, refl), refl)

-- A loop without a block behind it.
abbrev pub IsBare : Expr → Type 0
IsBare (expr (ExprKind.while cond body then_ else_) loc) = IsAbsent then_ × IsAbsent else_
IsBare (expr (ExprKind.for var cond body then_ else_) loc) = IsAbsent then_ × IsAbsent else_
IsBare (expr (ExprKind.loop body else_) loc) = IsAbsent else_
IsBare e = ⊥

-- The three kinds of loop.
abbrev pub IsLoop : Prefix → Type 0
IsLoop Prefix.while_expr = Unit
IsLoop Prefix.for_expr = Unit
IsLoop Prefix.loop_expr = Unit
IsLoop k = ⊥

module _ (x : Context) where
  while_expr-IsBare :
      (n : ℕ) (t : Token) (p : Parser) → Yields IsBare (while_expr x (calls x n) t p)
  unfolding while_expr
  while_expr-IsBare n t p =
      let c = calls x n in
      Yields-bind (c.expr p) _ λ cond p₁. Yields-bind (eat x TokenType.newline [] p₁) _ λ _ p₂.
        Yields-bind (c.block (end_then x c) p₂) _ λ body p₃.
          Yields-with _ (then_block-IsAbsent x n p₃) λ then_ p₄ h.
            Yields-with _ (else_block-IsAbsent x n p₄)
              λ else_ p₅ k. yields {a = expr (ExprKind.while cond body then_ else_) _} (h, k)

  for_expr-IsBare : (n : ℕ) (t : Token) (p : Parser) → Yields IsBare (for_expr x (calls x n) t p)
  unfolding for_expr
  for_expr-IsBare n t p =
      let c = calls x n in
      Yields-bind (c.expr p) _ λ var p₁.
        Yields-bind (eat x TokenType.in_ (TokenType.newline ∷ []) p₁) _ λ _ p₂.
          Yields-bind (c.expr p₂) _ λ cond p₃. Yields-bind (eat x TokenType.newline [] p₃) _ λ _ p₄.
            Yields-bind (c.block (end_then x c) p₄) _ λ body p₅.
              Yields-with _ (then_block-IsAbsent x n p₅) λ then_ p₆ h.
                Yields-with _ (else_block-IsAbsent x n p₆)
                  λ else_ p₇ k. yields {a = expr (ExprKind.for var cond body then_ else_) _} (h, k)

  loop_expr-IsBare : (n : ℕ) (t : Token) (p : Parser) → Yields IsBare (loop_expr x (calls x n) t p)
  unfolding loop_expr
  loop_expr-IsBare n t p =
      let c = calls x n in
      Yields-bind (eat x TokenType.newline [] p) _ λ start p₁.
        Yields-bind (c.block (end_then x c) p₁) _ λ body p₂.
          Yields-with _ (else_block-IsAbsent x n p₂)
            λ else_ p₃ k. yields {a = expr (ExprKind.loop body else_) _} k

  -- A `while`, `for` or `loop` expression that is parsed has neither a `then` nor an `else` block,
  -- whatever stands behind its body and however many frames are left.
  pub prefix-IsBare :
      (n : ℕ) (k : Prefix) (t : Token) (p : Parser)
      → IsLoop k
      → Yields IsBare ((calls x n).prefix k t p)
  unfolding calls prefix_body
  prefix-IsBare zero k t p h = raises
  prefix-IsBare (suc n) Prefix.while_expr t p h = while_expr-IsBare n t p
  prefix-IsBare (suc n) Prefix.for_expr t p h = for_expr-IsBare n t p
  prefix-IsBare (suc n) Prefix.loop_expr t p h = loop_expr-IsBare n t p
  prefix-IsBare (suc n) _ t p h = absurd h
