-- ===== src/Parser/Types/Lists.antt =====
-- The lists of types between brackets end: each round of their loops pulls a token.
use crunch_lang.Parser.Core.{ErrorHandler}
use crunch_lang.Prelude.{refl, ℕ, zero, suc, ◌+◌, ◌-◌, ◌<◌, [], arith, if◌then◌else◌}
use crunch_lang.Token.{TokenType, Token, comma, newline, right_brace, right_paren}
use crunch_lang.Ast.{Located, Types, push_type}
use crunch_lang.Parser.{Context, Parser, Parse, ◌>>=◌, ◌>>◌, pure, left, eat, peek_is}
use crunch_lang.Parser.Runs.{
  At, Runs, returns, Runs-bind, Runs-then, Runs-if, Runs-weaken, Runs-done,
}
use crunch_lang.Parser.Keeps.{
  Keeps, Consumes, Keeps-Consumes, Keeps-fuel, eat-Keeps, eat-Consumes, peek_is-Keeps,
}
use crunch_lang.Parser.Types.{TypeCalls, TypePrefix, type_list, trait_list, param_list}

module _ (S : ErrorHandler) where
  -- What the calls that stand under a guard promise.
  pub record Good (c : TypeCalls) : Type 0 where
    pub type_good : Consumes S c.ascribed_type
    pub internal_good : (prec : ℕ) → Consumes S (c.ascribed_type_internal prec)
    pub prefix_good : (k : TypePrefix) (t : Token) → Keeps S (c.type_prefix k t)
    pub infix_good : (t : Token) (lhs : Located) → Keeps S (c.type_infix t lhs)

module _ (S : ErrorHandler) (x : Context) (c : TypeCalls) (g : Good S c) where
  pub type-Keeps : Keeps S c.ascribed_type
  type-Keeps = Keeps-Consumes g.type_good

  -- A round that takes a type, and behind it a comma and the rest.
  separated-Runs :
      (fuel n : ℕ) (f : Located → Types) (again : Types → Parse Types) (p : Parser)
      → n < suc fuel
      → At S n p
      → ((types : Types) (m : ℕ) (q : Parser)
          → m < fuel
          → At S m q
          → Runs S m m (λ _. Unit {0}) (again types q))
      → Runs S n n
          (λ _. Unit {0})
          ((do
            ty ← c.ascribed_type
            let next_round = (do eat x comma []; again (f ty))
            comma_next ← peek_is x comma
            if comma_next then next_round else pure (f ty))
            p)
  separated-Runs fuel n f again p l h k = Runs-bind (g.type_good n p h) λ ty q hq pos.
      Runs-then (peek_is-Keeps S x comma (n - 1) q hq) (omega arith) λ more q₁ h₁ _.
        Runs-if more _ _ q₁
          (λ _. Runs-then (eat-Keeps S x comma [] refl (n - 1) q₁ h₁) (omega arith) λ t q₂ h₂ _.
            Runs-weaken (k (f ty) (n - 1) q₂ (omega arith) h₂) (omega arith) (omega arith))
          (λ _. Runs-done h₁ (omega arith) tt)

  -- A round that takes a token which the list leaves out.
  skip-Runs :
      (fuel n : ℕ) (kind : TokenType) (again : Parse Types) (p : Parser)
      → n < suc fuel
      → At S n p
      → ((m : ℕ) (q : Parser) → m < fuel → At S m q → Runs S m m (λ _. Unit {0}) (again q))
      → Runs S n n (λ _. Unit {0}) ((do eat x kind []; again) p)
  skip-Runs fuel n kind again p l h k =
      Runs-bind (eat-Consumes S x kind [] refl n p h)
        λ t q hq pos. Runs-weaken (k (n - 1) q (omega arith) hq) (omega arith) (omega arith)

  type_list-Runs :
      (fuel n : ℕ) (types : Types) (p : Parser)
      → n < fuel
      → At S n p
      → Runs S n n (λ _. Unit {0}) (type_list x c fuel types p)
  unfolding type_list
  type_list-Runs zero n types p l h = absurd (omega arith)
  type_list-Runs (suc fuel) n types p l h =
      Runs-bind (peek_is-Keeps S x right_brace n p h) λ done q hq _.
        Runs-if done _ _ q (λ _. returns hq tt)
          λ _.
            separated-Runs fuel n (push_type types) (type_list x c fuel) q l hq
              λ types' m r l' h'. type_list-Runs fuel m types' r l' h'

  trait_list-Runs :
      (fuel n : ℕ) (types : Types) (p : Parser)
      → n < fuel
      → At S n p
      → Runs S n n (λ _. Unit {0}) (trait_list x c fuel types p)
  unfolding trait_list
  trait_list-Runs zero n types p l h = absurd (omega arith)
  trait_list-Runs (suc fuel) n types p l h =
      Runs-bind (peek_is-Keeps S x right_brace n p h) λ done q hq _.
        Runs-if done _ _ q (λ _. returns hq tt)
          λ _. Runs-bind (peek_is-Keeps S x newline n q hq) λ blank r hr _.
            Runs-if blank _ _ r
              (λ _.
                skip-Runs fuel n newline (trait_list x c fuel types) r l hr
                  λ m u l' h'. trait_list-Runs fuel m types u l' h')
              (λ _.
                separated-Runs fuel n (push_type types) (trait_list x c fuel) r l hr
                  λ types' m u l' h'. trait_list-Runs fuel m types' u l' h')

  param_list-Runs :
      (fuel n : ℕ) (types : Types) (p : Parser)
      → n < fuel
      → At S n p
      → Runs S n n (λ _. Unit {0}) (param_list x c fuel types p)
  unfolding param_list
  param_list-Runs zero n types p l h = absurd (omega arith)
  param_list-Runs (suc fuel) n types p l h =
      Runs-bind (peek_is-Keeps S x right_paren n p h) λ done q hq _.
        Runs-if done _ _ q (λ _. returns hq tt)
          λ _. Runs-bind (peek_is-Keeps S x newline n q hq) λ blank r hr _.
            Runs-if blank _ _ r
              (λ _.
                skip-Runs fuel n newline (param_list x c fuel types) r l hr
                  λ m u l' h'. param_list-Runs fuel m types u l' h')
              (λ _. Runs-bind (g.type_good n r hr) λ ty u hu pos.
                Runs-weaken (param_list-Runs fuel (n - 1) (push_type types ty) u (omega arith) hu)
                  (omega arith) (omega arith))

  pub type_list-Keeps : (types : Types) → Keeps S (λ p. type_list x c (left p + 1) types p)
  type_list-Keeps types =
      Keeps-fuel (λ k. type_list x c k types) λ k n p. type_list-Runs k n types p

  pub trait_list-Keeps : (types : Types) → Keeps S (λ p. trait_list x c (left p + 1) types p)
  trait_list-Keeps types =
      Keeps-fuel (λ k. trait_list x c k types) λ k n p. trait_list-Runs k n types p

  pub param_list-Keeps : (types : Types) → Keeps S (λ p. param_list x c (left p + 1) types p)
  param_list-Keeps types =
      Keeps-fuel (λ k. param_list x c k types) λ k n p. param_list-Runs k n types p
