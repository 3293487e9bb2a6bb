-- ===== src/Parser/Loop.antt =====
-- Loops of the parser: a body that goes round again with a state, or ends with a value.
use crunch_lang.Prelude.{ℕ, zero, suc, ◌+◌}
use crunch_lang.Parser.Core.{Parse, out_of_fuel, ◌>>=◌, pure}
use crunch_lang.Parser.Tokens.{left}

pub data Step (St A : Type 0) : Type 0 where
  again : St → Step St A
  done : A → Step St A

module _ {St A : Type 0} where
  -- What follows a round.
  abbrev pub after : (St → Parse A) → Step St A → Parse A
  after rounds (again s) = rounds s
  after rounds (done a) = pure a

  unfoldable pub loop : (St → Parse (Step St A)) → ℕ → St → Parse A
  loop body zero s = λ p. out_of_fuel
  loop body (suc fuel) s = body s >>= after (loop body fuel)

  -- A loop every round of which pulls a token: the tokens left bound the rounds.
  unfoldable pub while_loop : (St → Parse (Step St A)) → St → Parse A
  unfolding loop
  while_loop body s p = loop body (left p + 1) s p
