-- ===== src/Parser/Types/Ending.antt =====
-- Where the climb over type operators ends.
use crunch_lang.Prelude.{ℕ, ◌≡◌, false, some, ◌⊎◌, ltb}
use crunch_lang.Token.{TokenType, Token, if_, function}
use crunch_lang.Ast.{Location}
use crunch_lang.Parser.{Parser, Outcome, Error, ok, err, panic, out_of_fuel, next}
use crunch_lang.Parser.Types.{type_precedence}

-- The state that a call leaves behind a value, if it gives one.
pub data Leaves {A : Type 0} (P : Parser → Type 0) : Outcome A → Type 0 where
  leaves : {a : A} {q : Parser} → P q → Leaves P (ok a q)
  fails : {e : Error} {loc : Location} {q : Parser} → Leaves P (err e loc q)
  panics : Leaves P panic
  runs_out : Leaves P out_of_fuel

-- A kind with a precedence and no parselet.
abbrev pub IsLost : TokenType → Type 0
IsLost k = (k ≡ if_) ⊎ (k ≡ function)

-- No operator above the precedence is next, or the last token pulled was an `if` or a `fn`.
abbrev pub HasEnded : ℕ → Parser → Type 0
HasEnded prec q =
    (ltb prec (type_precedence q) ≡ false) ⊎ ((t : Token) × (q.next ≡ some t) × IsLost t.ty)
