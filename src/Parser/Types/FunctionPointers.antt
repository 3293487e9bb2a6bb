-- ===== src/Parser/Types/FunctionPointers.antt =====
-- The function pointer: its result type is never read.
use crunch_lang.Token.{Token}
use crunch_lang.Ast.{AstType, Located, Types, at, Location}
use crunch_lang.Parser.{Parser, Outcome, Error, ok, err, panic, out_of_fuel}

-- What a value of the call is like, if it gives one.
pub data Gives {A : Type 0} (P : A → Type 0) : Outcome A → Type 0 where
  gives : {a : A} {q : Parser} → P a → Gives P (ok a q)
  fails : {e : Error} {loc : Location} {q : Parser} → Gives P (err e loc q)
  panics : Gives P panic
  runs_out : Gives P out_of_fuel

-- A function type whose result is `unit`.
abbrev pub ReturnsUnit : Located → Type 0
ReturnsUnit (at (AstType.func params (at AstType.unit loc')) loc) = Unit
ReturnsUnit _ = ⊥

abbrev IsUnit : Located → Type 0
IsUnit (at AstType.unit loc) = Unit
IsUnit _ = ⊥
