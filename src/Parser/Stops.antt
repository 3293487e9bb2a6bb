-- ===== src/Parser/Stops.antt =====
-- Where `stress_eat` stops: at a token of one of eight kinds.
use crunch_lang.Prelude.{◌≡◌, Bool, true, false, List, [], ◌∷◌}
use crunch_lang.Token.{
  TokenType, Token, function, enum, at_sign, exposed, package_, trait, type, import,
}
use crunch_lang.Parser.Core.{Context, Parser, Outcome, ok, err, eof, end_of_file}
use crunch_lang.Parser.Visible.{visible}

-- The kinds of token before which `stress_eat` is to stop.
unfoldable pub is_top : TokenType → Bool
is_top function = true
is_top enum = true
is_top at_sign = true
is_top exposed = true
is_top package_ = true
is_top trait = true
is_top type = true
is_top import = true
is_top _ = false

module _ (x : Context) where
  -- The tokens in sight are dropped up to the first of those kinds, which stays in sight.
  pub data Stops : List Token → Outcome (Unit {0}) → Type 0 where
    stopped :
        {t : Token} {ts : List Token} {q : Parser}
        → is_top t.ty ≡ true
        → visible q ≡ t ∷ ts
        → Stops (t ∷ ts) (ok tt q)
    dropped :
        {t : Token} {ts : List Token} {r : Outcome (Unit {0})}
        → is_top t.ty ≡ false
        → Stops ts r
        → Stops (t ∷ ts) r
    missing : {q : Parser} → Stops [] (err end_of_file (eof x) q)

  data Peeked (p : Parser) : List Token → Outcome Token → Type 0 where
    peeked : {t : Token} {ts : List Token} → visible p ≡ t ∷ ts → Peeked p (t ∷ ts) (ok t p)
    nothing : Peeked p [] (err end_of_file (eof x) p)
