-- ===== src/Parser/Literal.antt =====
-- crates/crunch-parser/src/parser/utils.rs: paths, literals and operators.
use crunch_lang.Prelude.{
  ℕ, zero, suc, ◌+◌, ◌-◌, Bool, true, false, Option, none, some, List, [], ◌∷◌, ◌++◌, Text, codes,
  eq_text, drop, take, length, ◌==◌, ◌&&◌, if◌then◌else◌,
}
use crunch_lang.Token.{
  TokenType, Token, span, is_kind, dot, ident, newline, float, rune, string, int, bool,
}
use crunch_lang.Ast.{
  location, StrT, ItemPath, positive, negative, LiteralVal, Literal, literal, Literals, nil, cons,
  AstType, at,
}
use crunch_lang.Escapes.{EscapeError, unescape_rune, unescape_string}
use crunch_lang.Escapes
use crunch_lang.Parser.Core.{
  Context, push_warning, Parse, ok, ◌>>=◌, ◌>>◌, pure, fail, panics, out_of_fuel, eof,
  token_location, recursion_limit, invalid_literal, not_a_literal, escape, LiteralKind,
}
use crunch_lang.Parser.Tokens.{left, eat}

-- `matches!(self.peek().map(|t| t.ty()), Ok(kind))`, which is no error at the end of the file
abbrev pub peeks_at : TokenType → Option Token → Bool
peeks_at kind none = false
peeks_at kind (some t) = is_kind t.ty kind

unfoldable pub sees : TokenType → Parse Bool
sees kind p = ok (peeks_at kind p.peek) p

-- `Vec::push`
abbrev push_segment : ItemPath → StrT → ItemPath
push_segment path seg = path ++ seg ∷ []

-- The places of `__` in a text, as `match_indices` finds them: from left to right, none overlapping.
unfoldable pub match_underscores : ℕ → Text → List ℕ
match_underscores i [] = []
match_underscores i (c ∷ []) = []
match_underscores i (c ∷ d ∷ t) =
    if (c == b'_') && (d == b'_')
    then i ∷ match_underscores (i + 2) t
    else match_underscores (i + 1) (d ∷ t)

-- The sign in front of a number, and the digits behind it.
unfoldable pub split_sign : Text → Bool × Text
split_sign [] = (false, [])
split_sign (c ∷ t) =
    if c == b'-' then (true, t) else if c == b'+' then (false, t) else (false, c ∷ t)

-- Whether a number begins with a prefix such as `0x`.
abbrev pub has_prefix : Text → Text → Bool
has_prefix prefix t = eq_text (take 2 t) prefix

abbrev pub string_type : AstType
string_type = AstType.string

-- `source[1..]` behind the `b` of a byte literal
unfoldable pub split_byte : Text → Bool × Text
split_byte [] = (false, [])
split_byte (c ∷ t) = if c == b'b' then (true, t) else (false, c ∷ t)

-- The text up to the quote that ends it.
unfoldable pub up_to_quote : Text → Option Text
up_to_quote [] = none
up_to_quote (c ∷ []) = if c == b'"' then some [] else none
up_to_quote (c ∷ d ∷ t) = elim (up_to_quote (d ∷ t)) [ none ↦ none | some u ↦ some (c ∷ u) ]

-- The text between the quotes, if there are two: `source[1..source.len() - 1]` behind the check
-- of the first and the last character.
unfoldable pub between_quotes : Text → Option Text
unfolding up_to_quote
between_quotes [] = none
between_quotes (q ∷ t) = if q == b'"' then up_to_quote t else none

module _ (x : Context) where
  -- `add_stack_frame`, with the number of frames that the limit still allows: the count of the
  -- guards passes `max_depth` when there is none.
  unfoldable pub add_stack_frame : ℕ → Parse (Unit {0})
  add_stack_frame zero = fail (recursion_limit (x.max_depth + 1) x.max_depth) (eof x)
  add_stack_frame (suc frames) = pure tt

  -- The parser holds one guard itself.
  abbrev pub initial_frames : ℕ
  initial_frames = x.max_depth - 1

  -- `while peek.ty() == TokenType::Ident`, whose test never changes
  unfoldable pub item_path_loop : ℕ → ItemPath → Parse ItemPath
  unfolding eat
  item_path_loop zero path = λ p. out_of_fuel
  item_path_loop (suc fuel) path = do
    segment ← eat x ident (newline ∷ [])
    let path' = push_segment path (x.intern segment.source)
    let again = (do eat x dot (newline ∷ []); item_path_loop fuel path')
    more ← sees dot
    if more then again else pure path'

  unfoldable pub item_path_rest : ItemPath → Parse ItemPath
  unfolding item_path_loop
  item_path_rest path = do
    segment ← sees ident
    if segment then (λ p. item_path_loop (left p + 1) path p) else pure path

  unfoldable pub item_path : ℕ → StrT → Parse ItemPath
  unfolding add_stack_frame item_path_rest eat
  item_path frames start = do
    add_stack_frame frames
    more ← sees dot
    if more then (do eat x dot []; item_path_rest (start ∷ [])) else pure (start ∷ [])

  -- One warning for each place.
  unfoldable pub warn_underscores : Token → List ℕ → Parse (Unit {0})
  unfolding push_warning
  warn_underscores t [] p = ok tt p
  warn_underscores t (i ∷ places) p =
      let loc = location (span (t.span.start + i) (t.span.start + i + 2)) x.file in
      warn_underscores t places (record p { error_handler = push_warning loc p.error_handler })

  -- `.map_err(|_| ...)?` behind a parser of `lexical_core`
  unfoldable pub or_invalid : LiteralKind → Token → Option ℕ → Parse ℕ
  or_invalid kind t none = fail (invalid_literal kind) (token_location x t)
  or_invalid kind t (some n) = pure n

  -- What `unescape_string` and `unescape_rune` give, with their ranges moved into the file.
  abbrev pub or_escape : {A : Type 0} → Token → ℕ → Escapes.Outcome A → Parse A
  or_escape t offset (Escapes.Outcome.ok a) = pure a
  or_escape t offset (Escapes.Outcome.err e lo hi) =
      fail (escape e)
        (location (span (t.span.start + offset + lo) (t.span.start + offset + hi)) x.file)
  or_escape t offset Escapes.Outcome.panic = panics
  or_escape t offset Escapes.Outcome.out_of_fuel = λ p. out_of_fuel

  abbrev made : LiteralVal → AstType → Token → Literal
  made val ty t = literal val ty (token_location x t)

  unfoldable pub float_literal : Token → Parse Literal
  float_literal t =
      let (is_negative, source) = split_sign t.source in
      let number = (do
        warn_underscores t (match_underscores 0 source)
        f ← or_invalid LiteralKind.float t (
            if has_prefix (codes "0x") source
            then x.parse_f64 16 (drop 2 source)
            else x.parse_f64 10 source)
        pure (made (LiteralVal.float (if is_negative then x.negate_f64 f else f)) string_type t)) in
      if eq_text t.source (codes "inf")
      then pure (made (LiteralVal.float 0x7ff0_0000_0000_0000) string_type t)
      else if eq_text t.source (codes "NaN")
      then pure (made (LiteralVal.float 0x7ff8_0000_0000_0000) string_type t)
      else number

  abbrev rune_value : Bool → ℕ → LiteralVal
  rune_value byte r = if byte then LiteralVal.integer positive r else LiteralVal.rune r

  unfoldable pub quoted_rune : Token → Bool → Text → Parse Literal
  unfolding unescape_rune
  quoted_rune t byte [] = panics
  quoted_rune t byte (q ∷ source) =
      if q == 0x27
      then (do
        r ← or_escape t 3 (unescape_rune source)
        pure (made (rune_value byte r) string_type t))
      else panics

  unfoldable pub rune_literal : Token → Parse Literal
  unfolding split_byte quoted_rune
  rune_literal t = let (byte, source) = split_byte t.source in quoted_rune t byte source

  abbrev pub u8_type : AstType
  u8_type = AstType.integer (some false) (some 8)

  unfoldable pub byte_literals : Token → List ℕ → Literals
  byte_literals t [] = nil
  byte_literals t (b ∷ bs) =
      cons (made (LiteralVal.integer positive b) u8_type t) (byte_literals t bs)

  unfoldable pub string_value : Token → Bool → Text → Literal
  unfolding byte_literals
  string_value t byte s =
      let bytes = x.to_bytes s in
      if byte
      then made (LiteralVal.array (byte_literals t bytes))
          (AstType.array (at u8_type (token_location x t)) (length bytes)) t
      else made (LiteralVal.string s) string_type t

  unfoldable pub quoted_string : Token → Bool → Option Text → Parse Literal
  unfolding unescape_string string_value
  quoted_string t byte none = panics
  quoted_string t byte (some source) = do
    s ← or_escape t 1 (unescape_string source)
    pure (string_value t byte s)

  unfoldable pub string_literal : Token → Parse Literal
  unfolding split_byte between_quotes quoted_string
  string_literal t =
      let (byte, source) = split_byte t.source in quoted_string t byte (between_quotes source)

  unfoldable pub int_literal : Token → Parse Literal
  int_literal t = do
    let (is_negative, source) = split_sign t.source
    warn_underscores t (match_underscores 0 source)
    n ← or_invalid LiteralKind.int t (
        if has_prefix (codes "0x") source
        then x.parse_u128 16 (drop 2 source)
        else if has_prefix (codes "0b") source
        then x.parse_u128 2 (drop 2 source)
        else x.parse_u128 10 source)
    pure (
        made (LiteralVal.integer (if is_negative then negative else positive) n)
          (AstType.integer none none) t)

  unfoldable pub bool_literal : Token → Parse Literal
  bool_literal t =
      if eq_text t.source (codes "true")
      then pure (made (LiteralVal.bool true) AstType.bool t)
      else if eq_text t.source (codes "false")
      then pure (made (LiteralVal.bool false) AstType.bool t)
      else fail (invalid_literal LiteralKind.bool) (token_location x t)

  abbrev pub literal_of : TokenType → Token → Parse Literal
  unfolding float_literal rune_literal string_literal int_literal bool_literal
  literal_of float t = float_literal t
  literal_of rune t = rune_literal t
  literal_of string t = string_literal t
  literal_of int t = int_literal t
  literal_of bool t = bool_literal t
  literal_of kind t = fail (not_a_literal kind) (token_location x t)

  -- `literal`
  unfoldable pub parse_literal : ℕ → Token → Parse Literal
  unfolding add_stack_frame literal_of
  parse_literal frames t = do add_stack_frame frames; literal_of t.ty t
