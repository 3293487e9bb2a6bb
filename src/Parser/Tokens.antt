-- ===== src/Parser/Tokens.antt =====
-- crates/crunch-parser/src/parser/mod.rs, the utility functions: pulling, peeking and eating tokens.
use crunch_lang.Prelude.{
  not, ◌&&◌, ℕ, zero, suc, ◌+◌, Bool, true, false, Option, none, some, List, [], ◌∷◌, length,
  if◌then◌else◌,
}
use crunch_lang.Token.{
  TokenType, Token, TokenStream, stream_next, is_kind, contains, function, enum, at_sign, exposed,
  package_, trait, type, import, newline,
}
use crunch_lang.Parser.Core.{
  Context, Parser, panic, out_of_fuel, Parse, bind, ◌>>=◌, ◌>>◌, pure, fail, unwrap, eof,
  token_location, end_of_file, expected, expected_one_of,
}

-- The number of tokens that a parser can still give: the one peeked at and the lexer's.
abbrev pub held : Option Token → ℕ
held none = 0
held (some t) = 1

abbrev pub left : Parser → ℕ
left p = held p.peek + length p.token_stream.lexer

-- `Parser::lex` and `Parser::new`
unfoldable pub new : List Token → Parser
unfolding stream_next
new tokens =
    let stream : TokenStream = record {
      lexer = tokens;
      skip_comments = true;
      skip_doc_comments = true;
    } in
    let (first, rest) = stream_next stream in
    record {
      token_stream = rest;
      next = none;
      peek = first;
      error_handler = record { errors = []; warnings = []; fatal = false };
    }

-- The state after `next`: the token peeked at becomes the last one pulled.
unfoldable pub advance : Parser → Parser
unfolding stream_next
advance p =
    let (t, rest) = stream_next p.token_stream in
    record p { token_stream = rest; next = p.peek; peek = t }

abbrev pub or_end_of_file : Context → Option Token → Parse Token
or_end_of_file x none = fail end_of_file (eof x)
or_end_of_file x (some t) = pure t

abbrev pub top_tokens : List TokenType
top_tokens = function ∷ enum ∷ at_sign ∷ exposed ∷ package_ ∷ trait ∷ type ∷ import ∷ []

-- `ignoring.iter().all(|i| !expected.contains(i))`
abbrev pub is_disjoint : List TokenType → List TokenType → Bool
is_disjoint [] kinds = true
is_disjoint (i ∷ ignoring) kinds = not (contains kinds i) && is_disjoint ignoring kinds

module _ (x : Context) where
  unfoldable pub next : Parse Token
  unfolding advance
  next p = or_end_of_file x p.peek (advance p)

  unfoldable pub peek : Parse Token
  peek p = or_end_of_file x p.peek p

  -- `self.peek()?.ty() == kind`
  unfoldable pub peek_is : TokenType → Parse Bool
  unfolding peek
  peek_is kind = do t ← peek; pure (is_kind t.ty kind)

  -- The loop of `eat`. Each round pulls a token, so the tokens left bound the rounds.
  unfoldable pub eat_loop : ℕ → TokenType → List TokenType → Token → Parse Token
  unfolding next
  eat_loop zero kind ignoring t = λ p. out_of_fuel
  eat_loop (suc fuel) kind ignoring t =
      let again = (do t' ← next; eat_loop fuel kind ignoring t') in
      if is_kind t.ty kind
      then pure t
      else if contains ignoring t.ty
      then again
      else fail (expected kind t.source) (token_location x t)

  -- Behind the first token, it asserts in debug builds that the kind is not one of those ignored.
  unfoldable pub eat : TokenType → List TokenType → Parse Token
  unfolding eat_loop next
  eat kind ignoring p =
      bind (next p)
        λ t q. if contains ignoring kind then panic else eat_loop (left q + 1) kind ignoring t q

  unfoldable pub eat_of_loop : ℕ → List TokenType → List TokenType → Token → Parse Token
  unfolding next
  eat_of_loop zero kinds ignoring t = λ p. out_of_fuel
  eat_of_loop (suc fuel) kinds ignoring t =
      let again = (do t' ← next; eat_of_loop fuel kinds ignoring t') in
      if contains kinds t.ty
      then pure t
      else if contains ignoring t.ty
      then again
      else fail (expected_one_of kinds t.source) (token_location x t)

  -- The assertion of debug builds is that no ignored kind is a wanted one.
  unfoldable pub eat_of : List TokenType → List TokenType → Parse Token
  unfolding eat_of_loop next
  eat_of kinds ignoring p = bind (next p) λ t q.
      if is_disjoint ignoring kinds then eat_of_loop (left q + 1) kinds ignoring t q else panic

  -- `while !TOP_TOKENS.contains(&self.peek()?.ty()) { self.next()?; }`
  unfoldable pub stress_eat_loop : ℕ → Parse (Unit {0})
  unfolding next peek
  stress_eat_loop zero = λ p. out_of_fuel
  stress_eat_loop (suc fuel) = do
    let again = (do next; stress_eat_loop fuel)
    t ← peek
    if contains top_tokens t.ty then pure tt else again

  unfoldable pub stress_eat : Parse (Unit {0})
  unfolding stress_eat_loop
  stress_eat p = stress_eat_loop (left p + 1) p

  -- `eat_newlines` of crates/crunch-parser/src/parser/utils.rs
  unfoldable pub eat_newlines_loop : ℕ → ℕ → Parse ℕ
  unfolding eat peek_is
  eat_newlines_loop zero eaten = λ p. out_of_fuel
  eat_newlines_loop (suc fuel) eaten = do
    let again = (do (λ p. unwrap (eat newline [] p)); eat_newlines_loop fuel (eaten + 1))
    more ← peek_is newline
    if more then again else pure eaten

  unfoldable pub eat_newlines : Parse ℕ
  unfolding eat_newlines_loop
  eat_newlines p = eat_newlines_loop (left p + 1) 0 p
