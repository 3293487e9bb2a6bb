-- ===== src/Parser/Ends/Primitives.antt =====
-- The parser's small functions end: pulling and eating tokens, operators, paths, literals and types.
use crunch_lang.Prelude.{
  Bool-cases, inl, inr, ℕ, Bool, true, false, Option, none, some, List, [], ◌∷◌, Text, codes,
  eq_text, ◌==◌,
}
use crunch_lang.Token.{TokenType, Token, contains}
use crunch_lang.Ast.{StrT}
use crunch_lang.Escapes
use crunch_lang.Escapes.Fuel.{
  Fueled, gave, refused, overflowed, unescape_string-Fueled, unescape_rune-Fueled,
}
use crunch_lang.Parser.Core.{Context, Error, LiteralKind}
use crunch_lang.Parser.Tokens.{
  next, peek, peek_is, eat, eat_of, eat_newlines, stress_eat, is_disjoint,
}
use crunch_lang.Parser.Literal.{
  sees, add_stack_frame, item_path, warn_underscores, or_invalid, or_escape, float_literal,
  quoted_rune, quoted_string, int_literal, bool_literal, literal_of, parse_literal, split_byte,
  between_quotes,
}
use crunch_lang.Parser.Operators.{or_fail, assign_kind, comp_op, bin_op, unary_op}
use crunch_lang.Parser.Blocks.{has_peek, sees_other, eat_if}
use crunch_lang.Parser.Types.{type_calls}
use crunch_lang.Parser.Types.Progress.{type_calls-Good}
use crunch_lang.Parser.Runs.{Runs-map}
use crunch_lang.Parser.Progress.{next-Runs, eat_of-Runs, eat_newlines-Runs, stress_eat-Runs}
use crunch_lang.Parser.Keeps.{
  eat-Consumes, peek-Keeps, peek_is-Keeps, add_stack_frame-Keeps, item_path-Keeps,
  warn_underscores-Keeps, or_invalid-Keeps,
}
use crunch_lang.Parser.Ends.{
  Halts, Pulls, ◌▸◌, ◌▹◌, Takes-if, Takes-fail, Takes-panics, Halts-pure, Runs-Halts, Runs-Pulls,
}

pub sees-Halts : (kind : TokenType) → Halts (sees kind)
unfolding sees
sees-Halts kind n p l = Halts-pure _ n p l

pub has_peek-Halts : Halts has_peek
unfolding has_peek
has_peek-Halts n p l = Halts-pure _ n p l

pub sees_other-Halts : (breaks : List TokenType) → Halts (sees_other breaks)
unfolding sees_other
sees_other-Halts breaks n p l = Halts-pure _ n p l

module _ (x : Context) where
  pub next-Pulls : Pulls (next x)
  next-Pulls = Runs-Pulls λ s. next-Runs s x

  pub peek-Halts : Halts (peek x)
  peek-Halts = Runs-Halts λ s. peek-Keeps s x

  pub peek_is-Halts : (kind : TokenType) → Halts (peek_is x kind)
  peek_is-Halts kind = Runs-Halts (λ s. peek_is-Keeps s x kind)

  pub eat-Pulls : (kind : TokenType) (ignoring : List TokenType) → Pulls (eat x kind ignoring)
  unfolding eat
  eat-Pulls kind ignoring n p l = elim (Bool-cases (contains ignoring kind)) [
    | inl e ↦ rw e ((next-Pulls ▸ λ _. Takes-panics) n p l)
    | inr e ↦ Runs-Pulls (λ s. eat-Consumes s x kind ignoring e) n p l
  ]

  pub eat_of-Pulls : (kinds ignoring : List TokenType) → Pulls (eat_of x kinds ignoring)
  unfolding eat_of
  eat_of-Pulls kinds ignoring n p l = elim (Bool-cases (is_disjoint ignoring kinds)) [
    | inl e ↦
        Runs-Pulls (λ s n p h. Runs-map (eat_of-Runs s x kinds ignoring e n p h) λ t r. r.1) n p l
    | inr e ↦ rw e ((next-Pulls ▸ λ _. Takes-panics) n p l)
  ]

  pub eat_newlines-Halts : Halts (eat_newlines x)
  eat_newlines-Halts = Runs-Halts (λ s. eat_newlines-Runs s x)

  pub eat_if-Halts : (kind : TokenType) (ignoring : List TokenType) → Halts (eat_if x kind ignoring)
  unfolding eat_if
  eat_if-Halts kind ignoring = peek_is-Halts kind ▹ λ given.
      Takes-if given (eat-Pulls kind ignoring ▸ λ _. Halts-pure true) (Halts-pure false)

  pub add_stack_frame-Halts : (frames : ℕ) → Halts (add_stack_frame x frames)
  add_stack_frame-Halts frames = Runs-Halts (λ s. add_stack_frame-Keeps s x frames)

  pub item_path-Halts : (frames : ℕ) (start : StrT) → Halts (item_path x frames start)
  item_path-Halts frames start = Runs-Halts (λ s. item_path-Keeps s x frames start)

  pub type-Pulls : (frames : ℕ) → Pulls ((type_calls x frames).ascribed_type)
  type-Pulls frames = Runs-Pulls λ s. (type_calls-Good s x frames).type_good

  or_fail-Halts : {A : Type 0} (e : Error) (t : Token) (o : Option A) → Halts (or_fail x e t o)
  or_fail-Halts e t none = Takes-fail _ _
  or_fail-Halts e t (some a) = Halts-pure a

  pub assign_kind-Halts : (frames : ℕ) (t : Token) → Halts (assign_kind x frames t)
  unfolding assign_kind
  assign_kind-Halts frames t = add_stack_frame-Halts frames ▹ λ _. or_fail-Halts _ t _

  pub comp_op-Halts : (frames : ℕ) (t : Token) → Halts (comp_op x frames t)
  unfolding comp_op
  comp_op-Halts frames t = add_stack_frame-Halts frames ▹ λ _. or_fail-Halts _ t _

  pub bin_op-Halts : (frames : ℕ) (t : Token) → Halts (bin_op x frames t)
  unfolding bin_op
  bin_op-Halts frames t = add_stack_frame-Halts frames ▹ λ _. or_fail-Halts _ t _

  pub unary_op-Halts : (frames : ℕ) (t : Token) → Halts (unary_op x frames t)
  unfolding unary_op
  unary_op-Halts frames t = add_stack_frame-Halts frames ▹ λ _. or_fail-Halts _ t _

  warn_underscores-Halts : (t : Token) (places : List ℕ) → Halts (warn_underscores x t places)
  warn_underscores-Halts t places = Runs-Halts (λ s. warn_underscores-Keeps s x t places)

  or_invalid-Halts : (kind : LiteralKind) (t : Token) (o : Option ℕ) → Halts (or_invalid x kind t o)
  or_invalid-Halts kind t o = Runs-Halts (λ s. or_invalid-Keeps s x kind t o)

  or_escape-Halts :
      {A : Type 0} (t : Token) (offset : ℕ) {r : Escapes.Outcome A}
      → Fueled r
      → Halts (or_escape x t offset r)
  or_escape-Halts t offset gave = Halts-pure _
  or_escape-Halts t offset refused = Takes-fail _ _
  or_escape-Halts t offset overflowed = Takes-panics

  float_literal-Halts : (t : Token) → Halts (float_literal x t)
  unfolding float_literal
  float_literal-Halts t = Takes-if (eq_text t.source (codes "inf")) (Halts-pure _) (
      Takes-if (eq_text t.source (codes "NaN")) (Halts-pure _) (
        warn_underscores-Halts t _ ▹ λ _.
        or_invalid-Halts LiteralKind.float t _ ▹ λ f. Halts-pure _))

  int_literal-Halts : (t : Token) → Halts (int_literal x t)
  unfolding int_literal
  int_literal-Halts t =
      warn_underscores-Halts t _ ▹ λ _. or_invalid-Halts LiteralKind.int t _ ▹ λ n. Halts-pure _

  bool_literal-Halts : (t : Token) → Halts (bool_literal x t)
  unfolding bool_literal
  bool_literal-Halts t =
      Takes-if (eq_text t.source (codes "true")) (Halts-pure _)
        (Takes-if (eq_text t.source (codes "false")) (Halts-pure _) (Takes-fail _ _))

  quoted_rune-Halts : (t : Token) (byte : Bool) (s : Text) → Halts (quoted_rune x t byte s)
  unfolding quoted_rune
  quoted_rune-Halts t byte [] = Takes-panics
  quoted_rune-Halts t byte (q ∷ source) =
      Takes-if (q == 0x27) (or_escape-Halts t 3 (unescape_rune-Fueled source) ▹ λ r. Halts-pure _)
        Takes-panics

  quoted_string-Halts :
      (t : Token) (byte : Bool) (o : Option Text) → Halts (quoted_string x t byte o)
  unfolding quoted_string
  quoted_string-Halts t byte none = Takes-panics
  quoted_string-Halts t byte (some source) =
      or_escape-Halts t 1 (unescape_string-Fueled source) ▹ λ s. Halts-pure _

  literal_of-Halts : (kind : TokenType) (t : Token) → Halts (literal_of x kind t)
  unfolding parse_literal
  literal_of-Halts TokenType.float t = float_literal-Halts t
  literal_of-Halts TokenType.rune t =
      let (byte, source) = split_byte t.source in quoted_rune-Halts t byte source
  literal_of-Halts TokenType.string t =
      let (byte, source) = split_byte t.source in quoted_string-Halts t byte (between_quotes source)
  literal_of-Halts TokenType.int t = int_literal-Halts t
  literal_of-Halts TokenType.bool t = bool_literal-Halts t
  literal_of-Halts _ t = Takes-fail _ _

  -- A literal of any kind ends.
  pub parse_literal-Halts : (frames : ℕ) (t : Token) → Halts (parse_literal x frames t)
  unfolding parse_literal
  parse_literal-Halts frames t = add_stack_frame-Halts frames ▹ λ _. literal_of-Halts t.ty t

  pub stress_eat-Halts : Halts (stress_eat x)
  stress_eat-Halts = Runs-Halts (λ s. stress_eat-Runs s x)
