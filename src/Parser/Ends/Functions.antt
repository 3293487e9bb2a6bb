-- ===== src/Parser/Ends/Functions.antt =====
-- The parsers of what items are made of end: decorators, generics, arguments and functions.
use crunch_lang.Prelude.{ℕ, refl, Option, none, some, List, [], ◌∷◌, Text, codes}
use crunch_lang.Token.{TokenType, Token, is_kind}
use crunch_lang.Ast.{
  Location, Attribute, Vis, Decorator, decorator, CallConv, Literal, literal, LiteralVal,
}
use crunch_lang.Parser.Core.{Context}
use crunch_lang.Parser.Calls.{Calls}
use crunch_lang.Parser.Ends.{
  Halts, Pulls, Rounds, ◌▸◌, ◌▹◌, Takes-if, Takes-pure, Takes-fail, Takes-panics, Halts-pure,
  while_loop-Takes,
}
use crunch_lang.Parser.Ends.Primitives.{
  sees-Halts, peek_is-Halts, eat-Pulls, eat_of-Pulls, eat_newlines-Halts, eat_if-Halts,
  add_stack_frame-Halts,
}
use crunch_lang.Parser.Ends.Good.{Good}
use crunch_lang.Parser.Item.{
  vis, attr, decorator_round, decorator_args, decorator_body, type_round, generics_body,
  argument_name, parameter_round, function_args_body, call_conv_of, from_text, conv_of_literal,
  first_literal, conv_of_decorator, take_decorator, callconv, result_type, function, extern_func,
}

module _ (x : Context) where
  pub vis-Pulls : (frames : ℕ) → Pulls (vis x frames)
  unfolding vis
  vis-Pulls frames = add_stack_frame-Halts x frames ▹ λ _.
      eat_of-Pulls x (TokenType.exposed ∷ TokenType.package_ ∷ []) [] ▸ λ t.
      Takes-if (is_kind t.ty TokenType.exposed) (Halts-pure _)
        (Takes-if (is_kind t.ty TokenType.package_) (Halts-pure _) Takes-panics)

  pub attr-Halts : (frames : ℕ) (t : Token) → Halts (attr x frames t)
  unfolding attr
  attr-Halts frames t = add_stack_frame-Halts x frames ▹ λ _.
      Takes-if (is_kind t.ty TokenType.const) (Halts-pure _)
        (Takes-if (is_kind t.ty TokenType.unsafe) (Halts-pure _) (Takes-fail _ _))

  from_text-Halts : (loc : Location) (s : Text) (o : Option CallConv) → Halts (from_text x loc s o)
  from_text-Halts loc s none = Takes-fail _ _
  from_text-Halts loc s (some conv) = Halts-pure conv

  conv_of_literal-Halts : (loc : Location) (o : Option Literal) → Halts (conv_of_literal x loc o)
  unfolding callconv
  conv_of_literal-Halts loc none = Takes-fail _ _
  conv_of_literal-Halts loc (some (literal (LiteralVal.string s) ty at_literal)) =
      from_text-Halts at_literal s (call_conv_of s)
  conv_of_literal-Halts loc (some (literal _ ty at_literal)) = Takes-fail _ _

  conv_of_decorator-Halts :
      (o : Option (Decorator × List Decorator)) → Halts (conv_of_decorator x o)
  unfolding callconv
  conv_of_decorator-Halts none = Takes-panics
  conv_of_decorator-Halts (some (decorator name name_loc args loc, rest)) =
      conv_of_literal-Halts loc (first_literal args) ▹ λ conv. Halts-pure _

  callconv-Halts : (ds : List Decorator) → Halts (callconv x ds)
  unfolding callconv
  callconv-Halts ds = conv_of_decorator-Halts (take_decorator (x.intern (codes "callconv")) ds)

module _ (x : Context) (c : Calls) (g : Good c) where
  decorator_round-Rounds : Rounds (decorator_round x c)
  unfolding decorator_round
  decorator_round-Rounds args = peek_is-Halts x TokenType.right_paren ▹ λ closed.
      Takes-if closed (Takes-pure _ refl) (
        g.expr_pulls ▸ λ arg. sees-Halts TokenType.comma ▹ λ comma.
        Takes-if comma (eat-Pulls x TokenType.comma (TokenType.newline ∷ []) ▸ λ _. Halts-pure _)
          (Halts-pure _))

  decorator_args-Halts : (name : Token) → Halts (decorator_args x c name)
  unfolding decorator_args
  decorator_args-Halts name =
      eat_if-Halts x TokenType.left_paren (TokenType.newline ∷ []) ▹ λ open_.
      Takes-if open_
        (while_loop-Takes (decorator_round x c) decorator_round-Rounds [] ▹ λ args.
          eat-Pulls x TokenType.right_paren (TokenType.newline ∷ []) ▸ λ e. Halts-pure _)
        (Halts-pure _)

  pub decorator_body-Pulls : (ds : List Decorator) → Pulls (decorator_body x c ds)
  unfolding decorator_body
  decorator_body-Pulls ds = eat-Pulls x TokenType.at_sign (TokenType.newline ∷ []) ▸ λ start.
      eat-Pulls x TokenType.ident (TokenType.newline ∷ []) ▸ λ name.
      decorator_args-Halts name ▹ λ given. Halts-pure _

  pub type_round-Rounds : (close : TokenType) → Rounds (type_round x c close)
  unfolding type_round
  type_round-Rounds close types = peek_is-Halts x close ▹ λ closed.
      Takes-if closed (Takes-pure _ refl) (
        g.type_pulls ▸ λ ty. eat_if-Halts x TokenType.comma (TokenType.newline ∷ []) ▹ λ comma.
        Takes-if comma (Halts-pure _) (Halts-pure _))

  pub generics_body-Halts : Halts (generics_body x c)
  unfolding generics_body
  generics_body-Halts = sees-Halts TokenType.left_brace ▹ λ open_.
      Takes-if open_
        (eat-Pulls x TokenType.left_brace (TokenType.newline ∷ []) ▸ λ start.
          while_loop-Takes (type_round x c TokenType.right_brace)
            (type_round-Rounds TokenType.right_brace) _
          ▹ λ types. eat-Pulls x TokenType.right_brace (TokenType.newline ∷ []) ▸ λ e. Halts-pure _)
        (Halts-pure _)

  argument_name-Pulls : Pulls (argument_name x c)
  unfolding argument_name
  argument_name-Pulls =
      eat_of-Pulls x (TokenType.ident ∷ TokenType.const ∷ []) (TokenType.newline ∷ []) ▸ λ t.
      Takes-if (is_kind t.ty TokenType.ident) (Halts-pure _) (
        Takes-if (is_kind t.ty TokenType.const)
          (eat-Pulls x TokenType.ident (TokenType.newline ∷ []) ▸ λ name. Halts-pure _)
          Takes-panics)

  parameter_round-Rounds : Rounds (parameter_round x c)
  unfolding parameter_round
  parameter_round-Rounds args = peek_is-Halts x TokenType.right_paren ▹ λ closed.
      Takes-if closed (Takes-pure _ refl) (
        argument_name-Pulls ▸ λ name. eat-Pulls x TokenType.colon (TokenType.newline ∷ []) ▸ λ _.
        g.type_pulls ▸ λ ty. eat_if-Halts x TokenType.comma (TokenType.newline ∷ []) ▹ λ comma.
        Takes-if comma (Halts-pure _) (Halts-pure _))

  pub function_args_body-Pulls : Pulls (function_args_body x c)
  unfolding function_args_body
  function_args_body-Pulls = eat-Pulls x TokenType.left_paren (TokenType.newline ∷ []) ▸ λ start.
      while_loop-Takes (parameter_round x c) parameter_round-Rounds [] ▹ λ args.
      eat-Pulls x TokenType.right_paren (TokenType.newline ∷ []) ▸ λ e. Halts-pure _

  result_type-Halts : Halts (result_type x c)
  unfolding result_type
  result_type-Halts = peek_is-Halts x TokenType.right_arrow ▹ λ given.
      Takes-if given
        (eat-Pulls x TokenType.right_arrow [] ▸ λ arrow. g.type_pulls ▸ λ ty. Halts-pure _)
        (Halts-pure _)

  pub function-Pulls :
      (ds : List Decorator) (as_ : List Attribute) (v : Vis) → Pulls (function x c ds as_ v)
  unfolding function
  function-Pulls ds as_ v = eat-Pulls x TokenType.function (TokenType.newline ∷ []) ▸ λ start.
      eat-Pulls x TokenType.ident (TokenType.newline ∷ []) ▸ λ name. g.generics_halts ▹ λ generics.
      g.args_pulls ▸ λ args. result_type-Halts ▹ λ returns. eat-Pulls x TokenType.newline [] ▸ λ _.
      eat_newlines-Halts x ▹ λ _. g.block_pulls (TokenType.end ∷ []) ▸ λ body. Halts-pure _

  pub extern_func-Pulls :
      (ds : List Decorator) (as_ : List Attribute) (v : Vis) → Pulls (extern_func x c ds as_ v)
  unfolding extern_func
  extern_func-Pulls ds as_ v = eat-Pulls x TokenType.function (TokenType.newline ∷ []) ▸ λ start.
      eat-Pulls x TokenType.ident (TokenType.newline ∷ []) ▸ λ name. g.generics_halts ▹ λ generics.
      g.args_pulls ▸ λ args. result_type-Halts ▹ λ returns.
      eat-Pulls x TokenType.semicolon [] ▸ λ e. callconv-Halts x ds ▹ λ conv. Halts-pure _
