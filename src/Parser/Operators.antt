-- ===== src/Parser/Operators.antt =====
-- crates/crunch-parser/src/parser/utils.rs: the operators that tokens stand for.
pub mod Spelling
mod Tests
use crunch_lang.Prelude.{ℕ, Option, none, some, List, [], ◌∷◌}
use crunch_lang.Token.{
  TokenType, Token, equal, add_assign, sub_assign, mult_assign, div_assign, mod_assign, pow_assign,
  shl_assign, shr_assign, or_assign, and_assign, xor_assign, right_caret, left_caret,
  greater_than_equal, less_than_equal, is_equal, is_not_equal, plus, minus, star, divide, modulo,
  double_star, ampersand, pipe, caret, shl, shr, bang,
}
use crunch_lang.Ast.{BinaryOp, CompOp, UnaryOp, AssignKind, TypeOp}
use crunch_lang.Parser.Core.{
  Context, Parse, ◌>>◌, pure, fail, token_location, Error, expected_operator, expected_binary,
  expected_unary,
}
use crunch_lang.Parser.Literal.{add_stack_frame}

abbrev pub assign_tokens : List TokenType
assign_tokens =
    equal ∷ add_assign ∷ sub_assign ∷ mult_assign ∷ div_assign ∷ mod_assign ∷ pow_assign
    ∷ shl_assign ∷ shr_assign ∷ or_assign ∷ and_assign ∷ xor_assign ∷ []

abbrev pub assign_of : TokenType → Option AssignKind
assign_of equal = some AssignKind.normal
assign_of add_assign = some (AssignKind.binary_op BinaryOp.add)
assign_of sub_assign = some (AssignKind.binary_op BinaryOp.sub)
assign_of mult_assign = some (AssignKind.binary_op BinaryOp.mult)
assign_of div_assign = some (AssignKind.binary_op BinaryOp.div)
assign_of mod_assign = some (AssignKind.binary_op BinaryOp.mod_)
assign_of pow_assign = some (AssignKind.binary_op BinaryOp.pow)
assign_of shl_assign = some (AssignKind.binary_op BinaryOp.shl)
assign_of shr_assign = some (AssignKind.binary_op BinaryOp.shr)
assign_of or_assign = some (AssignKind.binary_op BinaryOp.bit_or)
assign_of and_assign = some (AssignKind.binary_op BinaryOp.bit_and)
assign_of xor_assign = some (AssignKind.binary_op BinaryOp.bit_xor)
assign_of _ = none

abbrev pub compare_tokens : List TokenType
compare_tokens =
    right_caret ∷ left_caret ∷ greater_than_equal ∷ less_than_equal ∷ is_equal ∷ is_not_equal ∷ []

abbrev pub comp_of : TokenType → Option CompOp
comp_of right_caret = some CompOp.greater
comp_of left_caret = some CompOp.less
comp_of greater_than_equal = some CompOp.greater_equal
comp_of less_than_equal = some CompOp.less_equal
comp_of is_equal = some CompOp.equal
comp_of is_not_equal = some CompOp.not_equal
comp_of _ = none

abbrev pub bin_of : TokenType → Option BinaryOp
bin_of plus = some BinaryOp.add
bin_of minus = some BinaryOp.sub
bin_of star = some BinaryOp.mult
bin_of divide = some BinaryOp.div
bin_of modulo = some BinaryOp.mod_
bin_of double_star = some BinaryOp.pow
bin_of ampersand = some BinaryOp.bit_and
bin_of pipe = some BinaryOp.bit_or
bin_of caret = some BinaryOp.bit_xor
bin_of shl = some BinaryOp.shl
bin_of shr = some BinaryOp.shr
bin_of _ = none

abbrev pub unary_of : TokenType → Option UnaryOp
unary_of plus = some UnaryOp.positive
unary_of minus = some UnaryOp.negative
unary_of bang = some UnaryOp.not
unary_of _ = none

abbrev pub type_op_of : TokenType → Option TypeOp
type_op_of ampersand = some TypeOp.and
type_op_of pipe = some TypeOp.or
type_op_of _ = none

module _ (x : Context) where
  abbrev pub or_fail : {A : Type 0} → Error → Token → Option A → Parse A
  or_fail e t none = fail e (token_location x t)
  or_fail e t (some a) = pure a

  unfoldable pub assign_kind : ℕ → Token → Parse AssignKind
  unfolding add_stack_frame
  assign_kind frames t = do
    add_stack_frame x frames
    or_fail (expected_operator assign_tokens t.ty) t (assign_of t.ty)

  unfoldable pub comp_op : ℕ → Token → Parse CompOp
  unfolding add_stack_frame
  comp_op frames t = do
    add_stack_frame x frames
    or_fail (expected_operator compare_tokens t.ty) t (comp_of t.ty)

  unfoldable pub bin_op : ℕ → Token → Parse BinaryOp
  unfolding add_stack_frame
  bin_op frames t = do add_stack_frame x frames; or_fail (expected_binary t.ty) t (bin_of t.ty)

  unfoldable pub unary_op : ℕ → Token → Parse UnaryOp
  unfolding add_stack_frame
  unary_op frames t = do add_stack_frame x frames; or_fail (expected_unary t.ty) t (unary_of t.ty)

  -- `type_op` of crates/crunch-parser/src/parser/types.rs
  unfoldable pub type_op : ℕ → Token → Parse TypeOp
  unfolding add_stack_frame
  type_op frames t = do
    add_stack_frame x frames
    or_fail (expected_operator (ampersand ∷ pipe ∷ []) t.ty) t (type_op_of t.ty)
