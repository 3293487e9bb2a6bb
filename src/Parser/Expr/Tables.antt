-- ===== src/Parser/Expr/Tables.antt =====
-- crates/crunch-parser/src/parser/expr.rs: the tables that direct the parsing of expressions.
use crunch_lang.Prelude.{
  ℕ, Bool, true, false, Option, none, some, Text, codes, eq_text, ◌||◌, if◌then◌else◌,
}
use crunch_lang.Token.{TokenType, Token}
use crunch_lang.Parser.Core.{Parser}
use crunch_lang.Parser.Calls.{Prefix, Operation}

pub data ExprPrecedence : Type 0 where
  as_ mul div mod_ pow add sub shl shr less greater less_eq greater_eq eq ne : ExprPrecedence
  bit_and bit_xor bit_or log_and log_or ternary assignment : ExprPrecedence

abbrev pub precedence : ExprPrecedence → ℕ
precedence ExprPrecedence.as_ = 13
precedence ExprPrecedence.mul = 12
precedence ExprPrecedence.div = 12
precedence ExprPrecedence.mod_ = 12
precedence ExprPrecedence.pow = 12
precedence ExprPrecedence.add = 11
precedence ExprPrecedence.sub = 11
precedence ExprPrecedence.shl = 10
precedence ExprPrecedence.shr = 10
precedence ExprPrecedence.less = 9
precedence ExprPrecedence.less_eq = 9
precedence ExprPrecedence.greater = 9
precedence ExprPrecedence.greater_eq = 9
precedence ExprPrecedence.eq = 8
precedence ExprPrecedence.ne = 8
precedence ExprPrecedence.bit_and = 7
precedence ExprPrecedence.bit_xor = 6
precedence ExprPrecedence.bit_or = 5
precedence ExprPrecedence.log_and = 4
precedence ExprPrecedence.log_or = 3
precedence ExprPrecedence.ternary = 2
precedence ExprPrecedence.assignment = 1

-- `ExprPrecedence::try_from`
abbrev pub expr_precedence_of : TokenType → Option ExprPrecedence
expr_precedence_of TokenType.as_ = some ExprPrecedence.as_
expr_precedence_of TokenType.star = some ExprPrecedence.mul
expr_precedence_of TokenType.divide = some ExprPrecedence.div
expr_precedence_of TokenType.modulo = some ExprPrecedence.mod_
expr_precedence_of TokenType.double_star = some ExprPrecedence.pow
expr_precedence_of TokenType.plus = some ExprPrecedence.add
expr_precedence_of TokenType.minus = some ExprPrecedence.sub
expr_precedence_of TokenType.shl = some ExprPrecedence.shl
expr_precedence_of TokenType.shr = some ExprPrecedence.shr
expr_precedence_of TokenType.left_caret = some ExprPrecedence.less
expr_precedence_of TokenType.right_caret = some ExprPrecedence.greater
expr_precedence_of TokenType.less_than_equal = some ExprPrecedence.less_eq
expr_precedence_of TokenType.greater_than_equal = some ExprPrecedence.greater_eq
expr_precedence_of TokenType.is_equal = some ExprPrecedence.eq
expr_precedence_of TokenType.is_not_equal = some ExprPrecedence.ne
expr_precedence_of TokenType.ampersand = some ExprPrecedence.bit_and
expr_precedence_of TokenType.caret = some ExprPrecedence.bit_xor
expr_precedence_of TokenType.pipe = some ExprPrecedence.bit_or
expr_precedence_of TokenType.and = some ExprPrecedence.log_and
expr_precedence_of TokenType.or = some ExprPrecedence.log_or
expr_precedence_of TokenType.colon = some ExprPrecedence.assignment
expr_precedence_of TokenType.add_assign = some ExprPrecedence.assignment
expr_precedence_of TokenType.sub_assign = some ExprPrecedence.assignment
expr_precedence_of TokenType.mult_assign = some ExprPrecedence.assignment
expr_precedence_of TokenType.div_assign = some ExprPrecedence.assignment
expr_precedence_of TokenType.mod_assign = some ExprPrecedence.assignment
expr_precedence_of TokenType.shl_assign = some ExprPrecedence.assignment
expr_precedence_of TokenType.shr_assign = some ExprPrecedence.assignment
expr_precedence_of TokenType.or_assign = some ExprPrecedence.assignment
expr_precedence_of TokenType.and_assign = some ExprPrecedence.assignment
expr_precedence_of TokenType.xor_assign = some ExprPrecedence.assignment
expr_precedence_of TokenType.if_ = some ExprPrecedence.ternary
expr_precedence_of _ = none

abbrev pub precedence_or_zero : Option ExprPrecedence → ℕ
precedence_or_zero none = 0
precedence_or_zero (some c) = precedence c

abbrev pub precedence_at : Option Token → ℕ
precedence_at none = 0
precedence_at (some t) = precedence_or_zero (expr_precedence_of t.ty)

unfoldable pub expr_precedence : Parser → ℕ
expr_precedence p = precedence_at p.peek

-- What `expr_prefix` gives: `ident_expr`, which has no guard of its own, or a guarded function.
pub data ExprPrefix : Type 0 where
  ident_expr : ExprPrefix
  guarded : Prefix → ExprPrefix

abbrev pub prefix_of_kind : TokenType → Option ExprPrefix
prefix_of_kind TokenType.ident = some ExprPrefix.ident_expr
prefix_of_kind TokenType.if_ = some (guarded Prefix.if_expr)
prefix_of_kind TokenType.match = some (guarded Prefix.match_expr)
prefix_of_kind TokenType.while = some (guarded Prefix.while_expr)
prefix_of_kind TokenType.loop = some (guarded Prefix.loop_expr)
prefix_of_kind TokenType.for = some (guarded Prefix.for_expr)
prefix_of_kind TokenType.return = some (guarded Prefix.return_expr)
prefix_of_kind TokenType.break = some (guarded Prefix.break_expr)
prefix_of_kind TokenType.continue = some (guarded Prefix.continue_expr)
prefix_of_kind TokenType.left_paren = some (guarded Prefix.paren_expr)
prefix_of_kind TokenType.ampersand = some (guarded Prefix.reference)
prefix_of_kind TokenType.minus = some (guarded Prefix.postfix_expr)
prefix_of_kind TokenType.bang = some (guarded Prefix.postfix_expr)
prefix_of_kind TokenType.plus = some (guarded Prefix.postfix_expr)
prefix_of_kind TokenType.int = some (guarded Prefix.literal_expr)
prefix_of_kind TokenType.bool = some (guarded Prefix.literal_expr)
prefix_of_kind TokenType.float = some (guarded Prefix.literal_expr)
prefix_of_kind TokenType.string = some (guarded Prefix.literal_expr)
prefix_of_kind TokenType.rune = some (guarded Prefix.literal_expr)
prefix_of_kind TokenType.unsafe = some (guarded Prefix.unsafe_block)
prefix_of_kind _ = none

abbrev is_sequence : Text → Bool
is_sequence s = eq_text s (codes "arr") || eq_text s (codes "tup")

abbrev pub expr_prefix_of : TokenType → Text → Option ExprPrefix
expr_prefix_of TokenType.ident s =
    if is_sequence s then some (guarded Prefix.array_or_tuple) else some ExprPrefix.ident_expr
expr_prefix_of k s = prefix_of_kind k

unfoldable pub expr_prefix : Token → Option ExprPrefix
expr_prefix t = expr_prefix_of t.ty t.source

-- The assignments that both tables send to `exotic_assignment`.
abbrev pub is_exotic : TokenType → Bool
is_exotic TokenType.add_assign = true
is_exotic TokenType.sub_assign = true
is_exotic TokenType.mult_assign = true
is_exotic TokenType.div_assign = true
is_exotic TokenType.mod_assign = true
is_exotic TokenType.pow_assign = true
is_exotic TokenType.shl_assign = true
is_exotic TokenType.shr_assign = true
is_exotic TokenType.or_assign = true
is_exotic TokenType.and_assign = true
is_exotic TokenType.xor_assign = true
is_exotic _ = false

abbrev exotic : TokenType → Option Operation
exotic k = if is_exotic k then some Operation.exotic_assignment else none

abbrev pub expr_postfix : TokenType → Option Operation
expr_postfix TokenType.left_paren = some Operation.function_call
expr_postfix TokenType.dot = some Operation.dotted_call
expr_postfix TokenType.double_dot = some Operation.ranges
expr_postfix TokenType.left_brace = some Operation.index_array
expr_postfix TokenType.as_ = some Operation.as_cast
expr_postfix TokenType.colon = some Operation.assignment
expr_postfix k = exotic k

abbrev pub expr_infix : TokenType → Option Operation
expr_infix TokenType.left_brace = some Operation.index_array
expr_infix TokenType.as_ = some Operation.as_cast
expr_infix TokenType.right_caret = some Operation.comparison
expr_infix TokenType.left_caret = some Operation.comparison
expr_infix TokenType.greater_than_equal = some Operation.comparison
expr_infix TokenType.less_than_equal = some Operation.comparison
expr_infix TokenType.is_equal = some Operation.comparison
expr_infix TokenType.is_not_equal = some Operation.comparison
expr_infix TokenType.plus = some Operation.binary_operation
expr_infix TokenType.minus = some Operation.binary_operation
expr_infix TokenType.star = some Operation.binary_operation
expr_infix TokenType.divide = some Operation.binary_operation
expr_infix TokenType.modulo = some Operation.binary_operation
expr_infix TokenType.double_star = some Operation.binary_operation
expr_infix TokenType.ampersand = some Operation.binary_operation
expr_infix TokenType.pipe = some Operation.binary_operation
expr_infix TokenType.caret = some Operation.binary_operation
expr_infix TokenType.shl = some Operation.binary_operation
expr_infix TokenType.shr = some Operation.binary_operation
expr_infix TokenType.colon = some Operation.assignment
expr_infix k = exotic k
