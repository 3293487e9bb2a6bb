-- ===== src/Parser/Operators/Spelling.antt =====
-- The tables of utils.rs for assignments and for binary operators, against the spellings of token.rs.
use crunch_lang.Prelude.{◌≡◌, refl, some, ◌++◌, codes}
use crunch_lang.Token.{
  TokenType, to_str, add_assign, sub_assign, mult_assign, div_assign, mod_assign, pow_assign,
  shl_assign, shr_assign, or_assign, and_assign, xor_assign, plus, minus, star, divide, modulo,
  double_star, ampersand, pipe, caret, shl, shr,
}
use crunch_lang.Ast.{BinaryOp, AssignKind}
use crunch_lang.Parser.Operators.{assign_of, bin_of}

-- The first token is spelled like the second, with an equals sign behind.
abbrev pub IsSpelled : TokenType → TokenType → Type 0
IsSpelled k o = codes (to_str k) ≡ codes (to_str o) ++ codes "="

-- A token that is an assignment by a binary operator is spelled like some token of that operator,
-- with an equals sign behind.
pub assign_of-bin_of :
    (k : TokenType) (b : BinaryOp)
    → assign_of k ≡ some (AssignKind.binary_op b)
    → (o : TokenType) × (bin_of o ≡ some b) × IsSpelled k o
unfolding to_str
assign_of-bin_of add_assign b h = (plus, cc, refl)
assign_of-bin_of sub_assign b h = (minus, cc, refl)
assign_of-bin_of mult_assign b h = (star, cc, refl)
assign_of-bin_of div_assign b h = (divide, cc, refl)
assign_of-bin_of mod_assign b h = (modulo, cc, refl)
assign_of-bin_of pow_assign b h = (double_star, cc, refl)
assign_of-bin_of shl_assign b h = (shl, cc, refl)
assign_of-bin_of shr_assign b h = (shr, cc, refl)
assign_of-bin_of or_assign b h = (pipe, cc, refl)
assign_of-bin_of and_assign b h = (ampersand, cc, refl)
assign_of-bin_of xor_assign b h = (caret, cc, refl)
assign_of-bin_of _ b h = cc

-- A token of a binary operator has a token of the assignment by that operator, which is spelled like
-- it with an equals sign behind.
pub bin_of-assign_of :
    (o : TokenType) (b : BinaryOp)
    → bin_of o ≡ some b
    → (k : TokenType) × (assign_of k ≡ some (AssignKind.binary_op b)) × IsSpelled k o
unfolding to_str
bin_of-assign_of plus b h = (add_assign, cc, refl)
bin_of-assign_of minus b h = (sub_assign, cc, refl)
bin_of-assign_of star b h = (mult_assign, cc, refl)
bin_of-assign_of divide b h = (div_assign, cc, refl)
bin_of-assign_of modulo b h = (mod_assign, cc, refl)
bin_of-assign_of double_star b h = (pow_assign, cc, refl)
bin_of-assign_of shl b h = (shl_assign, cc, refl)
bin_of-assign_of shr b h = (shr_assign, cc, refl)
bin_of-assign_of pipe b h = (or_assign, cc, refl)
bin_of-assign_of ampersand b h = (and_assign, cc, refl)
bin_of-assign_of caret b h = (xor_assign, cc, refl)
bin_of-assign_of _ b h = cc
