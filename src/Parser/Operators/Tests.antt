-- ===== src/Parser/Operators/Tests.antt =====
-- Instances of the theorems on the operators' spellings.
use crunch_lang.Prelude.{◌≡◌, refl, some}
use crunch_lang.Token.{TokenType, double_star, shl_assign}
use crunch_lang.Ast.{BinaryOp, AssignKind}
use crunch_lang.Parser.Operators.{assign_of, bin_of}
use crunch_lang.Parser.Operators.Spelling.{IsSpelled, assign_of-bin_of, bin_of-assign_of}

assign_of-bin_of_example : (o : TokenType) × (bin_of o ≡ some BinaryOp.shl) × IsSpelled shl_assign o
assign_of-bin_of_example = assign_of-bin_of shl_assign BinaryOp.shl refl

bin_of-assign_of_example :
    (k : TokenType) × (assign_of k ≡ some (AssignKind.binary_op BinaryOp.pow))
    × IsSpelled k double_star
bin_of-assign_of_example = bin_of-assign_of double_star BinaryOp.pow refl
