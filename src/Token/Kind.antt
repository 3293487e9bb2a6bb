-- ===== src/Token/Kind.antt =====
-- The enumeration `TokenType`, its equality and its names.
use Prim.Native.String.{String}
use crunch_lang.Prelude.{ℕ, Bool, ◌||◌, false, List, [], ◌∷◌, ◌==◌}

pub data TokenType : Type 0 where
  error comment doc_comment newline space rune string float int bool ident function import let_ :
      TokenType
  type enum trait const extend with_ alias mut ref extern unsafe in_ is loop while if_ else_ :
      TokenType
  then_ for return continue break match exposing export as_ library end package_ exposed empty :
      TokenType
  or and where_ equal add_assign sub_assign mult_assign div_assign mod_assign pow_assign : TokenType
  shl_assign shr_assign or_assign and_assign xor_assign is_equal is_not_equal : TokenType
  greater_than_equal less_than_equal left_caret right_caret bang plus minus divide star modulo :
      TokenType
  double_star shl shr pipe ampersand caret left_brace right_brace left_paren right_paren : TokenType
  left_bracket right_bracket right_arrow left_arrow right_rocket at_sign comma semicolon colon :
      TokenType
  dot double_dot : TokenType

-- The position of a kind in the enumeration, by which the derived `==` compares.
abbrev pub discriminant : TokenType → ℕ
discriminant error = 0
discriminant comment = 1
discriminant doc_comment = 2
discriminant newline = 3
discriminant space = 4
discriminant rune = 5
discriminant string = 6
discriminant float = 7
discriminant int = 8
discriminant bool = 9
discriminant ident = 10
discriminant function = 11
discriminant import = 12
discriminant let_ = 13
discriminant type = 14
discriminant enum = 15
discriminant trait = 16
discriminant const = 17
discriminant extend = 18
discriminant with_ = 19
discriminant alias = 20
discriminant mut = 21
discriminant ref = 22
discriminant extern = 23
discriminant unsafe = 24
discriminant in_ = 25
discriminant is = 26
discriminant loop = 27
discriminant while = 28
discriminant if_ = 29
discriminant else_ = 30
discriminant then_ = 31
discriminant for = 32
discriminant return = 33
discriminant continue = 34
discriminant break = 35
discriminant match = 36
discriminant exposing = 37
discriminant export = 38
discriminant as_ = 39
discriminant library = 40
discriminant end = 41
discriminant package_ = 42
discriminant exposed = 43
discriminant empty = 44
discriminant or = 45
discriminant and = 46
discriminant where_ = 47
discriminant equal = 48
discriminant add_assign = 49
discriminant sub_assign = 50
discriminant mult_assign = 51
discriminant div_assign = 52
discriminant mod_assign = 53
discriminant pow_assign = 54
discriminant shl_assign = 55
discriminant shr_assign = 56
discriminant or_assign = 57
discriminant and_assign = 58
discriminant xor_assign = 59
discriminant is_equal = 60
discriminant is_not_equal = 61
discriminant greater_than_equal = 62
discriminant less_than_equal = 63
discriminant left_caret = 64
discriminant right_caret = 65
discriminant bang = 66
discriminant plus = 67
discriminant minus = 68
discriminant divide = 69
discriminant star = 70
discriminant modulo = 71
discriminant double_star = 72
discriminant shl = 73
discriminant shr = 74
discriminant pipe = 75
discriminant ampersand = 76
discriminant caret = 77
discriminant left_brace = 78
discriminant right_brace = 79
discriminant left_paren = 80
discriminant right_paren = 81
discriminant left_bracket = 82
discriminant right_bracket = 83
discriminant right_arrow = 84
discriminant left_arrow = 85
discriminant right_rocket = 86
discriminant at_sign = 87
discriminant comma = 88
discriminant semicolon = 89
discriminant colon = 90
discriminant dot = 91
discriminant double_dot = 92

abbrev pub is_kind : TokenType → TokenType → Bool
is_kind a b = discriminant a == discriminant b

-- `kinds.contains(&t)`
abbrev pub contains : List TokenType → TokenType → Bool
contains [] t = false
contains (k ∷ kinds) t = is_kind k t || contains kinds t

unfoldable pub to_str : TokenType → String
to_str error = "Error"
to_str comment = "Comment"
to_str doc_comment = "DocComment"
to_str newline = "Newline"
to_str space = " "
to_str rune = "rune"
to_str string = "str"
to_str float = "float"
to_str int = "int"
to_str bool = "bool"
to_str ident = "Ident"
to_str function = "fn"
to_str import = "import"
to_str let_ = "let"
to_str type = "type"
to_str enum = "enum"
to_str trait = "trait"
to_str const = "comptime"
to_str extend = "extend"
to_str with_ = "with"
to_str alias = "alias"
to_str mut = "mut"
to_str ref = "ref"
to_str extern = "extern"
to_str unsafe = "unsafe"
to_str in_ = "in"
to_str is = "is"
to_str loop = "loop"
to_str while = "while"
to_str if_ = "if"
to_str else_ = "else"
to_str then_ = "then"
to_str for = "for"
to_str return = "return"
to_str continue = "continue"
to_str break = "break"
to_str match = "match"
to_str exposing = "exposing"
to_str export = "export"
to_str as_ = "as"
to_str library = "lib"
to_str end = "end"
to_str package_ = "pkg"
to_str exposed = "exposed"
to_str empty = "empty"
to_str or = "or"
to_str and = "and"
to_str where_ = "where"
to_str equal = "="
to_str add_assign = "+="
to_str sub_assign = "-="
to_str mult_assign = "*="
to_str div_assign = "/="
to_str mod_assign = "%="
to_str pow_assign = "**="
to_str shl_assign = "<<="
to_str shr_assign = ">>="
to_str or_assign = "|="
to_str and_assign = "&="
to_str xor_assign = "^="
to_str is_equal = "=="
to_str is_not_equal = "!="
to_str greater_than_equal = ">="
to_str less_than_equal = "<="
to_str left_caret = "<"
to_str right_caret = ">"
to_str bang = "!"
to_str plus = "+"
to_str minus = "-"
to_str divide = "/"
to_str star = "*"
to_str modulo = "%"
to_str double_star = "**"
to_str shl = "<<"
to_str shr = ">>"
to_str pipe = "|"
to_str ampersand = "&"
to_str caret = "^"
to_str left_brace = "["
to_str right_brace = "]"
to_str left_paren = "("
to_str right_paren = ")"
to_str left_bracket = "{"
to_str right_bracket = "}"
to_str right_arrow = "->"
to_str left_arrow = "<-"
to_str right_rocket = "=>"
to_str at_sign = "@"
to_str comma = ","
to_str semicolon = ";"
to_str colon = ":"
to_str dot = "."
to_str double_dot = ".."
