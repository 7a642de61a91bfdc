-- ===== src/Token.antt =====
-- src/felexer/token.h and token.c: the kinds of tokens, and their names.
use fermi.Base.{ℕ}
use fermi.Base.{◌++◌}
use fermi.Base.Decimal.{decimal}
use fermi.Base.Text.{Bytes, codes, c_string}

pub data TokenType : Type 0 where
  tok_int_lit tok_float_lit tok_double_lit tok_long_lit tok_string_lit tok_char_lit : TokenType
  tok_bool_lit tok_byte tok_short tok_ushort tok_int tok_uint tok_long tok_ulong : TokenType
  tok_float tok_double tok_bool tok_str tok_char tok_let tok_mut tok_const tok_fn : TokenType
  tok_unit tok_return tok_if tok_else tok_while tok_do tok_for tok_match tok_import : TokenType
  tok_export tok_module tok_enum tok_class tok_public tok_private tok_this tok_new : TokenType
  tok_true tok_false tok_in tok_region tok_break tok_continue tok_type tok_defer : TokenType
  tok_external tok_unsafe tok_null tok_at tok_comptime tok_ident tok_plus tok_minus : TokenType
  tok_star tok_slash tok_percent tok_amp tok_pipe tok_caret tok_tilde tok_assign tok_eq : TokenType
  tok_neq tok_lt tok_gt tok_lte tok_gte tok_and tok_or tok_not tok_arrow tok_fat_arrow : TokenType
  tok_plus_assign tok_minus_assign tok_star_assign tok_slash_assign tok_percent_assign : TokenType
  tok_amp_assign tok_pipe_assign tok_caret_assign tok_shl tok_shr tok_shl_assign : TokenType
  tok_shr_assign tok_inc tok_dec tok_colon tok_double_colon tok_semicolon tok_comma : TokenType
  tok_dot tok_range tok_range_eq tok_question tok_hash tok_as tok_lparen tok_rparen : TokenType
  tok_lbrace tok_rbrace tok_lbracket tok_rbracket tok_interp_start tok_eof tok_unknown : TokenType

-- The value is the copy that `arena_strndup` made.
pub record Token : Type 0 where
  pub type : TokenType
  pub value : Bytes
  pub line : ℕ
  pub col : ℕ

unfoldable pub token_type_str : TokenType → Bytes
token_type_str tok_int_lit = codes "int_lit"
token_type_str tok_float_lit = codes "float_lit"
token_type_str tok_double_lit = codes "double_lit"
token_type_str tok_long_lit = codes "long_lit"
token_type_str tok_string_lit = codes "string_lit"
token_type_str tok_char_lit = codes "char_lit"
token_type_str tok_bool_lit = codes "bool_lit"
token_type_str tok_byte = codes "byte"
token_type_str tok_short = codes "short"
token_type_str tok_ushort = codes "ushort"
token_type_str tok_int = codes "int"
token_type_str tok_uint = codes "uint"
token_type_str tok_long = codes "long"
token_type_str tok_ulong = codes "ulong"
token_type_str tok_float = codes "float"
token_type_str tok_double = codes "double"
token_type_str tok_bool = codes "bool"
token_type_str tok_str = codes "str"
token_type_str tok_char = codes "char"
token_type_str tok_let = codes "let"
token_type_str tok_mut = codes "mut"
token_type_str tok_const = codes "const"
token_type_str tok_fn = codes "fn"
token_type_str tok_unit = codes "unit"
token_type_str tok_return = codes "return"
token_type_str tok_if = codes "if"
token_type_str tok_else = codes "else"
token_type_str tok_while = codes "while"
token_type_str tok_do = codes "do"
token_type_str tok_for = codes "for"
token_type_str tok_match = codes "match"
token_type_str tok_import = codes "import"
token_type_str tok_export = codes "export"
token_type_str tok_module = codes "module"
token_type_str tok_enum = codes "enum"
token_type_str tok_class = codes "class"
token_type_str tok_public = codes "public"
token_type_str tok_private = codes "private"
token_type_str tok_this = codes "this"
token_type_str tok_new = codes "new"
token_type_str tok_true = codes "true"
token_type_str tok_false = codes "false"
token_type_str tok_in = codes "in"
token_type_str tok_region = codes "region"
token_type_str tok_break = codes "break"
token_type_str tok_continue = codes "continue"
token_type_str tok_type = codes "type"
token_type_str tok_defer = codes "defer"
token_type_str tok_external = codes "external"
token_type_str tok_unsafe = codes "unsafe"
token_type_str tok_null = codes "null"
token_type_str tok_at = codes "@"
token_type_str tok_comptime = codes "comptime"
token_type_str tok_ident = codes "ident"
token_type_str tok_plus = codes "+"
token_type_str tok_minus = codes "-"
token_type_str tok_star = codes "*"
token_type_str tok_slash = codes "/"
token_type_str tok_percent = codes "%"
token_type_str tok_amp = codes "&"
token_type_str tok_pipe = codes "|"
token_type_str tok_caret = codes "^"
token_type_str tok_tilde = codes "~"
token_type_str tok_assign = codes "="
token_type_str tok_eq = codes "=="
token_type_str tok_neq = codes "!="
token_type_str tok_lt = codes "<"
token_type_str tok_gt = codes ">"
token_type_str tok_lte = codes "<="
token_type_str tok_gte = codes ">="
token_type_str tok_and = codes "&&"
token_type_str tok_or = codes "||"
token_type_str tok_not = codes "!"
token_type_str tok_arrow = codes "->"
token_type_str tok_fat_arrow = codes "=>"
token_type_str tok_inc = codes "++"
token_type_str tok_dec = codes "--"
token_type_str tok_colon = codes ":"
token_type_str tok_double_colon = codes "::"
token_type_str tok_semicolon = codes ";"
token_type_str tok_comma = codes ","
token_type_str tok_dot = codes "."
token_type_str tok_range = codes ".."
token_type_str tok_range_eq = codes "..="
token_type_str tok_question = codes "?"
token_type_str tok_hash = codes "#"
token_type_str tok_as = codes "as"
token_type_str tok_lparen = codes "("
token_type_str tok_rparen = codes ")"
token_type_str tok_lbrace = codes "{"
token_type_str tok_rbrace = codes "}"
token_type_str tok_lbracket = codes "["
token_type_str tok_rbracket = codes "]"
token_type_str tok_interp_start = codes "%{"
token_type_str tok_eof = codes "eof"
token_type_str _ = codes "unknown"

-- `printf("[%s] '%s' @ %d:%d\n", ...)`, where `%s` stops at the first NUL.
unfoldable pub token_print : Token → Bytes
token_print t =
    codes "["
    ++ token_type_str t.type
    ++ codes "] '"
    ++ c_string t.value
    ++ codes "' @ "
    ++ decimal t.line
    ++ codes ":"
    ++ decimal t.col
    ++ codes "\n"
