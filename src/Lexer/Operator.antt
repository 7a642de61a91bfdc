-- ===== src/Lexer/Operator.antt =====
-- src/felexer/lexer.c, the switch of `lexer_next`: operators and punctuation. The character `c` has
-- been read; `c1` and `c2` are the two behind it, which `pk` gives before and after one more
-- `lx_adv`. A case is the token's kind, its text, and the number of further advances.
pub mod Text
use fermi.Base.{ℕ, [], ◌∷◌, ◌==◌, if◌then◌else◌}
use fermi.Base.Text.{Bytes, codes}
use fermi.Token.{
  TokenType, tok_amp, tok_amp_assign, tok_and, tok_arrow, tok_assign, tok_at, tok_caret,
  tok_caret_assign, tok_colon, tok_comma, tok_dec, tok_dot, tok_double_colon, tok_eq, tok_fat_arrow,
  tok_gt, tok_gte, tok_hash, tok_inc, tok_interp_start, tok_lbrace, tok_lbracket, tok_lparen,
  tok_lt, tok_lte, tok_minus, tok_minus_assign, tok_neq, tok_not, tok_or, tok_percent,
  tok_percent_assign, tok_pipe, tok_pipe_assign, tok_plus, tok_plus_assign, tok_question, tok_range,
  tok_range_eq, tok_rbrace, tok_rbracket, tok_rparen, tok_semicolon, tok_shl, tok_shl_assign,
  tok_shr, tok_shr_assign, tok_slash, tok_slash_assign, tok_star, tok_star_assign, tok_tilde,
  tok_unknown,
}

pub record Operator : Type 0 where
  pub type : TokenType
  pub text : Bytes
  pub more : ℕ

abbrev one : TokenType → Bytes → Operator
one t w = record { type = t; text = w; more = 0 }

abbrev two : TokenType → Bytes → Operator
two t w = record { type = t; text = w; more = 1 }

abbrev three : TokenType → Bytes → Operator
three t w = record { type = t; text = w; more = 2 }

after_plus : ℕ → Operator
after_plus c1 =
    if c1 == b'+'
    then two tok_inc (codes "++")
    else if c1 == b'='
    then two tok_plus_assign (codes "+=")
    else one tok_plus (codes "+")

after_minus : ℕ → Operator
after_minus c1 =
    if c1 == b'-'
    then two tok_dec (codes "--")
    else if c1 == b'='
    then two tok_minus_assign (codes "-=")
    else if c1 == b'>'
    then two tok_arrow (codes "->")
    else one tok_minus (codes "-")

after_star : ℕ → Operator
after_star c1 = if c1 == b'=' then two tok_star_assign (codes "*=") else one tok_star (codes "*")

after_slash : ℕ → Operator
after_slash c1 = if c1 == b'=' then two tok_slash_assign (codes "/=") else one tok_slash (codes "/")

after_percent : ℕ → Operator
after_percent c1 =
    if c1 == b'{'
    then two tok_interp_start (codes "%{")
    else if c1 == b'='
    then two tok_percent_assign (codes "%=")
    else one tok_percent (codes "%")

after_amp : ℕ → Operator
after_amp c1 =
    if c1 == b'&'
    then two tok_and (codes "&&")
    else if c1 == b'='
    then two tok_amp_assign (codes "&=")
    else one tok_amp (codes "&")

after_pipe : ℕ → Operator
after_pipe c1 =
    if c1 == b'|'
    then two tok_or (codes "||")
    else if c1 == b'='
    then two tok_pipe_assign (codes "|=")
    else one tok_pipe (codes "|")

after_caret : ℕ → Operator
after_caret c1 = if c1 == b'=' then two tok_caret_assign (codes "^=") else one tok_caret (codes "^")

after_assign : ℕ → Operator
after_assign c1 =
    if c1 == b'='
    then two tok_eq (codes "==")
    else if c1 == b'>'
    then two tok_fat_arrow (codes "=>")
    else one tok_assign (codes "=")

after_not : ℕ → Operator
after_not c1 = if c1 == b'=' then two tok_neq (codes "!=") else one tok_not (codes "!")

after_colon : ℕ → Operator
after_colon c1 = if c1 == b':' then two tok_double_colon (codes "::") else one tok_colon (codes ":")

after_lt : ℕ → ℕ → Operator
after_lt c1 c2 =
    if c1 == b'<'
    then (if c2 == b'=' then three tok_shl_assign (codes "<<=") else two tok_shl (codes "<<"))
    else if c1 == b'='
    then two tok_lte (codes "<=")
    else one tok_lt (codes "<")

after_gt : ℕ → ℕ → Operator
after_gt c1 c2 =
    if c1 == b'>'
    then (if c2 == b'=' then three tok_shr_assign (codes ">>=") else two tok_shr (codes ">>"))
    else if c1 == b'='
    then two tok_gte (codes ">=")
    else one tok_gt (codes ">")

after_dot : ℕ → ℕ → Operator
after_dot c1 c2 =
    if c1 == b'.'
    then (if c2 == b'=' then three tok_range_eq (codes "..=") else two tok_range (codes ".."))
    else one tok_dot (codes ".")

punctuation : ℕ → Operator
punctuation c =
    if c == b'~'
    then one tok_tilde (codes "~")
    else if c == b';'
    then one tok_semicolon (codes ";")
    else if c == b','
    then one tok_comma (codes ",")
    else if c == b'?'
    then one tok_question (codes "?")
    else if c == b'#'
    then one tok_hash (codes "#")
    else if c == b'@'
    then one tok_at (codes "@")
    else if c == b'('
    then one tok_lparen (codes "(")
    else if c == b')'
    then one tok_rparen (codes ")")
    else if c == b'{'
    then one tok_lbrace (codes "{")
    else if c == b'}'
    then one tok_rbrace (codes "}")
    else if c == b'['
    then one tok_lbracket (codes "[")
    else if c == b']'
    then one tok_rbracket (codes "]")
    else one tok_unknown (c ∷ [])

unfoldable pub operator : ℕ → ℕ → ℕ → Operator
unfolding after_plus after_minus after_star after_slash after_percent after_amp after_pipe
    after_caret after_assign after_not after_colon after_lt after_gt after_dot punctuation
operator c c1 c2 =
    if c == b'+'
    then after_plus c1
    else if c == b'-'
    then after_minus c1
    else if c == b'*'
    then after_star c1
    else if c == b'/'
    then after_slash c1
    else if c == b'%'
    then after_percent c1
    else if c == b'&'
    then after_amp c1
    else if c == b'|'
    then after_pipe c1
    else if c == b'^'
    then after_caret c1
    else if c == b'='
    then after_assign c1
    else if c == b'!'
    then after_not c1
    else if c == b':'
    then after_colon c1
    else if c == b'<'
    then after_lt c1 c2
    else if c == b'>'
    then after_gt c1 c2
    else if c == b'.'
    then after_dot c1 c2
    else punctuation c
