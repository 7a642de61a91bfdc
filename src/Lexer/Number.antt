-- ===== src/Lexer/Number.antt =====
-- src/felexer/lexer.c, `lex_number`. The buffer of 72 bytes is the list of what is written to it;
-- a list longer than 71 bytes, with its NUL, is a write past the array.
use fermi.Base.{ℕ, Bool, not, ◌&&◌, ◌||◌, [], ◌∷◌, ◌++◌, ltb, leb, ◌==◌, if◌then◌else◌, length}
use fermi.Base.Loops.{while}
use fermi.Base.Text.{Bytes}
use fermi.Lexer.{Lexer, pk, pk2, here, lx_adv, mktok, rounds, isdigit, isxdigit}
use fermi.Lexer.Literal.{Scan}
use fermi.Token.{TokenType, Token, tok_long_lit, tok_int_lit, tok_float_lit, tok_double_lit}

-- `buf[bi++] = lx_adv(l)`
abbrev pub push : Scan Bytes → Scan Bytes
push s = record { value = s.value ++ here s.lexer ∷ []; lexer = lx_adv s.lexer }

-- `char c = lx_adv(l); if (c != '_' && bi < 68) buf[bi++] = c;`
abbrev pub push_digit : Scan Bytes → Scan Bytes
push_digit s = record {
  value =
      if not (here s.lexer == b'_') && ltb (length s.value) 68
      then s.value ++ here s.lexer ∷ []
      else s.value;
  lexer = lx_adv s.lexer;
}

-- `while (l->pos < l->len && (digit(pk(l)) || pk(l) == '_'))` around it.
abbrev pub in_digits : (ℕ → Bool) → Scan Bytes → Bool
in_digits digit s = ltb s.lexer.pos s.lexer.len && (digit (pk s.lexer) || pk s.lexer == b'_')

unfoldable pub digits : (ℕ → Bool) → Scan Bytes → Scan Bytes
unfolding while lx_adv
digits digit s = while (rounds s.lexer) (in_digits digit) push_digit s

-- The digits of an exponent, with no test of the buffer.
abbrev pub in_exponent : Scan Bytes → Bool
in_exponent s = ltb s.lexer.pos s.lexer.len && isdigit (pk s.lexer)

unfoldable pub exponent_digits : Scan Bytes → Scan Bytes
unfolding while lx_adv
exponent_digits s = while (rounds s.lexer) in_exponent push s

abbrev pub is_binary : ℕ → Bool
is_binary c = c == b'0' || c == b'1'

abbrev pub is_octal : ℕ → Bool
is_octal c = leb b'0' c && leb c b'7'

-- The literal after `0x`, `0b` or `0o`, which are stored too.
unfoldable pub radix_digits : (ℕ → Bool) → Lexer → Scan Bytes
unfolding digits lx_adv
radix_digits digit l = digits digit (push (push (record { value = []; lexer = l })))

-- Behind the digits before it: `.5`, and `.e` where it is no range.
abbrev pub has_fraction : Lexer → Bool
has_fraction l =
    pk l == b'.' && not (pk2 l == b'.') && (isdigit (pk2 l) || pk2 l == b'e' || pk2 l == b'E')
    || pk l == b'.' && isdigit (pk2 l)

unfoldable pub fraction : Scan Bytes → Scan Bytes
unfolding digits lx_adv
fraction s = if has_fraction s.lexer then digits isdigit (push s) else s

abbrev pub has_exponent : Lexer → Bool
has_exponent l = pk l == b'e' || pk l == b'E'

abbrev pub push_sign : Scan Bytes → Scan Bytes
push_sign s = if pk s.lexer == b'+' || pk s.lexer == b'-' then push s else s

unfoldable pub exponent : Scan Bytes → Scan Bytes
unfolding exponent_digits lx_adv
exponent s = if has_exponent s.lexer then exponent_digits (push_sign (push s)) else s

-- What `buf` holds behind the exponent.
unfoldable pub decimal_digits : Lexer → Scan Bytes
unfolding fraction exponent digits
decimal_digits l = exponent (fraction (digits isdigit (record { value = []; lexer = l })))

-- `is_float`
unfoldable pub is_float : Lexer → Bool
unfolding fraction digits
is_float l =
    let s = digits isdigit (record { value = []; lexer = l }) in
    has_fraction s.lexer || has_exponent (fraction s).lexer

-- The token's kind, by the suffix, with the state behind it.
unfoldable pub suffix : Bool → Lexer → Scan TokenType
unfolding lx_adv
suffix float l =
    if pk l == b'd' || pk l == b'D'
    then record { value = tok_double_lit; lexer = lx_adv l }
    else if pk l == b'f' || pk l == b'F'
    then record { value = tok_float_lit; lexer = lx_adv l }
    else if pk l == b'L'
    then record { value = tok_long_lit; lexer = lx_adv l }
    else if pk l == b'u'
    then (if pk (lx_adv l) == b'L'
        then record { value = tok_long_lit; lexer = lx_adv (lx_adv l) }
        else record { value = tok_int_lit; lexer = lx_adv l })
    else if float
    then record { value = tok_float_lit; lexer = l }
    else record { value = tok_int_lit; lexer = l }

-- `L` behind a hexadecimal literal.
unfoldable pub hex_suffix : Lexer → Scan TokenType
unfolding lx_adv
hex_suffix l =
    if pk l == b'L'
    then record { value = tok_long_lit; lexer = lx_adv l }
    else record { value = tok_int_lit; lexer = l }

-- `pk(l) == '0' && (pk2(l) == low || pk2(l) == high)`
abbrev pub has_prefix : ℕ → ℕ → Lexer → Bool
has_prefix low high l = pk l == b'0' && (pk2 l == low || pk2 l == high)

abbrev pub number_token : Lexer → Bytes → Scan TokenType → Token × Lexer
number_token l buf s = mktok s.lexer s.value buf (length buf) l.line l.col

unfoldable pub lex_hex : Lexer → Token × Lexer
unfolding radix_digits hex_suffix mktok
lex_hex l = let s = radix_digits isxdigit l in number_token l s.value (hex_suffix s.lexer)

unfoldable pub lex_radix : (ℕ → Bool) → Lexer → Token × Lexer
unfolding radix_digits mktok
lex_radix digit l =
    let s = radix_digits digit l in
    number_token l s.value (record { value = tok_int_lit; lexer = s.lexer })

unfoldable pub lex_decimal : Lexer → Token × Lexer
unfolding decimal_digits is_float suffix mktok
lex_decimal l = let s = decimal_digits l in number_token l s.value (suffix (is_float l) s.lexer)

unfoldable pub lex_number : Lexer → Token × Lexer
unfolding lex_hex lex_radix lex_decimal
lex_number l =
    if has_prefix b'x' b'X' l
    then lex_hex l
    else if has_prefix b'b' b'B' l
    then lex_radix is_binary l
    else if has_prefix b'o' b'O' l
    then lex_radix is_octal l
    else lex_decimal l
