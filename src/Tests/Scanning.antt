-- ===== src/Tests/Scanning.antt =====
-- The lexer on short texts.
use fermi.Base.{◌⊎◌, ◌+◌, ◌≡◌, ◌<◌, ◌≤◌, ◌⊎◌, ◌↔◌, refl, arith, some, [], ◌∷◌, false, length, ◌++◌}
use fermi.Base.Loops.{while}
use fermi.Base.Text.{Bytes, codes}
use fermi.Arena.{Arena}
use fermi.Token.{tok_eof, tok_while, token_type_str}
use fermi.Lexer.{Lexer, lexer_new, lx_adv, skip_while}
use fermi.Lexer.Bounds.{string_body_fits, DigitsAhead, none_left, digit, exponent_digits_overflow}
use fermi.Lexer.Keyword.{kw_check}
use fermi.Lexer.Keyword.Spelling.{kw_check_iff}
use fermi.Lexer.Literal.{Scan, string_body}
use fermi.Lexer.Next.{lexer_next}
use fermi.Lexer.Number.{exponent_digits}
use fermi.Lexer.Operator.{operator}
use fermi.Lexer.Operator.Text.{Spelled, operator-Spelled}
use fermi.Lexer.Position.{IsPlaced, line_at, column_at, lexer_new-IsPlaced, lexer_next-place}
use fermi.Lexer.Tokens.{Lexed, lexer_next-progress, all_tokens-Lexed}
use fermi.Lexer.Trivia.{skip_block, skip_one, skip_ws}
use fermi.Lexer.Gaps.{Trivia, begins_trivia}
use fermi.Lexer.Skipped.{skip_ws-Trivia}
use fermi.Lexer.Utf8.{encode_utf8, decode_utf8, decode-encode_utf8}

abbrev no_arena : Arena
no_arena = record { chunks = []; block_size = 64 }

-- The state at the begin of a source.
abbrev at_begin : Bytes → Lexer
at_begin src = record { src = src; pos = 0; line = 1; col = 1; len = length src; arena = no_arena }

abbrev sample : Lexer
sample = at_begin (codes " \n fn f // x")

all_tokens-Lexed_example : Lexed 20 sample
all_tokens-Lexed_example = all_tokens-Lexed 20 sample (omega arith)

lexer_next-progress_example :
    ((lexer_next sample).0.type ≡ tok_eof)
    ⊎ ((0 < 12) × (0 < (lexer_next sample).1.pos) × ((lexer_next sample).1.len ≡ 12))
lexer_next-progress_example = lexer_next-progress sample

abbrev text : Bytes
text = codes " \n fn f // x"

room : (skip_ws (lexer_new text 12 no_arena)).pos ≤ length text
unfolding lexer_new skip_ws skip_one skip_block skip_while while lx_adv
room = omega arith

lexer_next-place_example :
    ((lexer_next (lexer_new text 12 no_arena)).0.line
      ≡ line_at (lexer_new text 12 no_arena).src (skip_ws (lexer_new text 12 no_arena)).pos)
    × ((lexer_next (lexer_new text 12 no_arena)).0.col
        ≡ column_at (lexer_new text 12 no_arena).src (skip_ws (lexer_new text 12 no_arena)).pos)
    × IsPlaced (lexer_next (lexer_new text 12 no_arena)).1
lexer_next-place_example =
    lexer_next-place (lexer_new text 12 no_arena) (lexer_new-IsPlaced text 12 no_arena)
      (unfold lexer_new in room)

-- Blanks, a line comment, a block comment and one that is not closed.
abbrev gap : Lexer
gap = at_begin (codes " \t// a\n/* b */ /* c")

skip_ws-Trivia_example :
    Trivia gap 0 (skip_ws gap).pos
    × ((skip_ws gap).pos ≤ gap.len)
    × (((skip_ws gap).pos ≡ gap.len) ⊎ (begins_trivia gap (skip_ws gap).pos ≡ false))
skip_ws-Trivia_example = skip_ws-Trivia gap (omega arith)

kw_check_iff_example :
    (kw_check (codes "while") 5 ≡ tok_while) ↔ (codes "while" ≡ token_type_str tok_while)
kw_check_iff_example = kw_check_iff (codes "while") tok_while refl

operator-Spelled_example : Spelled (b'<' ∷ b'<' ∷ b'=' ∷ []) (operator b'<' b'<' b'=')
operator-Spelled_example = operator-Spelled b'<' b'<' b'='

decode-encode_utf8_example :
    decode_utf8 (encode_utf8 0x20AC ++ codes "x") ≡ some (0x20AC, codes "x")
decode-encode_utf8_example = decode-encode_utf8 0x20AC (codes "x") (omega arith)

string_body_fits_example : length (string_body false (at_begin (codes "ab\""))).value ≤ 65530
string_body_fits_example = string_body_fits false (at_begin (codes "ab\""))

abbrev one_e : Scan Bytes
one_e = record { value = codes "1e"; lexer = at_begin (codes "25") }

two_digits : DigitsAhead 2 one_e.lexer
unfolding lx_adv
two_digits = digit refl (digit refl none_left)

exponent_digits_overflow_example : 2 + 2 ≤ length (exponent_digits one_e).value
exponent_digits_overflow_example = exponent_digits_overflow 2 one_e two_digits
