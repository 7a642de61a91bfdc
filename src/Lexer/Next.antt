-- ===== src/Lexer/Next.antt =====
-- src/felexer/lexer.c, `lexer_next`, and the loop of src/main.c that prints all tokens.
use fermi.Base.{
  ℕ, zero, suc, Bool, true, false, ◌&&◌, ◌||◌, List, [], ◌∷◌, Option, none, some, leb, ◌==◌,
  if◌then◌else◌, length,
}
use fermi.Lexer.Literal.{lex_ident, lex_string, lex_raw_string, lex_char}
use fermi.Lexer.Number.{lex_number}
use fermi.Lexer.Operator.{operator}
use fermi.Lexer.Trivia.{skip_ws}
use fermi.Lexer.{Lexer, pk, pk2, pk3, lx_adv, mktok, isalpha, isdigit}
use fermi.Token.{TokenType, Token, tok_eof}

-- `k` advances.
unfoldable pub advance : ℕ → Lexer → Lexer
advance zero l = l
advance (suc k) l = lx_adv (advance k l)

unfoldable pub lex_operator : Lexer → Token × Lexer
unfolding mktok
lex_operator l =
    let o = operator (pk l) (pk2 l) (pk3 l) in
    mktok (advance (suc o.more) l) o.type o.text (length o.text) l.line l.col

unfoldable pub lex_word : Lexer → Token × Lexer
lex_word l =
    if (pk l == b'r' || pk l == b'R') && pk2 l == b'"'
    then lex_raw_string (lx_adv l) l.line l.col
    else lex_ident l

-- Behind the blanks, where a character is left.
unfoldable pub lex_token : Lexer → Token × Lexer
lex_token l =
    if isalpha (pk l) || pk l == b'_'
    then lex_word l
    else if isdigit (pk l)
    then lex_number l
    else if pk l == b'"'
    then lex_string l
    else if pk l == b'\''
    then lex_char l
    else lex_operator l

unfoldable pub lexer_next : Lexer → Token × Lexer
unfolding mktok
lexer_next l =
    let m = skip_ws l in if leb m.len m.pos then mktok m tok_eof [] 0 m.line m.col else lex_token m

abbrev pub is_eof : TokenType → Bool
is_eof tok_eof = true
is_eof _ = false

-- `do { tok = lexer_next(&l2); ... } while (tok.type != TOK_EOF)`: the tokens that are printed, or
-- `none` where the fuel runs out.
unfoldable pub all_tokens : ℕ → Lexer → Option (List Token)
all_tokens zero l = none
all_tokens (suc fuel) l =
    let (t, m) = lexer_next l in
    elim (is_eof t.type) [
      | true ↦ some (t ∷ [])
      | false ↦ elim (all_tokens fuel m) [ none ↦ none | some ts ↦ some (t ∷ ts) ]
    ]
