-- ===== src/Lexer/Literal.antt =====
-- src/felexer/lexer.c, the scanners of identifiers, escapes, strings and characters.
-- A buffer of the source is the list of its bytes so far. The 65536 bytes of a string's buffer
-- are taken from the arena first.
use fermi.Base.{
  ℕ, zero, suc, ◌+◌, ◌-◌, ◌*◌, ◌%◌, ◌^◌, Bool, true, false, not, ◌&&◌, ◌||◌, [], ◌∷◌, ◌++◌, ltb,
  leb, ◌==◌, if◌then◌else◌, length, take, drop,
}
use fermi.Base.Loops.{while}
use fermi.Base.Text.{Bytes}
use fermi.Arena.{arena_alloc}
use fermi.Lexer.Keyword.{kw_check}
use fermi.Lexer.Utf8.{hexval, encode_utf8}
use fermi.Lexer.{Lexer, pk, pk2, pk3, here, lx_adv, mktok, rounds, skip_while, isalnum, isxdigit}
use fermi.Token.{TokenType, Token, tok_true, tok_false, tok_bool_lit, tok_string_lit, tok_char_lit}

-- `true` and `false` are literals.
bool_lit : TokenType → TokenType
bool_lit tok_true = tok_bool_lit
bool_lit tok_false = tok_bool_lit
bool_lit t = t

unfoldable pub lex_ident : Lexer → Token × Lexer
unfolding bool_lit skip_while mktok kw_check
lex_ident l =
    let m = skip_while (λ c. isalnum c || c == b'_') l in
    let len = m.pos - l.pos in
    let s = drop l.pos l.src in mktok m (bool_lit (kw_check (take len s) len)) s len l.line l.col

-- A scanned value, with the state behind it.
pub record Scan {ℓ} (A : Type ℓ) : Type ℓ where
  pub value : A
  pub lexer : Lexer

-- `isxdigit(pk(l)) ? lx_adv(l) : '0'`
unfoldable pub hex_digit : Lexer → Scan ℕ
unfolding lx_adv
hex_digit l =
    if isxdigit (pk l)
    then record { value = here l; lexer = lx_adv l }
    else record { value = b'0'; lexer = l }

-- `cp = cp*16 + hexval(lx_adv(l))` on a uint32_t.
abbrev pub add_digit : Scan ℕ → Scan ℕ
add_digit s = record {
  value = (s.value * 16 + hexval (here s.lexer)) % 2 ^ 32;
  lexer = lx_adv s.lexer;
}

-- `for (k = 0; k < n && l->pos < l->len; k++)`
unfoldable pub hex_digits : ℕ → Scan ℕ → Scan ℕ
unfolding hexval lx_adv
hex_digits zero s = s
hex_digits (suc k) s = elim (ltb s.lexer.pos s.lexer.len) [
  | true ↦ hex_digits k (add_digit s)
  | false ↦ s
]

-- `while (l->pos < l->len && isxdigit(pk(l)))`
abbrev pub at_hex : Scan ℕ → Bool
at_hex s = ltb s.lexer.pos s.lexer.len && isxdigit (pk s.lexer)

unfoldable pub hex_run : Scan ℕ → Scan ℕ
unfolding while hexval lx_adv
hex_run s = while (rounds s.lexer) at_hex add_digit s

abbrev pub encoded : Scan ℕ → Scan Bytes
encoded s = record { value = encode_utf8 s.value; lexer = s.lexer }

-- `case 'u'`: `\u{...}`, or four digits.
unfoldable pub braced_escape : Lexer → Scan Bytes
unfolding hex_run encode_utf8 lx_adv
braced_escape l =
    let s = hex_run (record { value = 0; lexer = lx_adv l }) in
    encoded (record s { lexer = if pk s.lexer == b'}' then lx_adv s.lexer else s.lexer })

unfoldable pub unicode_escape : Lexer → Scan Bytes
unfolding braced_escape hex_digits encode_utf8
unicode_escape l =
    if pk l == b'{'
    then braced_escape l
    else encoded (hex_digits 4 (record { value = 0; lexer = l }))

-- `case 'x'`: `hexval(h1) << 4 | hexval(h2)`, a sum since the second is below 16.
unfoldable pub byte_escape : Lexer → Scan Bytes
unfolding hex_digit hexval
byte_escape l =
    let h1 = hex_digit l in
    let h2 = hex_digit h1.lexer in
    record { value = (hexval h1.value * 16 + hexval h2.value) ∷ []; lexer = h2.lexer }

-- The escapes of one character.
unfoldable pub simple_escape : ℕ → Bytes
simple_escape e =
    if e == b'n'
    then 10 ∷ []
    else if e == b't'
    then 9 ∷ []
    else if e == b'r'
    then 13 ∷ []
    else if e == b'a'
    then 7 ∷ []
    else if e == b'b'
    then 8 ∷ []
    else if e == b'f'
    then 12 ∷ []
    else if e == b'v'
    then 11 ∷ []
    else if e == b'\\'
    then b'\\' ∷ []
    else if e == b'"'
    then b'"' ∷ []
    else if e == b'\''
    then b'\'' ∷ []
    else if e == b'0'
    then 0 ∷ []
    else if e == b'\n'
    then []
    else b'\\' ∷ e ∷ []

-- The bytes of an escape behind its backslash; their number is what the source returns.
unfoldable pub lex_escape : Lexer → Scan Bytes
unfolding unicode_escape byte_escape simple_escape hex_digits encode_utf8 lx_adv
lex_escape l =
    if leb l.len l.pos
    then record { value = []; lexer = l }
    else let e = here l in
      let m = lx_adv l in
      if e == b'x'
      then byte_escape m
      else if e == b'u'
      then unicode_escape m
      else if e == b'U'
      then encoded (hex_digits 8 (record { value = 0; lexer = m }))
      else record { value = simple_escape e; lexer = m }

abbrev pub buffer_limit : ℕ
buffer_limit = 65530

abbrev alloc_buffer : Lexer → Lexer
alloc_buffer l = record l { arena = (arena_alloc l.arena 65536).1 }

-- The closing quote, or three of them.
abbrev pub at_close : Bool → Lexer → Bool
at_close triple l = if triple then pk l == b'"' && pk2 l == b'"' && pk3 l == b'"' else pk l == b'"'

-- One round: an escape, of which as much is stored as fits, or one character.
unfoldable pub string_escape : Scan Bytes → Scan Bytes
unfolding lex_escape lx_adv
string_escape s =
    let e = lex_escape (lx_adv s.lexer) in
    record { value = s.value ++ take (buffer_limit - length s.value) e.value; lexer = e.lexer }

unfoldable pub string_round : Scan Bytes → Scan Bytes
unfolding string_escape lx_adv
string_round s =
    if pk s.lexer == b'\\'
    then string_escape s
    else record { value = s.value ++ here s.lexer ∷ []; lexer = lx_adv s.lexer }

-- The loop's condition and its two tests on the quotes; `if (i >= 65530) break` ends each round,
-- and so stands here too.
abbrev pub in_string : Bool → Scan Bytes → Bool
in_string triple s =
    ltb s.lexer.pos s.lexer.len
    && not (at_close triple s.lexer)
    && ltb (length s.value) buffer_limit

unfoldable pub string_body : Bool → Lexer → Scan Bytes
unfolding string_round while
string_body triple l =
    while (rounds l) (in_string triple) string_round (record { value = []; lexer = l })

-- The quotes behind a string: one, or three where the first of them is there.
unfoldable pub close_string : Bool → Lexer → Lexer
unfolding lx_adv
close_string triple l =
    if pk l == b'"' then (if triple then lx_adv (lx_adv (lx_adv l)) else lx_adv l) else l

unfoldable pub lex_string : Lexer → Token × Lexer
unfolding string_body close_string lx_adv mktok
lex_string l =
    let opened = lx_adv l in
    let triple = pk opened == b'"' && pk2 opened == b'"' in
    let start = if triple then lx_adv (lx_adv opened) else opened in
    let s = string_body triple (alloc_buffer start) in
    mktok (close_string triple s.lexer) tok_string_lit s.value (length s.value) l.line l.col

unfoldable pub raw_round : Scan Bytes → Scan Bytes
unfolding lx_adv
raw_round s = record {
  value = if ltb (length s.value) buffer_limit then s.value ++ here s.lexer ∷ [] else s.value;
  lexer = lx_adv s.lexer;
}

abbrev pub in_raw : Scan Bytes → Bool
in_raw s = ltb s.lexer.pos s.lexer.len && not (pk s.lexer == b'"')

unfoldable pub raw_body : Lexer → Scan Bytes
unfolding raw_round while
raw_body l = while (rounds l) in_raw raw_round (record { value = []; lexer = l })

unfoldable pub lex_raw_string : Lexer → ℕ → ℕ → Token × Lexer
unfolding raw_body close_string mktok lx_adv
lex_raw_string l line col =
    let s = raw_body (alloc_buffer (lx_adv l)) in
    mktok (close_string false s.lexer) tok_string_lit s.value (length s.value) line col

-- The content of a character literal.
unfoldable pub char_escape : Lexer → Scan Bytes
unfolding lex_escape lx_adv
char_escape l = let e = lex_escape (lx_adv l) in record { value = take 7 e.value; lexer = e.lexer }

unfoldable pub char_body : Lexer → Scan Bytes
unfolding char_escape lx_adv
char_body l =
    if pk l == b'\\'
    then char_escape l
    else if not (pk l == b'\'')
    then record { value = here l ∷ []; lexer = lx_adv l }
    else record { value = []; lexer = l }

unfoldable pub lex_char : Lexer → Token × Lexer
unfolding char_body lx_adv mktok
lex_char l =
    let s = char_body (lx_adv l) in
    mktok (if pk s.lexer == b'\'' then lx_adv s.lexer else s.lexer) tok_char_lit s.value
      (length s.value) l.line l.col
