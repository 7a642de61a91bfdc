-- ===== src/Lexer/Progress.antt =====
-- Every scanner is a sequence of moves, and a token takes at least one character.
pub mod Digits
use fermi.Base.{
  ℕ, zero, suc, ◌≡◌, Bool, true, false, not, ◌&&◌, ◌||◌, [], ltb, leb, ◌==◌, if◌then◌else◌,
  Bool-cases, inl, inr,
}
use fermi.Base.Text.{Bytes}
use fermi.Lexer.Literal.{
  Scan, lex_ident, hex_digit, hex_digits, add_digit, hex_run, braced_escape, unicode_escape,
  byte_escape, lex_escape, string_escape, string_round, string_body, in_string, close_string,
  lex_string, at_hex, in_raw, raw_body, raw_round, lex_raw_string, char_escape, char_body, lex_char,
}
use fermi.Lexer.Moves.{Moves, stay, step, alloc, trans, copy, adv, if-Moves, while-Moves}
use fermi.Lexer.Trivia.{skip_while_first}
use fermi.Lexer.{Lexer, pk, pk2, here, lx_adv, rounds, isalnum, isxdigit}

pub if_scan-Moves :
    {A : Type 0} {l : Lexer} (b : Bool) (s t : Scan A)
    → Moves l s.lexer
    → Moves l t.lexer
    → Moves l (if b then s else t).lexer
if_scan-Moves true s t p q = p
if_scan-Moves _ s t p q = q

pub lex_ident-Moves :
    (l : Lexer)
    → (ltb l.pos l.len && (isalnum (pk l) || pk l == b'_')) ≡ true
    → Moves (lx_adv l) (lex_ident l).1
unfolding lex_ident
lex_ident-Moves l e = copy _ _ (skip_while_first (λ c. isalnum c || c == b'_') l e)

hex_digit-Moves : (l : Lexer) → Moves l (hex_digit l).lexer
unfolding hex_digit
hex_digit-Moves l = if_scan-Moves (isxdigit (pk l)) _ _ (adv l) stay

hex_digits-Moves : (k : ℕ) (s : Scan ℕ) → Moves s.lexer (hex_digits k s).lexer
unfolding hex_digits
hex_digits-Moves zero s = stay
hex_digits-Moves (suc k) s = elim (Bool-cases (ltb s.lexer.pos s.lexer.len)) [
  | inl e ↦ rw (e, hex_digits) (trans (adv s.lexer) (hex_digits-Moves k (add_digit s)))
  | inr e ↦ rw (e, hex_digits) stay
]

hex_run-Moves : (s : Scan ℕ) → Moves s.lexer (hex_run s).lexer
unfolding hex_run
hex_run-Moves s =
    while-Moves (λ (s : Scan ℕ). s.lexer) at_hex add_digit (λ t. adv t.lexer) (rounds s.lexer) s

braced_escape-Moves : (l : Lexer) → Moves l (braced_escape l).lexer
unfolding braced_escape
braced_escape-Moves l =
    let p = trans (adv l) (hex_run-Moves (record { value = 0; lexer = lx_adv l })) in
    if-Moves (pk (hex_run (record { value = 0; lexer = lx_adv l })).lexer == b'}') _ _ (step p) p

unicode_escape-Moves : (l : Lexer) → Moves l (unicode_escape l).lexer
unfolding unicode_escape
unicode_escape-Moves l =
    if_scan-Moves (pk l == b'{') _ _ (braced_escape-Moves l)
      (hex_digits-Moves 4 (record { value = 0; lexer = l }))

byte_escape-Moves : (l : Lexer) → Moves l (byte_escape l).lexer
unfolding byte_escape
byte_escape-Moves l = trans (hex_digit-Moves l) (hex_digit-Moves (hex_digit l).lexer)

pub lex_escape-Moves : (l : Lexer) → Moves l (lex_escape l).lexer
unfolding lex_escape
lex_escape-Moves l =
    let m = lx_adv l in
    if_scan-Moves (leb l.len l.pos) _ _ stay (
      if_scan-Moves (here l == b'x') _ _ (trans (adv l) (byte_escape-Moves m)) (
        if_scan-Moves (here l == b'u') _ _ (trans (adv l) (unicode_escape-Moves m)) (
          if_scan-Moves (here l == b'U') _ _
            (trans (adv l) (hex_digits-Moves 8 (record { value = 0; lexer = m }))) (adv l))))

string_escape-Moves : (s : Scan Bytes) → Moves (lx_adv s.lexer) (string_escape s).lexer
unfolding string_escape
string_escape-Moves s = lex_escape-Moves (lx_adv s.lexer)

-- Each round of a string's loop reads at least one character.
pub string_round-Moves : (s : Scan Bytes) → Moves (lx_adv s.lexer) (string_round s).lexer
unfolding string_round
string_round-Moves s = if_scan-Moves (pk s.lexer == b'\\') _ _ (string_escape-Moves s) stay

string_body-Moves : (triple : Bool) (l : Lexer) → Moves l (string_body triple l).lexer
unfolding string_body
string_body-Moves triple l =
    while-Moves (λ (s : Scan Bytes). s.lexer) (in_string triple) string_round
      (λ s. trans (adv s.lexer) (string_round-Moves s)) (rounds l)
      (record { value = []; lexer = l })

close_string-Moves : (triple : Bool) (l : Lexer) → Moves l (close_string triple l)
unfolding close_string
close_string-Moves triple l =
    if-Moves (pk l == b'"') _ _ (if-Moves triple _ _ (step (step (step stay))) (step stay)) stay

pub lex_string-Moves : (l : Lexer) → Moves (lx_adv l) (lex_string l).1
unfolding lex_string
lex_string-Moves l =
    let opened = lx_adv l in
    let triple = pk opened == b'"' && pk2 opened == b'"' in
    copy _ _ (
      trans (if-Moves triple (lx_adv (lx_adv opened)) opened (step (step stay)) stay) (
        trans (alloc 65536 stay)
          (trans (string_body-Moves triple _) (close_string-Moves triple _))))

raw_body-Moves : (l : Lexer) → Moves l (raw_body l).lexer
unfolding raw_body raw_round
raw_body-Moves l =
    while-Moves (λ (s : Scan Bytes). s.lexer) in_raw raw_round (λ s. adv s.lexer) (rounds l)
      (record { value = []; lexer = l })

pub lex_raw_string-Moves :
    (l : Lexer) (line col : ℕ) → Moves (lx_adv l) (lex_raw_string l line col).1
unfolding lex_raw_string
lex_raw_string-Moves l line col =
    let start = alloc {m = lx_adv l} 65536 stay in
    copy _ _ (trans start (trans (raw_body-Moves _) (close_string-Moves false _)))

char_escape-Moves : (l : Lexer) → Moves l (char_escape l).lexer
unfolding char_escape
char_escape-Moves l = trans (adv l) (lex_escape-Moves (lx_adv l))

char_body-Moves : (l : Lexer) → Moves l (char_body l).lexer
unfolding char_body
char_body-Moves l =
    if_scan-Moves (pk l == b'\\') _ _ (char_escape-Moves l)
      (if_scan-Moves (not (pk l == b'\'')) _ _ (adv l) stay)

pub lex_char-Moves : (l : Lexer) → Moves (lx_adv l) (lex_char l).1
unfolding lex_char
lex_char-Moves l =
    let p = char_body-Moves (lx_adv l) in
    copy _ _ (if-Moves (pk (char_body (lx_adv l)).lexer == b'\'') _ _ (step p) p)
