-- ===== src/Lexer/Progress/Digits.antt =====
-- The moves of `lex_number`.
use fermi.Base.{ℕ, ◌-◌, ◌≡◌, arith, Bool, true, ◌&&◌, ◌||◌, [], ltb, ◌==◌, if◌then◌else◌}
use fermi.Base.Text.{Bytes}
use fermi.Lexer.Literal.{Scan}
use fermi.Lexer.Moves.{Moves, stay, step, copy, trans, adv, while-Moves, while-Moves_first}
use fermi.Lexer.Number.{
  push, push_digit, digits, in_digits, exponent_digits, in_exponent, is_binary, is_octal,
  radix_digits, has_fraction, fraction, has_exponent, push_sign, exponent, decimal_digits, is_float,
  suffix, hex_suffix, has_prefix, lex_hex, lex_radix, lex_decimal, lex_number,
}
use fermi.Lexer.Progress.{if_scan-Moves}
use fermi.Lexer.{Lexer, pk, lx_adv, rounds, isdigit, isxdigit}
use fermi.Token.{Token}

digits-Moves : (digit : ℕ → Bool) (s : Scan Bytes) → Moves s.lexer (digits digit s).lexer
unfolding digits
digits-Moves digit s =
    while-Moves (λ (s : Scan Bytes). s.lexer) (in_digits digit) push_digit (λ t. adv t.lexer)
      (rounds s.lexer) s

digits-Moves_first :
    (digit : ℕ → Bool) (s : Scan Bytes)
    → in_digits digit s ≡ true
    → Moves (lx_adv s.lexer) (digits digit s).lexer
unfolding digits
digits-Moves_first digit s e =
    while-Moves_first (λ (s : Scan Bytes). s.lexer) (in_digits digit) push_digit (λ t. adv t.lexer)
      (s.lexer.len - s.lexer.pos) s e

exponent_digits-Moves : (s : Scan Bytes) → Moves s.lexer (exponent_digits s).lexer
unfolding exponent_digits
exponent_digits-Moves s =
    while-Moves (λ (s : Scan Bytes). s.lexer) in_exponent push (λ t. adv t.lexer) (rounds s.lexer) s

fraction-Moves : (s : Scan Bytes) → Moves s.lexer (fraction s).lexer
unfolding fraction
fraction-Moves s =
    if_scan-Moves (has_fraction s.lexer) _ _ (trans (adv s.lexer) (digits-Moves isdigit (push s)))
      stay

push_sign-Moves : (s : Scan Bytes) → Moves s.lexer (push_sign s).lexer
push_sign-Moves s = if_scan-Moves (pk s.lexer == b'+' || pk s.lexer == b'-') _ _ (adv s.lexer) stay

exponent-Moves : (s : Scan Bytes) → Moves s.lexer (exponent s).lexer
unfolding exponent
exponent-Moves s =
    if_scan-Moves (has_exponent s.lexer) _ _
      (trans (adv s.lexer)
        (trans (push_sign-Moves (push s)) (exponent_digits-Moves (push_sign (push s)))))
      stay

suffix-Moves : (float : Bool) (l : Lexer) → Moves l (suffix float l).lexer
unfolding suffix
suffix-Moves float l = if_scan-Moves (pk l == b'd' || pk l == b'D') _ _ (adv l) (
    if_scan-Moves (pk l == b'f' || pk l == b'F') _ _ (adv l) (
      if_scan-Moves (pk l == b'L') _ _ (adv l) (
        if_scan-Moves (pk l == b'u') _ _
          (if_scan-Moves (pk (lx_adv l) == b'L') _ _ (step (adv l)) (adv l))
          (if_scan-Moves float _ _ stay stay))))

hex_suffix-Moves : (l : Lexer) → Moves l (hex_suffix l).lexer
unfolding hex_suffix
hex_suffix-Moves l = if_scan-Moves (pk l == b'L') _ _ (adv l) stay

radix_digits-Moves : (digit : ℕ → Bool) (l : Lexer) → Moves (lx_adv l) (radix_digits digit l).lexer
unfolding radix_digits
radix_digits-Moves digit l = trans (adv (lx_adv l)) (digits-Moves digit _)

pub if_token-Moves :
    {l : Lexer} (b : Bool) (s t : Token × Lexer)
    → Moves l s.1
    → Moves l t.1
    → Moves l (if b then s else t).1
if_token-Moves true s t p q = p
if_token-Moves _ s t p q = q

lex_radix-Moves : (digit : ℕ → Bool) (l : Lexer) → Moves (lx_adv l) (lex_radix digit l).1
unfolding lex_radix
lex_radix-Moves digit l = copy _ _ (radix_digits-Moves digit l)

lex_hex-Moves : (l : Lexer) → Moves (lx_adv l) (lex_hex l).1
unfolding lex_hex
lex_hex-Moves l =
    copy _ _
      (trans (radix_digits-Moves isxdigit l) (hex_suffix-Moves (radix_digits isxdigit l).lexer))

lex_decimal-Moves :
    (l : Lexer) → (ltb l.pos l.len && isdigit (pk l)) ≡ true → Moves (lx_adv l) (lex_decimal l).1
unfolding lex_decimal decimal_digits
lex_decimal-Moves l e =
    let first = digits-Moves_first isdigit (record { value = []; lexer = l }) (ground arith) in
    let s = digits isdigit (record { value = []; lexer = l }) in
    copy _ _ (
      trans first (
        trans (fraction-Moves s) (
          trans (exponent-Moves (fraction s))
            (suffix-Moves (is_float l) (exponent (fraction s)).lexer))))

-- A number takes its first digit.
pub lex_number-Moves :
    (l : Lexer) → (ltb l.pos l.len && isdigit (pk l)) ≡ true → Moves (lx_adv l) (lex_number l).1
unfolding lex_number
lex_number-Moves l e = if_token-Moves (has_prefix b'x' b'X' l) _ _ (lex_hex-Moves l) (
    if_token-Moves (has_prefix b'b' b'B' l) _ _ (lex_radix-Moves is_binary l) (
      if_token-Moves (has_prefix b'o' b'O' l) _ _ (lex_radix-Moves is_octal l)
        (lex_decimal-Moves l e)))
