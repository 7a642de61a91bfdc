-- ===== src/Lexer/Bounds.antt =====
-- The buffers of the scanners: what stays within them, and what does not.
use fermi.Base.{
  ℕ, zero, suc, ◌+◌, ◌-◌, ◌≤◌, ◌<◌, ◌≡◌, arith, Bool, true, ◌&&◌, [], ◌∷◌, ltb, length,
  length-append, take,
}
use fermi.Base.Loops.{while, while_keeps}
use fermi.Base.Text.{Bytes}
use fermi.Lexer.Literal.{
  Scan, lex_escape, string_escape, string_round, string_body, in_string, raw_round, raw_body,
  in_raw,
}
use fermi.Lexer.Moves.{pos-lx_adv, Moves-Onward, adv}
use fermi.Lexer.Number.{
  push, push_digit, digits, in_digits, exponent_digits, in_exponent, radix_digits, fraction,
}
use fermi.Lexer.{Lexer, pk, here, lx_adv, rounds, isdigit}

length-take_le : (n : ℕ) (xs : Bytes) → length (take n xs) ≤ n
length-take_le zero xs = omega arith
length-take_le (suc n) [] = omega arith
length-take_le (suc n) (x ∷ xs) = omega (arith, length-take_le n xs)

string_escape_fits :
    (s : Scan Bytes) → length s.value ≤ 65530 → length (string_escape s).value ≤ 65530
unfolding string_escape
string_escape_fits s h =
    let e = lex_escape (lx_adv s.lexer) in
    omega (
      arith,
      length-append s.value (take (65530 - length s.value) e.value),
      length-take_le (65530 - length s.value) e.value,
    )

string_round_fits :
    (triple : Bool) (s : Scan Bytes)
    → length s.value ≤ 65530
    → in_string triple s ≡ true
    → length (string_round s).value ≤ 65530
unfolding string_round
string_round_fits triple s h e =
    ground (arith, string_escape_fits s h, length-append s.value (here s.lexer ∷ []))

-- The body of a string literal, closed by one quote or by three, stores at most 65530 of the
-- 65536 bytes of its buffer, whatever the source.
pub string_body_fits : (triple : Bool) (l : Lexer) → length (string_body triple l).value ≤ 65530
unfolding string_body
string_body_fits triple l =
    while_keeps (λ (s : Scan Bytes). length s.value ≤ 65530) (in_string triple) string_round
      (string_round_fits triple) (rounds l) (record { value = []; lexer = l }) (omega arith)

raw_round_fits : (s : Scan Bytes) → length s.value ≤ 65530 → length (raw_round s).value ≤ 65530
unfolding raw_round
raw_round_fits s h = ground (arith, length-append s.value (here s.lexer ∷ []))

-- The body of a raw string literal stores at most 65530 of the 65536 bytes of its buffer,
-- whatever the source.
raw_body_fits : (l : Lexer) → length (raw_body l).value ≤ 65530
unfolding raw_body
raw_body_fits l =
    while_keeps (λ (s : Scan Bytes). length s.value ≤ 65530) in_raw raw_round
      (λ s h e. raw_round_fits s h) (rounds l) (record { value = []; lexer = l }) (omega arith)

-- Digits are stored up to 68 bytes, and not behind that.
abbrev Within : ℕ → Scan Bytes → Type 0
Within n s = length s.value ≤ n

push_digit_fits : (n : ℕ) (s : Scan Bytes) → 68 ≤ n → Within n s → Within n (push_digit s)
push_digit_fits n s large h = ground (arith, length-append s.value (here s.lexer ∷ []))

digits_fits :
    (digit : ℕ → Bool) (n : ℕ) (s : Scan Bytes) → 68 ≤ n → Within n s → Within n (digits digit s)
unfolding digits
digits_fits digit n s large h =
    while_keeps (Within n) (in_digits digit) push_digit (λ t k e. push_digit_fits n t large k)
      (rounds s.lexer) s h

push_fits : (n : ℕ) (s : Scan Bytes) → Within n s → Within (n + 1) (push s)
push_fits n s h = omega (arith, length-append s.value (here s.lexer ∷ []))

fraction_fits : (s : Scan Bytes) → Within 68 s → Within 69 (fraction s)
unfolding fraction
fraction_fits s h = ground (arith, digits_fits isdigit 69 (push s) (omega arith) (push_fits 68 s h))

-- Of the buffer of 72 bytes, a literal with a radix prefix stores at most 68, and a decimal one
-- at most 69 up to its exponent, whatever the source.
mantissa_fits :
    (digit : ℕ → Bool) (l : Lexer)
    → (length (radix_digits digit l).value ≤ 68)
      × (length (fraction (digits isdigit (record { value = []; lexer = l }))).value ≤ 69)
unfolding radix_digits
mantissa_fits digit l =
    let start : Scan Bytes = record { value = []; lexer = l } in
    (
      digits_fits digit 68 (push (push start)) (omega arith) (omega arith),
      fraction_fits (digits isdigit start)
          (digits_fits isdigit 68 start (omega arith) (omega arith)),
    )

-- The next `k` characters are digits.
pub data DigitsAhead : ℕ → Lexer → Type 0 where
  none_left : {l : Lexer} → DigitsAhead zero l
  digit :
      {k : ℕ} {l : Lexer}
      → (ltb l.pos l.len && isdigit (pk l)) ≡ true
      → DigitsAhead k (lx_adv l)
      → DigitsAhead (suc k) l

exponent_loop :
    (k fuel : ℕ) (s : Scan Bytes)
    → DigitsAhead k s.lexer
    → k ≤ fuel
    → length s.value + k ≤ length (while fuel in_exponent push s).value
unfolding while
exponent_loop zero fuel s d h =
    while_keeps (λ (t : Scan Bytes). length s.value + 0 ≤ length t.value) in_exponent push
      (λ t p e. omega (arith, p, length-append t.value (here t.lexer ∷ []))) fuel s (omega arith)
exponent_loop (suc k) zero s d h = absurd (omega arith)
exponent_loop (suc k) (suc fuel) s (digit e d) h =
    rw (e, while)
      (omega (
        arith,
        exponent_loop k fuel (push s) d (omega arith),
        length-append s.value (here s.lexer ∷ []),
      ))

DigitsAhead-room : (k : ℕ) (l : Lexer) → DigitsAhead k l → k ≤ l.len - l.pos
DigitsAhead-room zero l d = omega arith
DigitsAhead-room (suc k) l (digit e d) =
    let o = Moves-Onward (adv l) in
    let room : l.pos < l.len = ground arith in
    omega (arith, DigitsAhead-room k (lx_adv l) d, pos-lx_adv l, o.same_len, room)

-- Where `k` digits follow, scanning an exponent lengthens the stored text by at least `k`
-- bytes: no test bounds it by the 72 bytes of the buffer.
pub exponent_digits_overflow :
    (k : ℕ) (s : Scan Bytes)
    → DigitsAhead k s.lexer
    → length s.value + k ≤ length (exponent_digits s).value
unfolding exponent_digits
exponent_digits_overflow k s d =
    exponent_loop k (rounds s.lexer) s d (omega (arith, DigitsAhead-room k s.lexer d))
