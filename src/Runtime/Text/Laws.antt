-- ===== src/Runtime/Text/Laws.antt =====
-- What the string functions compute, by concatenation; and the text of an integer.
use native.Mathlib.Nat.{mod-eq_of_lt}
use mathlib.Core.List.{reverse, reverse-cons}
use fermi.Base.{
  ℕ, zero, suc, ◌+◌, ◌-◌, ◌/◌, ◌%◌, ◌^◌, ◌<◌, ◌≤◌, ◌≡◌, ◌↔◌, ◌∙◌, sym, refl, ap, arith, Bool, true,
  false, if◌then◌else◌, [], ◌∷◌, ◌++◌, some, ltb, leb, ◌==◌, length-append, length, take, drop,
  Bool-cases, inl, inr,
}
use fermi.Base.Decimal.{digits_up, decimal, decimal_head, is_plain, decimal-is_plain}
use fermi.Base.Int.{ℤ, pos, negsuc, word64, to_word, IsI64}
use fermi.Base.Text.{Bytes, str_eq_iff, str_eq_refl}
use fermi.Opt.Const.{atoll, print_lld, atoll-print_lld}
use fermi.Runtime.Text.{
  strncmp_eq, fe_starts_with, fe_ends_with, fe_slice, digits_from_lowest, fmt_i64_internal,
  fe_println_i64, unsigned, is_below_zero,
}

strncmp_eq-append : (p rest : Bytes) → strncmp_eq (p ++ rest) p ≡ true
unfolding strncmp_eq
strncmp_eq-append [] rest = refl
strncmp_eq-append (c ∷ p) rest = ground (arith, strncmp_eq-append p rest)

strncmp_eq-drop : (s p : Bytes) → strncmp_eq s p ≡ true → s ≡ p ++ drop (length p) s
unfolding strncmp_eq
strncmp_eq-drop s [] h = refl
strncmp_eq-drop [] (c ∷ p) h = absurd (ground arith)
strncmp_eq-drop (d ∷ s) (c ∷ p) h = ground (arith, strncmp_eq-drop s p)

-- `fe_starts_with` is true of two strings if and only if the first is the second with a text behind
-- it.
fe_starts_with_iff :
    (s p : Bytes) → (fe_starts_with (some s) (some p) ≡ true) ↔ ((rest : Bytes) × (s ≡ p ++ rest))
unfolding fe_starts_with
fe_starts_with_iff s p =
    (λ h. (drop (length p) s, strncmp_eq-drop s p h), λ (rest, e). rw e (strncmp_eq-append p rest))

take-append-drop : (s : Bytes) (n : ℕ) → take n s ++ drop n s ≡ s
take-append-drop [] zero = refl
take-append-drop [] (suc n) = refl
take-append-drop (c ∷ s) zero = refl
take-append-drop (c ∷ s) (suc n) = ap (λ t. c ∷ t) (take-append-drop s n)

drop-append_front : (front s : Bytes) → drop (length front) (front ++ s) ≡ s
drop-append_front [] s = refl
drop-append_front (c ∷ front) s = drop-append_front front s

-- `fe_ends_with` is true of two strings if and only if the first is the second with a text before
-- it.
fe_ends_with_iff :
    (s suf : Bytes)
    → (fe_ends_with (some s) (some suf) ≡ true) ↔ ((front : Bytes) × (s ≡ front ++ suf))
unfolding fe_ends_with
fe_ends_with_iff s suf = (
  λ h.
      let k = length s - length suf in
      let tail : drop k s ≡ suf = (str_eq_iff (drop k s) suf).0 (ground (arith, h)) in
      (take k s, sym (take-append-drop s k) ∙ ap (λ t. take k s ++ t) tail),
  λ (front, e).
      let n = length-append front suf in
      let size : length (front ++ suf) - length suf ≡ length front = omega (arith, n) in
      let fits : leb (length suf) (length (front ++ suf)) ≡ true = ground (arith, n) in
      let tail = drop-append_front front suf in rw (e, fits, size, tail) (str_eq_refl suf),
)

length-take_within : (n : ℕ) (s : Bytes) → n ≤ length s → length (take n s) ≡ n
length-take_within zero s h = refl
length-take_within (suc n) [] h = absurd (omega arith)
length-take_within (suc n) (c ∷ s) h = omega (arith, length-take_within n s)

length-drop : (n : ℕ) (s : Bytes) → length (drop n s) ≡ length s - n
length-drop zero s = omega arith
length-drop (suc n) [] = omega arith
length-drop (suc n) (c ∷ s) = omega (arith, length-drop n s)

-- For offsets in order within the string, `fe_slice` gives the `b - a` characters between them: what
-- is before, the slice and what is behind make the string.
fe_slice-parts :
    (s : Bytes) (a b : ℕ)
    → a ≤ b
    → b ≤ length s
    → (length (fe_slice (some s) (pos a) (pos b)) ≡ b - a)
      × (take a s ++ (fe_slice (some s) (pos a) (pos b) ++ drop (b - a) (drop a s)) ≡ s)
unfolding fe_slice
fe_slice-parts s a b h k =
    let whole : ltb (length s) b ≡ false = ground arith in
    let order : ltb b a ≡ false = ground arith in
    rw (whole, order)
      (
        length-take_within (b - a) (drop a s) (omega (arith, length-drop a s)),
        ap (λ t. take a s ++ t) (take-append-drop (drop a s) (b - a)) ∙ take-append-drop s a,
      )

-- The text of an `int64_t` begins with the sign, and the digits are those of its magnitude.
fmt_i64_internal-print_lld : (v : ℤ) → IsI64 v → fmt_i64_internal v ≡ print_lld v
unfolding fmt_i64_internal digits_from_lowest unsigned is_below_zero to_word print_lld decimal
fmt_i64_internal-print_lld (pos n) h =
    let small : n % word64 ≡ n = mod-eq_of_lt (omega arith) in
    let sign : leb (2 ^ 63) n ≡ false = ground arith in
    rw (small, sign) (elim (Bool-cases (n == 0)) [ inl e ↦ rw e refl | inr e ↦ rw e refl ])
fmt_i64_internal-print_lld (negsuc n) h =
    let small : n % word64 ≡ n = mod-eq_of_lt (omega arith) in
    let sign : leb (2 ^ 63) (word64 - 1 - n) ≡ true = ground arith in
    let bits : ((word64 - 1 - n) == 0) ≡ false = ground arith in
    let size : (word64 - 1 - (word64 - 1 - n) + 1) % word64 ≡ suc n = omega arith in
    let none_zero : (suc n == 0) ≡ false = ground arith in
    rw (small, sign, bits, size, none_zero) refl

below_tenth : (k n : ℕ) → n < 10 ^ suc k → n / 10 < 10 ^ k
below_tenth k n h = grind arith

length_reversed : (s : Bytes) → length (reverse s) ≡ length s
length_reversed [] = refl
length_reversed (c ∷ s) =
    rw (reverse-cons c s) (omega (arith, length-append (reverse s) (c ∷ []), length_reversed s))

length-digits_up : (k fuel n : ℕ) → n < 10 ^ k → length (digits_up fuel n) ≤ k
unfolding digits_up
length-digits_up k zero n h = omega arith
length-digits_up zero (suc fuel) n h = ground arith
length-digits_up (suc k) (suc fuel) n h =
    ground (arith, length-digits_up k fuel (n / 10) (below_tenth k n h))

length-decimal : (n : ℕ) → n ≤ 2 ^ 63 → length (decimal n) ≤ 19
unfolding decimal
length-decimal n h = elim (Bool-cases (n == 0)) [
  | inl e ↦ rw e (omega arith)
  | inr e ↦
      rw e (omega (arith, length_reversed (digits_up n n), length-digits_up 19 n n (omega arith)))
]

-- Digits without a zero in front, but for 0 itself; a minus may stand before them.
abbrev pub is_canonical : Bytes → Bool
is_canonical [] = false
is_canonical (c ∷ cs) = if c == b'-' then is_plain cs else is_plain (c ∷ cs)

length-print_lld : (v : ℤ) → IsI64 v → length (print_lld v) ≤ 20
unfolding print_lld
length-print_lld (pos n) h = omega (arith, length-decimal n (omega arith))
length-print_lld (negsuc n) h = omega (arith, length-decimal (suc n) (omega arith))

print_lld-is_canonical : (v : ℤ) → is_canonical (print_lld v) ≡ true
unfolding print_lld
print_lld-is_canonical (pos n) =
    let (c, cs, e, h) = decimal_head n in
    let plain : is_plain (c ∷ cs) ≡ true = rw e at (decimal-is_plain n) in
    let digit : (c == b'-') ≡ false = ground arith in rw (e, digit) plain
print_lld-is_canonical (negsuc n) = decimal-is_plain (suc n)

-- For every `int64_t`: the text that `fe_print_i64` writes is read back as it, has at most 20 of the
-- 32 bytes of its buffer, and is digits that do not begin with 0, but for 0 itself, with at most a
-- minus before them.
pub fmt_i64_internal-atoll :
    (v : ℤ)
    → IsI64 v
    → (atoll (fmt_i64_internal v) ≡ v)
      × (length (fmt_i64_internal v) ≤ 20)
      × (is_canonical (fmt_i64_internal v) ≡ true)
fmt_i64_internal-atoll v h =
    rw (fmt_i64_internal-print_lld v h)
      (atoll-print_lld v h, length-print_lld v h, print_lld-is_canonical v)

-- For a value of `int64_t`, the text of `fe_println_i64` has at most 21 of the 33 bytes of its
-- buffer.
fe_println_i64_fits : (v : ℤ) → IsI64 v → length (fe_println_i64 v) ≤ 21
unfolding fe_println_i64
fe_println_i64_fits v h =
    omega (arith, length-append (fmt_i64_internal v) (b'\n' ∷ []), (fmt_i64_internal-atoll v h).1)
