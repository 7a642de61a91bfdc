-- ===== src/Opt/Const.antt =====
-- src/feopt/opt.c, `is_int_const` and `is_float_const`, and what the C library does for them:
-- `atoll`, `snprintf` with "%lld", and the doubles, which are a parameter.
use fermi.Base.{
  ℕ, suc, ◌≡◌, ap, ◌∙◌, arith, Bool, true, false, ◌&&◌, ◌||◌, [], ◌∷◌, Option, none, some, ◌==◌,
  if◌then◌else◌,
}
use fermi.Base.Decimal.{
  decimal, value_from, all_digits, value-decimal, decimal-digits, decimal_head, is_digit,
}
use fermi.Base.Int.{ℤ, pos, negsuc, neg, IsI64, clamp, clamp-IsI64}
use fermi.Base.Text.{Bytes}

nonempty : Bytes → Bool
nonempty [] = false
nonempty _ = true

unfoldable pub is_int_const : Option Bytes → Bool
unfolding all_digits nonempty
is_int_const none = false
is_int_const (some []) = false
is_int_const (some (c ∷ cs)) =
    if c == b'-' then nonempty cs && all_digits cs else all_digits (c ∷ cs)

-- On a text that `is_int_const` accepts, where the source calls it. A number that is no `long long`,
-- for which C leaves the result open, gives the nearest one, as `strtoll` does.
unfoldable pub atoll : Bytes → ℤ
unfolding value_from clamp
atoll [] = pos 0
atoll (c ∷ cs) =
    if c == b'-' then clamp (neg (value_from 0 cs)) else clamp (pos (value_from 0 (c ∷ cs)))

-- "%lld"
unfoldable pub print_lld : ℤ → Bytes
print_lld (pos n) = decimal n
print_lld (negsuc n) = b'-' ∷ decimal (suc n)

-- Doubles: `strtod` of a whole text, the arithmetic, `r != 0`, and "%.17g".
pub record Doubles : Type 1 where
  pub Double : Type 0
  pub strtod : Bytes → Option Double
  pub fadd : Double → Double → Double
  pub fsub : Double → Double → Double
  pub fmul : Double → Double → Double
  pub fdiv : Double → Double → Double
  pub is_nonzero : Double → Bool
  pub zero_double : Double
  pub print_g : Double → Bytes

unfoldable pub is_float_const : Doubles → Option Bytes → Bool
is_float_const d none = false
is_float_const d (some []) = false
is_float_const d (some (c ∷ cs)) = elim (d.strtod (c ∷ cs)) [ none ↦ false | some x ↦ true ]

unfoldable pub is_const_val : Doubles → Option Bytes → Bool
unfolding is_int_const is_float_const
is_const_val d s = is_int_const s || is_float_const d s

is_int_const-digits :
    (c : ℕ) (cs : Bytes)
    → is_digit c ≡ true
    → all_digits (c ∷ cs) ≡ true
    → is_int_const (some (c ∷ cs)) ≡ true
unfolding is_int_const
is_int_const-digits c cs h all = ground arith

is_int_const-minus :
    (c : ℕ) (cs : Bytes) → all_digits (c ∷ cs) ≡ true → is_int_const (some (b'-' ∷ c ∷ cs)) ≡ true
unfolding is_int_const
is_int_const-minus c cs all = ground arith

-- A printed constant is read as a constant.
pub is_int_const-print_lld : (z : ℤ) → is_int_const (some (print_lld z)) ≡ true
is_int_const-print_lld (pos n) =
    let (c, cs, e, h) = decimal_head n in
    unfold print_lld in rw e (is_int_const-digits c cs h (rw e at (decimal-digits n)))
is_int_const-print_lld (negsuc n) =
    let (c, cs, e, h) = decimal_head (suc n) in
    unfold print_lld in rw e (is_int_const-minus c cs (rw e at (decimal-digits (suc n))))

atoll-digits :
    (c : ℕ) (cs : Bytes) → is_digit c ≡ true → atoll (c ∷ cs) ≡ clamp (pos (value_from 0 (c ∷ cs)))
unfolding atoll
atoll-digits c cs h = ground arith

-- A `long long` is read as the number that was printed.
pub atoll-print_lld : (z : ℤ) → IsI64 z → atoll (print_lld z) ≡ z
atoll-print_lld (pos n) l =
    let (c, cs, e, h) = decimal_head n in
    unfold print_lld in
    rw e (
      atoll-digits c cs h
      ∙ ap (λ k. clamp (pos k)) (rw e at (value-decimal n))
      ∙ clamp-IsI64 (pos n) l)
atoll-print_lld (negsuc n) l =
    unfold print_lld atoll in rw (value-decimal (suc n)) (clamp-IsI64 (negsuc n) l)
