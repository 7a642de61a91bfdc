-- ===== src/Opt/Fold.antt =====
-- src/feopt/opt.c, `fold_block`: constants through the variables of a block, constant folding and
-- algebraic identities. A `long long` result wraps to 64 bits, also that of dividing the least one
-- by -1, and a shift takes its count modulo 64; the source leaves these to the compiler, and the
-- division may trap.
use Prim.Native.Nat.{bit_and, bit_or, bit_xor}
use fermi.Base.{
  ℕ, suc, ◌+◌, ◌-◌, ◌*◌, ◌/◌, ◌%◌, ◌^◌, Bool, true, false, not, ◌&&◌, ◌||◌, [], ◌∷◌, Option, none,
  some, ◌==◌, if◌then◌else◌,
}
use fermi.Base.Int.{ℤ, pos, negsuc, neg, word64, to_word, of_word}
use fermi.Base.Text.{Bytes, codes, str_eq}
use fermi.Fir.{
  FirOp, fir_add, fir_sub, fir_mul, fir_div, fir_mod, fir_and, fir_or, fir_xor, fir_shl, fir_shr,
  fir_fadd, fir_fsub, fir_fmul, fir_fdiv,
}
use fermi.Opt.Const.{Doubles, is_int_const, atoll, print_lld}

unfoldable pub is_float_ty : Option Bytes → Bool
unfolding str_eq
is_float_ty none = false
is_float_ty (some t) = str_eq t (codes "float") || str_eq t (codes "double")

-- The quotient and the remainder towards zero, 0 where the divisor is.
unfoldable pub magnitude : ℤ → ℕ
magnitude (pos n) = n
magnitude (negsuc n) = suc n

unfoldable pub signed : Bool → ℕ → ℤ
signed true n = neg n
signed false n = pos n

unfoldable pub is_negative : ℤ → Bool
is_negative (pos n) = false
is_negative (negsuc n) = true

unfoldable pub differ : Bool → Bool → Bool
differ true b = not b
differ false b = b

unfoldable pub quotient : ℤ → ℤ → ℤ
unfolding magnitude signed is_negative differ
quotient a b =
    if magnitude b == 0
    then pos 0
    else signed (differ (is_negative a) (is_negative b)) (magnitude a / magnitude b)

unfoldable pub remainder : ℤ → ℤ → ℤ
unfolding magnitude signed is_negative
remainder a b =
    if magnitude b == 0 then pos 0 else signed (is_negative a) (magnitude a % magnitude b)

-- `a >> n` keeps the sign.
unfoldable pub shift_right : ℤ → ℕ → ℤ
shift_right (pos a) n = pos (a / 2 ^ n)
shift_right (negsuc a) n = negsuc (a / 2 ^ n)

-- The switch on integer constants.
unfoldable pub fold_int : FirOp → ℤ → ℤ → Option ℤ
fold_int fir_add a b = some (of_word ((to_word a + to_word b) % word64))
fold_int fir_sub a b = some (of_word ((to_word a + word64 - to_word b) % word64))
fold_int fir_mul a b = some (of_word (to_word a * to_word b % word64))
fold_int fir_div a b = some (of_word (to_word (quotient a b)))
fold_int fir_mod a b = some (remainder a b)
fold_int fir_and a b = some (of_word (bit_and (to_word a) (to_word b)))
fold_int fir_or a b = some (of_word (bit_or (to_word a) (to_word b)))
fold_int fir_xor a b = some (of_word (bit_xor (to_word a) (to_word b)))
fold_int fir_shl a b = some (of_word (to_word a * 2 ^ (to_word b % 64) % word64))
fold_int fir_shr a b = some (shift_right a (to_word b % 64))
fold_int _ a b = none

module _ (fl : Doubles) where
  open fl use {Double, strtod, fadd, fsub, fmul, fdiv, is_nonzero, zero_double, print_g}

  -- The switch on floating constants.
  unfoldable pub fold_float : FirOp → Double → Double → Option Double
  fold_float fir_fadd a b = some (fadd a b)
  fold_float fir_fsub a b = some (fsub a b)
  fold_float fir_fmul a b = some (fmul a b)
  fold_float fir_fdiv a b = some (if is_nonzero b then fdiv a b else zero_double)
  fold_float _ a b = none

  unfoldable pub float_constant : FirOp → Option Double → Option Double → Option Bytes
  unfolding fold_float
  float_constant op (some a) (some b) = elim (fold_float op a b) [
    | none ↦ none
    | some r ↦ some (print_g r)
  ]
  float_constant op _ _ = none

-- What an instruction is rewritten to: an addition of these operands.
abbrev pub Rewrite : Type 0
Rewrite = Option (Bytes × Bytes)

unfoldable pub int_constant : FirOp → Bytes → Bytes → Option Bytes
int_constant op s1 s2 =
    if is_int_const (some s1) && is_int_const (some s2)
    then elim (fold_int op (atoll s1) (atoll s2)) [ none ↦ none | some r ↦ some (print_lld r) ]
    else none

-- `c && atoll(s) == n`
unfoldable pub eq_ℤ : ℤ → ℤ → Bool
eq_ℤ (pos a) (pos b) = a == b
eq_ℤ (negsuc a) (negsuc b) = a == b
eq_ℤ _ _ = false

unfoldable pub is_num : Bytes → ℤ → Bool
is_num s n = is_int_const (some s) && eq_ℤ (atoll s) n

abbrev pub zero_text : Bytes
zero_text = codes "0"

abbrev pub plus_zero : Bytes → Rewrite
plus_zero s = some (s, zero_text)

-- `strcmp(i->src1, i->src2) == 0 && i->src1[0] == 't'`
unfoldable pub starts_t : Bytes → Bool
starts_t [] = false
starts_t (c ∷ cs) = c == b't'

unfoldable pub same_temp : Bytes → Bytes → Bool
same_temp s1 s2 = str_eq s1 s2 && starts_t s1

unfoldable pub identity_mul : Bytes → Bytes → Rewrite
identity_mul s1 s2 =
    if is_num s2 (pos 1)
    then plus_zero s1
    else if is_num s2 (pos 0)
    then plus_zero zero_text
    else if is_num s2 (pos 2)
    then some (s1, s1)
    else if is_num s1 (pos 1)
    then plus_zero s2
    else if is_num s1 (pos 0)
    then plus_zero zero_text
    else none

-- The algebraic identities, by the operation; the tests on equal operands stand last.
unfoldable pub identity : FirOp → Bytes → Bytes → Rewrite
identity fir_sub s1 s2 =
    if is_num s2 (pos 0)
    then plus_zero s1
    else if same_temp s1 s2
    then plus_zero zero_text
    else none
identity fir_mul s1 s2 = identity_mul s1 s2
identity fir_div s1 s2 = if is_num s2 (pos 1) then plus_zero s1 else none
identity fir_and s1 s2 =
    if is_num s2 (negsuc 0) then plus_zero s1 else if same_temp s1 s2 then plus_zero s1 else none
identity fir_or s1 s2 =
    if is_num s2 (pos 0) then plus_zero s1 else if same_temp s1 s2 then plus_zero s1 else none
identity fir_xor s1 s2 =
    if is_num s2 (pos 0)
    then plus_zero s1
    else if same_temp s1 s2
    then plus_zero zero_text
    else none
identity fir_shl s1 s2 = if is_num s2 (pos 0) then plus_zero s1 else none
identity fir_shr s1 s2 = if is_num s2 (pos 0) then plus_zero s1 else none
identity _ s1 s2 = none

-- An instruction that is no floating one: its value where both operands are constants, or an
-- identity.
unfoldable pub rewrite_int : FirOp → Bytes → Bytes → Rewrite
rewrite_int op s1 s2 = elim (int_constant op s1 s2) [
  | none ↦ identity op s1 s2
  | some r ↦ plus_zero r
]
