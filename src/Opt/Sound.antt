-- ===== src/Opt/Sound.antt =====
-- What folding means: over the integers modulo 2^w, a rewritten addition, subtraction or
-- multiplication has the value of the original.
use native.Mathlib.Nat.{
  mod-mod_of_dvd, dvd-mul_right, add-mod, mul-add-mod_self_left, div-add-mod, mod-lt, mod-eq_of_lt,
  mul_comm, zero-mod, add-mod_right, mod_self, mul-one, mul-zero,
}
use fermi.Base.{
  Option-cases, ℕ, ◌+◌, ◌-◌, ◌*◌, ◌/◌, ◌%◌, ◌<◌, ◌≡◌, inl, inr, refl, sym, ap, ◌∙◌, arith, Bool,
  true, none, some, if◌then◌else◌,
}
use fermi.Base.Int.{
  ℤ, pos, negsuc, word64, to_word, of_word, to_word-of_word, to_word-lt, IsI64, of_word-IsI64,
  clamp,
}
use fermi.Base.Text.{Bytes, str_eq_iff}
use fermi.Fir.{FirOp, fir_add, fir_sub, fir_mul}
use fermi.Opt.Const.{is_int_const, atoll, print_lld, is_int_const-print_lld, atoll-print_lld}
use fermi.Opt.Fold.{
  fold_int, int_constant, eq_ℤ, is_num, zero_text, Rewrite, same_temp, identity_mul, identity,
  rewrite_int,
}

eq_ℤ-eq : (a b : ℤ) → eq_ℤ a b ≡ true → a ≡ b
unfolding eq_ℤ
eq_ℤ-eq (pos a) (pos b) e = ground arith
eq_ℤ-eq (negsuc a) (negsuc b) e = ground arith
eq_ℤ-eq _ _ e = cc

is_num-const :
    (s : Bytes) (z : ℤ) → is_num s z ≡ true → (is_int_const (some s) ≡ true) × (atoll s ≡ z)
unfolding is_num
is_num-const s z h = ground (arith, eq_ℤ-eq (atoll s) z)

same_temp-eq : (s1 s2 : Bytes) → same_temp s1 s2 ≡ true → s1 ≡ s2
unfolding same_temp
same_temp-eq s1 s2 h = ground (arith, str_eq_iff s1 s2)

-- The operations that the theorem is about.
abbrev pub Linear : FirOp → Type 0
Linear fir_add = Unit
Linear fir_sub = Unit
Linear fir_mul = Unit
Linear _ = ⊥

-- `m` is 2^w for a width of at most 64 bits: it divides 2^64.
module _ (m k : ℕ) (width : m * k ≡ word64) (env : Bytes → ℕ) where
  -- The value of an operand: of a constant its low bits, of a name what the environment gives it.
  pub operand : Bytes → ℕ
  operand s = if is_int_const (some s) then to_word (atoll s) % m else env s % m

  -- The value of an instruction, for the operations that the theorem is about.
  pub result : FirOp → Bytes → Bytes → ℕ
  result fir_add s1 s2 = (operand s1 + operand s2) % m
  result fir_sub s1 s2 = (operand s1 + m - operand s2) % m
  result fir_mul s1 s2 = operand s1 * operand s2 % m
  result _ s1 s2 = 0

  m_pos : 0 < m
  m_pos = grind arith

  low_bits : (x : ℕ) → x % word64 % m ≡ x % m
  low_bits x = mod-mod_of_dvd m x (rw width at (dvd-mul_right m k))

  mul-mod_left : (x y : ℕ) → x % m * y % m ≡ x * y % m
  mul-mod_left x y =
      let split : x * y ≡ m * (x / m * y) + x % m * y = grind (arith, div-add-mod x m) in
      rw split (sym (mul-add-mod_self_left m (x / m * y) (x % m * y)))

  mul-mod_right : (x y : ℕ) → x * (y % m) % m ≡ x * y % m
  mul-mod_right x y =
      ap (λ z. z % m) (mul_comm x (y % m)) ∙ mul-mod_left y x ∙ ap (λ z. z % m) (mul_comm y x)

  mul-mod : (x y : ℕ) → x % m * (y % m) % m ≡ x * y % m
  mul-mod x y =
      mul-mod_left x (y % m)
      ∙ ap (λ z. z % m) (mul_comm x (y % m))
      ∙ mul-mod_left y x
      ∙ ap (λ z. z % m) (mul_comm y x)

  div-lt : (y : ℕ) → y < word64 → y / m < k
  div-lt y h = grind (arith, div-add-mod y m)

  sub-mod : (x y : ℕ) → y < word64 → (x % m + m - y % m) % m ≡ (x + word64 - y) % m
  sub-mod x y h =
      let j : ℕ = k - y / m - 1 in
      let e : k ≡ y / m + 1 + j = omega (arith, div-lt y h) in
      let whole : m * (y / m + 1 + j) ≡ word64 = ap (λ t. m * t) (sym e) ∙ width in
      let split : x + word64 - y ≡ m * (x / m + j) + (x % m + m - y % m) =
        omega (arith, div-add-mod x m, div-add-mod y m, mod-lt y m_pos, whole) in
      rw split (sym (mul-add-mod_self_left m (x / m + j) (x % m + m - y % m)))

  operand-lt : (s : Bytes) → operand s < m
  unfolding operand
  operand-lt s = ground (arith, mod-lt (to_word (atoll s)) m_pos, mod-lt (env s) m_pos)

  operand-print : (z : ℤ) → IsI64 z → operand (print_lld z) ≡ to_word z % m
  unfolding operand
  operand-print z h = rw (is_int_const-print_lld z, atoll-print_lld z h)

  operand-zero : operand zero_text ≡ 0
  unfolding operand is_int_const atoll clamp to_word
  operand-zero = zero-mod m

  -- An addition of 0 has the value of its operand.
  result-plus_zero : (s : Bytes) → result fir_add s zero_text ≡ operand s
  unfolding result
  result-plus_zero s =
      let e : operand s + operand zero_text ≡ operand s = omega (arith, operand-zero) in
      ap (λ t. t % m) e ∙ mod-eq_of_lt (operand-lt s)

  operand-const : (s : Bytes) → is_int_const (some s) ≡ true → operand s ≡ to_word (atoll s) % m
  unfolding operand
  operand-const s e = rw e

  operand-of_word : (x : ℕ) → x < word64 → operand (print_lld (of_word x)) ≡ x % m
  operand-of_word x h =
      operand-print (of_word x) (of_word-IsI64 x h) ∙ ap (λ t. t % m) (to_word-of_word x h)

  operand-num : (s : Bytes) (z : ℤ) → is_num s z ≡ true → operand s ≡ to_word z % m
  operand-num s z h =
      let (const, value) = is_num-const s z h in
      operand-const s const ∙ ap (λ t. to_word t % m) value

  -- The value of a folded pair of constants.
  const-add : (a b : ℕ) → (a + b) % word64 % m ≡ (a % m + b % m) % m
  const-add a b = low_bits (a + b) ∙ add-mod a b m

  const-sub : (a b : ℕ) → b < word64 → (a + word64 - b) % word64 % m ≡ (a % m + m - b % m) % m
  const-sub a b h = low_bits (a + word64 - b) ∙ sym (sub-mod a b h)

  const-mul : (a b : ℕ) → a * b % word64 % m ≡ a % m * (b % m) % m
  const-mul a b = low_bits (a * b) ∙ sym (mul-mod a b)

  constants-add :
      (s1 s2 : Bytes)
      → is_int_const (some s1) ≡ true
      → is_int_const (some s2) ≡ true
      → operand (print_lld (of_word ((to_word (atoll s1) + to_word (atoll s2)) % word64)))
        ≡ result fir_add s1 s2
  unfolding result
  constants-add s1 s2 c1 c2 =
      rw (operand-const s1 c1, operand-const s2 c2)
        (operand-of_word ((to_word (atoll s1) + to_word (atoll s2)) % word64) (omega arith)
          ∙ const-add (to_word (atoll s1)) (to_word (atoll s2)))

  constants-sub :
      (s1 s2 : Bytes)
      → is_int_const (some s1) ≡ true
      → is_int_const (some s2) ≡ true
      → operand (print_lld (of_word ((to_word (atoll s1) + word64 - to_word (atoll s2)) % word64)))
        ≡ result fir_sub s1 s2
  unfolding result
  constants-sub s1 s2 c1 c2 =
      rw (operand-const s1 c1, operand-const s2 c2)
        (operand-of_word ((to_word (atoll s1) + word64 - to_word (atoll s2)) % word64) (omega arith)
          ∙ const-sub (to_word (atoll s1)) (to_word (atoll s2)) (to_word-lt (atoll s2)))

  constants-mul :
      (s1 s2 : Bytes)
      → is_int_const (some s1) ≡ true
      → is_int_const (some s2) ≡ true
      → operand (print_lld (of_word (to_word (atoll s1) * to_word (atoll s2) % word64)))
        ≡ result fir_mul s1 s2
  unfolding result
  constants-mul s1 s2 c1 c2 =
      rw (operand-const s1 c1, operand-const s2 c2)
        (operand-of_word (to_word (atoll s1) * to_word (atoll s2) % word64) (omega arith)
          ∙ const-mul (to_word (atoll s1)) (to_word (atoll s2)))

  int_constant_sound :
      (op : FirOp) (s1 s2 r : Bytes)
      → Linear op
      → int_constant op s1 s2 ≡ some r
      → operand r ≡ result op s1 s2
  unfolding int_constant fold_int
  int_constant_sound fir_add s1 s2 r l e = ground (arith, constants-add s1 s2)
  int_constant_sound fir_sub s1 s2 r l e = ground (arith, constants-sub s1 s2)
  int_constant_sound fir_mul s1 s2 r l e = ground (arith, constants-mul s1 s2)
  int_constant_sound _ s1 s2 r l e = absurd l

  sub_zero : (s1 s2 : Bytes) → is_num s2 (pos 0) ≡ true → operand s1 ≡ result fir_sub s1 s2
  unfolding result
  sub_zero s1 s2 h =
      let zero_right : operand s2 ≡ 0 = operand-num s2 (pos 0) h ∙ unfold to_word in zero-mod m in
      let d : operand s1 + m - 0 ≡ operand s1 + m = omega arith in
      rw (zero_right, d) (sym (add-mod_right (operand s1) m ∙ mod-eq_of_lt (operand-lt s1)))

  sub_same : (s1 s2 : Bytes) → same_temp s1 s2 ≡ true → 0 ≡ result fir_sub s1 s2
  unfolding result
  sub_same s1 s2 h =
      let e : s1 ≡ s2 = same_temp-eq s1 s2 h in
      let d : operand s2 + m - operand s2 ≡ m = omega arith in rw (e, d) (sym (mod_self m))

  mul_num :
      (s1 s2 : Bytes) (n : ℕ)
      → is_num s2 (pos n) ≡ true
      → n < word64
      → operand s1 * n % m ≡ result fir_mul s1 s2
  unfolding result
  mul_num s1 s2 n h small =
      let e : operand s2 ≡ n % m =
        operand-num s2 (pos n) h ∙ unfold to_word in ap (λ t. t % m) (mod-eq_of_lt small) in
      rw e (sym (mul-mod_right (operand s1) n))

  result-mul_comm : (s1 s2 : Bytes) → result fir_mul s1 s2 ≡ result fir_mul s2 s1
  unfolding result
  result-mul_comm s1 s2 = ap (λ t. t % m) (mul_comm (operand s1) (operand s2))

  mul_by_one :
      (s1 s2 : Bytes)
      → is_num s2 (pos 1) ≡ true
      → result fir_add s1 zero_text ≡ result fir_mul s1 s2
  mul_by_one s1 s2 h =
      result-plus_zero s1
      ∙ sym (ap (λ t. t % m) (mul-one (operand s1)) ∙ mod-eq_of_lt (operand-lt s1))
      ∙ mul_num s1 s2 1 h (omega arith)

  mul_by_zero :
      (s1 s2 : Bytes)
      → is_num s2 (pos 0) ≡ true
      → result fir_add zero_text zero_text ≡ result fir_mul s1 s2
  mul_by_zero s1 s2 h =
      result-plus_zero zero_text
      ∙ operand-zero
      ∙ sym (ap (λ t. t % m) (mul-zero (operand s1)) ∙ zero-mod m)
      ∙ mul_num s1 s2 0 h (omega arith)

  mul_by_two :
      (s1 s2 : Bytes) → is_num s2 (pos 2) ≡ true → result fir_add s1 s1 ≡ result fir_mul s1 s2
  unfolding result
  mul_by_two s1 s2 h =
      let e : operand s1 + operand s1 ≡ operand s1 * 2 = omega arith in
      ap (λ t. t % m) e ∙ mul_num s1 s2 2 h (omega arith)

  -- A rewritten instruction is an addition of the value of the old one.
  abbrev pub Means : Rewrite → ℕ → Type 0
  Means none v = Unit
  Means (some (a, b)) v = result fir_add a b ≡ v

  if-Means :
      (b : Bool) (r t : Rewrite) (v : ℕ)
      → (b ≡ true → Means r v)
      → Means t v
      → Means (if b then r else t) v
  if-Means true r t v p q = p refl
  if-Means _ r t v p q = q

  identity_mul-Means : (s1 s2 : Bytes) → Means (identity_mul s1 s2) (result fir_mul s1 s2)
  unfolding identity_mul
  identity_mul-Means s1 s2 =
      let v = result fir_mul s1 s2 in
      if-Means (is_num s2 (pos 1)) _ _ v (mul_by_one s1 s2) (
        if-Means (is_num s2 (pos 0)) _ _ v (mul_by_zero s1 s2) (
          if-Means (is_num s2 (pos 2)) _ _ v (mul_by_two s1 s2) (
            if-Means (is_num s1 (pos 1)) _ _ v (λ h. mul_by_one s2 s1 h ∙ result-mul_comm s2 s1)
              (if-Means (is_num s1 (pos 0)) _ none v
                (λ h. mul_by_zero s2 s1 h ∙ result-mul_comm s2 s1) tt))))

  identity-Means :
      (op : FirOp) (s1 s2 : Bytes) → Linear op → Means (identity op s1 s2) (result op s1 s2)
  identity-Means fir_add s1 s2 l = unfold identity in tt
  identity-Means fir_mul s1 s2 l = unfold identity in identity_mul-Means s1 s2
  identity-Means fir_sub s1 s2 l =
      let v = result fir_sub s1 s2 in
      unfold identity in
      if-Means (is_num s2 (pos 0)) _ _ v (λ h. result-plus_zero s1 ∙ sub_zero s1 s2 h)
        (if-Means (same_temp s1 s2) _ none v
          (λ h. result-plus_zero zero_text ∙ operand-zero ∙ sub_same s1 s2 h) tt)
  identity-Means _ s1 s2 l = absurd l

  -- For an addition, subtraction or multiplication on integers of a width `m` that divides
  -- 2^64, and every environment: where folding constants or an identity rewrites the
  -- instruction, the new instruction is an addition with the value of the old one.
  pub rewrite_int-Means :
      (op : FirOp) (s1 s2 : Bytes) → Linear op → Means (rewrite_int op s1 s2) (result op s1 s2)
  unfolding rewrite_int
  rewrite_int-Means op s1 s2 l = elim (Option-cases (int_constant op s1 s2)) [
    | inl e ↦ rw (e, rewrite_int) (identity-Means op s1 s2 l)
    | inr (r, e) ↦ rw (e, rewrite_int) (result-plus_zero r ∙ int_constant_sound op s1 s2 r l e)
  ]
