-- ===== src/Base/Int.antt =====
-- Signed integers over the native numbers, and the 64 bits of a `long long`.
use Prim.Native.Nat.{ℕ, zero, suc, ◌-◌, ◌%◌, ◌^◌, ◌<◌}
use mathlib.Core.Path.{◌≡◌}
use native.Mathlib.Omega.{arith}
use mathlib.Core.Logic.{inl, inr}
use fermi.Base.Tests.{ltb, if◌then◌else◌, Bool-cases}

-- `negsuc n` is -(n + 1).
pub data ℤ : Type 0 where
  pos : ℕ → ℤ
  negsuc : ℕ → ℤ

-- -n
abbrev pub neg : ℕ → ℤ
neg zero = pos 0
neg (suc n) = negsuc n

abbrev pub word64 : ℕ
word64 = 2 ^ 64

-- The 64 bits of an integer in two's complement, and the `long long` that has these bits.
unfoldable pub to_word : ℤ → ℕ
to_word (pos n) = n % word64
to_word (negsuc n) = word64 - 1 - n % word64

unfoldable pub of_word : ℕ → ℤ
of_word p = if ltb p (2 ^ 63) then pos p else negsuc (word64 - 1 - p)

pub to_word-of_word : (p : ℕ) → p < word64 → to_word (of_word p) ≡ p
unfolding to_word of_word
to_word-of_word p h = ground arith

pub to_word-lt : (z : ℤ) → to_word z < word64
unfolding to_word
to_word-lt (pos n) = omega arith
to_word-lt (negsuc n) = omega arith

-- The values of a `long long` and of `int64_t`.
abbrev pub IsI64 : ℤ → Type 0
IsI64 (pos n) = n < 2 ^ 63
IsI64 (negsuc n) = n < 2 ^ 63

pub of_word-IsI64 : (p : ℕ) → p < word64 → IsI64 (of_word p)
unfolding of_word
of_word-IsI64 p h = elim (Bool-cases (ltb p (2 ^ 63))) [
  | inl e ↦ rw e (ground arith)
  | inr e ↦ rw e (ground arith)
]

-- The nearest value of a `long long`.
unfoldable pub clamp : ℤ → ℤ
clamp (pos n) = if ltb n (2 ^ 63) then pos n else pos (2 ^ 63 - 1)
clamp (negsuc n) = if ltb n (2 ^ 63) then negsuc n else negsuc (2 ^ 63 - 1)

pub clamp-IsI64 : (z : ℤ) → IsI64 z → clamp z ≡ z
unfolding clamp
clamp-IsI64 (pos n) h = ground arith
clamp-IsI64 (negsuc n) h = ground arith
