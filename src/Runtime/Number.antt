-- ===== src/Runtime/Number.antt =====
-- rt/fermi_rt.c, `fe_abs`, `fe_min`, `fe_max` and `fe_clamp` on integers. The absolute value is that of
-- a number above -2^31: at this one the source's negation overflows.
use fermi.Base.{suc, Bool, true, false, if◌then◌else◌, ltb}
use fermi.Base.Int.{ℤ, pos, negsuc}

unfoldable pub lt_ℤ : ℤ → ℤ → Bool
lt_ℤ (pos a) (pos b) = ltb a b
lt_ℤ (pos a) (negsuc b) = false
lt_ℤ (negsuc a) (pos b) = true
lt_ℤ (negsuc a) (negsuc b) = ltb b a

unfoldable pub fe_abs : ℤ → ℤ
fe_abs (pos n) = pos n
fe_abs (negsuc n) = pos (suc n)

unfoldable pub fe_min : ℤ → ℤ → ℤ
fe_min a b = if lt_ℤ a b then a else b

unfoldable pub fe_max : ℤ → ℤ → ℤ
fe_max a b = if lt_ℤ b a then a else b

unfoldable pub fe_clamp : ℤ → ℤ → ℤ → ℤ
fe_clamp v lo hi = if lt_ℤ v lo then lo else if lt_ℤ hi v then hi else v
