-- ===== src/Base/Loops.antt =====
-- `while` loops on fuel, with the rule for an invariant and the rule that they end by their test.
use Prim.Native.Nat.{ℕ, zero, suc, ◌+◌, ◌<◌, ◌≤◌}
use mathlib.Core.Path.{◌≡◌}
use mathlib.Core.Logic.{inl, inr}
use mathlib.Core.Bool.{Bool, true, false, not, ◌&&◌, ◌||◌}
use native.Mathlib.Omega.{arith}
use fermi.Base.Tests.{Bool-cases, if◌then◌else◌}

module _ {ℓ} {S : Type ℓ} where
  unfoldable pub while : ℕ → (S → Bool) → (S → S) → S → S
  while zero going round now = now
  while (suc left) going round now = elim (going now) [
    | false ↦ now
    | true ↦ while left going round (round now)
  ]

-- What the rounds keep holds after the loop, also where the fuel runs out.
pub while_keeps {ℓ κ} :
    {State : Type ℓ} (P : State → Type κ) (going : State → Bool) (round : State → State)
    → ((s : State) → P s → going s ≡ true → P (round s))
    → (fuel : ℕ) (s : State) → P s
    → P (while fuel going round s)
unfolding while
while_keeps P going round keep zero s h = h
while_keeps P going round keep (suc fuel) s h = elim (Bool-cases (going s)) [
  | inl e ↦ rw (e, while) (while_keeps P going round keep fuel (round s) (keep s h e))
  | inr e ↦ rw (e, while) h
]

-- With a measure below the fuel, the loop ends because its test fails.
pub while_ends {ℓ} :
    {State : Type ℓ} (measure : State → ℕ) (going : State → Bool) (round : State → State)
    → ((s : State) → going s ≡ true → measure (round s) < measure s)
    → (fuel : ℕ) (s : State) → measure s < fuel
    → going (while fuel going round s) ≡ false
unfolding while
while_ends measure going round less zero s h = absurd (omega arith)
while_ends measure going round less (suc fuel) s h = elim (Bool-cases (going s)) [
  | inl e ↦
      rw (e, while) (while_ends measure going round less fuel (round s) (omega (arith, less s e)))
  | inr e ↦ rw (e, while) e
]

-- `for (j = i; j < i + n; j++) s = step j s;`
unfoldable pub for_range {ℓ} :
    {State : Type ℓ} (count from : ℕ) → (ℕ → State → State) → State → State
for_range zero from step now = now
for_range (suc left) from step now = for_range left (from + 1) step (step from now)

-- The invariant goes from each index to the next; the end is a variable with an equation.
pub for_range_keeps {ℓ κ} :
    {S : Type ℓ} (P : ℕ → S → Type κ) (bound : ℕ) (body : ℕ → S → S)
    → ((i : ℕ) (s : S) → i < bound → P i s → P (i + 1) (body i s))
    → (n i : ℕ) (s : S) → i + n ≡ bound
    → P i s
    → P bound (for_range n i body s)
unfolding for_range
for_range_keeps P bound body keep zero i s e h = let e' : i ≡ bound = omega arith in rw (← e') h
for_range_keeps P bound body keep (suc n) i s e h =
    for_range_keeps P bound body keep n (i + 1) (body i s) (omega arith) (keep i s (omega arith) h)

-- `p` holds of a number below `n`; the count of such numbers.
unfoldable pub any_below : ℕ → (ℕ → Bool) → Bool
any_below zero p = false
any_below (suc n) p = p n || any_below n p

pub count_below : ℕ → (ℕ → Bool) → ℕ
count_below zero p = 0
count_below (suc n) p = (if p n then 1 else 0) + count_below n p

pub any_below-false : (n : ℕ) (p : ℕ → Bool) (i : ℕ) → any_below n p ≡ false → i < n → p i ≡ false
unfolding any_below
any_below-false zero p i e h = absurd (omega arith)
any_below-false (suc n) p i e h = ground (arith, any_below-false n p i)

-- Fewer numbers pass a stronger test, and fewer still where it fails for one more.
pub count_below-le :
    (n : ℕ) (p q : ℕ → Bool) → count_below n (λ j. p j && not (q j)) ≤ count_below n p
unfolding count_below
count_below-le zero p q = omega arith
count_below-le (suc n) p q = ground (arith, count_below-le n p q)

pub count_below-lt :
    (n : ℕ) (p q : ℕ → Bool)
    → any_below n (λ j. p j && q j) ≡ true
    → count_below n (λ j. p j && not (q j)) < count_below n p
unfolding count_below any_below
count_below-lt zero p q e = cc
count_below-lt (suc n) p q e = ground (arith, count_below-lt n p q, count_below-le n p q)

pub count_below_bound : (n : ℕ) (p : ℕ → Bool) → count_below n p ≤ n
unfolding count_below
count_below_bound zero p = omega arith
count_below_bound (suc n) p = ground (arith, count_below_bound n p)
