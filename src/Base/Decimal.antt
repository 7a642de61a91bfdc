-- ===== src/Base/Decimal.antt =====
-- Decimal digits of a number, and the number that a text of digits stands for.
use mathlib.Core.List.{reverse, reverse-append}
use native.Mathlib.Omega.{arith}
use Prim.Native.Nat.{ℕ, zero, suc, ◌+◌, ◌-◌, ◌*◌, ◌/◌, ◌%◌, ◌≤◌}
use mathlib.Core.Path.{◌≡◌, refl, ◌∙◌, ap, sym}
use mathlib.Core.Bool.{Bool, true, false, ◌&&◌}
use mathlib.Core.List.{[], ◌∷◌, ◌++◌}
use fermi.Base.Tests.{◌==◌, leb, if◌then◌else◌}
use fermi.Base.Text.{Bytes}

-- The digits of `n` from the lowest, none for 0; `tmp[i++] = '0' + uv % 10; uv /= 10`.
unfoldable pub digits_up : ℕ → ℕ → Bytes
digits_up zero n = []
digits_up (suc fuel) n =
    let rest = digits_up fuel (n / 10) in if n == 0 then [] else (b'0' + n % 10) ∷ rest

-- The text of `n`.
unfoldable pub decimal : ℕ → Bytes
unfolding digits_up
decimal n = if n == 0 then b'0' ∷ [] else reverse (digits_up n n)

-- The value of a text of digits behind those that gave `acc`.
unfoldable pub value_from : ℕ → Bytes → ℕ
value_from acc [] = acc
value_from acc (c ∷ cs) = value_from (acc * 10 + (c - b'0')) cs

abbrev pub is_digit : ℕ → Bool
is_digit c = leb b'0' c && leb c b'9'

unfoldable pub all_digits : Bytes → Bool
all_digits [] = true
all_digits (c ∷ cs) = is_digit c && all_digits cs

value_from-snoc :
    (cs : Bytes) (acc d : ℕ) → value_from acc (cs ++ d ∷ []) ≡ value_from acc cs * 10 + (d - b'0')
unfolding value_from
value_from-snoc [] acc d = refl
value_from-snoc (c ∷ cs) acc d = value_from-snoc cs (acc * 10 + (c - b'0')) d

all_digits-snoc :
    (cs : Bytes) (d : ℕ)
    → all_digits cs ≡ true
    → is_digit d ≡ true
    → all_digits (cs ++ d ∷ []) ≡ true
unfolding all_digits
all_digits-snoc [] d h e = ground arith
all_digits-snoc (c ∷ cs) d h e = ground (arith, all_digits-snoc cs d)

suc-ne-zero : (n : ℕ) → (suc n == 0) ≡ false
suc-ne-zero n = ground arith

reverse-digits_up :
    (fuel n : ℕ)
    → reverse (digits_up (suc fuel) (suc n))
      ≡ reverse (digits_up fuel (suc n / 10)) ++ (b'0' + suc n % 10) ∷ []
unfolding digits_up
reverse-digits_up fuel n =
    rw (suc-ne-zero n) (reverse-append ((b'0' + suc n % 10) ∷ []) (digits_up fuel (suc n / 10)))

decimal-suc : (n : ℕ) → decimal (suc n) ≡ reverse (digits_up (suc n) (suc n))
unfolding decimal
decimal-suc n = rw (suc-ne-zero n)

value_from-digits_up : (fuel n : ℕ) → n ≤ fuel → value_from 0 (reverse (digits_up fuel n)) ≡ n
unfolding digits_up value_from
value_from-digits_up zero n h = unfold digits_up value_from in omega arith
value_from-digits_up (suc fuel) zero h = unfold digits_up value_from in refl
value_from-digits_up (suc fuel) (suc n) h = rw (reverse-digits_up fuel n) (
    omega (
      arith,
      value_from-snoc (reverse (digits_up fuel (suc n / 10))) 0 (b'0' + suc n % 10),
      value_from-digits_up fuel (suc n / 10) (omega arith),
    ))

all_digits-digits_up : (fuel n : ℕ) → all_digits (reverse (digits_up fuel n)) ≡ true
all_digits-digits_up zero n = unfold digits_up all_digits in refl
all_digits-digits_up (suc fuel) zero = unfold digits_up all_digits in refl
all_digits-digits_up (suc fuel) (suc n) = rw (reverse-digits_up fuel n) (
    all_digits-snoc (reverse (digits_up fuel (suc n / 10))) (b'0' + suc n % 10)
      (all_digits-digits_up fuel (suc n / 10)) (ground arith))

pub value-decimal : (n : ℕ) → value_from 0 (decimal n) ≡ n
value-decimal zero = unfold decimal value_from in refl
value-decimal (suc n) = rw (decimal-suc n) (value_from-digits_up (suc n) (suc n) (omega arith))

pub decimal-digits : (n : ℕ) → all_digits (decimal n) ≡ true
decimal-digits zero = unfold decimal all_digits in refl
decimal-digits (suc n) = rw (decimal-suc n) (all_digits-digits_up (suc n) (suc n))

snoc-cons : (cs : Bytes) (d : ℕ) → (c : ℕ) × (rest : Bytes) × (cs ++ d ∷ [] ≡ c ∷ rest)
snoc-cons [] d = (d, [], refl)
snoc-cons (c ∷ cs) d = (c, cs ++ d ∷ [], refl)

-- The text of a number begins with a digit.
pub decimal_head : (n : ℕ) → (c : ℕ) × (rest : Bytes) × (decimal n ≡ c ∷ rest) × (is_digit c ≡ true)
decimal_head zero = (b'0', [], unfold decimal in refl, refl)
decimal_head (suc n) =
    let (c, rest, e) = snoc-cons (reverse (digits_up n (suc n / 10))) (b'0' + suc n % 10) in
    let text : decimal (suc n) ≡ c ∷ rest = decimal-suc n ∙ reverse-digits_up n n ∙ e in
    let all : all_digits (c ∷ rest) ≡ true = rw text at (decimal-digits (suc n)) in
    (c, rest, text, unfold all_digits in ground arith)

digits_up-zero : (fuel : ℕ) → digits_up fuel 0 ≡ []
unfolding digits_up
digits_up-zero zero = refl
digits_up-zero (suc fuel) = refl

-- A text whose first digit is not 0.
abbrev Leads : Bytes → Type 0
Leads ds = (c : ℕ) × (rest : Bytes) × (ds ≡ c ∷ rest) × (leb b'1' c ≡ true)

next-Leads :
    (fuel n q : ℕ)
    → q ≡ suc n / 10
    → ((m : ℕ) → q ≡ suc m → Leads (reverse (digits_up fuel (suc m))))
    → Leads (reverse (digits_up (suc fuel) (suc n)))
next-Leads fuel n zero e leads = (
  b'0' + suc n % 10,
  [],
  reverse-digits_up fuel n
      ∙ ap (λ q. reverse (digits_up fuel q) ++ (b'0' + suc n % 10) ∷ []) (sym e)
      ∙ ap (λ ds. reverse ds ++ (b'0' + suc n % 10) ∷ []) (digits_up-zero fuel),
  ground arith,
)
next-Leads fuel n (suc m) e leads =
    let (c, rest, text, one) = leads m refl in
    (
      c,
      rest ++ (b'0' + suc n % 10) ∷ [],
      reverse-digits_up fuel n
          ∙ ap (λ q. reverse (digits_up fuel q) ++ (b'0' + suc n % 10) ∷ []) (sym e)
          ∙ ap (λ ds. ds ++ (b'0' + suc n % 10) ∷ []) text,
      one,
    )

-- The first of the digits of a number that is not 0 is not 0.
digits_up_head : (fuel n : ℕ) → suc n ≤ fuel → Leads (reverse (digits_up fuel (suc n)))
digits_up_head zero n h = absurd (omega arith)
digits_up_head (suc fuel) n h =
    next-Leads fuel n (suc n / 10) refl (λ m e. digits_up_head fuel m (omega arith))

-- Digits without a zero in front, but for 0 itself.
abbrev pub is_plain : Bytes → Bool
is_plain [] = false
is_plain (c ∷ []) = is_digit c
is_plain (c ∷ d ∷ cs) = leb b'1' c && all_digits (c ∷ d ∷ cs)

plain_text :
    (c : ℕ) (cs : Bytes) → leb b'1' c ≡ true → all_digits (c ∷ cs) ≡ true → is_plain (c ∷ cs) ≡ true
unfolding all_digits
plain_text c [] h all = ground arith
plain_text c (d ∷ cs) h all = ground arith

pub decimal-is_plain : (n : ℕ) → is_plain (decimal n) ≡ true
decimal-is_plain zero = unfold decimal in refl
decimal-is_plain (suc n) =
    let (c, cs, text, one) = digits_up_head (suc n) n (omega arith) in
    let e : decimal (suc n) ≡ c ∷ cs = decimal-suc n ∙ text in
    rw e (plain_text c cs one (rw e at (decimal-digits (suc n))))
