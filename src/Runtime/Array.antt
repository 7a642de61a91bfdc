-- ===== src/Runtime/Array.antt =====
-- rt/fermi_rt.c, `FeArray`: a growing array of 64-bit values. `data` is a function of the index, and
-- `none` a value that `malloc` or `realloc` left unset. `none` for an array is a null pointer.
-- `malloc` is taken to succeed, so that a capacity is below 2^60 and doubles without a wrap.
pub mod Refines
use fermi.Base.{ℕ, ◌+◌, ◌-◌, ◌*◌, Option, none, some, if◌then◌else◌, ltb, leb, ◌==◌}
use fermi.Base.Int.{ℤ, pos, negsuc}

pub record FeArray : Type 0 where
  pub data_at : ℕ → Option ℤ
  pub len : ℕ
  pub cap : ℕ

-- `cap > 0 ? cap : 8`
unfoldable pub initial_cap : ℤ → ℕ
initial_cap (pos n) = if ltb 0 n then n else 8
initial_cap (negsuc n) = 8

unfoldable pub fe_array_new : ℤ → FeArray
fe_array_new cap = record { data_at = λ _. none; len = 0; cap = initial_cap cap }

-- `realloc` to twice the capacity keeps the old values.
unfoldable pub grow : FeArray → FeArray
grow a =
    if leb a.cap a.len
    then record a { data_at = λ i. if ltb i a.cap then a.data_at i else none; cap = a.cap * 2 }
    else a

-- `a->data[i] = val`
unfoldable pub write_at : FeArray → ℕ → ℤ → FeArray
write_at a i val = record a { data_at = λ j. if j == i then some val else a.data_at j }

unfoldable pub fe_array_push : Option FeArray → ℤ → Option FeArray
fe_array_push none val = none
fe_array_push (some a) val =
    let b = write_at (grow a) (grow a).len val in some (record b { len = b.len + 1 })

-- The value is `none` where unset memory would be read.
unfoldable pub fe_array_pop : Option FeArray → Option ℤ × Option FeArray
fe_array_pop none = (some (pos 0), none)
fe_array_pop (some a) =
    if a.len == 0
    then (some (pos 0), some a)
    else (a.data_at (a.len - 1), some (record a { len = a.len - 1 }))

unfoldable pub fe_array_get : Option FeArray → ℤ → Option ℤ
fe_array_get none i = some (pos 0)
fe_array_get (some a) (negsuc i) = some (pos 0)
fe_array_get (some a) (pos i) = if leb a.len i then some (pos 0) else a.data_at i

unfoldable pub fe_array_set : Option FeArray → ℤ → ℤ → Option FeArray
fe_array_set none i val = none
fe_array_set (some a) (negsuc i) val = some a
fe_array_set (some a) (pos i) val = if ltb i a.len then some (write_at a i val) else some a

unfoldable pub fe_array_len : Option FeArray → ℕ
fe_array_len none = 0
fe_array_len (some a) = a.len
