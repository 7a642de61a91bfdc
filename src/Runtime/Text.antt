-- ===== src/Runtime/Text.antt =====
-- rt/fermi_rt.c, the functions on strings, and the printing of integers. `none` is a null pointer;
-- a result is the text that a new string holds.
pub mod Laws
use mathlib.Core.List.{reverse}
use fermi.Base.{
  ℕ, zero, suc, ◌+◌, ◌-◌, ◌%◌, ◌^◌, Bool, true, false, ◌&&◌, ◌||◌, [], ◌∷◌, ◌++◌, Option, none,
  some, if◌then◌else◌, ltb, leb, ◌==◌, length, take, drop,
}
use fermi.Base.Decimal.{digits_up}
use fermi.Base.Int.{ℤ, pos, negsuc, word64, to_word}
use fermi.Base.Text.{Bytes, str_eq}

unfoldable pub fe_len : Option Bytes → ℕ
fe_len none = 0
fe_len (some s) = length s

abbrev pub or_empty : Option Bytes → Bytes
or_empty none = []
or_empty (some s) = s

unfoldable pub fe_concat : Option Bytes → Option Bytes → Bytes
fe_concat a b = or_empty a ++ or_empty b

-- `strncmp(s, p, strlen(p)) == 0`
unfoldable pub strncmp_eq : Bytes → Bytes → Bool
strncmp_eq s [] = true
strncmp_eq [] (c ∷ p) = false
strncmp_eq (d ∷ s) (c ∷ p) = d == c && strncmp_eq s p

unfoldable pub fe_starts_with : Option Bytes → Option Bytes → Bool
fe_starts_with (some s) (some p) = strncmp_eq s p
fe_starts_with _ _ = false

unfoldable pub fe_ends_with : Option Bytes → Option Bytes → Bool
fe_ends_with (some s) (some suf) =
    leb (length suf) (length s) && str_eq (drop (length s - length suf) s) suf
fe_ends_with _ _ = false

-- `strstr(s, sub)`, as the offset of the first occurrence.
unfoldable pub strstr : Bytes → Bytes → Option ℕ
strstr [] sub = if strncmp_eq [] sub then some 0 else none
strstr (c ∷ s) sub =
    let rest = strstr s sub in
    if strncmp_eq (c ∷ s) sub then some 0 else elim rest [ none ↦ none | some i ↦ some (suc i) ]

-- -1 where there is none.
abbrev pub offset_or : Option ℕ → ℤ
offset_or none = negsuc 0
offset_or (some i) = pos i

unfoldable pub fe_index_of : Option Bytes → Option Bytes → ℤ
fe_index_of (some s) (some sub) = offset_or (strstr s sub)
fe_index_of _ _ = negsuc 0

unfoldable pub fe_contains : Option Bytes → Option Bytes → Bool
fe_contains (some s) (some sub) = elim (strstr s sub) [ none ↦ false | some i ↦ true ]
fe_contains _ _ = false

-- `isspace` in the C locale.
abbrev pub isspace : ℕ → Bool
isspace c = c == b' ' || leb 9 c && leb c 13

unfoldable pub skip_spaces : Bytes → Bytes
skip_spaces [] = []
skip_spaces (c ∷ s) = if isspace c then skip_spaces s else c ∷ s

-- The blanks at the end are taken off from the last one.
unfoldable pub drop_trailing : Bytes → Bytes
drop_trailing s = reverse (skip_spaces (reverse s))

unfoldable pub fe_trim : Option Bytes → Bytes
fe_trim none = []
fe_trim (some s) = drop_trailing (skip_spaces s)

abbrev min : ℕ → ℕ → ℕ
min a b = if ltb b a then b else a

-- `if (start < 0) start = 0;`
abbrev from_zero : ℤ → ℕ
from_zero (pos n) = n
from_zero (negsuc n) = 0

-- The three guards in the source's order; for a negative end `n` is 0.
unfoldable pub fe_slice : Option Bytes → ℤ → ℤ → Bytes
fe_slice none start end = []
fe_slice (some s) start (negsuc e) = []
fe_slice (some s) start (pos e) =
    let end = min e (length s) in
    let begin = min (from_zero start) end in take (end - begin) (drop begin s)

-- `tmp` and its length for the 64 bits of `v` and their magnitude: the digits from the lowest.
unfoldable pub digits_from_lowest : ℕ → ℕ → Bytes
digits_from_lowest v uv = if v == 0 then b'0' ∷ [] else digits_up uv uv

-- `v < 0`, by the highest bit.
unfoldable pub is_below_zero : ℕ → Bool
is_below_zero v = leb (2 ^ 63) v

-- `(v < 0) ? (~(uint64_t)v + 1) : (uint64_t)v`
unfoldable pub unsigned : ℕ → ℕ
unfolding is_below_zero
unsigned v = if is_below_zero v then (word64 - 1 - v + 1) % word64 else v

-- The argument is an `int64_t` by its 64 bits.
unfoldable pub fmt_i64_internal : ℤ → Bytes
unfolding digits_from_lowest unsigned
fmt_i64_internal v =
    (if is_below_zero (to_word v) then b'-' ∷ [] else [])
    ++ reverse (digits_from_lowest (to_word v) (unsigned (to_word v)))

-- What `fe_println_i64` writes.
unfoldable pub fe_println_i64 : ℤ → Bytes
fe_println_i64 v = fmt_i64_internal v ++ b'\n' ∷ []

-- The second loop: each round copies what is before an occurrence, and the replacement. As the text
-- gets shorter in each round, its length is fuel enough.
unfoldable pub replace_all : ℕ → Bytes → Bytes → Bytes → Bytes
replace_all zero p from to = p
replace_all (suc fuel) p from to = elim (strstr p from) [
  | none ↦ p
  | some f ↦ take f p ++ to ++ replace_all fuel (drop (f + length from) p) from to
]

unfoldable pub fe_replace : Option Bytes → Option Bytes → Option Bytes → Bytes
fe_replace (some s) (some from) (some to) =
    if length from == 0 then s else replace_all (length s) s from to
fe_replace s _ _ = or_empty s
