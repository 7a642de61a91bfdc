-- ===== src/Lexer/Utf8.antt =====
-- src/felexer/lexer.c, `hexval` and `encode_utf8`, with a decoder as the specification of the latter.
use Prim.Native.Nat.{bit_or}
use fermi.Base.{
  ℕ, ◌+◌, ◌-◌, ◌*◌, ◌/◌, ◌%◌, ◌^◌, ◌≤◌, ◌<◌, ◌≡◌, refl, arith, not, false, ◌&&◌, Option, none, some,
  [], ◌∷◌, ◌++◌, ltb, leb, ◌==◌, ==_iff, if◌then◌else◌, length,
}
use fermi.Base.Loops.{any_below, any_below-false}
use fermi.Base.Text.{Bytes}

unfoldable pub hexval : ℕ → ℕ
hexval c =
    if leb b'0' c && leb c b'9'
    then c - b'0'
    else if leb b'a' c && leb c b'f'
    then c - b'a' + 10
    else if leb b'A' c && leb c b'F'
    then c - b'A' + 10
    else 0

-- `(char)` keeps the low 8 bits; `& 0x3F` the low 6.
abbrev char : ℕ → ℕ
char n = n % 2 ^ 8

abbrev low6 : ℕ → ℕ
low6 n = n % 2 ^ 6

unfoldable pub encode_utf8 : ℕ → Bytes
encode_utf8 cp =
    if ltb cp 0x80
    then char cp ∷ []
    else if ltb cp 0x800
    then char (bit_or 0xC0 (cp / 2 ^ 6)) ∷ char (bit_or 0x80 (low6 cp)) ∷ []
    else if ltb cp 0x10000
    then char (bit_or 0xE0 (cp / 2 ^ 12))
      ∷ char (bit_or 0x80 (low6 (cp / 2 ^ 6)))
      ∷ char (bit_or 0x80 (low6 cp))
      ∷ []
    else char (bit_or 0xF0 (cp / 2 ^ 18))
      ∷ char (bit_or 0x80 (low6 (cp / 2 ^ 12)))
      ∷ char (bit_or 0x80 (low6 (cp / 2 ^ 6)))
      ∷ char (bit_or 0x80 (low6 cp))
      ∷ []

-- The value of a continuation byte, 10xxxxxx.
abbrev continuation : ℕ → Option ℕ
continuation b = if b / 64 == 2 then some (b % 64) else none

abbrev extend : Option (ℕ × Bytes) → Option (ℕ × Bytes)
extend none = none
extend (some (v, [])) = none
extend (some (v, b ∷ rest)) = elim (continuation b) [
  | none ↦ none
  | some low ↦ some (v * 64 + low, rest)
]

-- One code point, by the leading byte's pattern: 0xxxxxxx, 110xxxxx, 1110xxxx or 11110xxx.
pub decode_utf8 : Bytes → Option (ℕ × Bytes)
decode_utf8 [] = none
decode_utf8 (b ∷ rest) =
    if ltb b 128
    then some (b, rest)
    else if b / 32 == 6
    then extend (some (b % 32, rest))
    else if b / 16 == 14
    then extend (extend (some (b % 16, rest)))
    else if b / 8 == 30
    then extend (extend (extend (some (b % 8, rest))))
    else none

-- `base | x` is a sum where `x` fits below the bits of `base`.
abbrev AddsBelow : ℕ → ℕ → Type 0
AddsBelow base n = any_below n (λ x. not (bit_or base x == base + x)) ≡ false

bit_or_add : (base n x : ℕ) → AddsBelow base n → x < n → bit_or base x ≡ base + x
bit_or_add base n x table h =
    let e = any_below-false n (λ y. not (bit_or base y == base + y)) x table h in
    ground (arith, ==_iff (bit_or base x) (base + x))

tables : AddsBelow 0x80 64 × AddsBelow 0xC0 32 × AddsBelow 0xE0 16 × AddsBelow 0xF0 8
unfolding any_below
tables = (refl, refl, refl, refl)

or_80 : (x : ℕ) → x < 64 → bit_or 0x80 x ≡ 0x80 + x
or_80 x = bit_or_add 0x80 64 x tables.0

or_C0 : (x : ℕ) → x < 32 → bit_or 0xC0 x ≡ 0xC0 + x
or_C0 x = bit_or_add 0xC0 32 x tables.1

or_E0 : (x : ℕ) → x < 16 → bit_or 0xE0 x ≡ 0xE0 + x
or_E0 x = bit_or_add 0xE0 16 x tables.2

or_F0 : (x : ℕ) → x < 8 → bit_or 0xF0 x ≡ 0xF0 + x
or_F0 x = bit_or_add 0xF0 8 x tables.3

-- A code point below 2^21 is read back from its bytes, whatever follows them.
pub decode-encode_utf8 :
    (cp : ℕ) (rest : Bytes) → cp < 2 ^ 21 → decode_utf8 (encode_utf8 cp ++ rest) ≡ some (cp, rest)
unfolding decode_utf8 encode_utf8
decode-encode_utf8 cp rest h = ground (
  arith,
  or_80 (cp % 2 ^ 6),
  or_80 (cp / 2 ^ 6 % 2 ^ 6),
  or_80 (cp / 2 ^ 12 % 2 ^ 6),
  or_C0 (cp / 2 ^ 6),
  or_E0 (cp / 2 ^ 12),
  or_F0 (cp / 2 ^ 18),
)

-- `encode_utf8` writes at least one byte and at most four.
pub length-encode_utf8 : (cp : ℕ) → (1 ≤ length (encode_utf8 cp)) × (length (encode_utf8 cp) ≤ 4)
unfolding encode_utf8
length-encode_utf8 cp = ground arith
