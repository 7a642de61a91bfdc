-- ===== src/Runtime/Output.antt =====
-- rt/fermi_rt.c, what the printing functions write to the standard output, and the case conversions.
-- These functions print where the assembly of x86-64 Linux is not used. `none` is a null pointer.
use fermi.Base.{ℕ, ◌+◌, ◌-◌, Bool, ◌&&◌, [], ◌∷◌, ◌++◌, Option, map, if◌then◌else◌, leb}
use fermi.Base.Int.{ℤ}
use fermi.Base.Text.{Bytes, codes}
use fermi.Opt.Const.{print_lld}
use fermi.Runtime.Text.{or_empty, fmt_i64_internal, fe_println_i64}

unfoldable pub fe_print_str : Option Bytes → Bytes
fe_print_str s = or_empty s

unfoldable pub fe_println_str : Option Bytes → Bytes
fe_println_str s = or_empty s ++ b'\n' ∷ []

unfoldable pub fe_println_void : Bytes
fe_println_void = b'\n' ∷ []

unfoldable pub fe_print_bool : Bool → Bytes
fe_print_bool v = if v then codes "true" else codes "false"

unfoldable pub fe_println_bool : Bool → Bytes
fe_println_bool v = if v then codes "true\n" else codes "false\n"

unfoldable pub fe_print_char : ℕ → Bytes
fe_print_char v = v ∷ []

unfoldable pub fe_println_char : ℕ → Bytes
fe_println_char v = v ∷ b'\n' ∷ []

unfoldable pub fe_print_i64 : ℤ → Bytes
fe_print_i64 v = fmt_i64_internal v

-- `toupper` and `tolower` in the C locale.
abbrev pub toupper : ℕ → ℕ
toupper c = if leb b'a' c && leb c b'z' then c - 32 else c

abbrev pub tolower : ℕ → ℕ
tolower c = if leb b'A' c && leb c b'Z' then c + 32 else c

unfoldable pub fe_to_upper : Option Bytes → Bytes
fe_to_upper s = map toupper (or_empty s)

unfoldable pub fe_to_lower : Option Bytes → Bytes
fe_to_lower s = map tolower (or_empty s)

-- The 32-bit forms, and `"%d"`.
unfoldable pub fe_print_i32 : ℤ → Bytes
fe_print_i32 v = fe_print_i64 v

unfoldable pub fe_println_i32 : ℤ → Bytes
fe_println_i32 v = fe_println_i64 v

unfoldable pub fe_int_to_str : ℤ → Bytes
fe_int_to_str v = print_lld v
