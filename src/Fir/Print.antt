-- ===== src/Fir/Print.antt =====
-- src/fecodegen/fir.c: the text of the intermediate code, as a function of it. The switch has a case
-- for every operation, so that its default is never taken. A null string that is printed gives
-- "(null)", as in the C library of Linux.
use fermi.Base.{Bool, ◌||◌, List, [], ◌∷◌, ◌++◌, Option, none, some, if◌then◌else◌, ◌==◌}
use fermi.Base.Text.{Bytes, codes, str_eq}
use fermi.Fir.{
  FirOp, fir_add, fir_sub, fir_mul, fir_div, fir_mod, fir_udiv, fir_urem, fir_fadd, fir_fsub,
  fir_fmul, fir_fdiv, fir_and, fir_or, fir_xor, fir_shl, fir_shr, fir_lshr, fir_zext, fir_sext,
  fir_trunc, fir_fpext, fir_fptrunc, fir_sitofp, fir_uitofp, fir_fptosi, fir_fptoui, fir_ptrtoint,
  fir_inttoptr, fir_bitcast,
}

-- Whether `strtoll` with base 0, and `strtod`, read the whole of a text.
pub record Numerals : Type 0 where
  pub is_strtoll : Bytes → Bool
  pub is_strtod : Bytes → Bool

unfoldable pub concat : List Bytes → Bytes
concat [] = []
concat (s ∷ ss) = s ++ concat ss

abbrev pub or_else : Option Bytes → Bytes → Bytes
or_else none d = d
or_else (some s) d = s

-- `%s` of a string that may be null.
abbrev pub shown : Option Bytes → Bytes
shown s = or_else s (codes "(null)")

abbrev pub is_word : Bytes → Bool
is_word v =
    str_eq v (codes "null")
    || str_eq v (codes "nullptr")
    || str_eq v (codes "undef")
    || str_eq v (codes "true")
    || str_eq v (codes "false")

-- A value: a name gets its `%`, a number or one of the words stands alone.
unfoldable pub pv : Numerals → Option Bytes → Bytes
pv n none = codes "undef"
pv n (some []) = codes "undef"
pv n (some (c ∷ cs)) =
    let v = c ∷ cs in
    if c == b'%' || c == b'@'
    then v
    else if n.is_strtoll v
    then v
    else if is_word v
    then v
    else if n.is_strtod v
    then v
    else b'%' ∷ v

-- A label.
unfoldable pub pl : Option Bytes → Bytes
pl none = []
pl (some []) = b'%' ∷ []
pl (some (c ∷ cs)) = if c == b'%' then c ∷ cs else b'%' ∷ c ∷ cs

-- The tables of names, by operation.
abbrev pub operation_name : FirOp → Bytes
operation_name fir_add = codes "add"
operation_name fir_sub = codes "sub"
operation_name fir_mul = codes "mul"
operation_name fir_div = codes "sdiv"
operation_name fir_mod = codes "srem"
operation_name fir_udiv = codes "udiv"
operation_name fir_urem = codes "urem"
operation_name fir_and = codes "and"
operation_name fir_or = codes "or"
operation_name fir_xor = codes "xor"
operation_name fir_shl = codes "shl"
operation_name fir_shr = codes "ashr"
operation_name fir_lshr = codes "lshr"
operation_name fir_fadd = codes "fadd"
operation_name fir_fsub = codes "fsub"
operation_name fir_fmul = codes "fmul"
operation_name fir_fdiv = codes "fdiv"
operation_name _ = []

abbrev pub cast_name : FirOp → Bytes
cast_name fir_sext = codes "sext"
cast_name fir_zext = codes "zext"
cast_name fir_trunc = codes "trunc"
cast_name fir_fpext = codes "fpext"
cast_name fir_fptrunc = codes "fptrunc"
cast_name fir_sitofp = codes "sitofp"
cast_name fir_uitofp = codes "uitofp"
cast_name fir_fptosi = codes "fptosi"
cast_name fir_fptoui = codes "fptoui"
cast_name fir_ptrtoint = codes "ptrtoint"
cast_name fir_inttoptr = codes "inttoptr"
cast_name fir_bitcast = codes "bitcast"
cast_name _ = []
