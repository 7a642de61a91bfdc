-- ===== src/Fir/Instr.antt =====
-- src/fecodegen/fir.c, `fir_print_instr` and `fir_print_module`.
use fermi.Base.{
  Bool, true, false, not, ◌&&◌, ◌||◌, List, [], ◌∷◌, ◌++◌, Option, none, some, map, if◌then◌else◌,
  ◌==◌,
}
use fermi.Base.Text.{Bytes, codes, str_eq}
use fermi.Fir.{
  FirOp, FirInstr, FirBlock, FirParam, FirFn, FirStructDecl, FirGlobal, FirModule, fir_alloca,
  fir_store, fir_load, fir_icmp, fir_fcmp, fir_not, fir_bitnot, fir_br, fir_br_cond, fir_call,
  fir_call_indirect, fir_ret, fir_ret_void, fir_label, fir_zext, fir_sext, fir_trunc, fir_fpext,
  fir_fptrunc, fir_sitofp, fir_uitofp, fir_fptosi, fir_fptoui, fir_gep, fir_gep_struct, fir_ptr_add,
  fir_ptrtoint, fir_inttoptr, fir_bitcast, fir_neg, fir_fneg, fir_const_str, fir_phi, fir_select,
  fir_nop, fir_unreachable, fir_memcpy, fir_memset_i,
}
use fermi.Fir.Print.{Numerals, concat, or_else, shown, pv, pl, operation_name, cast_name}

-- `%dst = `
abbrev defines : FirInstr → Bytes
defines i = b'%' ∷ (shown i.dst ++ codes " = ")

abbrev typed : FirInstr → Bytes
typed i = or_else i.type (codes "i32")

-- Some arguments of a call, each with its type, which is `i32` where none is given.
unfoldable pub call_args : Numerals → List Bytes → List Bytes → Bytes
call_args n [] tys = []
call_args n (a ∷ []) [] = concat (codes "i32 " ∷ pv n (some a) ∷ [])
call_args n (a ∷ []) (t ∷ tys) = concat (t ∷ codes " " ∷ pv n (some a) ∷ [])
call_args n (a ∷ b ∷ rest) [] =
    concat (codes "i32 " ∷ pv n (some a) ∷ codes ", " ∷ call_args n (b ∷ rest) [] ∷ [])
call_args n (a ∷ b ∷ rest) (t ∷ tys) =
    concat (t ∷ codes " " ∷ pv n (some a) ∷ codes ", " ∷ call_args n (b ∷ rest) tys ∷ [])

-- The name of a function gets an `@` where it has no sigil.
abbrev pub with_at : Bytes → Bytes
with_at [] = b'@' ∷ []
with_at (c ∷ cs) = if c == b'@' || c == b'%' then c ∷ cs else b'@' ∷ c ∷ cs

abbrev pub is_empty : Option Bytes → Bool
is_empty none = true
is_empty (some []) = true
is_empty (some (c ∷ cs)) = false

unfoldable pub print_call : Numerals → FirInstr → Bytes
print_call n i =
    let is_void = str_eq (or_else i.type (codes "void")) (codes "void") in
    concat (
      (if not (is_empty i.dst) && not is_void then defines i else [])
      ∷ codes "call "
      ∷ or_else i.type (codes "void")
      ∷ codes " "
      ∷ with_at (or_else i.src1 (codes "???"))
      ∷ codes "("
      ∷ call_args n i.args i.arg_types
      ∷ codes ")"
      ∷ [])

-- The pairs of a phi; an argument without a partner is left out.
unfoldable pub phi_pairs : Numerals → List Bytes → Bytes
phi_pairs n [] = []
phi_pairs n (v ∷ []) = []
phi_pairs n (v ∷ l ∷ []) =
    concat (codes " [ " ∷ pv n (some v) ∷ codes ", " ∷ pl (some l) ∷ codes " ]" ∷ [])
phi_pairs n (v ∷ l ∷ w ∷ rest) = concat (
    codes " [ "
    ∷ pv n (some v)
    ∷ codes ", "
    ∷ pl (some l)
    ∷ codes " ],"
    ∷ phi_pairs n (w ∷ rest)
    ∷ [])

abbrev print_binary : Numerals → FirOp → FirInstr → Bytes
print_binary n op i = concat (
    defines i
    ∷ operation_name op
    ∷ codes " "
    ∷ typed i
    ∷ codes " "
    ∷ pv n i.src1
    ∷ codes ", "
    ∷ pv n i.src2
    ∷ [])

abbrev print_cast : Numerals → FirOp → FirInstr → Bytes
print_cast n op i = concat (
    defines i
    ∷ cast_name op
    ∷ codes " "
    ∷ or_else i.src2 (typed i)
    ∷ codes " "
    ∷ pv n i.src1
    ∷ codes " to "
    ∷ or_else i.type (codes "i64")
    ∷ [])

-- The last cases of the switch; an operation that is in no other case is a binary one.
unfoldable pub print_other : Numerals → FirOp → FirInstr → Bytes
print_other n fir_memcpy i = concat (
    codes "call void @memcpy(ptr "
    ∷ pv n i.dst
    ∷ codes ", ptr "
    ∷ pv n i.src1
    ∷ codes ", i64 "
    ∷ pv n i.src2
    ∷ codes ")"
    ∷ [])
print_other n fir_memset_i i = concat (
    codes "call void @memset(ptr "
    ∷ pv n i.dst
    ∷ codes ", i32 "
    ∷ pv n i.src1
    ∷ codes ", i64 "
    ∷ pv n i.src2
    ∷ codes ")"
    ∷ [])
print_other n fir_gep i = concat (
    defines i
    ∷ codes "getelementptr "
    ∷ or_else i.type (codes "i8")
    ∷ codes ", ptr "
    ∷ pv n i.src1
    ∷ codes ", i64 "
    ∷ pv n i.src2
    ∷ [])
print_other n fir_gep_struct i = concat (
    defines i
    ∷ codes "getelementptr inbounds %struct."
    ∷ or_else i.type (codes "?")
    ∷ codes ", ptr "
    ∷ pv n i.src1
    ∷ codes ", i32 0, i32 "
    ∷ or_else i.src3 (codes "0")
    ∷ [])
print_other n fir_ptr_add i =
    concat
      (defines i ∷ codes "getelementptr i8, ptr " ∷ pv n i.src1 ∷ codes ", i64 " ∷ pv n i.src2 ∷ [])
print_other n fir_const_str i =
    concat (defines i ∷ codes "const_str \"" ∷ or_else i.src1 [] ∷ codes "\"" ∷ [])
print_other n fir_nop i = codes "; nop"
print_other n fir_label i = codes "; label " ++ or_else i.src1 []
print_other n op i = print_binary n op i

-- The first cases of the switch.
unfoldable pub print_op : Numerals → FirOp → FirInstr → Bytes
print_op n fir_alloca i = concat (defines i ∷ codes "alloca " ∷ or_else i.type (codes "i8") ∷ [])
print_op n fir_store i =
    concat (codes "store " ∷ typed i ∷ codes " " ∷ pv n i.src1 ∷ codes ", ptr " ∷ pv n i.dst ∷ [])
print_op n fir_load i =
    concat (defines i ∷ codes "load " ∷ typed i ∷ codes ", ptr " ∷ pv n i.src1 ∷ [])
print_op n fir_neg i = concat (defines i ∷ codes "neg " ∷ typed i ∷ codes " " ∷ pv n i.src1 ∷ [])
print_op n fir_fneg i =
    concat
      (defines i ∷ codes "fneg " ∷ or_else i.type (codes "double") ∷ codes " " ∷ pv n i.src1 ∷ [])
print_op n fir_not i =
    concat (defines i ∷ codes "not " ∷ or_else i.type (codes "i1") ∷ codes " " ∷ pv n i.src1 ∷ [])
print_op n fir_bitnot i =
    concat (defines i ∷ codes "xor " ∷ typed i ∷ codes " " ∷ pv n i.src1 ∷ codes ", -1" ∷ [])
print_op n fir_icmp i = concat (
    defines i
    ∷ codes "icmp "
    ∷ or_else i.src3 (codes "eq")
    ∷ codes " "
    ∷ typed i
    ∷ codes " "
    ∷ pv n i.src1
    ∷ codes ", "
    ∷ pv n i.src2
    ∷ [])
print_op n fir_fcmp i = concat (
    defines i
    ∷ codes "fcmp "
    ∷ or_else i.src3 (codes "oeq")
    ∷ codes " "
    ∷ or_else i.type (codes "double")
    ∷ codes " "
    ∷ pv n i.src1
    ∷ codes ", "
    ∷ pv n i.src2
    ∷ [])
print_op n fir_sext i = print_cast n fir_sext i
print_op n fir_zext i = print_cast n fir_zext i
print_op n fir_trunc i = print_cast n fir_trunc i
print_op n fir_fpext i = print_cast n fir_fpext i
print_op n fir_fptrunc i = print_cast n fir_fptrunc i
print_op n fir_sitofp i = print_cast n fir_sitofp i
print_op n fir_uitofp i = print_cast n fir_uitofp i
print_op n fir_fptosi i = print_cast n fir_fptosi i
print_op n fir_fptoui i = print_cast n fir_fptoui i
print_op n fir_ptrtoint i = print_cast n fir_ptrtoint i
print_op n fir_inttoptr i = print_cast n fir_inttoptr i
print_op n fir_bitcast i = print_cast n fir_bitcast i
print_op n fir_br i = codes "br label " ++ pl i.src1
print_op n fir_br_cond i = concat (
    codes "br i1 " ∷ pv n i.src1 ∷ codes ", label " ∷ pl i.src2 ∷ codes ", label " ∷ pl i.src3 ∷ [])
print_op n fir_ret i = concat (codes "ret " ∷ typed i ∷ codes " " ∷ pv n i.src1 ∷ [])
print_op n fir_ret_void i = codes "ret void"
print_op n fir_unreachable i = codes "unreachable"
print_op n fir_call i = print_call n i
print_op n fir_call_indirect i = print_call n i
print_op n fir_select i = concat (
    defines i
    ∷ codes "select i1 "
    ∷ pv n i.src1
    ∷ codes ", "
    ∷ typed i
    ∷ codes " "
    ∷ pv n i.src2
    ∷ codes ", "
    ∷ typed i
    ∷ codes " "
    ∷ pv n i.src3
    ∷ [])
print_op n fir_phi i = concat (defines i ∷ codes "phi " ∷ typed i ∷ phi_pairs n i.args ∷ [])
print_op n op i = print_other n op i

unfoldable pub fir_print_instr : Numerals → FirInstr → Bytes
fir_print_instr n i = concat (codes "    " ∷ print_op n i.op i ∷ codes "\n" ∷ [])

-- Texts with ", " between them.
unfoldable pub separated : List Bytes → Bytes
separated [] = []
separated (s ∷ []) = s
separated (s ∷ t ∷ ss) = concat (s ∷ codes ", " ∷ separated (t ∷ ss) ∷ [])

unfoldable pub print_struct : FirStructDecl → Bytes
print_struct sd =
    concat (
      codes "%struct."
      ∷ sd.name
      ∷ codes " = type { "
      ∷ separated sd.field_types
      ∷ codes " }\n"
      ∷ [])

unfoldable pub print_global : FirGlobal → Bytes
print_global g = concat (
    codes "@"
    ∷ g.name
    ∷ (if g.is_const then codes " = private constant " else codes " = global ")
    ∷ or_else g.type (codes "i8")
    ∷ codes " "
    ∷ or_else g.init (codes "zeroinitializer")
    ∷ codes "\n"
    ∷ [])

-- A dead block is not printed.
unfoldable pub print_block : Numerals → FirBlock → Bytes
print_block n b =
    if b.dead
    then []
    else concat
        (codes "  " ∷ b.label ∷ codes ":\n" ∷ concat (map (fir_print_instr n) b.instrs) ∷ [])

abbrev dots : Bool → List Bytes
dots true = codes "..." ∷ []
dots false = []

unfoldable pub print_fn : Numerals → FirFn → Bytes
print_fn n f =
    if f.is_extern
    then concat (
        codes "external fn @"
        ∷ f.name
        ∷ codes "("
        ∷ separated (map (λ (p : FirParam). p.type) f.params ++ dots f.is_vararg)
        ∷ codes "): "
        ∷ or_else f.ret_type (codes "void")
        ∷ codes "\n"
        ∷ [])
    else concat (
        codes "fn @"
        ∷ f.name
        ∷ codes "("
        ∷ separated (map (λ (p : FirParam). p.type ++ codes " %" ++ p.name) f.params)
        ∷ codes "): "
        ∷ or_else f.ret_type (codes "void")
        ∷ codes " {\n"
        ∷ concat (map (print_block n) f.blocks)
        ∷ codes "}\n\n"
        ∷ [])

-- A blank line behind a part that is not empty.
abbrev closed_by_line : List Bytes → Bytes
closed_by_line [] = []
closed_by_line (s ∷ ss) = concat (s ∷ ss) ++ codes "\n"

unfoldable pub fir_print_module : Numerals → FirModule → Bytes
fir_print_module n m = concat (
    closed_by_line (map print_struct m.struct_decls)
    ∷ closed_by_line (map print_global m.globals)
    ∷ concat (map (print_fn n) m.fns)
    ∷ [])
