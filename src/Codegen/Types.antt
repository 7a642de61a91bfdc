-- ===== src/Codegen/Types.antt =====
-- src/fecodegen/codegen.c: the types of the intermediate code, and conversions between them.
use Prim.Native.String.{String}
use fermi.Base.{
  ℕ, Bool, ◌&&◌, ◌||◌, [], ◌∷◌, ◌++◌, Option, none, some, take, ◌==◌, ltb, if◌then◌else◌,
}
use fermi.Base.Text.{Bytes, codes, str_eq}
use fermi.Ast.{
  TypeKind, TypeNode, AstNode, no_type, type_node, ty_void, ty_bool, ty_byte, ty_short, ty_ushort,
  ty_int, ty_uint, ty_long, ty_ulong, ty_float, ty_double, ty_char, ty_str, ty_ref, ty_raw_ptr,
  ty_array_fixed, ty_array_dyn, ty_fn_ptr, ty_named,
}
use fermi.Fir.{FirOp, fir_fptosi, fir_sitofp, fir_fpext, fir_fptrunc, fir_sext, fir_trunc, fir_zext}
use fermi.Opt.Const.{print_lld}
use fermi.Codegen.{Codegen, Gen, pure, ◌>>=◌, ◌>>◌, newtmp, mk_instr, emit_instr, reads, VarEntry}
use fermi.Codegen.Scope.{find_struct, find_enum, var_lookup}
use fermi.Codegen.Nodes.{node_info}

unfoldable pub typekind_to_llvm : TypeKind → Bytes
typekind_to_llvm ty_void = codes "void"
typekind_to_llvm ty_bool = codes "i1"
typekind_to_llvm ty_byte = codes "i8"
typekind_to_llvm ty_short = codes "i16"
typekind_to_llvm ty_ushort = codes "i16"
typekind_to_llvm ty_int = codes "i32"
typekind_to_llvm ty_uint = codes "i32"
typekind_to_llvm ty_long = codes "i64"
typekind_to_llvm ty_ulong = codes "i64"
typekind_to_llvm ty_float = codes "float"
typekind_to_llvm ty_double = codes "double"
typekind_to_llvm ty_char = codes "i8"
typekind_to_llvm ty_str = codes "ptr"
typekind_to_llvm ty_ref = codes "ptr"
typekind_to_llvm ty_raw_ptr = codes "ptr"
typekind_to_llvm ty_fn_ptr = codes "ptr"
typekind_to_llvm ty_named = codes "ptr"
typekind_to_llvm _ = codes "i32"

-- The type of a name: a struct, an enum, or else a pointer. `snprintf` writes into 128 bytes.
abbrev pub struct_type : Bytes → Bytes
struct_type name = take 127 (codes "%struct." ++ name)

unfoldable pub named_type : Bytes → Codegen → Bytes
named_type name c = elim (find_struct name c) [
  | some s ↦ struct_type name
  | none ↦ elim (find_enum name c) [ some e ↦ codes "i64" | none ↦ codes "ptr" ]
]

unfoldable pub typenode_to_llvm : TypeNode → Codegen → Bytes
typenode_to_llvm no_type c = codes "i32"
typenode_to_llvm (type_node ty_named inner size (some name)) c = named_type name c
typenode_to_llvm (type_node ty_named inner size none) c = typekind_to_llvm ty_named
typenode_to_llvm (type_node ty_array_fixed no_type size name) c = typekind_to_llvm ty_array_fixed
typenode_to_llvm (type_node ty_array_fixed (type_node k i s m) size name) c = take 127 (
    codes "["
    ++ print_lld size
    ++ codes " x "
    ++ typenode_to_llvm (type_node k i s m) c
    ++ codes "]")
typenode_to_llvm (type_node ty_array_dyn inner size name) c = codes "ptr"
typenode_to_llvm (type_node ty_ref inner size name) c = codes "ptr"
typenode_to_llvm (type_node ty_raw_ptr inner size name) c = codes "ptr"
typenode_to_llvm (type_node ty_fn_ptr inner size name) c = codes "ptr"
typenode_to_llvm (type_node kind inner size name) c = typekind_to_llvm kind

unfoldable pub ast_type_str : AstNode → Gen Bytes
ast_type_str n c = elim (node_info n) [
  | none ↦ none
  | some i ↦ elim i.ty_name [
    | some name ↦ some (named_type name c, c)
    | none ↦ some (typekind_to_llvm i.ty, c)
  ]
]

unfoldable pub is_type : Bytes → String → Bool
is_type t s = str_eq t (codes s)

-- `infer_val_type` on a value that is not null.
unfoldable pub infer_val_type : Bytes → AstNode → Gen Bytes
infer_val_type v n = do
  e ← reads (sigil_entry v)
  elim e [
    | some entry ↦ pure entry.type
    | none ↦ elim (node_info n) [ some i ↦ ast_type_str n | none ↦ pure (codes "i32") ]
  ]
  where
    sigil_entry : Bytes → Codegen → Option VarEntry
    sigil_entry [] c = none
    sigil_entry (b ∷ name) c = if b == b'%' then var_lookup name c else none

-- The type of a null operand is `i32`.
abbrev pub operand_type : AstNode → Gen Bytes
operand_type n = elim (node_info n) [ some i ↦ ast_type_str n | none ↦ pure (codes "i32") ]

abbrev pub wider : Bytes → Bytes → Bytes
wider lt rt =
    if is_type lt "double" || is_type rt "double"
    then codes "double"
    else if is_type lt "float" || is_type rt "float"
    then codes "float"
    else if is_type lt "i64" || is_type rt "i64"
    then codes "i64"
    else if is_type lt "ptr" || is_type rt "ptr"
    then codes "ptr"
    else if is_type lt "i8" && is_type rt "i8"
    then codes "i8"
    else if is_type lt "i16" || is_type rt "i16"
    then codes "i16"
    else codes "i32"

unfoldable pub type_for_op : AstNode → AstNode → Gen Bytes
type_for_op left right = do lt ← operand_type left; rt ← operand_type right; pure (wider lt rt)

unfoldable pub is_float_type : Bytes → Bool
is_float_type t = is_type t "float" || is_type t "double"

unfoldable pub is_int_type : Bytes → Bool
is_int_type t =
    is_type t "i8" || is_type t "i16" || is_type t "i32" || is_type t "i64" || is_type t "i1"

-- The width of an integer type.
unfoldable pub int_width : Bytes → ℕ
int_width t =
    if is_type t "i64"
    then 64
    else if is_type t "i32"
    then 32
    else if is_type t "i16"
    then 16
    else if is_type t "i8"
    then 8
    else 1

-- The instruction that converts one type into another; the last test of the source is never
-- reached, since both its types are integer types.
unfoldable pub conversion : Bytes → Bytes → Option FirOp
conversion from to =
    if is_float_type from && is_int_type to
    then some fir_fptosi
    else if is_int_type from && is_float_type to
    then some fir_sitofp
    else if is_type from "float" && is_type to "double"
    then some fir_fpext
    else if is_type from "double" && is_type to "float"
    then some fir_fptrunc
    else if is_int_type from && is_int_type to
    then (if ltb (int_width from) (int_width to) then some fir_sext else some fir_trunc)
    else if is_type from "i1" && is_type to "i32"
    then some fir_zext
    else none

-- A value converted into a temporary; without a conversion the value stays as it is.
unfoldable pub emit_converted : Option FirOp → Bytes → Bytes → Bytes → Bytes → Gen Bytes
emit_converted none val from to dst = pure val
emit_converted (some op) val from to dst = do
  emit_instr
      (record (mk_instr op) { dst = some dst; type = some to; src1 = some val; src2 = some from })
  pure dst

unfoldable pub coerce_to : Bytes → Bytes → Bytes → Gen Bytes
coerce_to val from to =
    if str_eq from to
    then pure val
    else do dst ← newtmp; emit_converted (conversion from to) val from to dst

unfoldable pub tynode_sizeof : TypeNode → ℕ
tynode_sizeof no_type = 8
tynode_sizeof (type_node ty_bool i s n) = 1
tynode_sizeof (type_node ty_byte i s n) = 1
tynode_sizeof (type_node ty_char i s n) = 1
tynode_sizeof (type_node ty_short i s n) = 2
tynode_sizeof (type_node ty_ushort i s n) = 2
tynode_sizeof (type_node ty_int i s n) = 4
tynode_sizeof (type_node ty_uint i s n) = 4
tynode_sizeof (type_node ty_float i s n) = 4
tynode_sizeof (type_node _ i s n) = 8
