-- ===== src/Codegen/Values.antt =====
-- src/fecodegen/codegen.c, `emit_expr`: literals, names and unary operators. The texts that `%.9g`
-- and `%.17g` give for a literal are the C library's.
use fermi.Base.{
  ℕ, ◌*◌, Bool, false, ◌||◌, List, [], ◌∷◌, ◌++◌, Option, none, some, take, if◌then◌else◌,
}
use fermi.Base.Text.{Bytes, codes, str_eq}
use fermi.Base.Decimal.{decimal}
use fermi.Ast.{
  TypeKind, NodeInfo, AstNode, ty_bool, ty_int, ty_long, ty_float, ty_double, ty_char, ty_str,
  ty_named, ty_fn_ptr, node_unary, node_ident,
}
use fermi.Fir.{FirOp, FirFn, fir_sext, fir_fneg, fir_neg, fir_bitnot, fir_add, fir_sub, fir_icmp}
use fermi.Opt.Const.{print_lld}
use fermi.Codegen.{
  Codegen, Gen, VarEntry, EnumInfo, pure, ◌>>=◌, ◌>>◌, reads, newtmp, mk_instr, emit_instr,
  emit_load, emit_store, fns,
}
use fermi.Codegen.Nodes.{node_info, with_ty}
use fermi.Codegen.Scope.{var_lookup, find_enum_variant}
use fermi.Codegen.Types.{is_type, ast_type_str, is_float_type}
use fermi.Codegen.Comptime.{find_comptime}
use fermi.Codegen.Calls.{Emit}

-- `snprintf` with `%.9g` and `%.17g` of the number that a text stands for.
pub record FloatTexts : Type 0 where
  pub print_float : Bytes → Bytes
  pub print_double : Bytes → Bytes

-- A value and the node with its type.
abbrev pub value : Bytes → AstNode → Gen (Bytes × AstNode)
value v n = pure (v, n)

-- The type set on a node; the source reads it without a test for null.
unfoldable pub ty_now : AstNode → Gen TypeKind
ty_now n c = elim (node_info n) [ none ↦ none | some i ↦ some (i.ty, c) ]

-- The node of a variable of a type that has just been read.
unfoldable pub read_info : Bytes → NodeInfo → NodeInfo
read_info t i =
    if is_type t "i32"
    then with_ty ty_int i
    else if is_type t "i64"
    then with_ty ty_long i
    else if is_type t "float"
    then with_ty ty_float i
    else if is_type t "double"
    then with_ty ty_double i
    else if is_type t "i1"
    then with_ty ty_bool i
    else if is_type t "i8"
    then with_ty ty_char i
    else if is_type t "ptr"
    then with_ty ty_str i
    else record i { ty = ty_named; ty_name = some t }

unfoldable pub has_fn : Bytes → List FirFn → Bool
has_fn name [] = false
has_fn name (f ∷ fs) = str_eq f.name name || has_fn name fs

-- The instruction that extends a value of a type to 64 bits.
unfoldable pub emit_sext : Bytes → Bytes → Gen Bytes
emit_sext v from = do
  dst ← newtmp
  emit_instr (record (mk_instr fir_sext) {
    dst = some dst;
    type = some (codes "i64");
    src1 = some v;
    src2 = some from;
  })
  pure dst

-- A variant without a payload, or 0.
unfoldable pub emit_variant_name : NodeInfo → Bytes → Option (ℕ × EnumInfo) → Gen (Bytes × AstNode)
emit_variant_name i name none = value (codes "0") (node_ident (with_ty ty_int i) name)
emit_variant_name i name (some v) = do
  dst ← emit_sext (decimal (v.0 * 2)) (codes "i32")
  value dst (node_ident (with_ty ty_long i) name)

-- A name that is no constant and no variable.
unfoldable pub emit_global : NodeInfo → Bytes → Gen (Bytes × AstNode)
emit_global i name = do
  known ← reads λ c. has_fn name (fns c)
  variant ← reads (find_enum_variant name)
  if known
      then value (take 255 (codes "@" ++ name)) (node_ident (with_ty ty_fn_ptr i) name)
      else emit_variant_name i name variant

unfoldable pub emit_ident : NodeInfo → Bytes → Gen (Bytes × AstNode)
emit_ident i name = do
  constant ← reads λ c. find_comptime name c.comptime
  entry ← reads (var_lookup name)
  elim constant [
    | some z ↦ value (print_lld z) (node_ident (with_ty ty_long i) name)
    | none ↦ elim entry [
      | some e ↦ do v ← emit_load e.slot e.type; value v (node_ident (read_info e.type i) name)
      | none ↦ emit_global i name
    ]
  ]

-- The variable that a name stands for, if a node is a name.
unfoldable pub entry_of : AstNode → Codegen → Option VarEntry
entry_of (node_ident i name) c = var_lookup name c
entry_of _ c = none

-- An instruction with one operand, into a temporary that was taken before.
unfoldable pub emit_unary_op : FirOp → Bytes → Bytes → Bytes → Gen Unit
emit_unary_op op dst type v =
    emit_instr (record (mk_instr op) { dst = some dst; type = some type; src1 = some v })

-- An instruction with two operands, into a temporary that was taken before.
unfoldable pub emit_op_into : FirOp → Bytes → Bytes → Bytes → Bytes → Gen Unit
emit_op_into op dst type a b =
    emit_instr
      (record (mk_instr op) { dst = some dst; type = some type; src1 = some a; src2 = some b })

-- `if(e) emit_store(cg,val,e->slot,type)`
unfoldable pub store_if : Option VarEntry → Bytes → Bytes → Gen Unit
store_if none val type = pure tt
store_if (some e) val type = emit_store val e.slot type

-- `++` and `--`: the new value before the operand, the old one behind it.
unfoldable pub emit_increment : FirOp → Bytes → Bytes → Bytes → AstNode → Bool → Gen Bytes
emit_increment op dst type v operand prefix = do
  emit_op_into op dst type v (codes "1")
  entry ← reads (entry_of operand)
  store_if entry dst type
  pure (if prefix then dst else v)

module _ (emit : Emit) where
  unfoldable pub emit_unary : NodeInfo → Bytes → AstNode → Bool → Gen (Bytes × AstNode)
  emit_unary i op operand prefix = do
    r ← emit.expr operand
    oty ← ast_type_str r.1
    kind ← ty_now r.1
    dst ← newtmp
    if is_type op "!"
        then (do
          emit_instr (record (mk_instr fir_icmp) {
            dst = some dst;
            type = some (codes "i1");
            src1 = some r.0;
            src2 = some (codes "0");
            src3 = some (codes "eq");
          })
          value dst (node_unary (with_ty ty_bool i) op r.1 prefix))
        else if is_type op "-"
        then (do
          emit_unary_op (if is_float_type oty then fir_fneg else fir_neg) dst oty r.0
          value dst (node_unary (with_ty kind i) op r.1 prefix))
        else if is_type op "~"
        then (do
          emit_unary_op fir_bitnot dst oty r.0
          value dst (node_unary (with_ty kind i) op r.1 prefix))
        else if is_type op "++"
        then (do
          v ← emit_increment fir_add dst oty r.0 r.1 prefix
          value v (node_unary (with_ty kind i) op r.1 prefix))
        else if is_type op "--"
        then (do
          v ← emit_increment fir_sub dst oty r.0 r.1 prefix
          value v (node_unary (with_ty kind i) op r.1 prefix))
        else value r.0 (node_unary (with_ty ty_int i) op r.1 prefix)
