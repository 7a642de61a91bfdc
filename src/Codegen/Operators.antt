-- ===== src/Codegen/Operators.antt =====
-- src/fecodegen/codegen.c, `emit_expr`: binary operators and compound assignments.
use Prim.Native.String.{String}
use fermi.Base.{Bool, true, false, not, ◌&&◌, ◌||◌, [], ◌∷◌, Option, none, some, if◌then◌else◌}
use fermi.Base.Text.{Bytes, codes}
use fermi.Ast.{
  TypeKind, NodeInfo, AstNode, ty_void, ty_bool, ty_int, ty_long, ty_float, ty_double, ty_str,
  ty_raw_ptr, node_compound_assign, node_binary,
}
use fermi.Fir.{
  FirOp, fir_add, fir_sub, fir_mul, fir_div, fir_mod, fir_fadd, fir_fsub, fir_fmul, fir_fdiv,
  fir_icmp, fir_fcmp, fir_and, fir_or, fir_xor, fir_shl, fir_shr, fir_lshr, fir_ptr_add, fir_neg,
  fir_phi, fir_nop,
}
use fermi.Codegen.{
  Gen, VarEntry, pure, ◌>>=◌, ◌>>◌, reads, newtmp, newlbl, new_block, mk_instr, emit_instr,
  emit_load, emit_br, emit_br_cond,
}
use fermi.Codegen.Nodes.{with_ty}
use fermi.Codegen.Types.{is_type, ast_type_str, is_float_type, type_for_op, coerce_to}
use fermi.Codegen.Calls.{Emit, emit_rt_call}
use fermi.Codegen.Blocks.{emit_icmp}
use fermi.Codegen.Values.{value, ty_now, entry_of, emit_unary_op, emit_op_into, store_if}

-- The operation of an arithmetic operator, by whether its type is a floating one.
unfoldable pub arith_op : Bytes → Bool → Option FirOp
arith_op op fl =
    if is_type op "+"
    then some (if fl then fir_fadd else fir_add)
    else if is_type op "-"
    then some (if fl then fir_fsub else fir_sub)
    else if is_type op "*"
    then some (if fl then fir_fmul else fir_mul)
    else if is_type op "/"
    then some (if fl then fir_fdiv else fir_div)
    else if is_type op "%"
    then some fir_mod
    else if is_type op "&"
    then some fir_and
    else if is_type op "|"
    then some fir_or
    else if is_type op "^"
    then some fir_xor
    else if is_type op "<<"
    then some fir_shl
    else if is_type op ">>"
    then some fir_shr
    else if is_type op ">>>"
    then some fir_lshr
    else none

abbrev by_float : Bool → String → String → Option Bytes
by_float fl f i = some (codes (if fl then f else i))

-- The predicate of a comparison.
unfoldable pub cmp_pred : Bytes → Bool → Option Bytes
cmp_pred op fl =
    if is_type op "=="
    then by_float fl "oeq" "eq"
    else if is_type op "!="
    then by_float fl "one" "ne"
    else if is_type op "<"
    then by_float fl "olt" "slt"
    else if is_type op ">"
    then by_float fl "ogt" "sgt"
    else if is_type op "<="
    then by_float fl "ole" "sle"
    else if is_type op ">="
    then by_float fl "oge" "sge"
    else none

abbrev pub is_range : Bytes → Bool
is_range op = is_type op ".." || is_type op "..="

-- The kind of the result of an operation on a type.
unfoldable pub result_kind : Bytes → TypeKind
result_kind t =
    if is_type t "i64"
    then ty_long
    else if is_type t "float"
    then ty_float
    else if is_type t "double"
    then ty_double
    else ty_int

-- An operator that is none of those known gives a `nop`.
unfoldable pub or_nop : Option FirOp → FirOp
or_nop none = fir_nop
or_nop (some f) = f

unfoldable pub emit_arith_op :
    NodeInfo → Bytes → Bytes → Bytes → Bytes → Bytes → AstNode → AstNode → Gen (Bytes × AstNode)
emit_arith_op i op ty dst lv rv left right =
    if is_range op then value lv (node_binary (with_ty ty_int i) op left right) else do
      emit_op_into (or_nop (arith_op op (is_float_type ty))) dst ty lv rv
      value dst (node_binary (with_ty (result_kind ty) i) op left right)

unfoldable pub emit_cmp :
    NodeInfo
    → Bytes
    → Bytes
    → Bytes
    → Bytes
    → Bytes
    → Bytes
    → AstNode
    → AstNode
    → Gen (Bytes × AstNode)
emit_cmp i op pred ty dst lv rv left right = do
  emit_instr (record (mk_instr (if is_float_type ty then fir_fcmp else fir_icmp)) {
    dst = some dst;
    type = some ty;
    src1 = some lv;
    src2 = some rv;
    src3 = some pred;
  })
  value dst (node_binary (with_ty ty_bool i) op left right)

-- The last steps of a binary operator on two values of one type.
unfoldable pub emit_operator :
    NodeInfo → Bytes → Bytes → Bytes → Bytes → AstNode → AstNode → Gen (Bytes × AstNode)
emit_operator i op ty lv rv left right = do
  dst ← newtmp
  elim (cmp_pred op (is_float_type ty)) [
    | none ↦ emit_arith_op i op ty dst lv rv left right
    | some pred ↦ emit_cmp i op pred ty dst lv rv left right
  ]

unfoldable pub compound_op : Bytes → Bool → FirOp
compound_op op fl =
    if is_type op "-="
    then (if fl then fir_fsub else fir_sub)
    else if is_type op "*="
    then (if fl then fir_fmul else fir_mul)
    else if is_type op "/="
    then (if fl then fir_fdiv else fir_div)
    else if is_type op "%="
    then fir_mod
    else if is_type op "&="
    then fir_and
    else if is_type op "|="
    then fir_or
    else if is_type op "^="
    then fir_xor
    else if is_type op "<<="
    then fir_shl
    else if is_type op ">>="
    then fir_shr
    else if is_type op "+=" && fl
    then fir_fadd
    else fir_add

-- The type of the left side, which is asked for behind the right one.
unfoldable pub target_type : Option VarEntry → AstNode → Gen Bytes
target_type (some e) left = pure e.type
target_type none left = ast_type_str left

-- `-` on a pointer adds the negated offset.
unfoldable pub negate_if : Bool → Bytes → Gen Bytes
negate_if false v = pure v
negate_if true v = do neg ← newtmp; emit_unary_op fir_neg neg (codes "i64") v; pure neg

-- Whether an addition is one of texts, by the types that its operands have before.
unfoldable pub is_concat : Bytes → AstNode → AstNode → Gen Bool
is_concat op left right =
    if is_type op "+"
    then (do
      lt ← ty_now left
      if is_str lt then pure true else do rt ← ty_now right; pure (is_str rt))
    else pure false
  where
    is_str : TypeKind → Bool
    is_str ty_str = true
    is_str _ = false

module _ (emit : Emit) where
  -- `&&` and `||`. The conversion of the left operand is emitted, and its result not used.
  unfoldable pub emit_logical : NodeInfo → Bytes → AstNode → AstNode → Gen (Bytes × AstNode)
  emit_logical i op left right = do
    l ← emit.expr left
    lty ← ast_type_str l.1
    lcmp ← emit_icmp (codes "i1") l.0 (codes "0") (codes "ne")
    unused ← coerce_to l.0 lty (codes "i1")
    rl ← newlbl (codes "sc_r")
    sl ← newlbl (codes "sc_s")
    el ← newlbl (codes "sc_e")
    if is_type op "&&" then emit_br_cond lcmp sl rl else emit_br_cond lcmp rl sl
    new_block sl
    r ← emit.expr right
    rty ← ast_type_str r.1
    rv ← coerce_to r.0 rty (codes "i1")
    emit_br el
    new_block rl
    emit_br el
    new_block el
    phi_dst ← newtmp
    emit_instr (record (mk_instr fir_phi) {
      dst = some phi_dst;
      type = some (codes "i1");
      src1 = some rv;
      src2 = some sl;
      src3 = some (if is_type op "&&" then codes "0" else codes "1");
      args = rl ∷ [];
    })
    value phi_dst (node_binary (with_ty ty_bool i) op l.1 r.1)

  unfoldable pub emit_concat : NodeInfo → Bytes → AstNode → AstNode → Gen (Bytes × AstNode)
  emit_concat i op left right = do
    l ← emit.expr left
    r ← emit.expr right
    dst ←
        emit_rt_call (codes "__fermi_concat") (codes "ptr")
          ((codes "ptr", l.0) ∷ (codes "ptr", r.0) ∷ [])
    value dst (node_binary (with_ty ty_str i) op l.1 r.1)

  -- Arithmetic on a pointer, which is an error outside an unsafe block.
  unfoldable pub emit_pointer : NodeInfo → Bytes → Bytes → AstNode → AstNode → Gen (Bytes × AstNode)
  emit_pointer i op lv left right = do
    unsafe ← reads λ c. c.in_unsafe
    if not unsafe
        then value (codes "null") (node_binary (with_ty ty_raw_ptr i) op left right)
        else do
          r ← emit.expr right
          rty ← ast_type_str r.1
          offset ← coerce_to r.0 rty (codes "i64")
          rv ← negate_if (is_type op "-") offset
          pdst ← newtmp
          emit_op_into fir_ptr_add pdst (codes "ptr") lv rv
          value pdst (node_binary (with_ty ty_raw_ptr i) op left r.1)

  unfoldable pub emit_arith : NodeInfo → Bytes → AstNode → AstNode → Gen (Bytes × AstNode)
  emit_arith i op left right = do
    l ← emit.expr left
    lty ← ast_type_str l.1
    if is_type lty "ptr" && (is_type op "+" || is_type op "-")
        then emit_pointer i op l.0 l.1 right
        else do
          r ← emit.expr right
          ty ← type_for_op l.1 r.1
          lv ← coerce_to l.0 lty ty
          rty ← ast_type_str r.1
          rv ← coerce_to r.0 rty ty
          emit_operator i op ty lv rv l.1 r.1

  unfoldable pub emit_binary_expr : NodeInfo → Bytes → AstNode → AstNode → Gen (Bytes × AstNode)
  emit_binary_expr i op left right =
      if is_type op "&&" || is_type op "||" then emit_logical i op left right else do
        texts ← is_concat op left right
        if texts then emit_concat i op left right else emit_arith i op left right

  -- The left side is read: a variable from its slot.
  unfoldable pub emit_target : Option VarEntry → AstNode → Gen (Bytes × AstNode)
  emit_target (some e) left = do v ← emit_load e.slot e.type; pure (v, left)
  emit_target none left = emit.expr left

  unfoldable pub emit_compound : NodeInfo → Bytes → AstNode → AstNode → Gen (Bytes × AstNode)
  emit_compound i op left right = do
    entry ← reads (entry_of left)
    l ← emit_target entry left
    r ← emit.expr right
    ty ← target_type entry l.1
    rty ← ast_type_str r.1
    rv ← coerce_to r.0 rty ty
    dst ← newtmp
    emit_op_into (compound_op op (is_float_type ty)) dst ty l.0 rv
    store_if entry dst ty
    value dst (node_compound_assign (with_ty ty_void i) op l.1 r.1)
