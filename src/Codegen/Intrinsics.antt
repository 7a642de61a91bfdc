-- ===== src/Codegen/Intrinsics.antt =====
-- src/fecodegen/codegen.c, `emit_expr`: NODE_AT_CALL.
use fermi.Base.{Bool, true, false, ◌||◌, [], ◌∷◌, some, if◌then◌else◌}
use fermi.Base.Text.{Bytes, codes}
use fermi.Base.Decimal.{decimal}
use fermi.Ast.{
  TypeNode, NodeInfo, AstNode, AstList, ty_void, ty_bool, ty_byte, ty_short, ty_int, ty_uint,
  ty_long, ty_ulong, ty_float, ty_double, ty_char, ty_str, ty_raw_ptr, type_node, node_at_call,
}
use fermi.Fir.{fir_unreachable, fir_select}
use fermi.Codegen.{
  Gen, pure, ◌>>=◌, ◌>>◌, newtmp, newlbl, new_block, mk_instr, emit_instr, emit_br_cond,
}
use fermi.Codegen.Nodes.{with_ty}
use fermi.Codegen.Types.{is_type, ast_type_str, coerce_to, tynode_sizeof}
use fermi.Codegen.Calls.{Emit, emit_rt_call, emit_const_str}
use fermi.Codegen.Blocks.{is_null}
use fermi.Codegen.Values.{value}
use fermi.Codegen.FnCalls.{arg_at, put_arg, arg_type, emit_or}

unfoldable pub type_text : TypeNode → Bytes
type_text (type_node ty_int i s n) = codes "int"
type_text (type_node ty_uint i s n) = codes "uint"
type_text (type_node ty_long i s n) = codes "long"
type_text (type_node ty_ulong i s n) = codes "ulong"
type_text (type_node ty_float i s n) = codes "float"
type_text (type_node ty_double i s n) = codes "double"
type_text (type_node ty_bool i s n) = codes "bool"
type_text (type_node ty_byte i s n) = codes "byte"
type_text (type_node ty_char i s n) = codes "char"
type_text (type_node ty_short i s n) = codes "short"
type_text (type_node ty_str i s n) = codes "str"
type_text (type_node ty_raw_ptr i s n) = codes "ptr"
type_text _ = codes "unknown"

unfoldable pub emit_unreachable : Gen Unit
emit_unreachable = emit_instr (mk_instr fir_unreachable)

-- The call that ends the program with a message, and what follows it.
unfoldable pub emit_panic_call : Bytes → Gen Unit
emit_panic_call msg = do
  called ← emit_rt_call (codes "__fermi_panic") (codes "void") ((codes "ptr", msg) ∷ [])
  emit_unreachable

module _ (emit : Emit) where
  -- A message that is given, or a constant text.
  unfoldable pub emit_message : Bytes → AstNode → Gen (Bytes × AstNode)
  emit_message text n =
      if is_null n then (do msg ← emit_const_str text; pure (msg, n)) else emit.expr n

  unfoldable pub emit_panic : AstList → Gen AstList
  emit_panic args = do
    msg ← emit_message (codes "panic") (arg_at 0 args)
    emit_panic_call msg.0
    dl ← newlbl (codes "panicd")
    new_block dl
    pure (put_arg 0 msg.1 args)

  unfoldable pub emit_assert : AstList → Gen AstList
  emit_assert args = do
    cond ← emit_or emit (codes "0") (arg_at 0 args)
    okl ← newlbl (codes "aok")
    fll ← newlbl (codes "afail")
    emit_br_cond cond.0 okl fll
    new_block fll
    msg ← emit_message (codes "assertion failed") (arg_at 1 args)
    emit_panic_call msg.0
    new_block okl
    pure (put_arg 0 cond.1 (put_arg 1 msg.1 args))

  unfoldable pub emit_at_unreachable : Gen Unit
  emit_at_unreachable = do emit_unreachable; dl ← newlbl (codes "unrd"); new_block dl

  -- `memcpy` and `memset`: the second argument by the value that stands for it, and the type that
  -- it is converted to, if it is.
  unfoldable pub emit_memory : Bytes → Bytes → Bool → AstList → Gen AstList
  emit_memory fn default converted args = do
    dst ← emit_or emit (codes "null") (arg_at 0 args)
    src ← emit_or emit default (arg_at 1 args)
    src_type ← arg_type src.1
    second ← if converted then coerce_to src.0 src_type (codes "i32") else pure src.0
    size ← emit_or emit (codes "0") (arg_at 2 args)
    size_type ← arg_type size.1
    count ← coerce_to size.0 size_type (codes "i64")
    called ← emit_rt_call fn (codes "ptr") (
        (codes "ptr", dst.0)
        ∷ (if converted then codes "i32" else codes "ptr", second)
        ∷ (codes "i64", count)
        ∷ [])
    pure (put_arg 0 dst.1 (put_arg 1 src.1 (put_arg 2 size.1 args)))

  unfoldable pub emit_select : AstList → Gen (Bytes × AstList)
  emit_select args =
      if is_null (arg_at 0 args) || is_null (arg_at 1 args) then pure (codes "0", args) else do
        c ← emit.expr (arg_at 0 args)
        cty ← ast_type_str c.1
        cond ← coerce_to c.0 cty (codes "i1")
        t ← emit.expr (arg_at 1 args)
        f ← emit_or emit (codes "0") (arg_at 2 args)
        sty ← ast_type_str t.1
        dst ← newtmp
        emit_instr (record (mk_instr fir_select) {
          dst = some dst;
          type = some sty;
          src1 = some cond;
          src2 = some t.0;
          src3 = some f.0;
        })
        pure (dst, put_arg 0 c.1 (put_arg 1 t.1 (put_arg 2 f.1 args)))

  -- A call for its effect, whose value is 0.
  unfoldable pub effect : NodeInfo → Bytes → TypeNode → Gen AstList → Gen (Bytes × AstNode)
  effect i name type_arg m = do
    args ← m
    value (codes "0") (node_at_call (with_ty ty_void i) name args type_arg)

  -- An unknown name is reported, and its arguments are not evaluated.
  unfoldable pub emit_at_call : NodeInfo → Bytes → AstList → TypeNode → Gen (Bytes × AstNode)
  emit_at_call i name args t =
      if is_type name "panic"
      then effect i name t (emit_panic args)
      else if is_type name "assert"
      then effect i name t (emit_assert args)
      else if is_type name "unreachable"
      then (do
        emit_at_unreachable
        value (codes "0") (node_at_call (with_ty ty_void i) name args t))
      else if is_type name "sizeof" || is_type name "alignof"
      then value (decimal (tynode_sizeof t)) (node_at_call (with_ty ty_long i) name args t)
      else if is_type name "typeof"
      then (do
        dst ← emit_const_str (type_text t)
        value dst (node_at_call (with_ty ty_str i) name args t))
      else if is_type name "memcpy" || is_type name "memcopy"
      then effect i name t (emit_memory (codes "memcpy") (codes "null") false args)
      else if is_type name "memset"
      then effect i name t (emit_memory (codes "memset") (codes "0") true args)
      else if is_type name "select"
      then (do r ← emit_select args; value r.0 (node_at_call (with_ty ty_int i) name r.1 t))
      else value (codes "0") (node_at_call (with_ty ty_void i) name args t)
