-- ===== src/Codegen/FnCalls.antt =====
-- src/fecodegen/codegen.c, `emit_expr`: NODE_CALL.
use fermi.Base.{
  ℕ, zero, suc, ◌*◌, List, [], ◌∷◌, ◌++◌, Option, none, some, take, map, if◌then◌else◌,
}
use fermi.Base.Text.{Bytes, codes, str_eq}
use fermi.Base.Decimal.{decimal}
use fermi.Ast.{
  TypeKind, NodeInfo, AstNode, AstList, ty_void, ty_bool, ty_int, ty_long, ty_float, ty_double,
  ty_str, ty_named, ty_unknown, no_node, node_call, node_field, node_ident, node_ns_call, nil, cons,
}
use fermi.Fir.{FirFn, FirParam, fir_shl, fir_or, fir_call_indirect}
use fermi.Codegen.{
  Codegen, Gen, VarEntry, EnumInfo, pure, ◌>>=◌, ◌>>◌, reads, newtmp, mk_instr, emit_instr,
  emit_load, fns,
}
use fermi.Codegen.Nodes.{node_info, with_ty}
use fermi.Codegen.Scope.{var_lookup, find_enum_variant}
use fermi.Codegen.Types.{is_type, ast_type_str, coerce_to}
use fermi.Codegen.Calls.{Emit, emit_rt_call, emit_args}
use fermi.Codegen.Namespaces.{emit_ns_call, ret_type_of, mangled, set_kind}
use fermi.Codegen.Blocks.{is_null}
use fermi.Codegen.Values.{value, entry_of, emit_sext, emit_op_into}
use fermi.Codegen.Objects.{strip, struct_prefix}
use fermi.Codegen.Native.{native_ret, actual_fn}

-- The argument of a place, which is null where there is none, and the list with another there.
unfoldable pub arg_at : ℕ → AstList → AstNode
arg_at k nil = no_node
arg_at zero (cons n ns) = n
arg_at (suc k) (cons n ns) = arg_at k ns

unfoldable pub put_arg : ℕ → AstNode → AstList → AstList
put_arg k m nil = nil
put_arg zero m (cons n ns) = cons m ns
put_arg (suc k) m (cons n ns) = cons n (put_arg k m ns)

-- `a ? ast_type_str(cg,a) : "i32"`
unfoldable pub arg_type : AstNode → Gen Bytes
arg_type n = if is_null n then pure (codes "i32") else ast_type_str n

-- The node of a call by the type that is returned; a type that is none of the basic ones names a
-- struct, or stands for `int` in a call of a method.
unfoldable pub basic_kind : Bytes → Option TypeKind
basic_kind t =
    if is_type t "i32"
    then some ty_int
    else if is_type t "i64"
    then some ty_long
    else if is_type t "float"
    then some ty_float
    else if is_type t "double"
    then some ty_double
    else if is_type t "i1"
    then some ty_bool
    else if is_type t "ptr"
    then some ty_str
    else none

unfoldable pub call_info : Bytes → NodeInfo → NodeInfo
call_info t i = elim (basic_kind t) [
  | some k ↦ with_ty k i
  | none ↦ record i { ty = ty_named; ty_name = some t }
]

unfoldable pub method_info : Bytes → NodeInfo → NodeInfo
method_info t i = elim (basic_kind t) [ some k ↦ with_ty k i | none ↦ with_ty ty_int i ]

-- A value with a tag: the value in the high half, the tag in the low one.
unfoldable pub emit_tagged : Bytes → Bytes → Bytes → Gen Bytes
emit_tagged v type tag = do
  ext ← emit_sext v type
  shifted ← newtmp
  emit_op_into fir_shl shifted (codes "i64") ext (codes "32")
  tagged ← newtmp
  emit_op_into fir_or tagged (codes "i64") shifted tag
  pure tagged

-- The name of a struct behind either prefix, or the whole name of a type.
unfoldable pub type_base : Bytes → Bytes
type_base t = elim (strip struct_prefix t) [
  | some s ↦ s
  | none ↦ elim (strip (codes "struct.") t) [ some s ↦ s | none ↦ t ]
]

unfoldable pub entry_base : Option VarEntry → Option Bytes
entry_base none = none
entry_base (some e) = elim (strip (codes "struct.") e.type) [
  | some s ↦ some s
  | none ↦ strip struct_prefix e.type
]

-- The type that the object of a method call is of.
unfoldable pub object_type : AstNode → Codegen → Option Bytes
object_type obj c = elim (node_info obj) [
  | none ↦ none
  | some i ↦ elim i.ty_name [ some t ↦ some (type_base t) | none ↦ entry_base (entry_of obj c) ]
]

unfoldable pub method_name : Option Bytes → Bytes → Bytes
method_name none method = take 255 (codes "__method_" ++ method)
method_name (some t) method = mangled t method

-- The object is passed by its slot, if it is a variable.
unfoldable pub self_arg : Bytes → Option VarEntry → Bytes
self_arg v none = v
self_arg v (some e) = e.slot

-- The arguments converted to the types of the parameters.
unfoldable pub coerce_args : List FirParam → List (Bytes × Bytes) → Gen (List (Bytes × Bytes))
coerce_args [] args = pure args
coerce_args (p ∷ ps) [] = pure []
coerce_args (p ∷ ps) (a ∷ args) = do
  v ← coerce_to a.1 a.0 p.type
  rest ← coerce_args ps args
  pure ((p.type, v) ∷ rest)

unfoldable pub params_named : Bytes → List FirFn → List FirParam
params_named name [] = []
params_named name (f ∷ fs) = if str_eq f.name name then f.params else params_named name fs

unfoldable pub emit_indirect : Bytes → List (Bytes × Bytes) → Gen Bytes
emit_indirect fp args = do
  dst ← newtmp
  emit_instr (record (mk_instr fir_call_indirect) {
    dst = some dst;
    type = some (codes "i64");
    src1 = some fp;
    args = map (λ (a : Bytes × Bytes). a.1) args;
    arg_types = map (λ (a : Bytes × Bytes). a.0) args;
  })
  pure dst

-- The variable of a name, if it holds a pointer.
unfoldable pub pointer_entry : Bytes → Codegen → Option VarEntry
pointer_entry f c = elim (var_lookup f c) [
  | none ↦ none
  | some e ↦ if is_type e.type "ptr" then some e else none
]

module _ (emit : Emit) where
  -- An argument that may be missing, with the value that stands for it then.
  unfoldable pub emit_or : Bytes → AstNode → Gen (Bytes × AstNode)
  emit_or d n = if is_null n then pure (d, n) else emit.expr n

  unfoldable pub emit_method_call :
      NodeInfo → NodeInfo → AstNode → Bytes → AstList → Gen (Bytes × AstNode)
  emit_method_call i j obj method args = do
    o ← emit.expr obj
    type ← reads (object_type o.1)
    entry ← reads (entry_of obj)
    rest ← emit_args emit 63 args
    ret ← reads λ c. ret_type_of (codes "void") (method_name type method) (fns c)
    dst ← emit_rt_call (method_name type method) ret ((codes "ptr", self_arg o.0 entry) ∷ rest.0)
    if is_type ret "void"
        then value (codes "0") (node_call (with_ty ty_void i) (node_field j o.1 method) rest.1)
        else value dst (node_call (method_info ret i) (node_field j o.1 method) rest.1)

  unfoldable pub emit_ok : NodeInfo → AstNode → AstList → Gen (Bytes × AstNode)
  emit_ok i callee args = do
    r ← emit_or (codes "0") (arg_at 0 args)
    t ← arg_type r.1
    dst ← emit_sext r.0 t
    value dst (node_call (with_ty ty_long i) callee (put_arg 0 r.1 args))

  unfoldable pub emit_err : NodeInfo → AstNode → AstList → Gen (Bytes × AstNode)
  emit_err i callee args = do
    r ← emit_or (codes "0") (arg_at 0 args)
    t ← arg_type r.1
    dst ← emit_tagged r.0 t (codes "1")
    value dst (node_call (with_ty ty_long i) callee (put_arg 0 r.1 args))

  -- A variant with its payload, or its tag alone.
  unfoldable pub emit_variant : ℕ → NodeInfo → AstNode → AstList → Gen (Bytes × AstNode)
  emit_variant k i callee args =
      if is_null (arg_at 0 args)
      then (do
        dst ← emit_sext (decimal (k * 2)) (codes "i32")
        value dst (node_call (with_ty ty_long i) callee args))
      else do
        r ← emit.expr (arg_at 0 args)
        t ← ast_type_str r.1
        dst ← emit_tagged r.0 t (decimal (k * 2))
        value dst (node_call (with_ty ty_long i) callee (put_arg 0 r.1 args))

  unfoldable pub emit_pointer_call : VarEntry → NodeInfo → AstNode → AstList → Gen (Bytes × AstNode)
  emit_pointer_call e i callee args = do
    fp ← emit_load e.slot (codes "ptr")
    argv ← emit_args emit 64 args
    dst ← emit_indirect fp argv.0
    value dst (node_call (with_ty ty_unknown i) callee argv.1)

  unfoldable pub emit_plain_call : Bytes → NodeInfo → AstNode → AstList → Gen (Bytes × AstNode)
  emit_plain_call name i callee args = do
    argv ← emit_args emit 64 args
    fn ← reads λ c. actual_fn c.in_region name
    declared ← reads λ c. ret_type_of (codes "i32") name (fns c)
    params ← reads λ c. params_named fn (fns c)
    passed ← coerce_args params argv.0
    dst ← emit_rt_call fn (native_ret declared fn) passed
    if is_type (native_ret declared fn) "void"
        then value (codes "0") (node_call (with_ty ty_void i) callee argv.1)
        else value dst (node_call (call_info (native_ret declared fn) i) callee argv.1)

  -- A variable is called if it holds a pointer, and a function otherwise.
  unfoldable pub emit_variant_or :
      Option (ℕ × EnumInfo)
      → Option VarEntry
      → Bytes
      → NodeInfo
      → AstNode
      → AstList
      → Gen (Bytes × AstNode)
  emit_variant_or (some v) entry name i callee args = emit_variant v.0 i callee args
  emit_variant_or none (some e) name i callee args = emit_pointer_call e i callee args
  emit_variant_or none none name i callee args = emit_plain_call name i callee args

  unfoldable pub emit_named_call : Bytes → NodeInfo → AstNode → AstList → Gen (Bytes × AstNode)
  emit_named_call name i callee args = do
    variant ← reads (find_enum_variant name)
    entry ← reads (pointer_entry name)
    if is_type name "Ok"
        then emit_ok i callee args
        else if is_type name "Err"
        then emit_err i callee args
        else emit_variant_or variant entry name i callee args

  unfoldable pub emit_call_expr : NodeInfo → AstNode → AstList → Gen (Bytes × AstNode)
  emit_call_expr i (node_field j obj method) args = emit_method_call i j obj method args
  emit_call_expr i (node_ns_call j ns func inner) args = do
    r ← emit_ns_call emit ns func args
    value r.0 (node_call (set_kind r.1 i) (node_ns_call j ns func inner) r.2)
  emit_call_expr i (node_ident j name) args = emit_named_call name i (node_ident j name) args
  emit_call_expr i no_node args = λ c. none
  emit_call_expr i callee args = value (codes "0") (node_call (with_ty ty_int i) callee args)
