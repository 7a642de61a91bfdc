-- ===== src/Codegen/Assign.antt =====
-- src/fecodegen/codegen.c, `emit_expr`: NODE_ASSIGN.
use fermi.Base.{false, ◌&&◌, [], none, some, if◌then◌else◌}
use fermi.Base.Text.{Bytes, codes}
use fermi.Ast.{
  NodeInfo, AstNode, ty_void, no_node, node_assign, node_index, node_field, node_ident, node_deref,
}
use fermi.Fir.Print.{or_else}
use fermi.Codegen.{Gen, VarEntry, pure, ◌>>=◌, ◌>>◌, reads, emit_load, emit_store}
use fermi.Codegen.Nodes.{with_ty}
use fermi.Codegen.Types.{is_type, ast_type_str, coerce_to}
use fermi.Codegen.Calls.{Emit, emit_mut_str_replace}
use fermi.Codegen.Values.{value, entry_of}
use fermi.Codegen.Objects.{find_field, emit_field_ptr, emit_object, emit_element}

-- A mutable string is freed and replaced by a copy; the value is that of the right side.
unfoldable pub assign_var : VarEntry → Bytes → Bytes → Gen Bytes
assign_var e rv rty =
    if e.is_mut && is_type e.type "ptr" && is_type rty "ptr"
    then (do
      old_v ← emit_load e.slot (codes "ptr")
      new_heap ← emit_mut_str_replace old_v rv
      emit_store new_heap e.slot (codes "ptr")
      pure rv)
    else do v ← coerce_to rv rty e.type; emit_store v e.slot e.type; pure v

module _ (emit : Emit) where
  -- An assignment to a name that is no variable, or to a field that is not found, stores nothing.
  unfoldable pub assign_to : AstNode → Bytes → Bytes → Gen (Bytes × AstNode)
  assign_to (node_ident i name) rv rty = do
    entry ← reads (entry_of (node_ident i name))
    elim entry [
      | none ↦ value rv (node_ident i name)
      | some e ↦ do v ← assign_var e rv rty; value v (node_ident i name)
    ]
  assign_to (node_field i obj field) rv rty = do
    o ← emit_object emit false obj
    found ← reads (find_field o.1 field)
    elim found [
      | none ↦ value rv (node_field i o.2 field)
      | some f ↦ do
        fptr ← emit_field_ptr (or_else o.1 []) o.0 f.0
        v ← coerce_to rv rty f.1
        emit_store v fptr f.1
        value v (node_field i o.2 field)
    ]
  assign_to (node_deref i expr) rv rty = do
    ptr ← emit.expr expr
    v ← coerce_to rv rty (codes "i32")
    emit_store v ptr.0 (codes "i32")
    value v (node_deref i ptr.1)
  assign_to (node_index i obj idx) rv rty = do
    e ← emit_element emit obj idx
    v ← coerce_to rv rty e.1
    emit_store v e.0 e.1
    value v (node_index i e.2 e.3)
  assign_to no_node rv rty = λ c. none
  assign_to left rv rty = value rv left

  unfoldable pub emit_assign : NodeInfo → AstNode → AstNode → Gen (Bytes × AstNode)
  emit_assign i left right = do
    r ← emit.expr right
    rty ← ast_type_str r.1
    l ← assign_to left r.0 rty
    value l.0 (node_assign (with_ty ty_void i) l.1 r.1)
