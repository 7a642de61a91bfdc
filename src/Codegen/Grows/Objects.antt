-- ===== src/Codegen/Grows/Objects.antt =====
-- Fields, elements, references and assignments.
use fermi.Base.{ℕ, Bool, true, false, Option, none, some}
use fermi.Base.Text.{Bytes}
use fermi.Ast.{NodeInfo, AstNode, no_node, node_index, node_field, node_ident, node_deref}
use fermi.Codegen.{VarEntry}
use fermi.Codegen.Objects.{
  Place, emit_field_ptr, emit_placed, emit_object, emit_field, emit_element, emit_index,
  emit_referred, emit_ref, emit_referred, emit_deref, in_slot, by_self, by_value,
}
use fermi.Codegen.Assign.{assign_var, assign_to, emit_assign}
use fermi.Codegen.Calls.{Emit}
use fermi.Codegen.Grows.{Emits, pure-Emits, bind_open, option-Emits, none-Emits, reads-Emits}
use fermi.Codegen.Grows.Calls.{Emitting}
use fermi.Codegen.Grows.Values.{values}

pub emit_field_ptr-Emits :
    (type object : Bytes) (k : ℕ) → Emits false (emit_field_ptr type object k) false
unfolding emit_field_ptr
emit_field_ptr-Emits type object k = search values

assign_var-Emits : (x : VarEntry) (rv rty : Bytes) → Emits false (assign_var x rv rty) false
unfolding assign_var
assign_var-Emits x rv rty = search values depth 60

module _ {emit : Emit} (e : Emitting emit) where
  placed-Emits :
      (marks : Bool) (obj : AstNode) (place : Place)
      → Emits false (emit_placed emit marks obj place) false
  unfolding emit_placed
  placed-Emits marks obj (in_slot slot name type) = pure-Emits
  placed-Emits marks obj (by_self name) = search values
  placed-Emits marks obj by_value = search values

  emit_object-Emits :
      (marks : Bool) (obj : AstNode) → Emits false (emit_object emit marks obj) false
  unfolding emit_object
  emit_object-Emits marks no_node = none-Emits
  emit_object-Emits marks n = bind_open (reads-Emits _) λ place. placed-Emits marks n place

  pub emit_field-Emits :
      (i : NodeInfo) (obj : AstNode) (field : Bytes)
      → Emits false (emit_field emit i obj field) false
  unfolding emit_field
  emit_field-Emits i obj field = bind_open (emit_object-Emits true obj) λ o.
      bind_open (reads-Emits _)
        λ found. option-Emits found pure-Emits λ f. search (values, emit_field_ptr-Emits)

  emit_element-Emits : (obj idx : AstNode) → Emits false (emit_element emit obj idx) false
  unfolding emit_element
  emit_element-Emits obj idx = search values depth 60

  pub emit_index-Emits :
      (i : NodeInfo) (obj idx : AstNode) → Emits false (emit_index emit i obj idx) false
  unfolding emit_index
  emit_index-Emits i obj idx = search (values, emit_element-Emits)

  emit_referred-Emits :
      (i : NodeInfo) (expr : AstNode) (o : Option VarEntry)
      → Emits false (emit_referred emit i expr o) false
  unfolding emit_referred
  emit_referred-Emits i expr none = search values
  emit_referred-Emits i expr (some x) = pure-Emits

  pub emit_ref-Emits : (i : NodeInfo) (expr : AstNode) → Emits false (emit_ref emit i expr) false
  unfolding emit_ref
  emit_ref-Emits i no_node = none-Emits
  emit_ref-Emits i n = bind_open (reads-Emits _) λ entry. emit_referred-Emits i n entry

  pub emit_deref-Emits :
      (i : NodeInfo) (expr : AstNode) → Emits false (emit_deref emit i expr) false
  unfolding emit_deref
  emit_deref-Emits i expr = search values

  assign_to-Emits :
      (left : AstNode) (rv rty : Bytes) → Emits false (assign_to emit left rv rty) false
  unfolding assign_to
  assign_to-Emits (node_ident i name) rv rty =
      bind_open (reads-Emits _)
        λ entry. option-Emits entry pure-Emits λ x. search (values, assign_var-Emits)
  assign_to-Emits (node_field i obj field) rv rty = bind_open (emit_object-Emits false obj) λ o.
      bind_open (reads-Emits _)
        λ found. option-Emits found pure-Emits λ f. search (values, emit_field_ptr-Emits)
  assign_to-Emits (node_deref i expr) rv rty = search values
  assign_to-Emits (node_index i obj idx) rv rty = search (values, emit_element-Emits)
  assign_to-Emits no_node rv rty = none-Emits
  assign_to-Emits n rv rty = pure-Emits

  pub emit_assign-Emits :
      (i : NodeInfo) (left right : AstNode) → Emits false (emit_assign emit i left right) false
  unfolding emit_assign
  emit_assign-Emits i left right = search (values, assign_to-Emits)
