-- ===== src/Codegen/Grows/Aggregates.antt =====
-- Conversions, structs, arrays and texts with parts.
use fermi.Base.{ℕ, suc, refl, Bool, false, List, [], ◌∷◌}
use fermi.Base.Text.{Bytes}
use fermi.Ast.{TypeNode, NodeInfo, AstNode, AstList, nil, cons}
use fermi.Base.Decimal.{decimal}
use fermi.Fir.{fir_gep}
use fermi.Codegen.Aggregates.{
  numbered_slot, emit_cast, init_fields, emit_struct_init, first_type, emit_elements,
  emit_array_lit, emit_parts, emit_interp,
}
use fermi.Codegen.Calls.{Emit}
use fermi.Codegen.Grows.{
  Emits, pure-Emits, bind_open, then_open, if-Emits, option-Emits, reads-Emits,
}
use fermi.Codegen.Grows.Writes.{moved-Grows}
use fermi.Codegen.Grows.Steps.{newtmp-Emits, emit_store-Emits, quiet-Emits}
use fermi.Codegen.Grows.Calls.{coerce_to-Emits, ast_type_str-Emits, Emitting, emit_printf-Emits}
use fermi.Codegen.Grows.Values.{emit_op_into-Emits, values}
use fermi.Codegen.Grows.Objects.{emit_field_ptr-Emits}

numbered_slot-Emits : {p : Bool} (prefix : Bytes) → Emits p (numbered_slot prefix) p
unfolding numbered_slot
numbered_slot-Emits prefix = quiet-Emits λ c q h. (moved-Grows c _ refl refl, h)

module _ {emit : Emit} (e : Emitting emit) where
  pub emit_cast-Emits :
      (i : NodeInfo) (expr : AstNode) (t : TypeNode) → Emits false (emit_cast emit i expr t) false
  unfolding emit_cast
  emit_cast-Emits i expr t = search values depth 60 fits 3000

  init_fields-Emits :
      (name slot : Bytes) (k : ℕ) (fields : List (Bytes × Bytes)) (ns : AstList)
      → Emits false (init_fields emit name slot k fields ns) false
  unfolding init_fields
  init_fields-Emits name slot k [] nil = pure-Emits
  init_fields-Emits name slot k (f ∷ fs) nil = pure-Emits
  init_fields-Emits name slot k [] (cons n ns) =
      if-Emits _ (bind_open (init_fields-Emits name slot (suc k) [] ns) λ ms. pure-Emits) pure-Emits
  init_fields-Emits name slot k (f ∷ fs) (cons n ns) =
      if-Emits _ (bind_open (init_fields-Emits name slot (suc k) fs ns) λ ms. pure-Emits) (
        bind_open (e.exprs n) λ r. bind_open (ast_type_str-Emits r.1) λ vty.
          bind_open (coerce_to-Emits r.0 vty f.1) λ val.
            bind_open (emit_field_ptr-Emits name slot k) λ fptr.
              then_open (emit_store-Emits val fptr f.1)
                (bind_open (init_fields-Emits name slot (suc k) fs ns) λ ms. pure-Emits))

  pub emit_struct_init-Emits :
      (i : NodeInfo) (name : Bytes) (fields : AstList)
      → Emits false (emit_struct_init emit i name fields) false
  unfolding emit_struct_init
  emit_struct_init-Emits i name fields = bind_open (reads-Emits _) λ known.
      option-Emits known pure-Emits λ s. search (values, numbered_slot-Emits, init_fields-Emits)

  first_type-Emits : (ns : AstList) → Emits false (first_type emit ns) false
  unfolding first_type
  first_type-Emits nil = pure-Emits
  first_type-Emits (cons n ns) = search values

  emit_elements-Emits :
      (ety slot : Bytes) (k : ℕ) (ns : AstList)
      → Emits false (emit_elements emit ety slot k ns) false
  unfolding emit_elements
  emit_elements-Emits ety slot k nil = pure-Emits
  emit_elements-Emits ety slot k (cons n ns) = bind_open (e.exprs n) λ r.
      bind_open (ast_type_str-Emits r.1) λ evty. bind_open (coerce_to-Emits r.0 evty ety) λ ev.
        bind_open newtmp-Emits λ eptr.
          then_open (emit_op_into-Emits fir_gep eptr ety slot (decimal k) refl) (
            then_open (emit_store-Emits ev eptr ety)
              (bind_open (emit_elements-Emits ety slot (suc k) ns) λ ms. pure-Emits))

  pub emit_array_lit-Emits :
      (i : NodeInfo) (elems : AstList) → Emits false (emit_array_lit emit i elems) false
  unfolding emit_array_lit
  emit_array_lit-Emits i elems =
      search (values, first_type-Emits, numbered_slot-Emits, emit_elements-Emits)

  emit_parts-Emits : (ns : AstList) → Emits false (emit_parts emit ns) false
  unfolding emit_parts
  emit_parts-Emits nil = pure-Emits
  emit_parts-Emits (cons n ns) = bind_open (e.exprs n) λ r. bind_open (ast_type_str-Emits r.1) λ t.
      bind_open (coerce_to-Emits r.0 t _) λ val.
        then_open (emit_printf-Emits _ _ val) (bind_open (emit_parts-Emits ns) λ ms. pure-Emits)

  pub emit_interp-Emits :
      (i : NodeInfo) (parts : AstList) → Emits false (emit_interp emit i parts) false
  unfolding emit_interp
  emit_interp-Emits i parts = search (values, emit_parts-Emits)
