-- ===== src/Codegen/Aggregates.antt =====
-- src/fecodegen/codegen.c, `emit_expr`: conversions, structs, arrays and texts with parts.
use fermi.Base.{ℕ, suc, not, ◌&&◌, List, [], ◌∷◌, ◌++◌, none, some, take, if◌then◌else◌, ◌==◌}
use fermi.Base.Text.{Bytes, codes}
use fermi.Base.Decimal.{decimal}
use fermi.Ast.{
  TypeKind, TypeNode, NodeInfo, AstNode, AstList, ty_int, ty_long, ty_str, ty_raw_ptr, ty_array_dyn,
  ty_named, no_type, type_node, node_cast, node_string_lit, node_struct_init, node_array_lit,
  node_interp_str, nil, cons,
}
use fermi.Fir.{fir_ptrtoint, fir_inttoptr, fir_gep}
use fermi.Codegen.{Gen, pure, ◌>>=◌, ◌>>◌, reads, newtmp, emit_alloca, emit_store}
use fermi.Codegen.Nodes.{with_ty}
use fermi.Codegen.Scope.{find_struct}
use fermi.Codegen.Types.{
  is_type, typenode_to_llvm, ast_type_str, is_int_type, coerce_to, struct_type,
}
use fermi.Codegen.Calls.{Emit, emit_printf, print_format}
use fermi.Codegen.Blocks.{is_null}
use fermi.Codegen.Values.{value, emit_unary_op, emit_op_into}
use fermi.Codegen.Objects.{emit_field_ptr}

-- The type that a conversion gives its node.
unfoldable pub cast_kind : TypeNode → TypeKind
cast_kind no_type = ty_int
cast_kind (type_node k i s n) = k

-- A slot with a number for its name.
unfoldable pub numbered_slot : Bytes → Gen Bytes
numbered_slot prefix c = some (take 127 (prefix ++ decimal c.tmp), record c { tmp = suc c.tmp })

unfoldable pub count_nodes : AstList → ℕ
count_nodes nil = 0
count_nodes (cons n ns) = suc (count_nodes ns)

unfoldable pub array_type : ℕ → Bytes → Bytes
array_type count type =
    take 127
      (codes "[" ++ decimal (if count == 0 then 1 else count) ++ codes " x " ++ type ++ codes "]")

-- The conversion for printing; a literal text is printed as a text whatever its type.
unfoldable pub part_format : AstNode → Bytes → Bytes × Bytes
part_format (node_string_lit i s) t = (codes "%s", t)
part_format _ t = print_format t

module _ (emit : Emit) where
  -- Between pointers and integers a conversion is an error outside an unsafe block.
  unfoldable pub emit_cast : NodeInfo → AstNode → TypeNode → Gen (Bytes × AstNode)
  emit_cast i expr t = do
    r ← emit.expr expr
    from ← ast_type_str r.1
    to ← reads (typenode_to_llvm t)
    unsafe ← reads λ c. c.in_unsafe
    if is_type from "ptr" && is_int_type to
        then (if not unsafe
            then value (codes "0") (node_cast (with_ty (cast_kind t) i) r.1 t)
            else do
              dst ← newtmp
              emit_unary_op fir_ptrtoint dst to r.0
              value dst (node_cast (with_ty ty_long i) r.1 t))
        else if is_int_type from && is_type to "ptr"
        then (if not unsafe
            then value (codes "null") (node_cast (with_ty (cast_kind t) i) r.1 t)
            else do
              dst ← newtmp
              emit_op_into fir_inttoptr dst (codes "ptr") r.0 from
              value dst (node_cast (with_ty ty_raw_ptr i) r.1 t))
        else do v ← coerce_to r.0 from to; value v (node_cast (with_ty (cast_kind t) i) r.1 t)

  -- The values of the fields from a place on, as many as the struct has fields.
  unfoldable pub init_fields : Bytes → Bytes → ℕ → List (Bytes × Bytes) → AstList → Gen AstList
  init_fields name slot k fields nil = pure nil
  init_fields name slot k [] (cons n ns) =
      if is_null n
      then (do ms ← init_fields name slot (suc k) [] ns; pure (cons n ms))
      else pure (cons n ns)
  init_fields name slot k (f ∷ fs) (cons n ns) =
      if is_null n then (do ms ← init_fields name slot (suc k) fs ns; pure (cons n ms)) else do
        r ← emit.expr n
        vty ← ast_type_str r.1
        val ← coerce_to r.0 vty f.1
        fptr ← emit_field_ptr name slot k
        emit_store val fptr f.1
        ms ← init_fields name slot (suc k) fs ns
        pure (cons r.1 ms)

  unfoldable pub emit_struct_init : NodeInfo → Bytes → AstList → Gen (Bytes × AstNode)
  emit_struct_init i name fields = do
    known ← reads (find_struct name)
    elim known [
      | none ↦ value (codes "0") (node_struct_init (with_ty ty_int i) name fields)
      | some s ↦ do
        slot ← numbered_slot (codes "tmp.struct.")
        emit_alloca slot (struct_type name)
        ms ← init_fields name slot 0 s.fields fields
        value slot (node_struct_init (record i { ty = ty_named; ty_name = some name }) name ms)
    ]

  -- The first element is emitted for its type, and then again for its value.
  unfoldable pub first_type : AstList → Gen (Bytes × AstList)
  first_type nil = pure (codes "i32", nil)
  first_type (cons n ns) = do r ← emit.expr n; t ← ast_type_str r.1; pure (t, cons r.1 ns)

  unfoldable pub emit_elements : Bytes → Bytes → ℕ → AstList → Gen AstList
  emit_elements ety slot k nil = pure nil
  emit_elements ety slot k (cons n ns) = do
    r ← emit.expr n
    evty ← ast_type_str r.1
    ev ← coerce_to r.0 evty ety
    eptr ← newtmp
    emit_op_into fir_gep eptr ety slot (decimal k)
    emit_store ev eptr ety
    ms ← emit_elements ety slot (suc k) ns
    pure (cons r.1 ms)

  unfoldable pub emit_array_lit : NodeInfo → AstList → Gen (Bytes × AstNode)
  emit_array_lit i elems = do
    first ← first_type elems
    slot ← numbered_slot (codes "tmp.arr.")
    emit_alloca slot (array_type (count_nodes elems) first.0)
    ms ← emit_elements first.0 slot 0 first.1
    value slot (node_array_lit (with_ty ty_array_dyn i) ms)

  -- Each part is printed.
  unfoldable pub emit_parts : AstList → Gen AstList
  emit_parts nil = pure nil
  emit_parts (cons n ns) = do
    r ← emit.expr n
    t ← ast_type_str r.1
    val ← coerce_to r.0 t (part_format n t).1
    emit_printf (part_format n t).0 (part_format n t).1 val
    ms ← emit_parts ns
    pure (cons r.1 ms)

  unfoldable pub emit_interp : NodeInfo → AstList → Gen (Bytes × AstNode)
  emit_interp i parts = do
    ms ← emit_parts parts
    value (codes "0") (node_interp_str (with_ty ty_str i) ms)
