-- ===== src/Codegen/Objects.antt =====
-- src/fecodegen/codegen.c, `emit_expr`: fields, indices, references and dereferences.
use fermi.Base.{ℕ, Bool, true, ◌&&◌, [], ◌∷◌, Option, none, some, get_elem?, if◌then◌else◌, ◌==◌}
use fermi.Base.Text.{Bytes, codes}
use fermi.Base.Decimal.{decimal}
use fermi.Ast.{
  TypeKind, NodeInfo, AstNode, no_node, ty_bool, ty_int, ty_long, ty_float, ty_double, ty_char,
  ty_str, ty_raw_ptr, ty_named, node_index, node_field, node_ident, node_ref, node_deref,
}
use fermi.Fir.{fir_gep, fir_gep_struct}
use fermi.Fir.Print.{or_else}
use fermi.Codegen.{
  Codegen, Gen, VarEntry, StructInfo, pure, ◌>>=◌, ◌>>◌, reads, newtmp, mk_instr, emit_instr,
  emit_load,
}
use fermi.Codegen.Nodes.{node_info, with_ty}
use fermi.Codegen.Scope.{var_lookup, find_struct, index_from}
use fermi.Codegen.Types.{is_type, ast_type_str}
use fermi.Codegen.Calls.{Emit}
use fermi.Codegen.Values.{value, entry_of, emit_op_into}

-- What follows a prefix of a text.
unfoldable pub strip : Bytes → Bytes → Option Bytes
strip [] s = some s
strip (p ∷ ps) [] = none
strip (p ∷ ps) (b ∷ s) = if p == b then strip ps s else none

abbrev pub struct_prefix : Bytes
struct_prefix = codes "%struct."

-- The struct that the name of a node's type gives.
unfoldable pub struct_of : AstNode → Option Bytes
struct_of n = elim (node_info n) [
  | none ↦ none
  | some i ↦ elim i.ty_name [ none ↦ none | some t ↦ strip struct_prefix t ]
]

-- How an object is found: a struct in its slot, `self` as a pointer, or by its own value.
pub data Place : Type 0 where
  in_slot : (slot name type : Bytes) → Place
  by_self : (name : Bytes) → Place
  by_value : Place

unfoldable pub place_of_entry : Bytes → Option Bytes → VarEntry → Place
place_of_entry name cur_struct e = elim (strip struct_prefix e.type) [
  | some s ↦ in_slot e.slot s e.type
  | none ↦
      if is_type e.type "ptr" && is_type name "self"
      then elim cur_struct [ some s ↦ by_self s | none ↦ by_value ]
      else by_value
]

unfoldable pub place_of : AstNode → Codegen → Place
place_of (node_ident i name) c = elim (var_lookup name c) [
  | none ↦ by_value
  | some e ↦ place_of_entry name c.cur_struct e
]
place_of _ c = by_value

-- The field of a struct: its place and its type.
unfoldable pub field_of : Bytes → StructInfo → Option (ℕ × Bytes)
field_of name s = elim (index_from 0 name s.fields) [
  | none ↦ none
  | some k ↦ elim (get_elem? s.fields k) [ none ↦ none | some f ↦ some (k, f.1) ]
]

unfoldable pub find_field : Option Bytes → Bytes → Codegen → Option (ℕ × Bytes)
find_field none name c = none
find_field (some s) name c = elim (find_struct s c) [ none ↦ none | some info ↦ field_of name info ]

-- The address of a field of a struct, in a new temporary.
unfoldable pub emit_field_ptr : Bytes → Bytes → ℕ → Gen Bytes
emit_field_ptr type object k = do
  fptr ← newtmp
  emit_instr (record (mk_instr fir_gep_struct) {
    dst = some fptr;
    type = some type;
    src1 = some object;
    src3 = some (decimal k);
  })
  pure fptr

unfoldable pub field_kind : Bytes → TypeKind
field_kind t =
    if is_type t "i32"
    then ty_int
    else if is_type t "i64"
    then ty_long
    else if is_type t "float"
    then ty_float
    else if is_type t "double"
    then ty_double
    else if is_type t "ptr"
    then ty_str
    else if is_type t "i1"
    then ty_bool
    else ty_named

-- The type of what an indexed variable is declared as, or `i8`.
unfoldable pub element_type : AstNode → Codegen → Bytes
element_type n c = elim (entry_of n c) [ none ↦ codes "i8" | some e ↦ e.type ]

-- An object that stands in a slot is marked with its type where it is read.
unfoldable pub mark : Bool → Bytes → AstNode → AstNode
mark true t (node_ident i name) = node_ident (record i { ty = ty_named; ty_name = some t }) name
mark _ t n = n

module _ (emit : Emit) where
  unfoldable pub emit_placed : Bool → AstNode → Place → Gen (Bytes × Option Bytes × AstNode)
  emit_placed marks obj (in_slot slot name type) = pure (slot, some name, mark marks type obj)
  emit_placed marks obj (by_self name) = do r ← emit.expr obj; pure (r.0, some name, r.1)
  emit_placed marks obj by_value = do r ← emit.expr obj; pure (r.0, struct_of r.1, r.1)

  -- The value of an object, the struct that it is of, and its node.
  unfoldable pub emit_object : Bool → AstNode → Gen (Bytes × Option Bytes × AstNode)
  emit_object marks no_node = λ c. none
  emit_object marks obj = do place ← reads (place_of obj); emit_placed marks obj place

  unfoldable pub emit_field : NodeInfo → AstNode → Bytes → Gen (Bytes × AstNode)
  emit_field i obj field = do
    o ← emit_object true obj
    found ← reads (find_field o.1 field)
    elim found [
      | none ↦ value (codes "0") (node_field (with_ty ty_int i) o.2 field)
      | some f ↦ do
        fptr ← emit_field_ptr (or_else o.1 []) o.0 f.0
        fv ← emit_load fptr f.1
        value fv (node_field (with_ty (field_kind f.1) i) o.2 field)
    ]

  -- The address of an element, in a new temporary, with the element's type and the nodes.
  unfoldable pub emit_element : AstNode → AstNode → Gen (Bytes × Bytes × AstNode × AstNode)
  emit_element obj idx = do
    arr ← emit.expr obj
    at ← emit.expr idx
    ety ← reads (element_type obj)
    ptr ← newtmp
    emit_op_into fir_gep ptr ety arr.0 at.0
    pure (ptr, ety, arr.1, at.1)

  unfoldable pub emit_index : NodeInfo → AstNode → AstNode → Gen (Bytes × AstNode)
  emit_index i obj idx = do
    e ← emit_element obj idx
    v ← emit_load e.0 e.1
    value v (node_index (with_ty ty_char i) e.2 e.3)

  -- The slot of a variable, or the value of what is no variable.
  unfoldable pub emit_referred : NodeInfo → AstNode → Option VarEntry → Gen (Bytes × AstNode)
  emit_referred i expr (some x) = value x.slot (node_ref (with_ty ty_raw_ptr i) expr)
  emit_referred i expr none = do r ← emit.expr expr; value r.0 (node_ref (with_ty ty_raw_ptr i) r.1)

  unfoldable pub emit_ref : NodeInfo → AstNode → Gen (Bytes × AstNode)
  emit_ref i no_node = λ c. none
  emit_ref i expr = do entry ← reads (entry_of expr); emit_referred i expr entry

  -- The load is emitted also where it is reported outside an unsafe block.
  unfoldable pub emit_deref : NodeInfo → AstNode → Gen (Bytes × AstNode)
  emit_deref i expr = do
    r ← emit.expr expr
    pty ← ast_type_str r.1
    v ← emit_load r.0 (if is_type pty "ptr" then codes "i32" else pty)
    value v (node_deref (with_ty ty_int i) r.1)
