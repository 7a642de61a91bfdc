-- ===== src/Tc/Infer.antt =====
-- src/fetc/tc.c, `infer`.
use fermi.Base.{Bool, ◌&&◌, ◌||◌, none, some, if◌then◌else◌}
use fermi.Base.Text.{Bytes, codes, str_eq}
use fermi.Ast.{
  TypeKind, NodeInfo, AstNode, AstList, ty_void, ty_bool, ty_int, ty_long, ty_float, ty_double,
  ty_char, ty_str, ty_raw_ptr, ty_array_dyn, ty_named, ty_unknown, node_assign,
  node_compound_assign, node_binary, node_unary, node_call, node_index, node_field, node_cast,
  node_ident, node_int_lit, node_float_lit, node_double_lit, node_long_lit, node_bool_lit,
  node_char_lit, node_string_lit, node_struct_init, node_array_lit, node_ref, node_deref, node_this,
  node_interp_str, node_try, nil, cons,
}
use fermi.Tc.{Tc, sc_lookup, set_ty, terr, typenode_kind, type_name, promote, is_integral}

-- The tests on the operator of a binary expression.
unfoldable pub is_bitwise : Bytes → Bool
is_bitwise op =
    str_eq op (codes "&")
    || str_eq op (codes "|")
    || str_eq op (codes "^")
    || str_eq op (codes "<<")
    || str_eq op (codes ">>")

unfoldable pub is_comparison : Bytes → Bool
is_comparison op =
    str_eq op (codes "==")
    || str_eq op (codes "!=")
    || str_eq op (codes "<")
    || str_eq op (codes ">")
    || str_eq op (codes "<=")
    || str_eq op (codes ">=")
    || str_eq op (codes "&&")
    || str_eq op (codes "||")

-- The kind of an expression, with its write.
unfoldable pub typed : NodeInfo → TypeKind → Tc → TypeKind × Tc
typed i k t = (k, set_ty i k none t)

-- `if (!ok) terr(...)`
unfoldable pub require : Bool → NodeInfo → Bytes → Tc → Tc
require ok i msg t = if ok then t else terr i msg t

unfoldable pub infer_ident : NodeInfo → Bytes → Tc → TypeKind × Tc
infer_ident i name t = elim (sc_lookup name t) [
  | some e ↦ (e.ty, set_ty i e.ty e.ty_name t)
  | none ↦ typed i ty_unknown t
]

unfoldable pub infer_unary : NodeInfo → Bytes → TypeKind → Tc → TypeKind × Tc
infer_unary i op ot t =
    if str_eq op (codes "!")
    then typed i ty_bool t
    else if str_eq op (codes "~")
    then typed i ot (
        require (is_integral ot) i
          (codes "bitwise complement operator '~' applied to non-integral operand") t)
    else typed i ot t

unfoldable pub infer_binary : NodeInfo → Bytes → TypeKind → TypeKind → Tc → TypeKind × Tc
infer_binary i op lt rt t =
    if is_bitwise op
    then typed i (promote lt rt) (
        require (is_integral lt && is_integral rt) i
          (codes "bitwise operator applied to non-integral operand(s)") t)
    else if is_comparison op
    then typed i ty_bool t
    else typed i (promote lt rt) t

-- The arguments of a call of a name that is not known are inferred twice.
unfoldable mutual
  unfolding infer_ident infer_unary infer_binary typed

  pub infer : AstNode → Tc → TypeKind × Tc
  infer (node_int_lit i v) t = typed i ty_int t
  infer (node_long_lit i v) t = typed i ty_long t
  infer (node_float_lit i v) t = typed i ty_float t
  infer (node_double_lit i v) t = typed i ty_double t
  infer (node_bool_lit i v) t = typed i ty_bool t
  infer (node_char_lit i v) t = typed i ty_char t
  infer (node_string_lit i v) t = typed i ty_str t
  infer (node_interp_str i parts) t = typed i ty_str t
  infer (node_this i) t = typed i ty_named t
  infer (node_ident i name) t = infer_ident i name t
  infer (node_unary i op operand prefix) t = let (ot, u) = infer operand t in infer_unary i op ot u
  infer (node_binary i op left right) t =
      let (lt, u) = infer left t in let (rt, v) = infer right u in infer_binary i op lt rt v
  infer (node_call i (node_ident j name) args) t =
      let u = infer_list args t in
      elim (sc_lookup name t) [
        | some e ↦ typed i e.ty u
        | none ↦ typed i ty_unknown (infer_list args u)
      ]
  infer (node_call i callee args) t = typed i ty_unknown (infer_list args t)
  infer (node_cast i expr type) t = typed i (typenode_kind type) ((infer expr t).1)
  infer (node_field i obj field) t = typed i ty_unknown ((infer obj t).1)
  infer (node_index i obj idx) t = typed i ty_char ((infer idx (infer obj t).1).1)
  infer (node_ref i expr) t = typed i ty_raw_ptr ((infer expr t).1)
  infer (node_deref i expr) t = typed i ty_unknown ((infer expr t).1)
  infer (node_assign i left right) t = let (rt, u) = infer right t in typed i rt ((infer left u).1)
  infer (node_compound_assign i op left right) t =
      typed i ty_void ((infer right (infer left t).1).1)
  infer (node_struct_init i type_name fields) t = typed i ty_named t
  infer (node_array_lit i elems) t = typed i ty_array_dyn t
  infer (node_try i expr) t = typed i ty_unknown ((infer expr t).1)
  infer _ t = (ty_void, t)

  pub infer_list : AstList → Tc → Tc
  infer_list nil t = t
  infer_list (cons n ns) t = infer_list ns (infer n t).1
