-- ===== src/Tc/Kinds.antt =====
-- The specification of `infer`: the kind of an expression, and whether it is ill-typed, as functions of
-- the expression and of what the names mean.
use fermi.Base.{Bool, false, not, ◌&&◌, ◌||◌, List, Option, none, some, if◌then◌else◌}
use fermi.Base.Text.{Bytes, codes, str_eq}
use fermi.Ast.{
  TypeKind, AstNode, AstList, ty_void, ty_bool, ty_int, ty_long, ty_float, ty_double, ty_char,
  ty_str, ty_raw_ptr, ty_array_dyn, ty_named, ty_unknown, node_assign, node_compound_assign,
  node_binary, node_unary, node_call, node_index, node_field, node_cast, node_ident, node_int_lit,
  node_float_lit, node_double_lit, node_long_lit, node_bool_lit, node_char_lit, node_string_lit,
  node_struct_init, node_array_lit, node_ref, node_deref, node_this, node_interp_str, node_try, nil,
  cons,
}
use fermi.Tc.{TcEntry, find_scope, typenode_kind, type_name, promote, is_integral}
use fermi.Tc.Infer.{is_bitwise, is_comparison}

abbrev pub Scopes : Type 0
Scopes = List (List TcEntry)

abbrev pub Env : Type 0
Env = Bytes → Option TypeKind

abbrev pub kind_in : Option TcEntry → Option TypeKind
kind_in none = none
kind_in (some e) = some e.ty

-- What the names mean in a stack of scopes.
abbrev pub names : Scopes → Env
names scs q = kind_in (find_scope q scs)

abbrev pub known : Option TypeKind → TypeKind
known none = ty_unknown
known (some k) = k

unfoldable pub unary_kind : Bytes → TypeKind → TypeKind
unary_kind op k = if str_eq op (codes "!") then ty_bool else k

unfoldable pub binary_kind : Bytes → TypeKind → TypeKind → TypeKind
binary_kind op a b =
    if is_bitwise op then promote a b else if is_comparison op then ty_bool else promote a b

unfoldable pub kind_of : AstNode → Env → TypeKind
kind_of (node_int_lit i v) env = ty_int
kind_of (node_long_lit i v) env = ty_long
kind_of (node_float_lit i v) env = ty_float
kind_of (node_double_lit i v) env = ty_double
kind_of (node_bool_lit i v) env = ty_bool
kind_of (node_char_lit i v) env = ty_char
kind_of (node_string_lit i v) env = ty_str
kind_of (node_interp_str i parts) env = ty_str
kind_of (node_this i) env = ty_named
kind_of (node_ident i name) env = known (env name)
kind_of (node_unary i op operand prefix) env = unary_kind op (kind_of operand env)
kind_of (node_binary i op left right) env = binary_kind op (kind_of left env) (kind_of right env)
kind_of (node_call i (node_ident j name) args) env = known (env name)
kind_of (node_call i callee args) env = ty_unknown
kind_of (node_cast i expr type) env = typenode_kind type
kind_of (node_field i obj field) env = ty_unknown
kind_of (node_index i obj idx) env = ty_char
kind_of (node_ref i expr) env = ty_raw_ptr
kind_of (node_deref i expr) env = ty_unknown
kind_of (node_assign i left right) env = kind_of right env
kind_of (node_compound_assign i op left right) env = ty_void
kind_of (node_struct_init i type_name fields) env = ty_named
kind_of (node_array_lit i elems) env = ty_array_dyn
kind_of (node_try i expr) env = ty_unknown
kind_of _ env = ty_void

-- A bitwise operator on an operand that is not integral.
unfoldable pub is_bad_unary : Bytes → TypeKind → Bool
is_bad_unary op k =
    if str_eq op (codes "!")
    then false
    else if str_eq op (codes "~")
    then not (is_integral k)
    else false

unfoldable pub is_bad_binary : Bytes → TypeKind → TypeKind → Bool
is_bad_binary op a b = if is_bitwise op then not (is_integral a && is_integral b) else false

unfoldable mutual
  pub is_ill_typed : AstNode → Env → Bool
  is_ill_typed (node_unary i op operand prefix) env =
      is_ill_typed operand env || is_bad_unary op (kind_of operand env)
  is_ill_typed (node_binary i op left right) env =
      is_ill_typed left env
      || (is_ill_typed right env || is_bad_binary op (kind_of left env) (kind_of right env))
  is_ill_typed (node_call i callee args) env = is_ill_typed_list args env
  is_ill_typed (node_cast i expr type) env = is_ill_typed expr env
  is_ill_typed (node_field i obj field) env = is_ill_typed obj env
  is_ill_typed (node_index i obj idx) env = is_ill_typed obj env || is_ill_typed idx env
  is_ill_typed (node_ref i expr) env = is_ill_typed expr env
  is_ill_typed (node_deref i expr) env = is_ill_typed expr env
  is_ill_typed (node_assign i left right) env = is_ill_typed right env || is_ill_typed left env
  is_ill_typed (node_compound_assign i op left right) env =
      is_ill_typed left env || is_ill_typed right env
  is_ill_typed (node_try i expr) env = is_ill_typed expr env
  is_ill_typed _ env = false

  pub is_ill_typed_list : AstList → Env → Bool
  is_ill_typed_list nil env = false
  is_ill_typed_list (cons n ns) env = is_ill_typed n env || is_ill_typed_list ns env
