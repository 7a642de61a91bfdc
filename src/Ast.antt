-- ===== src/Ast.antt =====
-- src/feparser/ast.h: the syntax tree. A null pointer to a node or a type is a constructor of its
-- own, since most fields may be null. The fields `inner2`, `tuple_types` and `tuple_count` of a type
-- are set by nothing and left out, and so is `module_name`. A `double` stands as the text that
-- `strtod` reads.
use fermi.Base.{ℕ, Bool, Option, none}
use fermi.Base.Int.{ℤ}
use fermi.Base.Text.{Bytes}

pub data TypeKind : Type 0 where
  ty_void ty_bool ty_byte ty_short ty_ushort ty_int ty_uint ty_long ty_ulong : TypeKind
  ty_float ty_double ty_char ty_str ty_ref ty_raw_ptr ty_array_fixed ty_array_dyn : TypeKind
  ty_named ty_result ty_unknown ty_tuple ty_fn_ptr : TypeKind

pub data TypeNode : Type 0 where
  no_type : TypeNode
  type_node : TypeKind → (inner : TypeNode) → (array_size : ℤ) → (name : Option Bytes) → TypeNode

-- The fields that all nodes have, but for the kind.
pub record NodeInfo : Type 0 where
  pub line : ℕ
  pub col : ℕ
  pub ty : TypeKind
  pub ty_name : Option Bytes

-- The plain fields of the larger members of the union. `is_unit_decl` tells NODE_UNIT_DECL from
-- NODE_FN_DECL, which share their member.
pub record FnHead : Type 0 where
  pub name : Option Bytes
  pub ret_type : TypeNode
  pub is_unit : Bool
  pub is_extern : Bool
  pub is_exported : Bool
  pub is_unit_decl : Bool

pub record VarHead : Type 0 where
  pub name : Option Bytes
  pub type : TypeNode
  pub is_mut : Bool
  pub is_const : Bool
  pub is_exported : Bool

pub record ArmHead : Type 0 where
  pub is_wildcard : Bool
  pub is_range : Bool
  pub is_variant : Bool
  pub is_string : Bool
  pub variant_name : Option Bytes
  pub bind_name : Option Bytes
  pub str_val : Option Bytes
  pub lit_lo : ℤ
  pub lit_hi : ℤ

-- `node_while` is NODE_DO_WHILE where its flag is true.
mutual
  pub data AstNode : Type 0 where
    no_node : AstNode
    node_program : NodeInfo → (decls : AstList) → (is_module : Bool) → AstNode
    node_import : NodeInfo → (path : Option Bytes) → (is_std : Bool) → AstNode
    node_export_module : NodeInfo → AstNode
    node_fn_decl : NodeInfo → FnHead → (params : AstList) → (body : AstNode) → AstNode
    node_enum_decl : NodeInfo → (name : Bytes) → (variants : AstList) → AstNode
    node_class_decl :
        NodeInfo → (name : Bytes) → (private_members public_members : AstList) → AstNode
    node_type_alias : NodeInfo → (name : Bytes) → TypeNode → AstNode
    node_var_decl : NodeInfo → VarHead → (init : AstNode) → AstNode
    node_const_decl : NodeInfo → VarHead → (init : AstNode) → AstNode
    node_block : NodeInfo → (stmts : AstList) → AstNode
    node_if : NodeInfo → (cond then els : AstNode) → AstNode
    node_while : NodeInfo → (is_do : Bool) → (cond body : AstNode) → AstNode
    node_for_c : NodeInfo → (init cond step body : AstNode) → AstNode
    node_for_in : NodeInfo → (var : Option Bytes) → (iter body : AstNode) → AstNode
    node_match : NodeInfo → (expr : AstNode) → (arms : AstList) → AstNode
    node_match_arm : NodeInfo → ArmHead → (body : AstNode) → AstNode
    node_return : NodeInfo → (val : AstNode) → AstNode
    node_break : NodeInfo → AstNode
    node_continue : NodeInfo → AstNode
    node_defer : NodeInfo → (expr : AstNode) → AstNode
    node_expr_stmt : NodeInfo → (expr : AstNode) → AstNode
    node_assign : NodeInfo → (left right : AstNode) → AstNode
    node_compound_assign : NodeInfo → (op : Bytes) → (left right : AstNode) → AstNode
    node_binary : NodeInfo → (op : Bytes) → (left right : AstNode) → AstNode
    node_unary : NodeInfo → (op : Bytes) → (operand : AstNode) → (prefix : Bool) → AstNode
    node_call : NodeInfo → (callee : AstNode) → (args : AstList) → AstNode
    node_index : NodeInfo → (obj idx : AstNode) → AstNode
    node_field : NodeInfo → (obj : AstNode) → (field : Bytes) → AstNode
    node_cast : NodeInfo → (expr : AstNode) → TypeNode → AstNode
    node_ident : NodeInfo → (name : Bytes) → AstNode
    node_int_lit : NodeInfo → ℤ → AstNode
    node_float_lit : NodeInfo → Bytes → AstNode
    node_double_lit : NodeInfo → Bytes → AstNode
    node_long_lit : NodeInfo → ℤ → AstNode
    node_bool_lit : NodeInfo → Bool → AstNode
    node_char_lit : NodeInfo → ℕ → AstNode
    node_string_lit : NodeInfo → Bytes → AstNode
    node_struct_init : NodeInfo → (type_name : Bytes) → (fields : AstList) → AstNode
    node_array_lit : NodeInfo → (elems : AstList) → AstNode
    node_ref : NodeInfo → (expr : AstNode) → AstNode
    node_deref : NodeInfo → (expr : AstNode) → AstNode
    node_this : NodeInfo → AstNode
    node_interp_str : NodeInfo → (parts : AstList) → AstNode
    node_region : NodeInfo → (body : AstList) → (name : Option Bytes) → AstNode
    node_try : NodeInfo → (expr : AstNode) → AstNode
    node_lambda : NodeInfo → (params : AstList) → TypeNode → (body : AstNode) → AstNode
    node_ns_call : NodeInfo → (ns func : Bytes) → (args : AstList) → AstNode
    node_unsafe_block : NodeInfo → (body : AstNode) → AstNode
    node_null : NodeInfo → AstNode
    node_at_call : NodeInfo → (name : Bytes) → (args : AstList) → (type_arg : TypeNode) → AstNode
    node_comptime_let : NodeInfo → (name : Option Bytes) → (init : AstNode) → AstNode
    node_ptr_deref : NodeInfo → (expr : AstNode) → AstNode
    node_ptr_addr : NodeInfo → (expr : AstNode) → AstNode

  pub data AstList : Type 0 where
    nil : AstList
    cons : AstNode → AstList → AstList

-- The name of a parameter or variant, which is a NODE_VAR_DECL.
abbrev pub var_name : AstNode → Option Bytes
var_name (node_var_decl i v init) = v.name
var_name _ = none

-- `lapp`: the list with a node at its end.
unfoldable pub append_node : AstList → AstNode → AstList
append_node nil n = cons n nil
append_node (cons m ms) n = cons m (append_node ms n)
