-- ===== src/Codegen/Nodes.antt =====
-- src/feparser/ast.h: the fields of a node, as the code generator reads them through a pointer.
use fermi.Base.{Option, none, some}
use fermi.Ast.{
  AstNode, NodeInfo, TypeKind, no_node, node_program, node_import, node_export_module, node_fn_decl,
  node_enum_decl, node_class_decl, node_type_alias, node_var_decl, node_const_decl, node_block,
  node_if, node_while, node_for_c, node_for_in, node_match, node_match_arm, node_return, node_break,
  node_continue, node_defer, node_expr_stmt, node_assign, node_compound_assign, node_binary,
  node_unary, node_call, node_index, node_field, node_cast, node_ident, node_int_lit,
  node_float_lit, node_double_lit, node_long_lit, node_bool_lit, node_char_lit, node_string_lit,
  node_struct_init, node_array_lit, node_ref, node_deref, node_this, node_interp_str, node_region,
  node_try, node_lambda, node_ns_call, node_unsafe_block, node_null, node_at_call,
  node_comptime_let, node_ptr_deref, node_ptr_addr,
}

-- The fields that all kinds of nodes have; there are none behind a null pointer.
unfoldable pub node_info : AstNode → Option NodeInfo
node_info no_node = none
node_info (node_program i a b) = some i
node_info (node_import i a b) = some i
node_info (node_export_module i) = some i
node_info (node_fn_decl i a b c) = some i
node_info (node_enum_decl i a b) = some i
node_info (node_class_decl i a b c) = some i
node_info (node_type_alias i a b) = some i
node_info (node_var_decl i a b) = some i
node_info (node_const_decl i a b) = some i
node_info (node_block i a) = some i
node_info (node_if i a b c) = some i
node_info (node_while i a b c) = some i
node_info (node_for_c i a b c d) = some i
node_info (node_for_in i a b c) = some i
node_info (node_match i a b) = some i
node_info (node_match_arm i a b) = some i
node_info (node_return i a) = some i
node_info (node_break i) = some i
node_info (node_continue i) = some i
node_info (node_defer i a) = some i
node_info (node_expr_stmt i a) = some i
node_info (node_assign i a b) = some i
node_info (node_compound_assign i a b c) = some i
node_info (node_binary i a b c) = some i
node_info (node_unary i a b c) = some i
node_info (node_call i a b) = some i
node_info (node_index i a b) = some i
node_info (node_field i a b) = some i
node_info (node_cast i a b) = some i
node_info (node_ident i a) = some i
node_info (node_int_lit i a) = some i
node_info (node_float_lit i a) = some i
node_info (node_double_lit i a) = some i
node_info (node_long_lit i a) = some i
node_info (node_bool_lit i a) = some i
node_info (node_char_lit i a) = some i
node_info (node_string_lit i a) = some i
node_info (node_struct_init i a b) = some i
node_info (node_array_lit i a) = some i
node_info (node_ref i a) = some i
node_info (node_deref i a) = some i
node_info (node_this i) = some i
node_info (node_interp_str i a) = some i
node_info (node_region i a b) = some i
node_info (node_try i a) = some i
node_info (node_lambda i a b c) = some i
node_info (node_ns_call i a b c) = some i
node_info (node_unsafe_block i a) = some i
node_info (node_null i) = some i
node_info (node_at_call i a b c) = some i
node_info (node_comptime_let i a b) = some i
node_info (node_ptr_deref i a) = some i
node_info (node_ptr_addr i a) = some i

-- `n->ty = k` on any node.
abbrev pub with_ty : TypeKind → NodeInfo → NodeInfo
with_ty k i = record i { ty = k }

unfoldable pub set_ty : TypeKind → AstNode → AstNode
set_ty k no_node = no_node
set_ty k (node_program i a b) = node_program (with_ty k i) a b
set_ty k (node_import i a b) = node_import (with_ty k i) a b
set_ty k (node_export_module i) = node_export_module (with_ty k i)
set_ty k (node_fn_decl i a b c) = node_fn_decl (with_ty k i) a b c
set_ty k (node_enum_decl i a b) = node_enum_decl (with_ty k i) a b
set_ty k (node_class_decl i a b c) = node_class_decl (with_ty k i) a b c
set_ty k (node_type_alias i a b) = node_type_alias (with_ty k i) a b
set_ty k (node_var_decl i a b) = node_var_decl (with_ty k i) a b
set_ty k (node_const_decl i a b) = node_const_decl (with_ty k i) a b
set_ty k (node_block i a) = node_block (with_ty k i) a
set_ty k (node_if i a b c) = node_if (with_ty k i) a b c
set_ty k (node_while i a b c) = node_while (with_ty k i) a b c
set_ty k (node_for_c i a b c d) = node_for_c (with_ty k i) a b c d
set_ty k (node_for_in i a b c) = node_for_in (with_ty k i) a b c
set_ty k (node_match i a b) = node_match (with_ty k i) a b
set_ty k (node_match_arm i a b) = node_match_arm (with_ty k i) a b
set_ty k (node_return i a) = node_return (with_ty k i) a
set_ty k (node_break i) = node_break (with_ty k i)
set_ty k (node_continue i) = node_continue (with_ty k i)
set_ty k (node_defer i a) = node_defer (with_ty k i) a
set_ty k (node_expr_stmt i a) = node_expr_stmt (with_ty k i) a
set_ty k (node_assign i a b) = node_assign (with_ty k i) a b
set_ty k (node_compound_assign i a b c) = node_compound_assign (with_ty k i) a b c
set_ty k (node_binary i a b c) = node_binary (with_ty k i) a b c
set_ty k (node_unary i a b c) = node_unary (with_ty k i) a b c
set_ty k (node_call i a b) = node_call (with_ty k i) a b
set_ty k (node_index i a b) = node_index (with_ty k i) a b
set_ty k (node_field i a b) = node_field (with_ty k i) a b
set_ty k (node_cast i a b) = node_cast (with_ty k i) a b
set_ty k (node_ident i a) = node_ident (with_ty k i) a
set_ty k (node_int_lit i a) = node_int_lit (with_ty k i) a
set_ty k (node_float_lit i a) = node_float_lit (with_ty k i) a
set_ty k (node_double_lit i a) = node_double_lit (with_ty k i) a
set_ty k (node_long_lit i a) = node_long_lit (with_ty k i) a
set_ty k (node_bool_lit i a) = node_bool_lit (with_ty k i) a
set_ty k (node_char_lit i a) = node_char_lit (with_ty k i) a
set_ty k (node_string_lit i a) = node_string_lit (with_ty k i) a
set_ty k (node_struct_init i a b) = node_struct_init (with_ty k i) a b
set_ty k (node_array_lit i a) = node_array_lit (with_ty k i) a
set_ty k (node_ref i a) = node_ref (with_ty k i) a
set_ty k (node_deref i a) = node_deref (with_ty k i) a
set_ty k (node_this i) = node_this (with_ty k i)
set_ty k (node_interp_str i a) = node_interp_str (with_ty k i) a
set_ty k (node_region i a b) = node_region (with_ty k i) a b
set_ty k (node_try i a) = node_try (with_ty k i) a
set_ty k (node_lambda i a b c) = node_lambda (with_ty k i) a b c
set_ty k (node_ns_call i a b c) = node_ns_call (with_ty k i) a b c
set_ty k (node_unsafe_block i a) = node_unsafe_block (with_ty k i) a
set_ty k (node_null i) = node_null (with_ty k i)
set_ty k (node_at_call i a b c) = node_at_call (with_ty k i) a b c
set_ty k (node_comptime_let i a b) = node_comptime_let (with_ty k i) a b
set_ty k (node_ptr_deref i a) = node_ptr_deref (with_ty k i) a
set_ty k (node_ptr_addr i a) = node_ptr_addr (with_ty k i) a
