-- ===== src/Hir.antt =====
-- src/fehir/hir.c and hir.h: which parts of the standard library a program imports. The flags are
-- Boolean; `had_error` is set by nothing and left out, and so is the arena.
pub mod Paths
pub mod Noted
pub mod Imports
use fermi.Base.{Bool, true, false, ◌||◌, Option, some, if◌then◌else◌}
use fermi.Base.Text.{Bytes, codes, str_eq}
use fermi.Ast.{
  AstNode, AstList, node_program, node_import, node_fn_decl, node_class_decl, node_var_decl,
  node_block, node_if, node_while, node_for_c, node_for_in, node_match, node_match_arm, node_return,
  node_defer, node_expr_stmt, node_assign, node_compound_assign, node_binary, node_unary, node_call,
  node_index, node_field, node_struct_init, node_ref, node_deref, node_region, nil, cons,
}

pub record Hir : Type 0 where
  pub std_io : Bool
  pub std_math : Bool
  pub std_string : Bool
  pub std_mem : Bool
  pub std_os : Bool
  pub std_collections : Bool

abbrev pub hir_new : Hir
hir_new = record {
  std_io = false;
  std_math = false;
  std_string = false;
  std_mem = false;
  std_os = false;
  std_collections = false;
}

-- The tests on the path of a standard import. A null path, which the source would hand to `strcmp`,
-- changes nothing.
unfoldable pub lower_path : Bytes → Hir → Hir
lower_path path h =
    if str_eq path (codes "std.io") || str_eq path (codes "io")
    then record h { std_io = true }
    else if str_eq path (codes "std.math") || str_eq path (codes "math")
    then record h { std_math = true }
    else if str_eq path (codes "std.string") || str_eq path (codes "str")
    then record h { std_string = true }
    else if str_eq path (codes "std.mem") || str_eq path (codes "mem")
    then record h { std_mem = true }
    else if str_eq path (codes "std.os") || str_eq path (codes "os")
    then record h { std_os = true }
    else if str_eq path (codes "std.collections")
    then record h { std_collections = true }
    else h

unfoldable pub lower_import : Option Bytes → Bool → Hir → Hir
unfolding lower_path
lower_import (some path) true h = lower_path path h
lower_import _ _ h = h

unfoldable mutual
  unfolding lower_import

  pub lower_node : AstNode → Hir → Hir
  lower_node (node_program i decls is_module) h = lower_list decls h
  lower_node (node_import i path is_std) h = lower_import path is_std h
  lower_node (node_fn_decl i f params body) h = lower_node body (lower_list params h)
  lower_node (node_var_decl i v init) h = lower_node init h
  lower_node (node_block i stmts) h = lower_list stmts h
  lower_node (node_if i cond body els) h = lower_node els (lower_node body (lower_node cond h))
  lower_node (node_while i is_do cond body) h = lower_node body (lower_node cond h)
  lower_node (node_for_c i init cond step body) h =
      lower_node body (lower_node step (lower_node cond (lower_node init h)))
  lower_node (node_for_in i var iter body) h = lower_node body (lower_node iter h)
  lower_node (node_match i expr arms) h = lower_list arms (lower_node expr h)
  lower_node (node_match_arm i a body) h = lower_node body h
  lower_node (node_return i val) h = lower_node val h
  lower_node (node_expr_stmt i expr) h = lower_node expr h
  lower_node (node_assign i left right) h = lower_node right (lower_node left h)
  lower_node (node_compound_assign i op left right) h = lower_node right (lower_node left h)
  lower_node (node_binary i op left right) h = lower_node right (lower_node left h)
  lower_node (node_unary i op operand prefix) h = lower_node operand h
  lower_node (node_call i callee args) h = lower_list args (lower_node callee h)
  lower_node (node_field i obj field) h = lower_node obj h
  lower_node (node_index i obj idx) h = lower_node idx (lower_node obj h)
  lower_node (node_ref i expr) h = lower_node expr h
  lower_node (node_deref i expr) h = lower_node expr h
  lower_node (node_struct_init i type_name fields) h = lower_list fields h
  lower_node (node_region i body name) h = lower_list body h
  lower_node (node_class_decl i name privates publics) h =
      lower_list publics (lower_list privates h)
  lower_node (node_defer i expr) h = lower_node expr h
  lower_node _ h = h

  pub lower_list : AstList → Hir → Hir
  lower_list nil h = h
  lower_list (cons n ns) h = lower_list ns (lower_node n h)

unfoldable pub hir_lower : Hir → AstNode → Hir
hir_lower h program = lower_node program h
