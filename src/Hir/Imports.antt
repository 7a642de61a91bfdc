-- ===== src/Hir/Imports.antt =====
-- What lowering notes, told by the standard imports of a program.
use fermi.Ast.{
  AstNode, AstList, node_program, node_import, node_fn_decl, node_class_decl, node_var_decl,
  node_block, node_if, node_while, node_for_c, node_for_in, node_match, node_match_arm, node_return,
  node_defer, node_expr_stmt, node_assign, node_compound_assign, node_binary, node_unary, node_call,
  node_index, node_field, node_struct_init, node_ref, node_deref, node_region, nil, cons,
}
use fermi.Hir.{Hir, lower_node, lower_list, hir_lower}
use fermi.Hir.Paths.{imports, imports_list}
use fermi.Hir.Noted.{Noted, done, then-Noted, lower_import-Noted}

mutual
  unfolding lower_node imports

  pub lower_node-Noted : (n : AstNode) (h : Hir) → Noted (imports n) h (lower_node n h)
  lower_node-Noted (node_program i decls is_module) h = lower_list-Noted decls _
  lower_node-Noted (node_import i path is_std) h = lower_import-Noted path is_std _
  lower_node-Noted (node_fn_decl i f params body) h =
      then-Noted (lower_list-Noted params h) (lower_node-Noted body _)
  lower_node-Noted (node_var_decl i v init) h = lower_node-Noted init _
  lower_node-Noted (node_block i stmts) h = lower_list-Noted stmts _
  lower_node-Noted (node_if i cond body els) h =
      then-Noted (lower_node-Noted cond h)
        (then-Noted (lower_node-Noted body _) (lower_node-Noted els _))
  lower_node-Noted (node_while i is_do cond body) h =
      then-Noted (lower_node-Noted cond h) (lower_node-Noted body _)
  lower_node-Noted (node_for_c i init cond step body) h = then-Noted (lower_node-Noted init h) (
      then-Noted (lower_node-Noted cond _)
        (then-Noted (lower_node-Noted step _) (lower_node-Noted body _)))
  lower_node-Noted (node_for_in i var iter body) h =
      then-Noted (lower_node-Noted iter h) (lower_node-Noted body _)
  lower_node-Noted (node_match i expr arms) h =
      then-Noted (lower_node-Noted expr h) (lower_list-Noted arms _)
  lower_node-Noted (node_match_arm i a body) h = lower_node-Noted body _
  lower_node-Noted (node_return i val) h = lower_node-Noted val _
  lower_node-Noted (node_expr_stmt i expr) h = lower_node-Noted expr _
  lower_node-Noted (node_assign i left right) h =
      then-Noted (lower_node-Noted left h) (lower_node-Noted right _)
  lower_node-Noted (node_compound_assign i op left right) h =
      then-Noted (lower_node-Noted left h) (lower_node-Noted right _)
  lower_node-Noted (node_binary i op left right) h =
      then-Noted (lower_node-Noted left h) (lower_node-Noted right _)
  lower_node-Noted (node_unary i op operand prefix) h = lower_node-Noted operand _
  lower_node-Noted (node_call i callee args) h =
      then-Noted (lower_node-Noted callee h) (lower_list-Noted args _)
  lower_node-Noted (node_field i obj field) h = lower_node-Noted obj _
  lower_node-Noted (node_index i obj idx) h =
      then-Noted (lower_node-Noted obj h) (lower_node-Noted idx _)
  lower_node-Noted (node_ref i expr) h = lower_node-Noted expr _
  lower_node-Noted (node_deref i expr) h = lower_node-Noted expr _
  lower_node-Noted (node_struct_init i type_name fields) h = lower_list-Noted fields _
  lower_node-Noted (node_region i body name) h = lower_list-Noted body _
  lower_node-Noted (node_class_decl i name privates publics) h =
      then-Noted (lower_list-Noted privates h) (lower_list-Noted publics _)
  lower_node-Noted (node_defer i expr) h = lower_node-Noted expr _
  lower_node-Noted _ h = done h

  pub lower_list-Noted : (ns : AstList) (h : Hir) → Noted (imports_list ns) h (lower_list ns h)
  lower_list-Noted nil h = done h
  lower_list-Noted (cons n ns) h = then-Noted (lower_node-Noted n h) (lower_list-Noted ns _)

-- Each flag is set exactly where it was set before or one of its paths is a standard import that stands
-- in what is lowered.
pub hir_lower-Noted :
    (h : Hir) (program : AstNode) → Noted (imports program) h (hir_lower h program)
unfolding hir_lower
hir_lower-Noted h program = lower_node-Noted program h
