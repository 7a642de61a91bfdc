-- ===== src/Tc/Tree.antt =====
-- src/fetc/tc.c: the tree behind the type checker, with the kinds that `infer` writes into it. The
-- functions follow `infer`, `check_stmt` and `tc_check`, whose states they are given.
use fermi.Base.{Option, none, some}
use fermi.Ast.{
  TypeKind, NodeInfo, AstNode, AstList, ty_int, node_program, node_fn_decl, node_var_decl,
  node_block, node_if, node_while, node_for_c, node_for_in, node_match, node_match_arm, node_return,
  node_defer, node_expr_stmt, node_assign, node_compound_assign, node_binary, node_unary, node_call,
  node_index, node_field, node_cast, node_ident, node_int_lit, node_float_lit, node_double_lit,
  node_long_lit, node_bool_lit, node_char_lit, node_string_lit, node_struct_init, node_array_lit,
  node_ref, node_deref, node_this, node_interp_str, node_region, node_try, nil, cons,
}
use fermi.Tc.{Tc, TcEntry, sc_push, sc_pop, sc_lookup}
use fermi.Tc.Infer.{infer}
use fermi.Tc.Stmt.{check_stmt, check_decl, def_params, def_named, predef_top}

-- `n->ty = k`
abbrev pub of_kind : TypeKind → NodeInfo → NodeInfo
of_kind k i = record i { ty = k }

-- An identifier, whose `ty_name` is written only where the name is known.
unfoldable pub ident_info : Option TcEntry → TypeKind → NodeInfo → NodeInfo
ident_info none k i = of_kind k i
ident_info (some e) k i = record i { ty = e.ty; ty_name = e.ty_name }

unfoldable mutual
  unfolding ident_info

  pub infer_tree : AstNode → Tc → AstNode
  infer_tree (node_int_lit i v) t = node_int_lit (of_kind ((infer (node_int_lit i v) t).0) i) v
  infer_tree (node_long_lit i v) t = node_long_lit (of_kind ((infer (node_long_lit i v) t).0) i) v
  infer_tree (node_float_lit i v) t =
      node_float_lit (of_kind ((infer (node_float_lit i v) t).0) i) v
  infer_tree (node_double_lit i v) t =
      node_double_lit (of_kind ((infer (node_double_lit i v) t).0) i) v
  infer_tree (node_bool_lit i v) t = node_bool_lit (of_kind ((infer (node_bool_lit i v) t).0) i) v
  infer_tree (node_char_lit i v) t = node_char_lit (of_kind ((infer (node_char_lit i v) t).0) i) v
  infer_tree (node_string_lit i v) t =
      node_string_lit (of_kind ((infer (node_string_lit i v) t).0) i) v
  infer_tree (node_interp_str i parts) t =
      node_interp_str (of_kind ((infer (node_interp_str i parts) t).0) i) parts
  infer_tree (node_this i) t = node_this (of_kind ((infer (node_this i) t).0) i)
  infer_tree (node_ident i name) t =
      node_ident (ident_info (sc_lookup name t) ((infer (node_ident i name) t).0) i) name
  infer_tree (node_unary i op operand prefix) t =
      node_unary (of_kind ((infer (node_unary i op operand prefix) t).0) i) op
        (infer_tree operand t) prefix
  infer_tree (node_binary i op left right) t =
      node_binary (of_kind ((infer (node_binary i op left right) t).0) i) op (infer_tree left t)
        (infer_tree right (infer left t).1)
  infer_tree (node_call i callee args) t =
      node_call (of_kind ((infer (node_call i callee args) t).0) i) callee (infer_trees args t)
  infer_tree (node_cast i expr type) t =
      node_cast (of_kind ((infer (node_cast i expr type) t).0) i) (infer_tree expr t) type
  infer_tree (node_field i obj field) t =
      node_field (of_kind ((infer (node_field i obj field) t).0) i) (infer_tree obj t) field
  infer_tree (node_index i obj idx) t =
      node_index (of_kind ((infer (node_index i obj idx) t).0) i) (infer_tree obj t)
        (infer_tree idx (infer obj t).1)
  infer_tree (node_ref i expr) t =
      node_ref (of_kind ((infer (node_ref i expr) t).0) i) (infer_tree expr t)
  infer_tree (node_deref i expr) t =
      node_deref (of_kind ((infer (node_deref i expr) t).0) i) (infer_tree expr t)
  infer_tree (node_assign i left right) t =
      node_assign (of_kind ((infer (node_assign i left right) t).0) i)
        (infer_tree left (infer right t).1) (infer_tree right t)
  infer_tree (node_compound_assign i op left right) t =
      node_compound_assign (of_kind ((infer (node_compound_assign i op left right) t).0) i) op
        (infer_tree left t) (infer_tree right (infer left t).1)
  infer_tree (node_struct_init i type_name fields) t =
      node_struct_init (of_kind ((infer (node_struct_init i type_name fields) t).0) i) type_name
        fields
  infer_tree (node_array_lit i elems) t =
      node_array_lit (of_kind ((infer (node_array_lit i elems) t).0) i) elems
  infer_tree (node_try i expr) t =
      node_try (of_kind ((infer (node_try i expr) t).0) i) (infer_tree expr t)
  infer_tree n t = n

  -- Where arguments are inferred twice, the second pass writes what the first one wrote.
  pub infer_trees : AstList → Tc → AstList
  infer_trees nil t = nil
  infer_trees (cons n ns) t = cons (infer_tree n t) (infer_trees ns (infer n t).1)

unfoldable mutual
  unfolding infer_tree

  pub check_tree : AstNode → Tc → AstNode
  check_tree (node_var_decl i v init) t = node_var_decl i v (infer_tree init t)
  check_tree (node_return i val) t = node_return i (infer_tree val t)
  check_tree (node_expr_stmt i expr) t = node_expr_stmt i (infer_tree expr t)
  check_tree (node_assign i left right) t = infer_tree (node_assign i left right) t
  check_tree (node_compound_assign i op left right) t =
      infer_tree (node_compound_assign i op left right) t
  check_tree (node_if i cond body els) t =
      let u = (infer cond t).1 in
      node_if i (infer_tree cond t) (check_tree body u) (check_tree els (check_stmt body u))
  check_tree (node_while i is_do cond body) t =
      node_while i is_do (infer_tree cond t) (check_tree body (infer cond t).1)
  check_tree (node_for_c i init cond step body) t =
      let u = check_stmt init (sc_push t) in
      let v = (infer cond u).1 in
      node_for_c i (check_tree init (sc_push t)) (infer_tree cond u) (infer_tree step v)
        (check_tree body (infer step v).1)
  check_tree (node_for_in i var iter body) t =
      let u = (infer iter (sc_push t)).1 in
      node_for_in i var (infer_tree iter (sc_push t))
        (check_tree body (def_named var ty_int none u))
  check_tree (node_match i expr arms) t =
      node_match i (infer_tree expr t) (check_arm_trees arms (infer expr t).1)
  check_tree (node_block i stmts) t = node_block i (check_trees stmts (sc_push t))
  check_tree (node_fn_decl i h params body) t =
      node_fn_decl i h params (check_tree body (def_params params (sc_push t)))
  check_tree (node_region i body name) t = node_region i (check_trees body (sc_push t)) name
  check_tree (node_defer i expr) t = node_defer i (check_tree expr t)
  check_tree n t = n

  pub check_trees : AstList → Tc → AstList
  check_trees nil t = nil
  check_trees (cons n ns) t = cons (check_tree n t) (check_trees ns (check_stmt n t))

  pub check_arm_trees : AstList → Tc → AstList
  check_arm_trees nil t = nil
  check_arm_trees (cons (node_match_arm i a body) ns) t =
      let u = def_named a.bind_name ty_int none (sc_push t) in
      cons (node_match_arm i a (check_tree body u))
        (check_arm_trees ns (sc_pop (check_stmt body u)))
  check_arm_trees (cons n ns) t = cons n (check_arm_trees ns t)

unfoldable pub decl_tree : AstNode → Tc → AstNode
unfolding check_tree
decl_tree (node_fn_decl i h params body) t = check_tree (node_fn_decl i h params body) t
decl_tree (node_var_decl i v init) t = node_var_decl i v (infer_tree init t)
decl_tree n t = n

unfoldable pub decl_trees : AstList → Tc → AstList
decl_trees nil t = nil
decl_trees (cons n ns) t = cons (decl_tree n t) (decl_trees ns (check_decl n t))

-- The program behind `tc_check`.
unfoldable pub tc_tree : AstNode → Tc → AstNode
tc_tree (node_program i decls is_module) t =
    node_program i (decl_trees decls (predef_top decls t)) is_module
tc_tree n t = n
