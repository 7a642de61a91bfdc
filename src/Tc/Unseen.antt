-- ===== src/Tc/Unseen.antt =====
-- The scope analysis does not see the kinds that the type checker writes into the tree.
use fermi.Base.{◌≡◌, refl, ap, ◌∙◌, false, Option, none, some}
use fermi.Base.Text.{Bytes}
use fermi.Ast.{
  TypeKind, NodeInfo, AstNode, AstList, node_program, node_fn_decl, node_var_decl, node_block,
  node_if, node_while, node_for_c, node_for_in, node_match, node_match_arm, node_return, node_defer,
  node_expr_stmt, node_assign, node_compound_assign, node_binary, node_unary, node_call, node_index,
  node_field, node_cast, node_ident, node_ref, node_deref, node_region, node_try, nil, cons,
}
use fermi.Sema.{Sema, sc_push, sc_pop, serr}
use fermi.Sema.Check.{
  chk, chk_list, check_ident, check_target, def_opt, predef_decl, predef_list, predef_fn,
  sema_check,
}
use fermi.Tc.{Tc, TcEntry, sc_lookup, sc_push as push_tc}
use fermi.Tc.Infer.{infer}
use fermi.Tc.Tree.{
  of_kind, ident_info, infer_tree, infer_trees, check_tree, check_trees, check_arm_trees, decl_tree,
  decl_trees, tc_tree,
}

target-infer_tree :
    (k : TypeKind) (i : NodeInfo) (n : AstNode) (t : Tc) (s : Sema)
    → check_target (of_kind k i) (infer_tree n t) s ≡ check_target i n s
unfolding infer_tree check_target serr
target-infer_tree k i (node_ident j name) t s = refl
target-infer_tree k i n t s = refl

ident-info :
    (o : Option TcEntry) (k : TypeKind) (i : NodeInfo) (name : Bytes) (s : Sema)
    → check_ident (ident_info o k i) name s ≡ check_ident i name s
unfolding ident_info check_ident serr
ident-info none k i name s = refl
ident-info (some e) k i name s = refl

mutual
  unfolding infer_tree infer_trees chk chk_list

  chk-infer_tree : (n : AstNode) (t : Tc) (s : Sema) → chk (infer_tree n t) s ≡ chk n s
  chk-infer_tree (node_ident i name) t s = ident-info (sc_lookup name t) _ i name s
  chk-infer_tree (node_unary i op operand prefix) t s = chk-infer_tree operand t s
  chk-infer_tree (node_binary i op left right) t s =
      chk-infer_tree right _ _ ∙ ap (chk right) (chk-infer_tree left t s)
  chk-infer_tree (node_call i (node_field j obj field) args) t s = chk_list-infer_trees args t _
  chk-infer_tree (node_call i callee args) t s = chk_list-infer_trees args t _
  chk-infer_tree (node_cast i expr type) t s = chk-infer_tree expr t s
  chk-infer_tree (node_field i obj field) t s = chk-infer_tree obj t s
  chk-infer_tree (node_index i obj idx) t s =
      chk-infer_tree idx _ _ ∙ ap (chk idx) (chk-infer_tree obj t s)
  chk-infer_tree (node_ref i expr) t s = chk-infer_tree expr t s
  chk-infer_tree (node_deref i expr) t s = chk-infer_tree expr t s
  chk-infer_tree (node_assign i left right) t s =
      target-infer_tree _ i left (infer right t).1 _
      ∙ ap (check_target i left)
          (chk-infer_tree right t _ ∙ ap (chk right) (chk-infer_tree left (infer right t).1 s))
  chk-infer_tree (node_compound_assign i op left right) t s =
      target-infer_tree _ i left t _
      ∙ ap (check_target i left)
          (chk-infer_tree right (infer left t).1 _ ∙ ap (chk right) (chk-infer_tree left t s))
  chk-infer_tree (node_try i expr) t s = chk-infer_tree expr t s
  chk-infer_tree n t s = refl

  chk_list-infer_trees :
      (ns : AstList) (t : Tc) (s : Sema) → chk_list (infer_trees ns t) s ≡ chk_list ns s
  chk_list-infer_trees nil t s = refl
  chk_list-infer_trees (cons n ns) t s =
      chk_list-infer_trees ns _ _ ∙ ap (chk_list ns) (chk-infer_tree n t s)

mutual
  unfolding check_tree check_trees check_arm_trees chk chk_list

  chk-check_tree : (n : AstNode) (t : Tc) (s : Sema) → chk (check_tree n t) s ≡ chk n s
  chk-check_tree (node_var_decl i v init) t s =
      ap (def_opt v.name v.is_mut v.is_const) (chk-infer_tree init t s)
  chk-check_tree (node_return i val) t s = chk-infer_tree val t s
  chk-check_tree (node_expr_stmt i expr) t s = chk-infer_tree expr t s
  chk-check_tree (node_assign i left right) t s = chk-infer_tree (node_assign i left right) t s
  chk-check_tree (node_compound_assign i op left right) t s =
      chk-infer_tree (node_compound_assign i op left right) t s
  chk-check_tree (node_if i cond body els) t s =
      chk-check_tree els _ _
      ∙ ap (chk els) (chk-check_tree body _ _ ∙ ap (chk body) (chk-infer_tree cond t s))
  chk-check_tree (node_while i is_do cond body) t s =
      chk-check_tree body _ _ ∙ ap (chk body) (chk-infer_tree cond t s)
  chk-check_tree (node_for_c i init cond step body) t s =
      let e = chk-check_tree init (push_tc t) (sc_push s) in
      ap sc_pop (
        chk-check_tree body _ _
        ∙ ap (chk body)
            (chk-infer_tree step _ _ ∙ ap (chk step) (chk-infer_tree cond _ _ ∙ ap (chk cond) e)))
  chk-check_tree (node_for_in i var iter body) t s = ap sc_pop (
      chk-check_tree body _ _
      ∙ ap (λ u. chk body (def_opt var false false u))
          (chk-infer_tree iter (push_tc t) (sc_push s)))
  chk-check_tree (node_match i expr arms) t s =
      chk_list-check_arm_trees arms _ _ ∙ ap (chk_list arms) (chk-infer_tree expr t s)
  chk-check_tree (node_block i stmts) t s = ap sc_pop (chk_list-check_trees stmts _ _)
  chk-check_tree (node_fn_decl i h params body) t s = ap sc_pop (chk-check_tree body _ _)
  chk-check_tree (node_region i body name) t s = ap sc_pop (chk_list-check_trees body _ _)
  chk-check_tree (node_defer i expr) t s = chk-check_tree expr t s
  chk-check_tree n t s = refl

  chk_list-check_trees :
      (ns : AstList) (t : Tc) (s : Sema) → chk_list (check_trees ns t) s ≡ chk_list ns s
  chk_list-check_trees nil t s = refl
  chk_list-check_trees (cons n ns) t s =
      chk_list-check_trees ns _ _ ∙ ap (chk_list ns) (chk-check_tree n t s)

  chk_list-check_arm_trees :
      (ns : AstList) (t : Tc) (s : Sema) → chk_list (check_arm_trees ns t) s ≡ chk_list ns s
  chk_list-check_arm_trees nil t s = refl
  chk_list-check_arm_trees (cons (node_match_arm i a body) ns) t s =
      chk_list-check_arm_trees ns _ _ ∙ ap (λ u. chk_list ns (sc_pop u)) (chk-check_tree body _ _)
  chk_list-check_arm_trees (cons n ns) t s = chk_list-check_arm_trees ns t _

-- Nor do the declarations that are entered before.
predef_decl-decl_tree :
    (n : AstNode) (t : Tc) (s : Sema) → predef_decl (decl_tree n t) s ≡ predef_decl n s
unfolding decl_tree check_tree predef_decl
predef_decl-decl_tree (node_fn_decl i h params body) t s = refl
predef_decl-decl_tree (node_var_decl i v init) t s = refl
predef_decl-decl_tree n t s = refl

predef_list-decl_trees :
    (ns : AstList) (t : Tc) (s : Sema) → predef_list (decl_trees ns t) s ≡ predef_list ns s
unfolding decl_trees predef_list
predef_list-decl_trees nil t s = refl
predef_list-decl_trees (cons n ns) t s =
    predef_list-decl_trees ns _ _ ∙ ap (predef_list ns) (predef_decl-decl_tree n t s)

chk-decl_tree : (n : AstNode) (t : Tc) (s : Sema) → chk (decl_tree n t) s ≡ chk n s
unfolding decl_tree chk
chk-decl_tree (node_fn_decl i h params body) t s = chk-check_tree (node_fn_decl i h params body) t s
chk-decl_tree (node_var_decl i v init) t s =
    ap (def_opt v.name v.is_mut v.is_const) (chk-infer_tree init t s)
chk-decl_tree n t s = refl

chk_list-decl_trees :
    (ns : AstList) (t : Tc) (s : Sema) → chk_list (decl_trees ns t) s ≡ chk_list ns s
unfolding decl_trees chk_list
chk_list-decl_trees nil t s = refl
chk_list-decl_trees (cons n ns) t s =
    chk_list-decl_trees ns _ _ ∙ ap (chk_list ns) (chk-decl_tree n t s)

pub sema_check-tc_tree :
    (prog : AstNode) (t : Tc) (s : Sema) → sema_check (tc_tree prog t) s ≡ sema_check prog s
unfolding sema_check tc_tree predef_fn chk
sema_check-tc_tree (node_program i decls is_module) t s =
    chk_list-decl_trees decls _ _ ∙ ap (chk_list decls) (predef_list-decl_trees decls _ s)
sema_check-tc_tree n t s = refl
