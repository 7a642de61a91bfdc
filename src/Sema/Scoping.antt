-- ===== src/Sema/Scoping.antt =====
-- The analysis agrees with lexical scoping: the stack of scopes means an environment, and the
-- diagnostics are those of the specification.
use fermi.Base.{true, false}
use fermi.Base.Text.{codes}
use fermi.Ast.{
  AstNode, AstList, node_program, node_fn_decl, node_enum_decl, node_class_decl, node_var_decl,
  node_block, node_if, node_while, node_for_c, node_for_in, node_match, node_match_arm, node_return,
  node_defer, node_expr_stmt, node_assign, node_compound_assign, node_binary, node_unary, node_call,
  node_index, node_field, node_cast, node_ident, node_struct_init, node_array_lit, node_ref,
  node_deref, node_interp_str, node_region, node_try, node_lambda, node_unsafe_block,
  node_comptime_let, nil, cons,
}
use fermi.Sema.{Sema}
use fermi.Sema.Check.{
  chk, chk_list, chk_fields, predef_decl, predef_list, decls_of, predef_fn, sema_check,
}
use fermi.Sema.Env.{Lexical, scan, scan_list, scan_fields, prebind, prebind_list, scan_program}
use fermi.Sema.Stack.{
  trans-Steps, sc_def-Steps, def_opt-Steps, def_params-Steps, def_lambda_params-Steps, chk-Steps,
  chk_list-Steps,
}
use fermi.Sema.Agree.{
  Agrees, push-Agrees, pop-Agrees, sc_def-Agrees, def_opt-Agrees, check_target-Agrees,
  check_ident-Agrees, def_params-Agrees, def_lambda_params-Agrees, def_variants-Agrees,
  def_methods-Agrees,
}

mutual
  unfolding chk scan

  pub chk-Agrees : (n : AstNode) {s : Sema} {r : Lexical} → Agrees s r → Agrees (chk n s) (scan n r)
  chk-Agrees (node_program i decls is_module) g = chk_list-Agrees decls g
  chk-Agrees (node_fn_decl i h params body) g =
      pop-Agrees g
        (trans-Steps (sc_def-Steps (codes "self") false false _)
          (trans-Steps (def_params-Steps params _) (chk-Steps body _)))
        (chk-Agrees body
          (def_params-Agrees params (sc_def-Agrees (codes "self") false false (push-Agrees g))))
  chk-Agrees (node_var_decl i v init) g =
      def_opt-Agrees v.name v.is_mut v.is_const (chk-Agrees init g)
  chk-Agrees (node_block i stmts) g =
      pop-Agrees g (chk_list-Steps stmts _) (chk_list-Agrees stmts (push-Agrees g))
  chk-Agrees (node_if i cond body els) g = chk-Agrees els (chk-Agrees body (chk-Agrees cond g))
  chk-Agrees (node_while i is_do cond body) g = chk-Agrees body (chk-Agrees cond g)
  chk-Agrees (node_for_c i init cond step body) g =
      pop-Agrees g
        (trans-Steps (chk-Steps init _)
          (trans-Steps (chk-Steps cond _) (trans-Steps (chk-Steps step _) (chk-Steps body _))))
        (chk-Agrees body (chk-Agrees step (chk-Agrees cond (chk-Agrees init (push-Agrees g)))))
  chk-Agrees (node_for_in i var iter body) g =
      pop-Agrees g
        (trans-Steps (chk-Steps iter _)
          (trans-Steps (def_opt-Steps var false false _) (chk-Steps body _)))
        (chk-Agrees body (def_opt-Agrees var false false (chk-Agrees iter (push-Agrees g))))
  chk-Agrees (node_match i expr arms) g = chk_list-Agrees arms (chk-Agrees expr g)
  chk-Agrees (node_match_arm i a body) g =
      pop-Agrees g (trans-Steps (def_opt-Steps a.bind_name false false _) (chk-Steps body _))
        (chk-Agrees body (def_opt-Agrees a.bind_name false false (push-Agrees g)))
  chk-Agrees (node_return i val) g = chk-Agrees val g
  chk-Agrees (node_expr_stmt i expr) g = chk-Agrees expr g
  chk-Agrees (node_assign i left right) g =
      check_target-Agrees i left (chk-Agrees right (chk-Agrees left g))
  chk-Agrees (node_compound_assign i op left right) g =
      check_target-Agrees i left (chk-Agrees right (chk-Agrees left g))
  chk-Agrees (node_binary i op left right) g = chk-Agrees right (chk-Agrees left g)
  chk-Agrees (node_unary i op operand prefix) g = chk-Agrees operand g
  chk-Agrees (node_call i (node_field j obj field) args) g = chk_list-Agrees args (chk-Agrees obj g)
  chk-Agrees (node_call i callee args) g = chk_list-Agrees args (chk-Agrees callee g)
  chk-Agrees (node_index i obj idx) g = chk-Agrees idx (chk-Agrees obj g)
  chk-Agrees (node_field i obj field) g = chk-Agrees obj g
  chk-Agrees (node_ref i expr) g = chk-Agrees expr g
  chk-Agrees (node_deref i expr) g = chk-Agrees expr g
  chk-Agrees (node_cast i expr type) g = chk-Agrees expr g
  chk-Agrees (node_ident i name) g = check_ident-Agrees i name g
  chk-Agrees (node_enum_decl i name variants) g =
      def_variants-Agrees variants (sc_def-Agrees name false true g)
  chk-Agrees (node_class_decl i name privates publics) g =
      def_methods-Agrees publics (sc_def-Agrees name false true g)
  chk-Agrees (node_struct_init i type_name fields) g = chk_fields-Agrees fields g
  chk-Agrees (node_array_lit i elems) g = chk_list-Agrees elems g
  chk-Agrees (node_interp_str i parts) g = chk_list-Agrees parts g
  chk-Agrees (node_region i body name) g =
      pop-Agrees g (chk_list-Steps body _) (chk_list-Agrees body (push-Agrees g))
  chk-Agrees (node_lambda i params ret_type body) g =
      pop-Agrees g (trans-Steps (def_lambda_params-Steps params _) (chk-Steps body _))
        (chk-Agrees body (def_lambda_params-Agrees params (push-Agrees g)))
  chk-Agrees (node_defer i expr) g = chk-Agrees expr g
  chk-Agrees (node_try i expr) g = chk-Agrees expr g
  chk-Agrees (node_unsafe_block i body) g = chk-Agrees body g
  chk-Agrees _ g = g

  pub chk_list-Agrees :
      (ns : AstList) {s : Sema} {r : Lexical} → Agrees s r → Agrees (chk_list ns s) (scan_list ns r)
  chk_list-Agrees nil g = g
  chk_list-Agrees (cons n ns) g = chk_list-Agrees ns (chk-Agrees n g)

  pub chk_fields-Agrees :
      (ns : AstList) {s : Sema} {r : Lexical}
      → Agrees s r
      → Agrees (chk_fields ns s) (scan_fields ns r)
  chk_fields-Agrees nil g = g
  chk_fields-Agrees (cons (node_assign i left right) ns) g =
      chk_fields-Agrees ns (chk-Agrees right g)
  chk_fields-Agrees (cons n ns) g = chk_fields-Agrees ns (chk-Agrees n g)

predef_decl-Agrees :
    (n : AstNode) {s : Sema} {r : Lexical} → Agrees s r → Agrees (predef_decl n s) (prebind n r)
unfolding predef_decl prebind
predef_decl-Agrees (node_fn_decl i h params body) g = def_opt-Agrees _ _ _ g
predef_decl-Agrees (node_enum_decl i name variants) g =
    def_variants-Agrees variants (sc_def-Agrees name _ _ g)
predef_decl-Agrees (node_class_decl i name privates publics) g = sc_def-Agrees name _ _ g
predef_decl-Agrees (node_var_decl i v init) g = def_opt-Agrees _ _ _ g
predef_decl-Agrees (node_comptime_let i name init) g = def_opt-Agrees _ _ _ g
predef_decl-Agrees _ g = g

predef_list-Agrees :
    (ns : AstList) {s : Sema} {r : Lexical}
    → Agrees s r
    → Agrees (predef_list ns s) (prebind_list ns r)
unfolding predef_list prebind_list
predef_list-Agrees nil g = g
predef_list-Agrees (cons n ns) g = predef_list-Agrees ns (predef_decl-Agrees n g)

-- Checking any program, from a state that agrees with an environment, agrees with the specification
-- by lexical scoping: it gives the same diagnostics in the same order, and the same names mean the
-- same entries afterwards.
pub sema_check-Agrees :
    (prog : AstNode) (s : Sema) (r : Lexical)
    → Agrees s r
    → Agrees (sema_check prog s) (scan_program prog r)
unfolding sema_check scan_program predef_fn
sema_check-Agrees prog s r g = chk-Agrees prog (predef_list-Agrees (decls_of prog) g)
