-- ===== src/Tc/Verdicts.antt =====
-- The type checker implements its specification.
use fermi.Base.{none}
use fermi.Base.Text.{Bytes}
use fermi.Ast.{
  AstNode, AstList, ty_int, node_fn_decl, node_enum_decl, node_class_decl, node_var_decl,
  node_block, node_if, node_while, node_for_c, node_for_in, node_match, node_match_arm, node_return,
  node_defer, node_expr_stmt, node_assign, node_compound_assign, node_region, node_comptime_let,
  nil, cons,
}
use fermi.Tc.{Tc, type_name}
use fermi.Tc.Kinds.{Scopes}
use fermi.Tc.Stmt.{
  decls_of, check_stmt, check_stmts, check_arms, def_variants, predef_decl, predef_top, check_decl,
  check_decls, tc_check,
}
use fermi.Tc.Judge.{
  Verdict, judge, judge_list, judge_arms, bind_variants, prebind, prebind_list, judge_decl,
  judge_decls, judge_program,
}
use fermi.Tc.Fit.{
  Fits, expr-Fits, sc_def-Fits, def_named-Fits, push-Fits, pop-Fits, if-Fits, check_var-Fits,
  def_params-Fits,
}

mutual
  unfolding check_stmt judge

  pub check_stmt-Fits :
      (n : AstNode) {out : Scopes} {t : Tc} {r : Verdict}
      → Fits out t r
      → Fits out (check_stmt n t) (judge n r)
  check_stmt-Fits (node_var_decl i v init) g = check_var-Fits v init g
  check_stmt-Fits (node_return i val) g = expr-Fits val g
  check_stmt-Fits (node_expr_stmt i expr) g = expr-Fits expr g
  check_stmt-Fits (node_assign i left right) g = expr-Fits (node_assign i left right) g
  check_stmt-Fits (node_compound_assign i op left right) g =
      expr-Fits (node_compound_assign i op left right) g
  check_stmt-Fits (node_if i cond body els) g =
      check_stmt-Fits els (check_stmt-Fits body (expr-Fits cond g))
  check_stmt-Fits (node_while i is_do cond body) g = check_stmt-Fits body (expr-Fits cond g)
  check_stmt-Fits (node_for_c i init cond step body) g =
      pop-Fits g (
        check_stmt-Fits body (expr-Fits step (expr-Fits cond (check_stmt-Fits init (push-Fits g)))))
  check_stmt-Fits (node_for_in i var iter body) g =
      pop-Fits g
        (check_stmt-Fits body (def_named-Fits var ty_int none (expr-Fits iter (push-Fits g))))
  check_stmt-Fits (node_match i expr arms) g = check_arms-Fits arms (expr-Fits expr g)
  check_stmt-Fits (node_block i stmts) g = pop-Fits g (check_stmts-Fits stmts (push-Fits g))
  check_stmt-Fits (node_fn_decl i h params body) g =
      pop-Fits g (check_stmt-Fits body (def_params-Fits params (push-Fits g)))
  check_stmt-Fits (node_region i body name) g = pop-Fits g (check_stmts-Fits body (push-Fits g))
  check_stmt-Fits (node_defer i expr) g = check_stmt-Fits expr g
  check_stmt-Fits _ g = g

  check_stmts-Fits :
      (ns : AstList) {out : Scopes} {t : Tc} {r : Verdict}
      → Fits out t r
      → Fits out (check_stmts ns t) (judge_list ns r)
  check_stmts-Fits nil g = g
  check_stmts-Fits (cons n ns) g = check_stmts-Fits ns (check_stmt-Fits n g)

  check_arms-Fits :
      (ns : AstList) {out : Scopes} {t : Tc} {r : Verdict}
      → Fits out t r
      → Fits out (check_arms ns t) (judge_arms ns r)
  check_arms-Fits nil g = g
  check_arms-Fits (cons (node_match_arm i a body) ns) g =
      check_arms-Fits ns
        (pop-Fits g (check_stmt-Fits body (def_named-Fits a.bind_name ty_int none (push-Fits g))))
  check_arms-Fits (cons n ns) g = check_arms-Fits ns g

def_variants-Fits :
    (enum_name : Bytes) (vs : AstList) {out : Scopes} {t : Tc} {r : Verdict}
    → Fits out t r
    → Fits out (def_variants enum_name vs t) (bind_variants enum_name vs r)
unfolding def_variants bind_variants
def_variants-Fits enum_name nil g = g
def_variants-Fits enum_name (cons v vs) g = def_variants-Fits enum_name vs (def_named-Fits _ _ _ g)

predef_decl-Fits :
    (n : AstNode) {out : Scopes} {t : Tc} {r : Verdict}
    → Fits out t r
    → Fits out (predef_decl n t) (prebind n r)
unfolding predef_decl prebind
predef_decl-Fits (node_fn_decl i h params body) g = def_named-Fits h.name _ (type_name h.ret_type) g
predef_decl-Fits (node_enum_decl i name variants) g =
    def_variants-Fits name variants (sc_def-Fits name _ _ g)
predef_decl-Fits (node_class_decl i name privates publics) g = sc_def-Fits name _ _ g
predef_decl-Fits (node_var_decl i v init) g = if-Fits v.is_const g (def_named-Fits v.name _ none g)
predef_decl-Fits (node_comptime_let i name init) g = def_named-Fits name _ none g
predef_decl-Fits _ g = g

predef_top-Fits :
    (ns : AstList) {out : Scopes} {t : Tc} {r : Verdict}
    → Fits out t r
    → Fits out (predef_top ns t) (prebind_list ns r)
unfolding predef_top prebind_list
predef_top-Fits nil g = g
predef_top-Fits (cons n ns) g = predef_top-Fits ns (predef_decl-Fits n g)

check_decl-Fits :
    (n : AstNode) {out : Scopes} {t : Tc} {r : Verdict}
    → Fits out t r
    → Fits out (check_decl n t) (judge_decl n r)
unfolding check_decl judge_decl
check_decl-Fits (node_fn_decl i h params body) g = check_stmt-Fits (node_fn_decl i h params body) g
check_decl-Fits (node_var_decl i v init) g = expr-Fits init g
check_decl-Fits _ g = g

check_decls-Fits :
    (ns : AstList) {out : Scopes} {t : Tc} {r : Verdict}
    → Fits out t r
    → Fits out (check_decls ns t) (judge_decls ns r)
unfolding check_decls judge_decls
check_decls-Fits nil g = g
check_decls-Fits (cons n ns) g = check_decls-Fits ns (check_decl-Fits n g)

-- Checking any program, from a state that fits a verdict over some outer scopes, fits the verdict of
-- the specification over the same outer scopes: the flag is set exactly where the specification finds
-- an operator on an operand that does not fit, and the names mean what it says.
pub tc_check-Fits :
    (prog : AstNode) (out : Scopes) (t : Tc) (r : Verdict)
    → Fits out t r
    → Fits out (tc_check prog t) (judge_program prog r)
unfolding tc_check judge_program
tc_check-Fits prog out t r g = check_decls-Fits (decls_of prog) (predef_top-Fits (decls_of prog) g)
