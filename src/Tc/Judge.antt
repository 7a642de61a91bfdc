-- ===== src/Tc/Judge.antt =====
-- The specification of the type checker: the meaning of the names, as a function, and whether an
-- operator stood on an operand that does not fit. There is no stack: a scoped construct gives back
-- the environment that it was given.
use fermi.Base.{Bool, ◌||◌, Option, none, some, if◌then◌else◌}
use fermi.Base.Text.{Bytes, str_eq}
use fermi.Ast.{
  TypeKind, VarHead, AstNode, AstList, var_name, ty_int, ty_long, ty_named, no_node, node_fn_decl,
  node_enum_decl, node_class_decl, node_var_decl, node_block, node_if, node_while, node_for_c,
  node_for_in, node_match, node_match_arm, node_return, node_defer, node_expr_stmt, node_assign,
  node_compound_assign, node_region, node_comptime_let, nil, cons,
}
use fermi.Tc.Stmt.{kind_or, return_kind, decls_of}
use fermi.Tc.Kinds.{Env, kind_of, is_ill_typed}

pub record Verdict : Type 0 where
  pub env : Env
  pub bad : Bool

unfoldable pub judge_expr : AstNode → Verdict → Verdict
judge_expr n r = record r { bad = r.bad || is_ill_typed n r.env }

unfoldable pub bind : Bytes → TypeKind → Verdict → Verdict
bind name k r = record r { env = λ q. if str_eq name q then some k else r.env q }

abbrev pub bind_named : Option Bytes → TypeKind → Verdict → Verdict
bind_named none k r = r
bind_named (some name) k r = bind name k r

unfoldable pub scoped : Verdict → Verdict → Verdict
scoped r r' = record r' { env = r.env }

-- A variable has its declared kind, or that of its initializer, or `int`.
unfoldable pub judge_var : VarHead → AstNode → Verdict → Verdict
judge_var v no_node r = bind_named v.name (kind_or v.type ty_int) r
judge_var v init r = bind_named v.name (kind_or v.type (kind_of init r.env)) (judge_expr init r)

unfoldable pub bind_params : AstList → Verdict → Verdict
bind_params nil r = r
bind_params (cons (node_var_decl i v init) ps) r =
    bind_params ps (bind_named v.name (kind_or v.type ty_int) r)
bind_params (cons p ps) r = bind_params ps r

unfoldable mutual
  pub judge : AstNode → Verdict → Verdict
  judge (node_var_decl i v init) r = judge_var v init r
  judge (node_return i val) r = judge_expr val r
  judge (node_expr_stmt i expr) r = judge_expr expr r
  judge (node_assign i left right) r = judge_expr (node_assign i left right) r
  judge (node_compound_assign i op left right) r =
      judge_expr (node_compound_assign i op left right) r
  judge (node_if i cond body els) r = judge els (judge body (judge_expr cond r))
  judge (node_while i is_do cond body) r = judge body (judge_expr cond r)
  judge (node_for_c i init cond step body) r =
      scoped r (judge body (judge_expr step (judge_expr cond (judge init r))))
  judge (node_for_in i var iter body) r =
      scoped r (judge body (bind_named var ty_int (judge_expr iter r)))
  judge (node_match i expr arms) r = judge_arms arms (judge_expr expr r)
  judge (node_block i stmts) r = scoped r (judge_list stmts r)
  judge (node_fn_decl i h params body) r = scoped r (judge body (bind_params params r))
  judge (node_region i body name) r = scoped r (judge_list body r)
  judge (node_defer i expr) r = judge expr r
  judge _ r = r

  pub judge_list : AstList → Verdict → Verdict
  judge_list nil r = r
  judge_list (cons n ns) r = judge_list ns (judge n r)

  pub judge_arms : AstList → Verdict → Verdict
  judge_arms nil r = r
  judge_arms (cons (node_match_arm i a body) ns) r =
      judge_arms ns (scoped r (judge body (bind_named a.bind_name ty_int r)))
  judge_arms (cons n ns) r = judge_arms ns r

unfoldable pub bind_variants : Bytes → AstList → Verdict → Verdict
bind_variants enum_name nil r = r
bind_variants enum_name (cons v vs) r =
    bind_variants enum_name vs (bind_named (var_name v) ty_named r)

-- The declarations that a program may use before they stand.
unfoldable pub prebind : AstNode → Verdict → Verdict
prebind (node_fn_decl i h params body) r = bind_named h.name (return_kind h) r
prebind (node_enum_decl i name variants) r = bind_variants name variants (bind name ty_named r)
prebind (node_class_decl i name privates publics) r = bind name ty_named r
prebind (node_var_decl i v init) r =
    if v.is_const then bind_named v.name (kind_or v.type ty_int) r else r
prebind (node_comptime_let i name init) r = bind_named name ty_long r
prebind _ r = r

unfoldable pub prebind_list : AstList → Verdict → Verdict
prebind_list nil r = r
prebind_list (cons n ns) r = prebind_list ns (prebind n r)

unfoldable pub judge_decl : AstNode → Verdict → Verdict
judge_decl (node_fn_decl i h params body) r = judge (node_fn_decl i h params body) r
judge_decl (node_var_decl i v init) r = judge_expr init r
judge_decl _ r = r

unfoldable pub judge_decls : AstList → Verdict → Verdict
judge_decls nil r = r
judge_decls (cons n ns) r = judge_decls ns (judge_decl n r)

unfoldable pub judge_program : AstNode → Verdict → Verdict
judge_program prog r = judge_decls (decls_of prog) (prebind_list (decls_of prog) r)
