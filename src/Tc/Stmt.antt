-- ===== src/Tc/Stmt.antt =====
-- src/fetc/tc.c, `check_stmt`, `check_fn`, `predef_top` and `tc_check`.
use fermi.Base.{Bool, true, false, Option, none, some, if◌then◌else◌}
use fermi.Base.Text.{Bytes}
use fermi.Ast.{
  TypeKind, TypeNode, FnHead, VarHead, AstNode, AstList, var_name, ty_void, ty_int, ty_long,
  ty_named, no_type, type_node, no_node, node_program, node_fn_decl, node_enum_decl,
  node_class_decl, node_var_decl, node_block, node_if, node_while, node_for_c, node_for_in,
  node_match, node_match_arm, node_return, node_defer, node_expr_stmt, node_assign,
  node_compound_assign, node_region, node_comptime_let, nil, cons,
}
use fermi.Tc.{Tc, sc_push, sc_pop, sc_def, type_name}
use fermi.Tc.Infer.{infer}

-- The declared kind, or another one where there is no type.
abbrev pub kind_or : TypeNode → TypeKind → TypeKind
kind_or no_type k = k
kind_or (type_node k' inner array_size name) k = k'

abbrev pub is_null : AstNode → Bool
is_null no_node = true
is_null _ = false

abbrev pub def_named : Option Bytes → TypeKind → Option Bytes → Tc → Tc
def_named none ty ty_name t = t
def_named (some name) ty ty_name t = sc_def name ty ty_name t

-- A variable: its initializer's kind where it has one and no type. Its name is taken to be there,
-- as in all trees of the parser that were read without an error.
unfoldable pub check_var : VarHead → AstNode → Tc → Tc
check_var v no_node t = def_named v.name (kind_or v.type ty_int) (type_name v.type) t
check_var v init t =
    let (it, u) = infer init t in def_named v.name (kind_or v.type it) (type_name v.type) u

unfoldable pub def_params : AstList → Tc → Tc
def_params nil t = t
def_params (cons (node_var_decl i v init) ps) t =
    def_params ps (def_named v.name (kind_or v.type ty_int) (type_name v.type) t)
def_params (cons p ps) t = def_params ps t

unfoldable mutual
  unfolding check_var def_params

  pub check_stmt : AstNode → Tc → Tc
  check_stmt (node_var_decl i v init) t = check_var v init t
  check_stmt (node_return i val) t = (infer val t).1
  check_stmt (node_expr_stmt i expr) t = (infer expr t).1
  check_stmt (node_assign i left right) t = (infer (node_assign i left right) t).1
  check_stmt (node_compound_assign i op left right) t =
      (infer (node_compound_assign i op left right) t).1
  check_stmt (node_if i cond body els) t = check_stmt els (check_stmt body (infer cond t).1)
  check_stmt (node_while i is_do cond body) t = check_stmt body (infer cond t).1
  check_stmt (node_for_c i init cond step body) t =
      sc_pop (check_stmt body (infer step (infer cond (check_stmt init (sc_push t))).1).1)
  check_stmt (node_for_in i var iter body) t =
      sc_pop (check_stmt body (def_named var ty_int none (infer iter (sc_push t)).1))
  check_stmt (node_match i expr arms) t = check_arms arms (infer expr t).1
  check_stmt (node_block i stmts) t = sc_pop (check_stmts stmts (sc_push t))
  check_stmt (node_fn_decl i h params body) t =
      sc_pop (check_stmt body (def_params params (sc_push t)))
  check_stmt (node_region i body name) t = sc_pop (check_stmts body (sc_push t))
  check_stmt (node_defer i expr) t = check_stmt expr t
  check_stmt _ t = t

  pub check_stmts : AstList → Tc → Tc
  check_stmts nil t = t
  check_stmts (cons n ns) t = check_stmts ns (check_stmt n t)

  -- An arm that is no NODE_MATCH_ARM, null or of another kind, is left out.
  pub check_arms : AstList → Tc → Tc
  check_arms nil t = t
  check_arms (cons (node_match_arm i a body) ns) t =
      check_arms ns (sc_pop (check_stmt body (def_named a.bind_name ty_int none (sc_push t))))
  check_arms (cons n ns) t = check_arms ns t

-- The kind that a function returns.
abbrev pub return_kind : FnHead → TypeKind
return_kind h = if h.is_unit then ty_void else kind_or h.ret_type ty_int

unfoldable pub def_variants : Bytes → AstList → Tc → Tc
def_variants enum_name nil t = t
def_variants enum_name (cons v vs) t =
    def_variants enum_name vs (def_named (var_name v) ty_named (some enum_name) t)

unfoldable pub predef_decl : AstNode → Tc → Tc
predef_decl (node_fn_decl i h params body) t =
    def_named h.name (return_kind h) (type_name h.ret_type) t
predef_decl (node_enum_decl i name variants) t =
    def_variants name variants (sc_def name ty_named (some name) t)
predef_decl (node_class_decl i name privates publics) t = sc_def name ty_named (some name) t
predef_decl (node_var_decl i v init) t =
    if v.is_const then def_named v.name (kind_or v.type ty_int) none t else t
predef_decl (node_comptime_let i name init) t = def_named name ty_long none t
predef_decl _ t = t

unfoldable pub predef_top : AstList → Tc → Tc
predef_top nil t = t
predef_top (cons n ns) t = predef_top ns (predef_decl n t)

unfoldable pub check_decl : AstNode → Tc → Tc
check_decl (node_fn_decl i h params body) t = check_stmt (node_fn_decl i h params body) t
check_decl (node_var_decl i v init) t = (infer init t).1
check_decl _ t = t

unfoldable pub check_decls : AstList → Tc → Tc
check_decls nil t = t
check_decls (cons n ns) t = check_decls ns (check_decl n t)

abbrev pub decls_of : AstNode → AstList
decls_of (node_program i decls is_module) = decls
decls_of _ = nil

unfoldable pub tc_check : AstNode → Tc → Tc
tc_check prog t = check_decls (decls_of prog) (predef_top (decls_of prog) t)
