-- ===== src/Sema/Check.antt =====
-- src/fesema/sema.c, `chk`, `predef_fn` and `sema_check`.
use fermi.Base.{Bool, true, false, Option, none, some, if◌then◌else◌}
use fermi.Base.Text.{Bytes, codes}
use fermi.Ast.{
  NodeInfo, AstNode, AstList, var_name, node_program, node_fn_decl, node_enum_decl, node_class_decl,
  node_var_decl, node_block, node_if, node_while, node_for_c, node_for_in, node_match,
  node_match_arm, node_return, node_defer, node_expr_stmt, node_assign, node_compound_assign,
  node_binary, node_unary, node_call, node_index, node_field, node_cast, node_ident,
  node_struct_init, node_array_lit, node_ref, node_deref, node_interp_str, node_region, node_try,
  node_lambda, node_unsafe_block, node_comptime_let, nil, cons,
}
use fermi.Sema.{
  Sema, serr, sc_push, sc_pop, sc_def, sc_lookup, forbids, is_unknown, read_only, undeclared,
}

-- `if (name) sc_def(...)`
abbrev pub def_opt : Option Bytes → Bool → Bool → Sema → Sema
def_opt none is_mut is_const s = s
def_opt (some name) is_mut is_const s = sc_def name is_mut is_const s

-- The test of an assignment: only a plain identifier is looked up.
unfoldable pub check_target : NodeInfo → AstNode → Sema → Sema
check_target i (node_ident j name) s =
    if forbids (sc_lookup name s) then serr i (codes "E0003") (read_only name) s else s
check_target i _ s = s

unfoldable pub check_ident : NodeInfo → Bytes → Sema → Sema
check_ident i name s =
    if is_unknown name (sc_lookup name s) then serr i (codes "E0002") (undeclared name) s else s

unfoldable pub is_mut_of : AstNode → Bool
is_mut_of (node_var_decl i v init) = v.is_mut
is_mut_of _ = false

-- Parameters; those of a lambda are all mutable.
unfoldable pub def_params : AstList → Sema → Sema
def_params nil s = s
def_params (cons p ps) s = def_params ps (def_opt (var_name p) (is_mut_of p) false s)

unfoldable pub def_lambda_params : AstList → Sema → Sema
def_lambda_params nil s = s
def_lambda_params (cons p ps) s = def_lambda_params ps (def_opt (var_name p) true false s)

unfoldable pub def_variants : AstList → Sema → Sema
def_variants nil s = s
def_variants (cons v vs) s = def_variants vs (def_opt (var_name v) false true s)

-- The public methods of a class.
abbrev pub method_name : AstNode → Option Bytes
method_name (node_fn_decl i h params body) = h.name
method_name _ = none

unfoldable pub def_methods : AstList → Sema → Sema
def_methods nil s = s
def_methods (cons m ms) s = def_methods ms (def_opt (method_name m) false true s)

unfoldable mutual
  unfolding check_target check_ident

  pub chk : AstNode → Sema → Sema
  chk (node_program i decls is_module) s = chk_list decls s
  chk (node_fn_decl i h params body) s =
      sc_pop (chk body (def_params params (sc_def (codes "self") false false (sc_push s))))
  chk (node_var_decl i v init) s = def_opt v.name v.is_mut v.is_const (chk init s)
  chk (node_block i stmts) s = sc_pop (chk_list stmts (sc_push s))
  chk (node_if i cond body els) s = chk els (chk body (chk cond s))
  chk (node_while i is_do cond body) s = chk body (chk cond s)
  chk (node_for_c i init cond step body) s =
      sc_pop (chk body (chk step (chk cond (chk init (sc_push s)))))
  chk (node_for_in i var iter body) s =
      sc_pop (chk body (def_opt var false false (chk iter (sc_push s))))
  chk (node_match i expr arms) s = chk_list arms (chk expr s)
  chk (node_match_arm i a body) s = sc_pop (chk body (def_opt a.bind_name false false (sc_push s)))
  chk (node_return i val) s = chk val s
  chk (node_expr_stmt i expr) s = chk expr s
  chk (node_assign i left right) s = check_target i left (chk right (chk left s))
  chk (node_compound_assign i op left right) s = check_target i left (chk right (chk left s))
  chk (node_binary i op left right) s = chk right (chk left s)
  chk (node_unary i op operand prefix) s = chk operand s
  chk (node_call i (node_field j obj field) args) s = chk_list args (chk obj s)
  chk (node_call i callee args) s = chk_list args (chk callee s)
  chk (node_index i obj idx) s = chk idx (chk obj s)
  chk (node_field i obj field) s = chk obj s
  chk (node_ref i expr) s = chk expr s
  chk (node_deref i expr) s = chk expr s
  chk (node_cast i expr type) s = chk expr s
  chk (node_ident i name) s = check_ident i name s
  chk (node_enum_decl i name variants) s = def_variants variants (sc_def name false true s)
  chk (node_class_decl i name privates publics) s = def_methods publics (sc_def name false true s)
  chk (node_struct_init i type_name fields) s = chk_fields fields s
  chk (node_array_lit i elems) s = chk_list elems s
  chk (node_interp_str i parts) s = chk_list parts s
  chk (node_region i body name) s = sc_pop (chk_list body (sc_push s))
  chk (node_lambda i params ret_type body) s =
      sc_pop (chk body (def_lambda_params params (sc_push s)))
  chk (node_defer i expr) s = chk expr s
  chk (node_try i expr) s = chk expr s
  chk (node_unsafe_block i body) s = chk body s
  chk _ s = s

  pub chk_list : AstList → Sema → Sema
  chk_list nil s = s
  chk_list (cons n ns) s = chk_list ns (chk n s)

  -- Of a field's initializer only the value is checked.
  pub chk_fields : AstList → Sema → Sema
  chk_fields nil s = s
  chk_fields (cons (node_assign i left right) ns) s = chk_fields ns (chk right s)
  chk_fields (cons n ns) s = chk_fields ns (chk n s)

unfoldable pub predef_decl : AstNode → Sema → Sema
predef_decl (node_fn_decl i h params body) s = def_opt h.name false true s
predef_decl (node_enum_decl i name variants) s = def_variants variants (sc_def name false true s)
predef_decl (node_class_decl i name privates publics) s = sc_def name false true s
predef_decl (node_var_decl i v init) s = def_opt v.name v.is_mut v.is_const s
predef_decl (node_comptime_let i name init) s = def_opt name false true s
predef_decl _ s = s

unfoldable pub predef_list : AstList → Sema → Sema
predef_list nil s = s
predef_list (cons n ns) s = predef_list ns (predef_decl n s)

-- The declarations of a program; the source reads the union of any other node as if it were one.
abbrev pub decls_of : AstNode → AstList
decls_of (node_program i decls is_module) = decls
decls_of _ = nil

unfoldable pub predef_fn : AstNode → Sema → Sema
predef_fn prog s = predef_list (decls_of prog) s

unfoldable pub sema_check : AstNode → Sema → Sema
sema_check prog s = chk prog (predef_fn prog s)
