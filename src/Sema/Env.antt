-- ===== src/Sema/Env.antt =====
-- The specification of the analysis: lexical scoping, without a stack. The environment says what a
-- name means, and a scoped construct gives back the environment that it was given.
use fermi.Base.{Bool, true, false, List, ◌∷◌, Option, none, some, if◌then◌else◌}
use fermi.Base.Text.{Bytes, codes, str_eq}
use fermi.Ast.{
  NodeInfo, AstNode, AstList, var_name, node_program, node_fn_decl, node_enum_decl, node_class_decl,
  node_var_decl, node_block, node_if, node_while, node_for_c, node_for_in, node_match,
  node_match_arm, node_return, node_defer, node_expr_stmt, node_assign, node_compound_assign,
  node_binary, node_unary, node_call, node_index, node_field, node_cast, node_ident,
  node_struct_init, node_array_lit, node_ref, node_deref, node_interp_str, node_region, node_try,
  node_lambda, node_unsafe_block, node_comptime_let, nil, cons,
}
use fermi.Sema.{SymE, Diag, forbids, is_unknown, read_only, undeclared}
use fermi.Sema.Check.{is_mut_of, method_name, decls_of}

pub record Lexical : Type 0 where
  pub env : Bytes → Option SymE
  pub had_error : Bool
  pub diags : List Diag

unfoldable pub complain : NodeInfo → Bytes → Bytes → Lexical → Lexical
complain i code msg r = record r {
  had_error = true;
  diags = record { line = i.line; col = i.col; code = code; msg = msg } ∷ r.diags;
}

unfoldable pub bind : Bytes → Bool → Bool → Lexical → Lexical
bind name is_mut is_const r = record r {
  env = λ q.
      if str_eq name q
      then some (record { name = name; is_mut = is_mut; is_const = is_const })
      else r.env q;
}

abbrev pub bind_opt : Option Bytes → Bool → Bool → Lexical → Lexical
bind_opt none is_mut is_const r = r
bind_opt (some name) is_mut is_const r = bind name is_mut is_const r

unfoldable pub scoped : Lexical → Lexical → Lexical
scoped r r' = record r' { env = r.env }

-- An assignment to a name that is known and not mutable, and a use of a name that is not known.
unfoldable pub judge_target : NodeInfo → AstNode → Lexical → Lexical
judge_target i (node_ident j name) r =
    if forbids (r.env name) then complain i (codes "E0003") (read_only name) r else r
judge_target i _ r = r

unfoldable pub judge_ident : NodeInfo → Bytes → Lexical → Lexical
judge_ident i name r =
    if is_unknown name (r.env name) then complain i (codes "E0002") (undeclared name) r else r

unfoldable pub bind_params : AstList → Lexical → Lexical
bind_params nil r = r
bind_params (cons p ps) r = bind_params ps (bind_opt (var_name p) (is_mut_of p) false r)

unfoldable pub bind_lambda_params : AstList → Lexical → Lexical
bind_lambda_params nil r = r
bind_lambda_params (cons p ps) r = bind_lambda_params ps (bind_opt (var_name p) true false r)

unfoldable pub bind_variants : AstList → Lexical → Lexical
bind_variants nil r = r
bind_variants (cons v vs) r = bind_variants vs (bind_opt (var_name v) false true r)

unfoldable pub bind_methods : AstList → Lexical → Lexical
bind_methods nil r = r
bind_methods (cons m ms) r = bind_methods ms (bind_opt (method_name m) false true r)

-- The nodes. A block, a function, a loop, an arm, a region or a lambda leaves no binding behind.
unfoldable mutual
  pub scan : AstNode → Lexical → Lexical
  scan (node_program i decls is_module) r = scan_list decls r
  scan (node_fn_decl i h params body) r =
      scoped r (scan body (bind_params params (bind (codes "self") false false r)))
  scan (node_var_decl i v init) r = bind_opt v.name v.is_mut v.is_const (scan init r)
  scan (node_block i stmts) r = scoped r (scan_list stmts r)
  scan (node_if i cond body els) r = scan els (scan body (scan cond r))
  scan (node_while i is_do cond body) r = scan body (scan cond r)
  scan (node_for_c i init cond step body) r =
      scoped r (scan body (scan step (scan cond (scan init r))))
  scan (node_for_in i var iter body) r =
      scoped r (scan body (bind_opt var false false (scan iter r)))
  scan (node_match i expr arms) r = scan_list arms (scan expr r)
  scan (node_match_arm i a body) r = scoped r (scan body (bind_opt a.bind_name false false r))
  scan (node_return i val) r = scan val r
  scan (node_expr_stmt i expr) r = scan expr r
  scan (node_assign i left right) r = judge_target i left (scan right (scan left r))
  scan (node_compound_assign i op left right) r = judge_target i left (scan right (scan left r))
  scan (node_binary i op left right) r = scan right (scan left r)
  scan (node_unary i op operand prefix) r = scan operand r
  scan (node_call i (node_field j obj field) args) r = scan_list args (scan obj r)
  scan (node_call i callee args) r = scan_list args (scan callee r)
  scan (node_index i obj idx) r = scan idx (scan obj r)
  scan (node_field i obj field) r = scan obj r
  scan (node_ref i expr) r = scan expr r
  scan (node_deref i expr) r = scan expr r
  scan (node_cast i expr type) r = scan expr r
  scan (node_ident i name) r = judge_ident i name r
  scan (node_enum_decl i name variants) r = bind_variants variants (bind name false true r)
  scan (node_class_decl i name privates publics) r = bind_methods publics (bind name false true r)
  scan (node_struct_init i type_name fields) r = scan_fields fields r
  scan (node_array_lit i elems) r = scan_list elems r
  scan (node_interp_str i parts) r = scan_list parts r
  scan (node_region i body name) r = scoped r (scan_list body r)
  scan (node_lambda i params ret_type body) r = scoped r (scan body (bind_lambda_params params r))
  scan (node_defer i expr) r = scan expr r
  scan (node_try i expr) r = scan expr r
  scan (node_unsafe_block i body) r = scan body r
  scan _ r = r

  pub scan_list : AstList → Lexical → Lexical
  scan_list nil r = r
  scan_list (cons n ns) r = scan_list ns (scan n r)

  pub scan_fields : AstList → Lexical → Lexical
  scan_fields nil r = r
  scan_fields (cons (node_assign i left right) ns) r = scan_fields ns (scan right r)
  scan_fields (cons n ns) r = scan_fields ns (scan n r)

-- The declarations that a program may use before they stand.
unfoldable pub prebind : AstNode → Lexical → Lexical
prebind (node_fn_decl i h params body) r = bind_opt h.name false true r
prebind (node_enum_decl i name variants) r = bind_variants variants (bind name false true r)
prebind (node_class_decl i name privates publics) r = bind name false true r
prebind (node_var_decl i v init) r = bind_opt v.name v.is_mut v.is_const r
prebind (node_comptime_let i name init) r = bind_opt name false true r
prebind _ r = r

unfoldable pub prebind_list : AstList → Lexical → Lexical
prebind_list nil r = r
prebind_list (cons n ns) r = prebind_list ns (prebind n r)

unfoldable pub scan_program : AstNode → Lexical → Lexical
scan_program prog r = scan prog (prebind_list (decls_of prog) r)
