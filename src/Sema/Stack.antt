-- ===== src/Sema/Stack.antt =====
-- The stack discipline of the analysis: a construct never touches the outer scopes, and leaves as many
-- open as it found.
use fermi.Base.{
  ◌≡◌, ◌∙◌, refl, ap, Bool, true, false, not, List, [], ◌∷◌, Option, none, some, if◌then◌else◌,
  length,
}
use fermi.Base.Text.{Bytes, codes}
use fermi.Ast.{
  NodeInfo, AstNode, AstList, node_program, node_fn_decl, node_enum_decl, node_class_decl,
  node_var_decl, node_block, node_if, node_while, node_for_c, node_for_in, node_match,
  node_match_arm, node_return, node_defer, node_expr_stmt, node_assign, node_compound_assign,
  node_binary, node_unary, node_call, node_index, node_field, node_cast, node_ident,
  node_struct_init, node_array_lit, node_ref, node_deref, node_interp_str, node_region, node_try,
  node_lambda, node_unsafe_block, node_comptime_let, nil, cons,
}
use fermi.Sema.{
  Sema, serr, sc_push, sc_pop, sc_def, sc_lookup, forbids, is_unknown, outer_scopes, add_entry,
  SymE,
}
use fermi.Sema.Check.{
  def_opt, check_target, check_ident, def_params, def_lambda_params, def_variants, def_methods, chk,
  chk_list, chk_fields, predef_decl, predef_list, decls_of, predef_fn, sema_check,
}

abbrev pub is_nil {ℓ} : {A : Type ℓ} → List A → Bool
is_nil [] = true
is_nil (x ∷ xs) = false

-- The flag tells whether there are diagnostics.
abbrev pub IsFlagged : Sema → Type 0
IsFlagged s = s.had_error ≡ not (is_nil s.diags)

-- What a step of the analysis keeps.
pub record Steps (s t : Sema) : Type 0 where
  pub outer : outer_scopes t.scopes ≡ outer_scopes s.scopes
  pub depth : length t.scopes ≡ length s.scopes
  pub flagged : IsFlagged s → IsFlagged t

pub refl-Steps : {s : Sema} → Steps s s
refl-Steps = record { outer = refl; depth = refl; flagged = λ f. f }

pub trans-Steps : {s t u : Sema} → Steps s t → Steps t u → Steps s u
trans-Steps p q = record {
  outer = q.outer ∙ p.outer;
  depth = q.depth ∙ p.depth;
  flagged = λ f. q.flagged (p.flagged f);
}

outer-add_entry :
    (e : SymE) (scs : List (List SymE)) → outer_scopes (add_entry e scs) ≡ outer_scopes scs
outer-add_entry e [] = refl
outer-add_entry e (sc ∷ scs) = refl

length-add_entry : (e : SymE) (scs : List (List SymE)) → length (add_entry e scs) ≡ length scs
length-add_entry e [] = refl
length-add_entry e (sc ∷ scs) = refl

pub sc_def-Steps : (name : Bytes) (m c : Bool) (s : Sema) → Steps s (sc_def name m c s)
unfolding sc_def
sc_def-Steps name m c s = record {
  outer = outer-add_entry _ s.scopes;
  depth = length-add_entry _ s.scopes;
  flagged = λ f. f;
}

pub def_opt-Steps : (name : Option Bytes) (m c : Bool) (s : Sema) → Steps s (def_opt name m c s)
def_opt-Steps none m c s = refl-Steps
def_opt-Steps (some name) m c s = sc_def-Steps name m c s

-- A pushed scope is popped again.
pub pop-Steps : {s t : Sema} → Steps (sc_push s) t → Steps s (sc_pop t)
unfolding sc_push sc_pop
pop-Steps p = record {
  outer = ap outer_scopes p.outer;
  depth = ap length p.outer;
  flagged = p.flagged;
}

serr-Steps : (i : NodeInfo) (code msg : Bytes) (s : Sema) → Steps s (serr i code msg s)
unfolding serr
serr-Steps i code msg s = record { outer = refl; depth = refl; flagged = λ f. refl }

if-Steps : (b : Bool) (s t : Sema) → Steps s t → Steps s (if b then t else s)
if-Steps true s t p = p
if-Steps false s t p = refl-Steps

pub check_target-Steps : (i : NodeInfo) (n : AstNode) (s : Sema) → Steps s (check_target i n s)
unfolding check_target
check_target-Steps i (node_ident j name) s =
    if-Steps (forbids (sc_lookup name s)) s _ (serr-Steps i _ _ s)
check_target-Steps i _ s = refl-Steps

pub check_ident-Steps : (i : NodeInfo) (name : Bytes) (s : Sema) → Steps s (check_ident i name s)
unfolding check_ident
check_ident-Steps i name s = if-Steps (is_unknown name (sc_lookup name s)) s _ (serr-Steps i _ _ s)

pub def_params-Steps : (ps : AstList) (s : Sema) → Steps s (def_params ps s)
unfolding def_params
def_params-Steps nil s = refl-Steps
def_params-Steps (cons p ps) s = trans-Steps (def_opt-Steps _ _ _ s) (def_params-Steps ps _)

pub def_lambda_params-Steps : (ps : AstList) (s : Sema) → Steps s (def_lambda_params ps s)
unfolding def_lambda_params
def_lambda_params-Steps nil s = refl-Steps
def_lambda_params-Steps (cons p ps) s =
    trans-Steps (def_opt-Steps _ _ _ s) (def_lambda_params-Steps ps _)

pub def_variants-Steps : (vs : AstList) (s : Sema) → Steps s (def_variants vs s)
unfolding def_variants
def_variants-Steps nil s = refl-Steps
def_variants-Steps (cons v vs) s = trans-Steps (def_opt-Steps _ _ _ s) (def_variants-Steps vs _)

pub def_methods-Steps : (ms : AstList) (s : Sema) → Steps s (def_methods ms s)
unfolding def_methods
def_methods-Steps nil s = refl-Steps
def_methods-Steps (cons m ms) s = trans-Steps (def_opt-Steps _ _ _ s) (def_methods-Steps ms _)

mutual
  unfolding chk

  pub chk-Steps : (n : AstNode) (s : Sema) → Steps s (chk n s)
  chk-Steps (node_program i decls is_module) s = chk_list-Steps decls _
  chk-Steps (node_fn_decl i h params body) s = pop-Steps (
      trans-Steps (sc_def-Steps (codes "self") false false _)
        (trans-Steps (def_params-Steps params _) (chk-Steps body _)))
  chk-Steps (node_var_decl i v init) s =
      trans-Steps (chk-Steps init _) (def_opt-Steps v.name v.is_mut v.is_const _)
  chk-Steps (node_block i stmts) s = pop-Steps (chk_list-Steps stmts _)
  chk-Steps (node_if i cond body els) s =
      trans-Steps (chk-Steps cond _) (trans-Steps (chk-Steps body _) (chk-Steps els _))
  chk-Steps (node_while i is_do cond body) s = trans-Steps (chk-Steps cond _) (chk-Steps body _)
  chk-Steps (node_for_c i init cond step body) s = pop-Steps (
      trans-Steps (chk-Steps init _)
        (trans-Steps (chk-Steps cond _) (trans-Steps (chk-Steps step _) (chk-Steps body _))))
  chk-Steps (node_for_in i var iter body) s = pop-Steps (
      trans-Steps (chk-Steps iter _)
        (trans-Steps (def_opt-Steps var false false _) (chk-Steps body _)))
  chk-Steps (node_match i expr arms) s = trans-Steps (chk-Steps expr _) (chk_list-Steps arms _)
  chk-Steps (node_match_arm i a body) s =
      pop-Steps (trans-Steps (def_opt-Steps a.bind_name false false _) (chk-Steps body _))
  chk-Steps (node_return i val) s = chk-Steps val _
  chk-Steps (node_expr_stmt i expr) s = chk-Steps expr _
  chk-Steps (node_assign i left right) s =
      trans-Steps (chk-Steps left _) (trans-Steps (chk-Steps right _) (check_target-Steps i left _))
  chk-Steps (node_compound_assign i op left right) s =
      trans-Steps (chk-Steps left _) (trans-Steps (chk-Steps right _) (check_target-Steps i left _))
  chk-Steps (node_binary i op left right) s = trans-Steps (chk-Steps left _) (chk-Steps right _)
  chk-Steps (node_unary i op operand prefix) s = chk-Steps operand _
  chk-Steps (node_call i (node_field j obj field) args) s =
      trans-Steps (chk-Steps obj _) (chk_list-Steps args _)
  chk-Steps (node_call i callee args) s = trans-Steps (chk-Steps callee _) (chk_list-Steps args _)
  chk-Steps (node_index i obj idx) s = trans-Steps (chk-Steps obj _) (chk-Steps idx _)
  chk-Steps (node_field i obj field) s = chk-Steps obj _
  chk-Steps (node_ref i expr) s = chk-Steps expr _
  chk-Steps (node_deref i expr) s = chk-Steps expr _
  chk-Steps (node_cast i expr type) s = chk-Steps expr _
  chk-Steps (node_ident i name) s = check_ident-Steps i name _
  chk-Steps (node_enum_decl i name variants) s =
      trans-Steps (sc_def-Steps name false true _) (def_variants-Steps variants _)
  chk-Steps (node_class_decl i name privates publics) s =
      trans-Steps (sc_def-Steps name false true _) (def_methods-Steps publics _)
  chk-Steps (node_struct_init i type_name fields) s = chk_fields-Steps fields _
  chk-Steps (node_array_lit i elems) s = chk_list-Steps elems _
  chk-Steps (node_interp_str i parts) s = chk_list-Steps parts _
  chk-Steps (node_region i body name) s = pop-Steps (chk_list-Steps body _)
  chk-Steps (node_lambda i params ret_type body) s =
      pop-Steps (trans-Steps (def_lambda_params-Steps params _) (chk-Steps body _))
  chk-Steps (node_defer i expr) s = chk-Steps expr _
  chk-Steps (node_try i expr) s = chk-Steps expr _
  chk-Steps (node_unsafe_block i body) s = chk-Steps body _
  chk-Steps _ s = refl-Steps

  pub chk_list-Steps : (ns : AstList) (s : Sema) → Steps s (chk_list ns s)
  chk_list-Steps nil s = refl-Steps
  chk_list-Steps (cons n ns) s = trans-Steps (chk-Steps n _) (chk_list-Steps ns _)

  pub chk_fields-Steps : (ns : AstList) (s : Sema) → Steps s (chk_fields ns s)
  chk_fields-Steps nil s = refl-Steps
  chk_fields-Steps (cons (node_assign i left right) ns) s =
      trans-Steps (chk-Steps right _) (chk_fields-Steps ns _)
  chk_fields-Steps (cons n ns) s = trans-Steps (chk-Steps n _) (chk_fields-Steps ns _)

predef_decl-Steps : (n : AstNode) (s : Sema) → Steps s (predef_decl n s)
unfolding predef_decl
predef_decl-Steps (node_fn_decl i h params body) s = def_opt-Steps _ _ _ s
predef_decl-Steps (node_enum_decl i name variants) s =
    trans-Steps (sc_def-Steps name _ _ s) (def_variants-Steps variants _)
predef_decl-Steps (node_class_decl i name privates publics) s = sc_def-Steps name _ _ s
predef_decl-Steps (node_var_decl i v init) s = def_opt-Steps _ _ _ s
predef_decl-Steps (node_comptime_let i name init) s = def_opt-Steps _ _ _ s
predef_decl-Steps _ s = refl-Steps

pub predef_list-Steps : (ns : AstList) (s : Sema) → Steps s (predef_list ns s)
unfolding predef_list
predef_list-Steps nil s = refl-Steps
predef_list-Steps (cons n ns) s = trans-Steps (predef_decl-Steps n s) (predef_list-Steps ns _)

-- Checking a program leaves as many scopes open as there were and does not touch the outer ones; and
-- where the flag told whether there are diagnostics, it does so afterwards.
pub sema_check-Steps : (prog : AstNode) (s : Sema) → Steps s (sema_check prog s)
unfolding sema_check predef_fn
sema_check-Steps prog s = trans-Steps (predef_list-Steps (decls_of prog) s) (chk-Steps prog _)
