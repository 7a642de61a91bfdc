-- ===== src/Tc/Typing.antt =====
-- `infer` against its specification.
use fermi.Base.{◌≡◌, refl, ap}
use fermi.Ast.{
  AstNode, AstList, node_assign, node_compound_assign, node_binary, node_unary, node_call,
  node_index, node_field, node_cast, node_ident, node_int_lit, node_float_lit, node_double_lit,
  node_long_lit, node_bool_lit, node_char_lit, node_string_lit, node_struct_init, node_array_lit,
  node_ref, node_deref, node_this, node_interp_str, node_try, nil, cons,
}
use fermi.Tc.{Tc, find_scope, sc_lookup}
use fermi.Tc.Infer.{infer_ident, infer, infer_list}
use fermi.Tc.Kinds.{Scopes, names, kind_of, is_ill_typed, is_ill_typed_list}
use fermi.Tc.Checked.{
  Checked, Inferred, start, thence, typed-Inferred, unary-Inferred, ident_case, call_case, after,
  again, operands-Inferred,
}

mutual
  unfolding infer infer_ident sc_lookup kind_of is_ill_typed

  infer-Inferred :
      {scs : Scopes} (n : AstNode) (t : Tc)
      → t.scopes ≡ scs
      → Inferred scs t.had_error (is_ill_typed n (names scs)) (kind_of n (names scs)) (infer n t)
  infer-Inferred (node_int_lit i v) t e = typed-Inferred i _ (start t e)
  infer-Inferred (node_long_lit i v) t e = typed-Inferred i _ (start t e)
  infer-Inferred (node_float_lit i v) t e = typed-Inferred i _ (start t e)
  infer-Inferred (node_double_lit i v) t e = typed-Inferred i _ (start t e)
  infer-Inferred (node_bool_lit i v) t e = typed-Inferred i _ (start t e)
  infer-Inferred (node_char_lit i v) t e = typed-Inferred i _ (start t e)
  infer-Inferred (node_string_lit i v) t e = typed-Inferred i _ (start t e)
  infer-Inferred (node_interp_str i parts) t e = typed-Inferred i _ (start t e)
  infer-Inferred (node_this i) t e = typed-Inferred i _ (start t e)
  infer-Inferred (node_ident i name) t e =
      ident_case i (sc_lookup name t) (ap (find_scope name) e) (start t e)
  infer-Inferred (node_unary i op operand prefix) t e =
      let r = infer-Inferred operand t e in
      after r.state (rw r.kind_is (unary-Inferred i op _ _ r.state.scopes_are))
  infer-Inferred (node_binary i op left right) t e =
      let l = infer-Inferred left t e in
      operands-Inferred i op l (infer-Inferred right _ l.state.scopes_are)
  infer-Inferred (node_call i (node_ident j name) args) t e =
      let c = infer_list-Checked args t e in
      call_case i (sc_lookup name t) (ap (find_scope name) e) c
        (again c (infer_list-Checked args _ c.scopes_are))
  infer-Inferred (node_call i callee args) t e = typed-Inferred i _ (infer_list-Checked args t e)
  infer-Inferred (node_cast i expr type) t e = typed-Inferred i _ (infer-Inferred expr t e).state
  infer-Inferred (node_field i obj field) t e = typed-Inferred i _ (infer-Inferred obj t e).state
  infer-Inferred (node_index i obj idx) t e =
      let c = (infer-Inferred obj t e).state in
      typed-Inferred i _ (thence c (infer-Inferred idx _ c.scopes_are).state)
  infer-Inferred (node_ref i expr) t e = typed-Inferred i _ (infer-Inferred expr t e).state
  infer-Inferred (node_deref i expr) t e = typed-Inferred i _ (infer-Inferred expr t e).state
  infer-Inferred (node_assign i left right) t e =
      let r = infer-Inferred right t e in
      rw r.kind_is
        (typed-Inferred i _ (thence r.state (infer-Inferred left _ r.state.scopes_are).state))
  infer-Inferred (node_compound_assign i op left right) t e =
      let c = (infer-Inferred left t e).state in
      typed-Inferred i _ (thence c (infer-Inferred right _ c.scopes_are).state)
  infer-Inferred (node_struct_init i type_name fields) t e = typed-Inferred i _ (start t e)
  infer-Inferred (node_array_lit i elems) t e = typed-Inferred i _ (start t e)
  infer-Inferred (node_try i expr) t e = typed-Inferred i _ (infer-Inferred expr t e).state
  infer-Inferred _ t e = record { kind_is = refl; state = start t e }

  infer_list-Checked :
      {scs : Scopes} (ns : AstList) (t : Tc)
      → t.scopes ≡ scs
      → Checked scs t.had_error (is_ill_typed_list ns (names scs)) (infer_list ns t)
  infer_list-Checked nil t e = start t e
  infer_list-Checked (cons n ns) t e =
      let c = (infer-Inferred n t e).state in thence c (infer_list-Checked ns _ c.scopes_are)

-- In any state, `infer` gives an expression the kind that the specification computes from what the
-- names mean, leaves the scopes as they were, and sets the flag exactly where it was set or the
-- specification finds a bitwise operator on an operand that is not integral.
pub infer_lem :
    (n : AstNode) (t : Tc)
    → Inferred t.scopes t.had_error
        (is_ill_typed n (names t.scopes))
        (kind_of n (names t.scopes))
        (infer n t)
infer_lem n t = infer-Inferred n t refl
