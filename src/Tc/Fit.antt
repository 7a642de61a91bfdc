-- ===== src/Tc/Fit.antt =====
-- When a state of the type checker fits a verdict, and that its steps keep it so.
use fermi.Base.{
  ◌≡◌, ◌∙◌, refl, sym, ap, Bool, true, false, List, [], ◌∷◌, Option, none, some, if◌then◌else◌,
  fun_ext,
}
use fermi.Base.Text.{Bytes, str_eq}
use fermi.Ast.{TypeKind, VarHead, AstNode, AstList, no_node, node_var_decl, nil, cons}
use fermi.Tc.{
  TcEntry, Tc, sc_push, sc_pop, sc_def, find_entry, find_scope, outer_scopes, add_entry, type_name,
}
use fermi.Tc.Infer.{infer}
use fermi.Tc.Kinds.{Scopes, Env, kind_in, names, kind_of}
use fermi.Tc.Typing.{infer_lem}
use fermi.Tc.Stmt.{kind_or, def_named, check_var, def_params}
use fermi.Tc.Judge.{Verdict, judge_expr, bind, bind_named, scoped, judge_var, bind_params}

-- A state over the outer scopes `out`: its names mean what the environment says, and its flag is the
-- verdict.
pub record Fits (out : Scopes) (t : Tc) (r : Verdict) : Type 0 where
  pub inner : List TcEntry
  pub scopes_are : t.scopes ≡ inner ∷ out
  pub names_are : names t.scopes ≡ r.env
  pub flag_is : t.had_error ≡ r.bad

pub expr-Fits :
    (n : AstNode) {out : Scopes} {t : Tc} {r : Verdict}
    → Fits out t r
    → Fits out ((infer n t).1) (judge_expr n r)
unfolding judge_expr
expr-Fits n {t = t} g =
    let c = (infer_lem n t).state in
    record {
      inner = g.inner;
      scopes_are = c.scopes_are ∙ g.scopes_are;
      names_are = ap names c.scopes_are ∙ g.names_are;
      flag_is = c.flag_is ∙ rw (g.names_are, g.flag_is);
    }

names-bind :
    (e : TcEntry) (inner : List TcEntry) (out : Scopes) (env : Env)
    → names (inner ∷ out) ≡ env
    → (q : Bytes) → names ((e ∷ inner) ∷ out) q ≡ (if str_eq e.name q then some e.ty else env q)
unfolding find_scope find_entry
names-bind e inner out env h q =
    elim (str_eq e.name q)
      as (λ b.
        kind_in (elim (if b then some e else find_entry q inner) [
          | some d ↦ some d
          | none ↦ find_scope q out
        ])
        ≡ (if b then some e.ty else env q)) [ true ↦ refl | false ↦ ap (λ f. f q) h ]

pub sc_def-Fits :
    (name : Bytes) (k : TypeKind) (ty_name : Option Bytes) {out : Scopes} {t : Tc} {r : Verdict}
    → Fits out t r
    → Fits out (sc_def name k ty_name t) (bind name k r)
unfolding sc_def bind
sc_def-Fits name k ty_name g =
    let e : TcEntry = record { name = name; ty = k; ty_name = ty_name } in
    record {
      inner = e ∷ g.inner;
      scopes_are = ap (add_entry e) g.scopes_are;
      names_are =
          ap (λ scs. names (add_entry e scs)) g.scopes_are
          ∙ fun_ext (names-bind e g.inner _ _ (ap names (sym g.scopes_are) ∙ g.names_are));
      flag_is = g.flag_is;
    }

pub def_named-Fits :
    (name : Option Bytes) (k : TypeKind) (ty_name : Option Bytes) {out : Scopes} {t : Tc}
    {r : Verdict}
    → Fits out t r
    → Fits out (def_named name k ty_name t) (bind_named name k r)
def_named-Fits none k ty_name g = g
def_named-Fits (some name) k ty_name g = sc_def-Fits name k ty_name g

pub push-Fits :
    {out : Scopes} {t : Tc} {r : Verdict} → (g : Fits out t r) → Fits (g.inner ∷ out) (sc_push t) r
unfolding sc_push find_scope find_entry
push-Fits g = record {
  inner = [];
  scopes_are = ap (λ scs. [] ∷ scs) g.scopes_are;
  names_are = g.names_are;
  flag_is = g.flag_is;
}

pub pop-Fits :
    {out : Scopes} {t u : Tc} {r r' : Verdict}
    → (g : Fits out t r) → Fits (g.inner ∷ out) u r'
    → Fits out (sc_pop u) (scoped r r')
unfolding sc_pop scoped
pop-Fits g h = record {
  inner = g.inner;
  scopes_are = ap outer_scopes h.scopes_are;
  names_are =
      ap (λ scs. names (outer_scopes scs)) h.scopes_are ∙ ap names (sym g.scopes_are) ∙ g.names_are;
  flag_is = h.flag_is;
}

initialized-Fits :
    (v : VarHead) (init : AstNode) {out : Scopes} {t : Tc} {r : Verdict}
    → Fits out t r
    → Fits out
        (def_named v.name (kind_or v.type (infer init t).0) (type_name v.type) (infer init t).1)
        (bind_named v.name (kind_or v.type (kind_of init r.env)) (judge_expr init r))
initialized-Fits v init {t = t} {r} g =
    let e : (infer init t).0 ≡ kind_of init r.env =
      (infer_lem init t).kind_is ∙ ap (kind_of init) g.names_are in
    rw e (def_named-Fits v.name _ (type_name v.type) (expr-Fits init g))

pub if-Fits :
    (b : Bool) {out : Scopes} {t u : Tc} {r s : Verdict}
    → Fits out t r
    → Fits out u s
    → Fits out (if b then u else t) (if b then s else r)
if-Fits true g h = h
if-Fits false g h = g

pub check_var-Fits :
    (v : VarHead) (init : AstNode) {out : Scopes} {t : Tc} {r : Verdict}
    → Fits out t r
    → Fits out (check_var v init t) (judge_var v init r)
unfolding check_var judge_var
check_var-Fits v no_node g = def_named-Fits _ _ _ g
check_var-Fits v init g = initialized-Fits v init g

pub def_params-Fits :
    (ps : AstList) {out : Scopes} {t : Tc} {r : Verdict}
    → Fits out t r
    → Fits out (def_params ps t) (bind_params ps r)
unfolding def_params bind_params
def_params-Fits nil g = g
def_params-Fits (cons (node_var_decl i v init) ps) g =
    def_params-Fits ps (def_named-Fits v.name _ (type_name v.type) g)
def_params-Fits (cons p ps) g = def_params-Fits ps g
