-- ===== src/Tc/Checked.antt =====
-- The states and kinds that the parts of `infer` give.
use fermi.Base.{
  ◌≡◌, ◌∙◌, refl, ap, Bool, true, false, not, ◌&&◌, ◌||◌, Option, none, some, Bool-cases, inl, inr,
}
use fermi.Base.Text.{Bytes, codes, str_eq}
use fermi.Ast.{TypeKind, NodeInfo, ty_bool, ty_unknown}
use fermi.Tc.{TcEntry, Tc, set_ty, terr, is_integral}
use fermi.Tc.Infer.{is_bitwise, is_comparison, typed, require, infer_unary, infer_binary}
use fermi.Tc.Kinds.{kind_in, Scopes, known, unary_kind, binary_kind, is_bad_unary, is_bad_binary}

-- A state after expressions: the scopes are `scs`, and the flag is `flag` or that `bad` is true.
pub record Checked (scs : Scopes) (flag bad : Bool) (t : Tc) : Type 0 where
  pub scopes_are : t.scopes ≡ scs
  pub flag_is : t.had_error ≡ (flag || bad)

-- The same for an expression, with its kind.
pub record Inferred (scs : Scopes) (flag bad : Bool) (k : TypeKind) (o : TypeKind × Tc)
    : Type 0 where
  pub kind_is : o.0 ≡ k
  pub state : Checked scs flag bad o.1

or_assoc : (a b c : Bool) → (a || b || c) ≡ (a || (b || c))
or_assoc true b c = refl
or_assoc false b c = refl

or_false : (a : Bool) → a ≡ (a || false)
or_false true = refl
or_false false = refl

or_same : (a : Bool) → (a || a) ≡ a
or_same true = refl
or_same false = refl

pub start : {scs : Scopes} (t : Tc) → t.scopes ≡ scs → Checked scs t.had_error false t
start t e = record { scopes_are = e; flag_is = or_false t.had_error }

-- One state after another.
pub thence :
    {scs : Scopes} {flag bad bad' : Bool} {t u : Tc}
    → Checked scs flag bad t
    → Checked scs t.had_error bad' u
    → Checked scs flag (bad || bad') u
thence {flag = flag} {bad} {bad'} c d = record {
  scopes_are = d.scopes_are;
  flag_is = d.flag_is ∙ ap (λ b. b || bad') c.flag_is ∙ or_assoc flag bad bad';
}

marked-Inferred :
    {scs : Scopes} {flag bad : Bool} {t : Tc} (i : NodeInfo) (k : TypeKind) (ty_name : Option Bytes)
    → Checked scs flag bad t
    → Inferred scs flag bad k (k, set_ty i k ty_name t)
unfolding set_ty
marked-Inferred i k ty_name c = record {
  kind_is = refl;
  state = record { scopes_are = c.scopes_are; flag_is = c.flag_is };
}

pub typed-Inferred :
    {scs : Scopes} {flag bad : Bool} {t : Tc} (i : NodeInfo) (k : TypeKind)
    → Checked scs flag bad t
    → Inferred scs flag bad k (typed i k t)
unfolding typed
typed-Inferred i k c = marked-Inferred i k none c

require-Checked :
    {scs : Scopes} (ok : Bool) (i : NodeInfo) (msg : Bytes) (t : Tc)
    → t.scopes ≡ scs
    → Checked scs t.had_error (not ok) (require ok i msg t)
unfolding require terr
require-Checked true i msg t e = start t e
require-Checked false i msg t e = record { scopes_are = e; flag_is = or_true t.had_error }
  where
    or_true : (a : Bool) → true ≡ (a || true)
    or_true true = refl
    or_true false = refl

pub unary-Inferred :
    {scs : Scopes} (i : NodeInfo) (op : Bytes) (k : TypeKind) (t : Tc)
    → t.scopes ≡ scs
    → Inferred scs t.had_error (is_bad_unary op k) (unary_kind op k) (infer_unary i op k t)
unfolding infer_unary unary_kind is_bad_unary
unary-Inferred i op k t e = elim (Bool-cases (str_eq op (codes "!"))) [
  | inl a ↦ rw a (typed-Inferred i ty_bool (start t e))
  | inr a ↦ elim (Bool-cases (str_eq op (codes "~"))) [
    | inl b ↦ rw (a, b) (typed-Inferred i k (require-Checked (is_integral k) i _ t e))
    | inr b ↦ rw (a, b) (typed-Inferred i k (start t e))
  ]
]

binary-Inferred :
    {scs : Scopes} (i : NodeInfo) (op : Bytes) (a b : TypeKind) (t : Tc)
    → t.scopes ≡ scs
    → Inferred scs t.had_error (is_bad_binary op a b) (binary_kind op a b) (infer_binary i op a b t)
unfolding infer_binary binary_kind is_bad_binary
binary-Inferred i op a b t e = elim (Bool-cases (is_bitwise op)) [
  | inl p ↦ rw p (typed-Inferred i _ (require-Checked (is_integral a && is_integral b) i _ t e))
  | inr p ↦ elim (Bool-cases (is_comparison op)) [
    | inl q ↦ rw (p, q) (typed-Inferred i ty_bool (start t e))
    | inr q ↦ rw (p, q) (typed-Inferred i _ (start t e))
  ]
]

-- What a name means does not depend on which description of the scopes is read.
as_known : {o o' : Option TcEntry} → o ≡ o' → known (kind_in o) ≡ known (kind_in o')
as_known q = ap (λ x. known (kind_in x)) q

pub ident_case :
    {scs : Scopes} {t : Tc} (i : NodeInfo) (o : Option TcEntry) {o' : Option TcEntry}
    → o ≡ o'
    → Checked scs t.had_error false t
    → Inferred scs t.had_error false
        (known (kind_in o'))
        (elim o [ some e ↦ (e.ty, set_ty i e.ty e.ty_name t) | none ↦ typed i ty_unknown t ])
ident_case i (some d) q c =
    let r = marked-Inferred i d.ty d.ty_name c in
    record { kind_is = r.kind_is ∙ as_known q; state = r.state }
ident_case i none q c =
    let r = typed-Inferred i ty_unknown c in
    record { kind_is = r.kind_is ∙ as_known q; state = r.state }

pub call_case :
    {scs : Scopes} {flag bad : Bool} {u v : Tc} (i : NodeInfo) (o : Option TcEntry)
    {o' : Option TcEntry}
    → o ≡ o'
    → Checked scs flag bad u
    → Checked scs flag bad v
    → Inferred scs flag bad
        (known (kind_in o'))
        (elim o [ some e ↦ typed i e.ty u | none ↦ typed i ty_unknown v ])
call_case i (some d) q c c' =
    let r = typed-Inferred i d.ty c in record { kind_is = r.kind_is ∙ as_known q; state = r.state }
call_case i none q c c' =
    let r = typed-Inferred i ty_unknown c' in
    record { kind_is = r.kind_is ∙ as_known q; state = r.state }

-- What follows a state that is already described.
pub after :
    {scs : Scopes} {flag bad bad' : Bool} {k : TypeKind} {t : Tc} {o : TypeKind × Tc}
    → Checked scs flag bad t
    → Inferred scs t.had_error bad' k o
    → Inferred scs flag (bad || bad') k o
after c d = record { kind_is = d.kind_is; state = thence c d.state }

-- The same expressions a second time.
pub again :
    {scs : Scopes} {flag bad : Bool} {t u : Tc}
    → Checked scs flag bad t
    → Checked scs t.had_error bad u
    → Checked scs flag bad u
again {flag = flag} {bad} c d = rw or_same at (thence c d)

pub operands-Inferred :
    {scs : Scopes} {flag bad bad' : Bool} {a b : TypeKind} {l r : TypeKind × Tc} (i : NodeInfo)
    (op : Bytes)
    → Inferred scs flag bad a l
    → Inferred scs l.1.had_error bad' b r
    → Inferred scs flag
        (bad || (bad' || is_bad_binary op a b))
        (binary_kind op a b)
        (infer_binary i op l.0 r.0 r.1)
operands-Inferred {a = a} {b} {l} {r} i op c d =
    after c.state
      (after d.state (rw (c.kind_is, d.kind_is) (binary-Inferred i op a b r.1 d.state.scopes_are)))
