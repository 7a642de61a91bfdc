-- ===== src/Sema/Agree.antt =====
-- When a state of the analysis stands for a state of lexical scoping, and that the steps keep it so.
use fermi.Base.{
  ◌<◌, ◌≡◌, ◌∙◌, refl, ap, arith, Bool, true, false, List, [], ◌∷◌, Option, none, some,
  if◌then◌else◌, length,
}
use fermi.Base.Text.{Bytes, str_eq}
use fermi.Ast.{NodeInfo, AstNode, AstList, node_ident, nil, cons}
use fermi.Sema.{
  Sema, serr, sc_push, sc_pop, sc_def, sc_lookup, find_scope, find_entry, forbids, is_unknown,
  add_entry, SymE,
}
use fermi.Sema.Check.{
  def_opt, check_target, check_ident, def_params, def_lambda_params, def_variants, def_methods,
}
use fermi.Sema.Env.{
  Lexical, complain, bind, bind_opt, scoped, judge_target, judge_ident, bind_params,
  bind_lambda_params, bind_variants, bind_methods,
}
use fermi.Sema.Stack.{Steps, sc_def-Steps}

-- A state with an open scope, and the specification's state that it stands for.
pub record Agrees (s : Sema) (r : Lexical) : Type 0 where
  pub names : (q : Bytes) → find_scope q s.scopes ≡ r.env q
  pub same_flag : s.had_error ≡ r.had_error
  pub same_diags : s.diags ≡ r.diags
  pub opened : 0 < length s.scopes

pub push-Agrees : {s : Sema} {r : Lexical} → Agrees s r → Agrees (sc_push s) r
unfolding sc_push find_scope find_entry
push-Agrees g = record {
  names = g.names;
  same_flag = g.same_flag;
  same_diags = g.same_diags;
  opened = omega arith;
}

pub pop-Agrees :
    {s t : Sema} {r r' : Lexical}
    → Agrees s r
    → Steps (sc_push s) t
    → Agrees t r'
    → Agrees (sc_pop t) (scoped r r')
unfolding sc_push sc_pop scoped
pop-Agrees g p h = record {
  names = λ q. ap (find_scope q) p.outer ∙ g.names q;
  same_flag = h.same_flag;
  same_diags = h.same_diags;
  opened = omega (arith, ap length p.outer, g.opened);
}

find_scope-add_entry :
    (q : Bytes) (e : SymE) (scs : List (List SymE))
    → 0 < length scs
    → find_scope q (add_entry e scs) ≡ (if str_eq e.name q then some e else find_scope q scs)
unfolding find_scope find_entry
find_scope-add_entry q e [] h = absurd (omega arith)
find_scope-add_entry q e (sc ∷ scs) h = ground arith

pub sc_def-Agrees :
    (name : Bytes) (m c : Bool) {s : Sema} {r : Lexical}
    → Agrees s r
    → Agrees (sc_def name m c s) (bind name m c r)
unfolding sc_def bind
sc_def-Agrees name m c {s} {r} g = record {
  names = λ q.
      find_scope-add_entry q _ s.scopes g.opened
      ∙ ap
          (λ o.
            if str_eq name q then some (record { name = name; is_mut = m; is_const = c }) else o)
          (g.names q);
  same_flag = g.same_flag;
  same_diags = g.same_diags;
  opened = omega (arith, (sc_def-Steps name m c s).depth, g.opened);
}

pub def_opt-Agrees :
    (name : Option Bytes) (m c : Bool) {s : Sema} {r : Lexical}
    → Agrees s r
    → Agrees (def_opt name m c s) (bind_opt name m c r)
def_opt-Agrees none m c g = g
def_opt-Agrees (some name) m c g = sc_def-Agrees name m c g

serr-Agrees :
    (i : NodeInfo) (code msg : Bytes) {s : Sema} {r : Lexical}
    → Agrees s r
    → Agrees (serr i code msg s) (complain i code msg r)
unfolding serr complain
serr-Agrees i code msg g = record {
  names = g.names;
  same_flag = refl;
  same_diags =
      ap (λ ds. record { line = i.line; col = i.col; code = code; msg = msg } ∷ ds) g.same_diags;
  opened = g.opened;
}

if-Agrees :
    (b : Bool) {c : Bool} {s t : Sema} {r u : Lexical}
    → b ≡ c
    → Agrees s r
    → Agrees t u
    → Agrees (if b then t else s) (if c then u else r)
if-Agrees true e g h = rw (← e) h
if-Agrees false e g h = rw (← e) g

pub check_target-Agrees :
    (i : NodeInfo) (n : AstNode) {s : Sema} {r : Lexical}
    → Agrees s r
    → Agrees (check_target i n s) (judge_target i n r)
unfolding check_target judge_target sc_lookup
check_target-Agrees i (node_ident j name) g =
    if-Agrees _ (ap forbids (g.names name)) g (serr-Agrees i _ _ g)
check_target-Agrees i _ g = g

pub check_ident-Agrees :
    (i : NodeInfo) (name : Bytes) {s : Sema} {r : Lexical}
    → Agrees s r
    → Agrees (check_ident i name s) (judge_ident i name r)
unfolding check_ident judge_ident sc_lookup
check_ident-Agrees i name g =
    if-Agrees _ (ap (is_unknown name) (g.names name)) g (serr-Agrees i _ _ g)

pub def_params-Agrees :
    (ps : AstList) {s : Sema} {r : Lexical}
    → Agrees s r
    → Agrees (def_params ps s) (bind_params ps r)
unfolding def_params bind_params
def_params-Agrees nil g = g
def_params-Agrees (cons p ps) g = def_params-Agrees ps (def_opt-Agrees _ _ _ g)

pub def_lambda_params-Agrees :
    (ps : AstList) {s : Sema} {r : Lexical}
    → Agrees s r
    → Agrees (def_lambda_params ps s) (bind_lambda_params ps r)
unfolding def_lambda_params bind_lambda_params
def_lambda_params-Agrees nil g = g
def_lambda_params-Agrees (cons p ps) g = def_lambda_params-Agrees ps (def_opt-Agrees _ _ _ g)

pub def_variants-Agrees :
    (vs : AstList) {s : Sema} {r : Lexical}
    → Agrees s r
    → Agrees (def_variants vs s) (bind_variants vs r)
unfolding def_variants bind_variants
def_variants-Agrees nil g = g
def_variants-Agrees (cons v vs) g = def_variants-Agrees vs (def_opt-Agrees _ _ _ g)

pub def_methods-Agrees :
    (ms : AstList) {s : Sema} {r : Lexical}
    → Agrees s r
    → Agrees (def_methods ms s) (bind_methods ms r)
unfolding def_methods bind_methods
def_methods-Agrees nil g = g
def_methods-Agrees (cons m ms) g = def_methods-Agrees ms (def_opt-Agrees _ _ _ g)
