-- ===== src/Driver/Accepts.antt =====
-- What the phases in front of the generator accept, by the specifications of the phases.
use fermi.Base.{◌≡◌, ◌↔◌, ap, ◌∙◌, refl, arith, false, []}
use fermi.Ast.{AstNode}
use fermi.Parser.{Parser}
use fermi.Hir.{hir_new, hir_lower}
use fermi.Tc.{tc_new}
use fermi.Tc.Kinds.{names}
use fermi.Tc.Judge.{Verdict, judge_program}
use fermi.Tc.Verdicts.{tc_check-Fits}
use fermi.Tc.Fit.{Fits}
use fermi.Tc.Stmt.{tc_check}
use fermi.Tc.Tree.{tc_tree}
use fermi.Tc.Unseen.{sema_check-tc_tree}
use fermi.Sema.{Sema, sema_new, find_scope}
use fermi.Sema.Env.{Lexical, scan_program}
use fermi.Sema.Scoping.{sema_check-Agrees}
use fermi.Sema.Agree.{Agrees}
use fermi.Sema.Check.{sema_check}
use fermi.Driver.{accepted, analyse}

-- The specifications start with the built-in names and nothing found.
abbrev pub verdict_new : Verdict
verdict_new = record { env = names tc_new.scopes; bad = false }

abbrev pub lexical_new : Lexical
lexical_new = record { env = λ q. find_scope q sema_new.scopes; had_error = false; diags = [] }

pub new-Fits : Fits [] tc_new verdict_new
unfolding tc_new
new-Fits = record { inner = _; scopes_are = refl; names_are = refl; flag_is = refl }

pub new-Agrees : Agrees sema_new lexical_new
unfolding sema_new
new-Agrees = record { names = λ q. refl; same_flag = refl; same_diags = refl; opened = omega arith }

-- A tree is accepted, with the flags of its lowering and the kinds that the type checker writes into
-- it, exactly where the parser reported no error, the specification of the type checker finds no
-- operator on an operand that does not fit, and lexical scoping finds no unknown name and no
-- assignment to a read-only one.
pub analyse-accepted_iff :
    (p : Parser) (prog : AstNode)
    → (analyse p prog ≡ accepted (hir_lower hir_new prog) (tc_tree prog tc_new)) ↔ (
        (p.had_error ≡ false)
        × ((judge_program prog verdict_new).bad ≡ false)
        × ((scan_program prog lexical_new).had_error ≡ false))
unfolding analyse
analyse-accepted_iff p prog =
    let t : (tc_check prog tc_new).had_error ≡ (judge_program prog verdict_new).bad =
      (tc_check-Fits prog [] tc_new verdict_new new-Fits).flag_is in
    let s : (sema_check (tc_tree prog tc_new) sema_new).had_error
        ≡ (scan_program prog lexical_new).had_error =
      ap (λ (u : Sema). u.had_error) (sema_check-tc_tree prog tc_new sema_new)
      ∙ (sema_check-Agrees prog sema_new lexical_new new-Agrees).same_flag in
    ground arith
