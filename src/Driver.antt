-- ===== src/Driver.antt =====
-- src/main.c, `main`: the phases in front of the generator, and where each of them stops. The
-- phases behind the type checker get the tree with the kinds that it writes.
pub mod Accepts
use fermi.Base.{ℕ, List, Option, none, some, if◌then◌else◌}
use fermi.Base.Text.{Bytes}
use fermi.Arena.{Arena}
use fermi.Ast.{AstNode}
use fermi.Parser.{Parser, ParseDiag, parser_new}
use fermi.Parser.Types.{Strtoll}
use fermi.Parser.Program.{parse_program}
use fermi.Hir.{Hir, hir_new, hir_lower}
use fermi.Tc.{TypeDiag, tc_new}
use fermi.Tc.Stmt.{tc_check}
use fermi.Tc.Tree.{tc_tree}
use fermi.Sema.{Diag, sema_new}
use fermi.Sema.Check.{sema_check}

-- The phase that stops with what it has written, or the flags and the tree for the generator.
pub data Outcome : Type 0 where
  syntax_errors : List ParseDiag → Outcome
  type_errors : List TypeDiag → Outcome
  scope_errors : List Diag → Outcome
  accepted : Hir → AstNode → Outcome

-- Behind the parser.
unfoldable pub analyse : Parser → AstNode → Outcome
analyse p prog =
    let hir = hir_lower hir_new prog in
    let tc = tc_check prog tc_new in
    let typed = tc_tree prog tc_new in
    let sema = sema_check typed sema_new in
    if p.had_error
    then syntax_errors p.diags
    else if tc.had_error
    then type_errors tc.diags
    else if sema.had_error
    then scope_errors sema.diags
    else accepted hir typed

unfoldable pub front_end : Strtoll → Bytes → ℕ → Arena → Option Outcome
unfolding analyse
front_end strtoll src src_len arena = elim (parse_program strtoll (parser_new src src_len arena)) [
  | none ↦ none
  | some r ↦ some (analyse r.1 r.0)
]
