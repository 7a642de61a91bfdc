-- ===== src/Tests/Analysis.antt =====
-- The analyses on short programs.
use fermi.Base.{◌↔◌, ℕ, ◌≡◌, refl, true, false, none, some, [], length}
use fermi.Base.Int.{pos}
use fermi.Base.Text.{Bytes, codes, str_eq}
use fermi.Ast.{
  NodeInfo, AstNode, AstList, ty_unknown, no_type, node_program, node_import, node_fn_decl,
  node_var_decl, node_block, node_expr_stmt, node_assign, node_binary, node_ident, node_int_lit,
  node_double_lit, nil, cons,
}
use fermi.Sema.{sema_new, find_scope, find_entry, sc_pop, sc_lookup, sc_def, sc_push, serr}
use fermi.Sema.Check.{
  chk, check_ident, check_target, def_params, sema_check, predef_fn, predef_list, predef_decl,
}
use fermi.Sema.Env.{scan_program}
use fermi.Sema.Stack.{Steps, sema_check-Steps}
use fermi.Sema.Scoping.{sema_check-Agrees}
use fermi.Sema.Agree.{Agrees}
use fermi.Tc.{tc_new}
use fermi.Tc.Infer.{infer}
use fermi.Tc.Kinds.{names, kind_of, is_ill_typed}
use fermi.Tc.Typing.{infer_lem}
use fermi.Tc.Checked.{Inferred}
use fermi.Tc.Stmt.{tc_check}
use fermi.Tc.Tree.{tc_tree}
use fermi.Tc.Judge.{judge_program}
use fermi.Tc.Verdicts.{tc_check-Fits}
use fermi.Tc.Fit.{Fits}
use fermi.Driver.{accepted, analyse}
use fermi.Driver.Accepts.{verdict_new, lexical_new, new-Fits, new-Agrees, analyse-accepted_iff}
use fermi.Parser.{Parser, parser_new}
use fermi.Hir.{hir_new, hir_lower}
use fermi.Hir.Imports.{hir_lower-Noted}
use fermi.Hir.Noted.{Noted}
use fermi.Hir.Paths.{imports}

abbrev at_line : ℕ → NodeInfo
at_line n = record { line = n; col = 1; ty = ty_unknown; ty_name = none }

abbrev ident : ℕ → Bytes → AstNode
ident n name = node_ident (at_line n) name

abbrev let_var : ℕ → Bytes → AstNode → AstNode
let_var n name init =
    node_var_decl (at_line n)
      (record {
        name = some name;
        type = no_type;
        is_mut = false;
        is_const = false;
        is_exported = false;
      })
      init

abbrev fn_decl : Bytes → AstList → AstNode
fn_decl name stmts =
    node_fn_decl (at_line 1)
      (record {
        name = some name;
        ret_type = no_type;
        is_unit = true;
        is_extern = false;
        is_exported = false;
        is_unit_decl = false;
      })
      nil (node_block (at_line 1) stmts)

-- `let x = 1.5; x = y; x & x;`, after `import std.io;`.
abbrev body : AstList
body = cons (let_var 2 (codes "x") (node_double_lit (at_line 2) (codes "1.5"))) (
    cons
      (node_expr_stmt (at_line 3)
        (node_assign (at_line 3) (ident 3 (codes "x")) (ident 3 (codes "y"))))
      (cons
        (node_expr_stmt (at_line 4)
          (node_binary (at_line 4) (codes "&") (ident 4 (codes "x")) (ident 4 (codes "x"))))
        nil))

abbrev program : AstNode
program =
    node_program (at_line 1)
      (cons (node_import (at_line 1) (some (codes "std.io")) true)
        (cons (fn_decl (codes "main") body) nil))
      false

-- An unknown name and an assignment to a name that is read-only.
two_errors : length (sema_check program sema_new).diags ≡ 2
unfolding sema_check predef_fn predef_list predef_decl chk check_ident check_target sema_new str_eq
    find_scope find_entry sc_pop sc_lookup sc_def sc_push def_params serr
two_errors = refl

sema_check-Agrees_example : Agrees (sema_check program sema_new) (scan_program program lexical_new)
sema_check-Agrees_example = sema_check-Agrees program sema_new lexical_new new-Agrees

sema_check-Steps_example : Steps sema_new (sema_check program sema_new)
sema_check-Steps_example = sema_check-Steps program sema_new

abbrev shift : AstNode
shift =
    node_binary (at_line 1) (codes "<<") (node_int_lit (at_line 1) (pos 1)) (ident 1 (codes "Ok"))

infer_lem_example :
    Inferred tc_new.scopes tc_new.had_error
      (is_ill_typed shift (names tc_new.scopes))
      (kind_of shift (names tc_new.scopes))
      (infer shift tc_new)
infer_lem_example = infer_lem shift tc_new

tc_check-Fits_example : Fits [] (tc_check program tc_new) (judge_program program verdict_new)
tc_check-Fits_example = tc_check-Fits program [] tc_new verdict_new new-Fits

hir_lower-Noted_example : Noted (imports program) hir_new (hir_lower hir_new program)
hir_lower-Noted_example = hir_lower-Noted hir_new program

abbrev parser_at_end : Parser
parser_at_end = parser_new [] 0 (record { chunks = []; block_size = 64 })

analyse-accepted_iff_example :
    (analyse parser_at_end program ≡ accepted (hir_lower hir_new program) (tc_tree program tc_new))
    ↔ ((parser_at_end.had_error ≡ false)
        × ((judge_program program verdict_new).bad ≡ false)
        × ((scan_program program lexical_new).had_error ≡ false))
analyse-accepted_iff_example = analyse-accepted_iff parser_at_end program
