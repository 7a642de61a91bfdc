-- ===== src/Tests/Generating.antt =====
-- The generator on short programs.
use fermi.Base.{arith, ◌≡◌, ◌≢◌, refl, true, false, List, [], ◌∷◌, Option, none, some, get_elem?}
use fermi.Base.Text.{codes, str_eq}
use fermi.Base.Int.{pos}
use fermi.Ast.{
  NodeInfo, AstNode, AstList, ty_unknown, no_type, no_node, node_program, node_fn_decl, node_block,
  node_return, node_while, node_int_lit, node_bool_lit, node_break, nil, cons,
}
use fermi.Fir.{FirFn, FirBlock}
use fermi.Codegen.{
  Codegen, codegen_new, fns, ◌>>=◌, ◌>>◌, reads, modify, newtmp, newlbl, on_blocks, new_block,
  add_instr, emit_instr, emit_br, emit_br_cond, ends_term, last_ends, last_instr_is_term,
}
use fermi.Codegen.Values.{FloatTexts}
use fermi.Codegen.Expr.{emitter, generate, emit_expr_with}
use fermi.Codegen.Blocks.{
  the_name, if_open, br_if_open, emit_jump, emit_icmp, in_scope, emit_cond, emit_return, emit_stmts,
  emit_block, emit_break,
}
use fermi.Codegen.Decls.{
  collect_decl, collect_decls, close_fn, emit_body, emit_fn, emit_fn_decl, emit_decl, emit_decls,
}
use fermi.Codegen.Defers.{defers_from, emit_defers, emit_ret, emit_ret_with_defers}
use fermi.Codegen.Fns.{
  type_or, params_of, fn_params, ret_type_for, new_fn, in_fn, bind_params, emit_default_ret,
}
use fermi.Codegen.Loops.{in_loop, emit_test, emit_while}
use fermi.Codegen.Nodes.{node_info}
use fermi.Codegen.Scope.{scope_push, scope_pop}
use fermi.Codegen.Stmt.{emit_stmt_with}
use fermi.Codegen.Types.{typekind_to_llvm, ast_type_str, is_type, coerce_to}
use fermi.Codegen.Grows.{all_end, are_sealed, blocks_now, blocks_of, context}
use fermi.Codegen.Grows.Program.{generate-all_end}
use fermi.Codegen.Grows.Statements.{emit_stmt-context, emit_stmt-are_sealed}
use fermi.Codegen.Defects.{stmt-deferred_return}

abbrev texts : FloatTexts
texts = record { print_float = λ t. t; print_double = λ t. t }

abbrev info : NodeInfo
info = record { line = 1; col = 1; ty = ty_unknown; ty_name = none }

-- `while (true) { break; } return 0;`
abbrev stmts : AstList
stmts =
    cons
      (node_while info false (node_bool_lit info true)
        (node_block info (cons (node_break info) nil)))
      (cons (node_return info (node_int_lit info (pos 0))) nil)

abbrev program : AstNode
program =
    node_program info
      (cons
        (node_fn_decl info
          (record {
            name = some (codes "main");
            ret_type = no_type;
            is_unit = false;
            is_extern = false;
            is_exported = false;
            is_unit_decl = false;
          })
          nil (node_block info stmts))
        nil)
      false

abbrev result_of : Option Codegen → Codegen
result_of none = codegen_new none
result_of (some d) = d

abbrev generated : Codegen
generated = result_of (generate texts 9 program (codegen_new none))

generated_lem : generate texts 9 program (codegen_new none) ≡ some generated
unfolding codegen_new ◌>>=◌ ◌>>◌ reads modify newtmp newlbl on_blocks new_block add_instr emit_instr
    emit_br emit_br_cond ends_term last_ends last_instr_is_term the_name if_open br_if_open
    emit_jump emit_icmp in_scope emit_cond emit_return emit_stmts emit_block emit_break collect_decl
    collect_decls close_fn emit_body emit_fn emit_fn_decl emit_decl emit_decls defers_from
    emit_defers emit_ret emit_ret_with_defers emit_expr_with emitter generate type_or params_of
    fn_params ret_type_for new_fn in_fn bind_params emit_default_ret in_loop emit_test emit_while
    node_info scope_push scope_pop emit_stmt_with typekind_to_llvm ast_type_str is_type coerce_to
    str_eq
generated_lem = refl

abbrev fn_of : List FirBlock → FirFn
fn_of blocks = record {
  name = codes "f";
  ret_type = none;
  params = [];
  blocks = blocks;
  is_extern = false;
  is_vararg = false;
}

abbrev fn_or : Option FirFn → FirFn
fn_or none = fn_of []
fn_or (some f) = f

abbrev main_fn : FirFn
main_fn = fn_or (get_elem? (fns generated) 0)

main_lem : get_elem? (fns generated) 0 ≡ some main_fn
unfolding codegen_new ◌>>=◌ ◌>>◌ reads modify newtmp newlbl on_blocks new_block add_instr emit_instr
    emit_br emit_br_cond ends_term last_ends last_instr_is_term the_name if_open br_if_open
    emit_jump emit_icmp in_scope emit_cond emit_return emit_stmts emit_block emit_break collect_decl
    collect_decls close_fn emit_body emit_fn emit_fn_decl emit_decl emit_decls defers_from
    emit_defers emit_ret emit_ret_with_defers emit_expr_with emitter generate type_or params_of
    fn_params ret_type_for new_fn in_fn bind_params emit_default_ret in_loop emit_test emit_while
    node_info scope_push scope_pop emit_stmt_with typekind_to_llvm ast_type_str is_type coerce_to
    str_eq
main_lem = refl

generate-all_end_example : all_end main_fn.blocks ≡ true
generate-all_end_example =
    generate-all_end texts 9 none program generated 0 main_fn generated_lem main_lem

abbrev entry_block : FirBlock
entry_block = record { label = codes "entry"; instrs = []; dead = false }

-- Within a loop of the second of two functions.
abbrev inside : Codegen
inside = record (codegen_new none) {
  mod_ = record { fns = fn_of [] ∷ fn_of (entry_block ∷ []) ∷ []; struct_decls = []; globals = [] };
  cur_fn = some 1;
  break_label = some (codes "we");
}

abbrev left_by : Option (AstNode × Codegen) → AstNode × Codegen
left_by none = (no_node, inside)
left_by (some r) = r

abbrev left : AstNode × Codegen
left = left_by ((emitter texts 1).stmt (node_break info) inside)

left_lem : (emitter texts 1).stmt (node_break info) inside ≡ some (left.0, left.1)
unfolding codegen_new emitter emit_stmt_with emit_break emit_defers defers_from reads emit_jump
    emit_br emit_instr add_instr on_blocks newlbl new_block ◌>>=◌ ◌>>◌
left_lem = refl

is_other : inside.cur_fn ≢ some 0
is_other e = absurd cc

sealed_lem : are_sealed (blocks_now inside) ≡ true
unfolding are_sealed blocks_of
sealed_lem = refl

emit_stmt-context_example : context left.1 ≡ context inside
emit_stmt-context_example =
    emit_stmt-context texts 1 (node_break info) left.0 inside left.1 left_lem

emit_stmt-are_sealed_example :
    (get_elem? (fns left.1) 0 ≡ get_elem? (fns inside) 0) × (are_sealed (blocks_now left.1) ≡ true)
emit_stmt-are_sealed_example =
    emit_stmt-are_sealed texts 1 (node_break info) left.0 inside left.1 0 left_lem (omega arith)
      is_other sealed_lem

abbrev deferring : Codegen
deferring = record inside { defer_stack = node_return info no_node ∷ [] }

stmt-deferred_return_example : (emitter texts 3).stmt (node_return info no_node) deferring ≡ none
unfolding codegen_new
stmt-deferred_return_example = stmt-deferred_return texts info 3 deferring [] refl (omega arith)
