-- ===== src/Codegen/Grows/Emitter.antt =====
-- The functions that emit expressions and statements, with any fuel.
use fermi.Base.{
  ℕ, zero, suc, refl, ltb, length, [], ◌++◌, Bool, true, false, ◌∷◌, Option, some, if◌then◌else◌,
}
use fermi.Base.Text.{Bytes}
use fermi.Ast.{
  AstNode, no_node, node_var_decl, node_block, node_if, node_while, node_for_c, node_for_in,
  node_match, node_return, node_break, node_continue, node_defer, node_expr_stmt, node_assign,
  node_compound_assign, node_binary, node_unary, node_call, node_index, node_field, node_cast,
  node_ident, node_int_lit, node_float_lit, node_double_lit, node_long_lit, node_bool_lit,
  node_char_lit, node_string_lit, node_struct_init, node_array_lit, node_ref, node_deref,
  node_interp_str, node_region, node_lambda, node_ns_call, node_unsafe_block, node_null,
  node_at_call, node_comptime_let,
}
use fermi.Codegen.{Codegen}
use fermi.Codegen.Comptime.{Constants, comptime_let}
use fermi.Codegen.Defers.{push_defer}
use fermi.Codegen.Stmt.{emit_stmt_with}
use fermi.Codegen.Values.{FloatTexts}
use fermi.Codegen.Expr.{emit_expr_with, emitter}
use fermi.Codegen.Calls.{Emit}
use fermi.Codegen.Grows.{
  blocks_now, Last, Leaves, Emits, refl-Grows, pure-Emits, bind_open, none-Emits,
}
use fermi.Codegen.Grows.Writes.{moved-Grows}
use fermi.Codegen.Grows.Steps.{quiet-Emits}
use fermi.Codegen.Grows.Calls.{Emitting, emit_ns_call-Emits}
use fermi.Codegen.Grows.Blocks.{
  emit_var_decl-Emits, emit_return-Emits, emit_block-Emits, emit_region-Emits, emit_unsafe-Emits,
  emit_break-Emits, emit_continue-Emits,
}
use fermi.Codegen.Grows.Loops.{
  emit_if-Emits, emit_while-Emits, emit_do_while-Emits, emit_for_c-Emits, emit_for_in-Emits,
  emit_match-Emits,
}
use fermi.Codegen.Grows.Values.{emit_ident-Emits, values, emit_unary-Emits}
use fermi.Codegen.Grows.Operators.{emit_binary_expr-Emits, emit_compound-Emits}
use fermi.Codegen.Grows.Objects.{
  emit_field-Emits, emit_index-Emits, emit_ref-Emits, emit_deref-Emits, emit_assign-Emits,
}
use fermi.Codegen.Grows.FnCalls.{emit_call_expr-Emits, emit_at_call-Emits}
use fermi.Codegen.Grows.Aggregates.{
  emit_cast-Emits, emit_struct_init-Emits, emit_array_lit-Emits, emit_interp-Emits,
}
use fermi.Codegen.Grows.Bodies.{emit_lambda-Emits}

push_defer-Emits : {p : Bool} (n : AstNode) → Emits p (push_defer n) p
unfolding push_defer
push_defer-Emits n = quiet-Emits λ c q h. pushed c q h (ltb (length c.defer_stack) 64)
  where
    pushed :
        (c : Codegen) (q : Bool)
        → Last q (blocks_now c)
        → (b : Bool)
        → Leaves q c
            (some (tt, if b then record c { defer_stack = c.defer_stack ++ n ∷ [] } else c))
    pushed c q h true = (moved-Grows c _ refl refl, h)
    pushed c q h false = (refl-Grows c, h)

pub comptime_let-Emits :
    {p : Bool} (name : Option Bytes) (init : AstNode) → Emits p (comptime_let name init) p
unfolding comptime_let
comptime_let-Emits name init = quiet-Emits λ c q h. kept c q h _ (ltb (length c.comptime) 64)
  where
    kept :
        (c : Codegen) (q : Bool)
        → Last q (blocks_now c)
        → (vs : Constants) → (b : Bool)
        → Leaves q c (some (tt, if b then record c { comptime = vs } else c))
    kept c q h vs true = (moved-Grows c _ refl refl, h)
    kept c q h vs false = (refl-Grows c, h)

module _ {emit : Emit} (e : Emitting emit) where
  emit_stmt_with-Emits : (n : AstNode) → Emits false (emit_stmt_with emit n) false
  unfolding emit_stmt_with
  emit_stmt_with-Emits (node_var_decl i v init) = search (values, emit_var_decl-Emits)
  emit_stmt_with-Emits (node_assign i left right) = search values
  emit_stmt_with-Emits (node_compound_assign i op left right) = search values
  emit_stmt_with-Emits (node_expr_stmt i expr) = search values
  emit_stmt_with-Emits (node_return i val) = search (values, emit_return-Emits)
  emit_stmt_with-Emits (node_defer i expr) = search (values, push_defer-Emits)
  emit_stmt_with-Emits (node_if i cond thn els) = emit_if-Emits e i cond thn els
  emit_stmt_with-Emits (node_while i false cond body) = emit_while-Emits e i cond body
  emit_stmt_with-Emits (node_while i true cond body) = emit_do_while-Emits e i cond body
  emit_stmt_with-Emits (node_for_c i init cond step body) = emit_for_c-Emits e i init cond step body
  emit_stmt_with-Emits (node_for_in i var iter body) = emit_for_in-Emits e i var iter body
  emit_stmt_with-Emits (node_match i expr arms) = emit_match-Emits e i expr arms
  emit_stmt_with-Emits (node_break i) = search (values, emit_break-Emits)
  emit_stmt_with-Emits (node_continue i) = search (values, emit_continue-Emits)
  emit_stmt_with-Emits (node_block i stmts) = emit_block-Emits e (node_block i stmts)
  emit_stmt_with-Emits (node_region i body name) = search (values, emit_region-Emits)
  emit_stmt_with-Emits (node_unsafe_block i body) = search (values, emit_unsafe-Emits)
  emit_stmt_with-Emits (node_comptime_let i name init) = search (values, comptime_let-Emits)
  emit_stmt_with-Emits n = pure-Emits

  emit_expr_with-Emits :
      (texts : FloatTexts) (n : AstNode) → Emits false (emit_expr_with texts emit n) false
  unfolding emit_expr_with
  emit_expr_with-Emits texts no_node = pure-Emits
  emit_expr_with-Emits texts (node_int_lit i v) = pure-Emits
  emit_expr_with-Emits texts (node_long_lit i v) = pure-Emits
  emit_expr_with-Emits texts (node_float_lit i v) = pure-Emits
  emit_expr_with-Emits texts (node_double_lit i v) = pure-Emits
  emit_expr_with-Emits texts (node_bool_lit i v) = pure-Emits
  emit_expr_with-Emits texts (node_char_lit i v) = pure-Emits
  emit_expr_with-Emits texts (node_string_lit i s) = search values
  emit_expr_with-Emits texts (node_null i) = pure-Emits
  emit_expr_with-Emits texts (node_ident i name) = emit_ident-Emits i name
  emit_expr_with-Emits texts (node_unary i op operand prefix) =
      emit_unary-Emits e i op operand prefix
  emit_expr_with-Emits texts (node_binary i op left right) =
      emit_binary_expr-Emits e i op left right
  emit_expr_with-Emits texts (node_assign i left right) = emit_assign-Emits e i left right
  emit_expr_with-Emits texts (node_compound_assign i op left right) =
      emit_compound-Emits e i op left right
  emit_expr_with-Emits texts (node_call i callee args) = emit_call_expr-Emits e i callee args
  emit_expr_with-Emits texts (node_at_call i name args t) = emit_at_call-Emits e i name args t
  emit_expr_with-Emits texts (node_ns_call i ns func args) = search (values, emit_ns_call-Emits)
  emit_expr_with-Emits texts (node_cast i expr t) = emit_cast-Emits e i expr t
  emit_expr_with-Emits texts (node_struct_init i name fields) =
      emit_struct_init-Emits e i name fields
  emit_expr_with-Emits texts (node_array_lit i elems) = emit_array_lit-Emits e i elems
  emit_expr_with-Emits texts (node_field i obj field) = emit_field-Emits e i obj field
  emit_expr_with-Emits texts (node_index i obj idx) = emit_index-Emits e i obj idx
  emit_expr_with-Emits texts (node_ref i expr) = emit_ref-Emits e i expr
  emit_expr_with-Emits texts (node_deref i expr) = emit_deref-Emits e i expr
  emit_expr_with-Emits texts (node_interp_str i parts) = emit_interp-Emits e i parts
  emit_expr_with-Emits texts (node_lambda i params t body) = emit_lambda-Emits e i params t body
  emit_expr_with-Emits texts (node_if i cond thn els) =
      bind_open (emit_if-Emits e i cond thn els) λ m. pure-Emits
  emit_expr_with-Emits texts n = bind_open (e.stmts n) λ m. pure-Emits

pub emitter-Emitting : (texts : FloatTexts) (fuel : ℕ) → Emitting (emitter texts fuel)
unfolding emitter
emitter-Emitting texts zero = record { exprs = λ n. none-Emits; stmts = λ n. none-Emits }
emitter-Emitting texts (suc fuel) =
    let e = emitter-Emitting texts fuel in
    record { exprs = emit_expr_with-Emits e texts; stmts = emit_stmt_with-Emits e }
