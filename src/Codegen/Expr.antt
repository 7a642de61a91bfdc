-- ===== src/Codegen/Expr.antt =====
-- src/fecodegen/codegen.c, `emit_expr`, and the two functions that call each other. The fuel bounds
-- the nesting of their calls.
use fermi.Base.{ℕ, zero, suc, Option, none, some, if◌then◌else◌}
use fermi.Base.Text.{Bytes, codes}
use fermi.Base.Decimal.{decimal}
use fermi.Ast.{
  AstNode, ty_void, ty_bool, ty_int, ty_long, ty_float, ty_double, ty_char, ty_str, ty_raw_ptr,
  no_node, node_if, node_assign, node_compound_assign, node_binary, node_unary, node_call,
  node_index, node_field, node_cast, node_ident, node_int_lit, node_float_lit, node_double_lit,
  node_long_lit, node_bool_lit, node_char_lit, node_string_lit, node_struct_init, node_array_lit,
  node_ref, node_deref, node_interp_str, node_lambda, node_ns_call, node_null, node_at_call,
}
use fermi.Opt.Const.{print_lld}
use fermi.Codegen.{Codegen, Gen, ◌>>=◌}
use fermi.Codegen.Nodes.{with_ty, set_ty}
use fermi.Codegen.Calls.{Emit, emit_const_str}
use fermi.Codegen.Namespaces.{emit_ns_call, set_kind}
use fermi.Codegen.Loops.{emit_if}
use fermi.Codegen.Stmt.{emit_stmt_with}
use fermi.Codegen.Values.{FloatTexts, value, emit_ident, emit_unary}
use fermi.Codegen.Operators.{emit_binary_expr, emit_compound}
use fermi.Codegen.Objects.{emit_field, emit_index, emit_ref, emit_deref}
use fermi.Codegen.Assign.{emit_assign}
use fermi.Codegen.FnCalls.{emit_call_expr}
use fermi.Codegen.Intrinsics.{emit_at_call}
use fermi.Codegen.Aggregates.{emit_cast, emit_struct_init, emit_array_lit, emit_interp}
use fermi.Codegen.Lambda.{emit_lambda}
use fermi.Codegen.Decls.{codegen_emit}

module _ (texts : FloatTexts) where
  open texts use {print_float, print_double}

  -- The text of a value, and the node with its type.
  unfoldable pub emit_expr_with : Emit → AstNode → Gen (Bytes × AstNode)
  emit_expr_with emit no_node = value (codes "0") no_node
  emit_expr_with emit (node_int_lit i v) = value (print_lld v) (node_int_lit (with_ty ty_int i) v)
  emit_expr_with emit (node_long_lit i v) =
      value (print_lld v) (node_long_lit (with_ty ty_long i) v)
  emit_expr_with emit (node_float_lit i v) =
      value (print_float v) (node_float_lit (with_ty ty_float i) v)
  emit_expr_with emit (node_double_lit i v) =
      value (print_double v) (node_double_lit (with_ty ty_double i) v)
  emit_expr_with emit (node_bool_lit i v) =
      value (if v then codes "1" else codes "0") (node_bool_lit (with_ty ty_bool i) v)
  emit_expr_with emit (node_char_lit i v) = value (decimal v) (node_char_lit (with_ty ty_char i) v)
  emit_expr_with emit (node_string_lit i s) = do
    dst ← emit_const_str s
    value dst (node_string_lit (with_ty ty_str i) s)
  emit_expr_with emit (node_null i) = value (codes "null") (node_null (with_ty ty_raw_ptr i))
  emit_expr_with emit (node_ident i name) = emit_ident i name
  emit_expr_with emit (node_unary i op operand prefix) = emit_unary emit i op operand prefix
  emit_expr_with emit (node_binary i op left right) = emit_binary_expr emit i op left right
  emit_expr_with emit (node_assign i left right) = emit_assign emit i left right
  emit_expr_with emit (node_compound_assign i op left right) = emit_compound emit i op left right
  emit_expr_with emit (node_call i callee args) = emit_call_expr emit i callee args
  emit_expr_with emit (node_at_call i name args type_arg) = emit_at_call emit i name args type_arg
  emit_expr_with emit (node_ns_call i ns func args) = do
    r ← emit_ns_call emit ns func args
    value r.0 (node_ns_call (set_kind r.1 i) ns func r.2)
  emit_expr_with emit (node_cast i expr type) = emit_cast emit i expr type
  emit_expr_with emit (node_struct_init i name fields) = emit_struct_init emit i name fields
  emit_expr_with emit (node_array_lit i elems) = emit_array_lit emit i elems
  emit_expr_with emit (node_field i obj field) = emit_field emit i obj field
  emit_expr_with emit (node_index i obj idx) = emit_index emit i obj idx
  emit_expr_with emit (node_ref i expr) = emit_ref emit i expr
  emit_expr_with emit (node_deref i expr) = emit_deref emit i expr
  emit_expr_with emit (node_interp_str i parts) = emit_interp emit i parts
  emit_expr_with emit (node_lambda i params type body) = emit_lambda emit i params type body
  emit_expr_with emit (node_if i cond thn els) = do
    m ← emit_if emit i cond thn els
    value (codes "0") (set_ty ty_void m)
  emit_expr_with emit n = do m ← emit.stmt n; value (codes "0") (set_ty ty_void m)

  unfoldable pub emitter : ℕ → Emit
  emitter zero = record { expr = λ n c. none; stmt = λ n c. none }
  emitter (suc fuel) = record {
    expr = emit_expr_with (emitter fuel);
    stmt = emit_stmt_with (emitter fuel);
  }

  -- The state behind a whole program.
  unfoldable pub generate : ℕ → AstNode → Codegen → Option Codegen
  unfolding codegen_emit
  generate fuel program c = elim (codegen_emit (emitter fuel) program c) [
    | none ↦ none
    | some r ↦ some r.1
  ]
