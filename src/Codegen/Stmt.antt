-- ===== src/Codegen/Stmt.antt =====
-- src/fecodegen/codegen.c, `emit_stmt`.
use fermi.Base.{true, false}
use fermi.Ast.{
  AstNode, node_var_decl, node_block, node_if, node_while, node_for_c, node_for_in, node_match,
  node_return, node_break, node_continue, node_defer, node_expr_stmt, node_assign,
  node_compound_assign, node_region, node_unsafe_block, node_comptime_let,
}
use fermi.Codegen.{Gen, pure, ◌>>=◌, ◌>>◌}
use fermi.Codegen.Comptime.{comptime_let}
use fermi.Codegen.Calls.{Emit}
use fermi.Codegen.Defers.{push_defer}
use fermi.Codegen.Blocks.{
  emit_var_decl, emit_return, emit_block, emit_region, emit_unsafe, emit_break, emit_continue,
}
use fermi.Codegen.Loops.{emit_if, emit_while, emit_do_while, emit_for_c, emit_for_in}
use fermi.Codegen.Match.{emit_match}

-- The statement, with the types that are set in it.
unfoldable pub emit_stmt_with : Emit → AstNode → Gen AstNode
emit_stmt_with emit (node_var_decl i v init) = do
  m ← emit_var_decl emit v init
  pure (node_var_decl i v m)
emit_stmt_with emit (node_assign i left right) = do
  r ← emit.expr (node_assign i left right)
  pure r.1
emit_stmt_with emit (node_compound_assign i op left right) = do
  r ← emit.expr (node_compound_assign i op left right)
  pure r.1
emit_stmt_with emit (node_expr_stmt i expr) = do r ← emit.expr expr; pure (node_expr_stmt i r.1)
emit_stmt_with emit (node_return i val) = do m ← emit_return emit val; pure (node_return i m)
emit_stmt_with emit (node_defer i expr) = do push_defer expr; pure (node_defer i expr)
emit_stmt_with emit (node_if i cond thn els) = emit_if emit i cond thn els
emit_stmt_with emit (node_while i false cond body) = emit_while emit i cond body
emit_stmt_with emit (node_while i true cond body) = emit_do_while emit i cond body
emit_stmt_with emit (node_for_c i init cond step body) = emit_for_c emit i init cond step body
emit_stmt_with emit (node_for_in i var iter body) = emit_for_in emit i var iter body
emit_stmt_with emit (node_match i expr arms) = emit_match emit i expr arms
emit_stmt_with emit (node_break i) = do emit_break emit; pure (node_break i)
emit_stmt_with emit (node_continue i) = do emit_continue; pure (node_continue i)
emit_stmt_with emit (node_block i stmts) = emit_block emit (node_block i stmts)
emit_stmt_with emit (node_region i body name) = do
  ms ← emit_region emit body
  pure (node_region i ms name)
emit_stmt_with emit (node_unsafe_block i body) = do
  m ← emit_unsafe emit body
  pure (node_unsafe_block i m)
emit_stmt_with emit (node_comptime_let i name init) = do
  comptime_let name init
  pure (node_comptime_let i name init)
emit_stmt_with emit n = pure n
