-- ===== src/Codegen/Lambda.antt =====
-- src/fecodegen/codegen.c, `emit_expr`: NODE_LAMBDA.
use fermi.Base.{suc, false, ◌++◌, none, some, take, length}
use fermi.Base.Text.{Bytes, codes}
use fermi.Base.Decimal.{decimal}
use fermi.Ast.{TypeNode, NodeInfo, AstNode, AstList, ty_fn_ptr, no_node, node_block, node_lambda}
use fermi.Fir.{FirFn}
use fermi.Codegen.{Codegen, Gen, pure, ◌>>=◌, ◌>>◌, reads}
use fermi.Codegen.Nodes.{with_ty}
use fermi.Codegen.Types.{ast_type_str, coerce_to}
use fermi.Codegen.Calls.{Emit}
use fermi.Codegen.Defers.{emit_ret}
use fermi.Codegen.Blocks.{if_open, emit_stmts}
use fermi.Codegen.Values.{value}
use fermi.Codegen.Fns.{type_or, params_of, new_fn, in_fn, bind_params, emit_default_ret}

unfoldable pub lambda_name : Gen Bytes
lambda_name c = some (take 63 (codes "__lambda_" ++ decimal c.tmp), record c { tmp = suc c.tmp })

-- The function around a lambda becomes the current one again.
abbrev pub leave_lambda : Codegen → Codegen → Codegen
leave_lambda saved c = record c {
  defer_stack = take (length saved.defer_stack) c.defer_stack;
  fn_defer_base = saved.fn_defer_base;
  cur_fn = saved.cur_fn;
  cur_ret_type = saved.cur_ret_type;
}

module _ (emit : Emit) where
  -- A block without a scope of its own, or an expression that is returned.
  unfoldable pub emit_lambda_body : Bytes → AstNode → Gen AstNode
  emit_lambda_body ret_type no_node = pure no_node
  emit_lambda_body ret_type (node_block i stmts) = do
    ms ← emit_stmts emit stmts
    pure (node_block i ms)
  emit_lambda_body ret_type n = do
    r ← emit.expr n
    rty ← ast_type_str r.1
    rv ← coerce_to r.0 rty ret_type
    if_open (emit_ret (some (rv, ret_type)))
    pure r.1

  unfoldable pub emit_lambda_fn : FirFn → Bytes → AstNode → Gen AstNode
  emit_lambda_fn f ret_type body =
      in_fn f (λ c. c.cur_struct) leave_lambda
        (do
          bind_params f.params
          m ← emit_lambda_body ret_type body
          if_open (emit_default_ret ret_type)
          pure m)

  unfoldable pub emit_lambda : NodeInfo → AstList → TypeNode → AstNode → Gen (Bytes × AstNode)
  emit_lambda i params t body = do
    name ← lambda_name
    ret_type ← reads (type_or (codes "i64") t)
    ps ← reads (params_of (codes "i64") none params)
    m ← emit_lambda_fn (new_fn name ret_type ps false) ret_type body
    value (take 127 (codes "@" ++ name)) (node_lambda (with_ty ty_fn_ptr i) params t m)
