-- ===== src/Codegen/Grows/FnCalls.antt =====
-- Calls of functions and intrinsics.
use fermi.Base.{ℕ, refl, Bool, true, false, List, [], ◌∷◌, Option, none, some}
use fermi.Base.Text.{Bytes}
use fermi.Ast.{TypeNode, NodeInfo, AstNode, AstList, no_node, node_field, node_ident, node_ns_call}
use fermi.Fir.{FirParam}
use fermi.Codegen.{VarEntry, EnumInfo, Gen}
use fermi.Codegen.FnCalls.{
  arg_type, emit_tagged, coerce_args, emit_indirect, emit_or, emit_method_call, emit_ok, emit_err,
  emit_variant, emit_pointer_call, emit_plain_call, emit_variant_or, emit_named_call,
  emit_call_expr,
}
use fermi.Codegen.Intrinsics.{
  emit_unreachable, emit_panic_call, emit_message, emit_panic, emit_assert, emit_at_unreachable,
  emit_memory, emit_select, effect, emit_at_call,
}
use fermi.Codegen.Calls.{Emit}
use fermi.Codegen.Grows.{Emits, pure-Emits, bind_open, if-Emits, none-Emits}
use fermi.Codegen.Grows.Steps.{jump-Emits}
use fermi.Codegen.Grows.Calls.{
  coerce_to-Emits, ast_type_str-Emits, Emitting, emit_args-Emits, emit_ns_call-Emits,
}
use fermi.Codegen.Grows.Values.{values}

pub arg_type-Emits : {p : Bool} (n : AstNode) → Emits p (arg_type n) p
unfolding arg_type
arg_type-Emits n = if-Emits _ pure-Emits (ast_type_str-Emits n)

emit_tagged-Emits : (v type tag : Bytes) → Emits false (emit_tagged v type tag) false
unfolding emit_tagged
emit_tagged-Emits v type tag = search values depth 60

coerce_args-Emits :
    (ps : List FirParam) (args : List (Bytes × Bytes)) → Emits false (coerce_args ps args) false
unfolding coerce_args
coerce_args-Emits [] args = pure-Emits
coerce_args-Emits (p ∷ ps) [] = pure-Emits
coerce_args-Emits (p ∷ ps) (a ∷ args) =
    bind_open (coerce_to-Emits a.1 a.0 p.type)
      λ v. bind_open (coerce_args-Emits ps args) λ rest. pure-Emits

emit_indirect-Emits :
    (fp : Bytes) (args : List (Bytes × Bytes)) → Emits false (emit_indirect fp args) false
unfolding emit_indirect
emit_indirect-Emits fp args = search values

emit_unreachable-Emits : {p : Bool} → Emits p emit_unreachable true
unfolding emit_unreachable
emit_unreachable-Emits = jump-Emits _ refl

emit_panic_call-Emits : (msg : Bytes) → Emits false (emit_panic_call msg) true
unfolding emit_panic_call
emit_panic_call-Emits msg = search (values, emit_unreachable-Emits)

module _ {emit : Emit} (e : Emitting emit) where
  emit_or-Emits : (d : Bytes) (n : AstNode) → Emits false (emit_or emit d n) false
  unfolding emit_or
  emit_or-Emits d n = search values

  emit_method_call-Emits :
      (i j : NodeInfo) (obj : AstNode) (method : Bytes) (args : AstList)
      → Emits false (emit_method_call emit i j obj method args) false
  unfolding emit_method_call
  emit_method_call-Emits i j obj method args = search (values, emit_args-Emits) depth 60 fits 3000

  emit_ok-Emits :
      (i : NodeInfo) (callee : AstNode) (args : AstList)
      → Emits false (emit_ok emit i callee args) false
  unfolding emit_ok
  emit_ok-Emits i callee args = search (values, emit_or-Emits, arg_type-Emits)

  emit_err-Emits :
      (i : NodeInfo) (callee : AstNode) (args : AstList)
      → Emits false (emit_err emit i callee args) false
  unfolding emit_err
  emit_err-Emits i callee args = search (values, emit_or-Emits, arg_type-Emits, emit_tagged-Emits)

  emit_variant-Emits :
      (k : ℕ) (i : NodeInfo) (callee : AstNode) (args : AstList)
      → Emits false (emit_variant emit k i callee args) false
  unfolding emit_variant
  emit_variant-Emits k i callee args = search (values, emit_tagged-Emits) depth 60

  emit_pointer_call-Emits :
      (x : VarEntry) (i : NodeInfo) (callee : AstNode) (args : AstList)
      → Emits false (emit_pointer_call emit x i callee args) false
  unfolding emit_pointer_call
  emit_pointer_call-Emits x i callee args = search (values, emit_args-Emits, emit_indirect-Emits)

  emit_plain_call-Emits :
      (name : Bytes) (i : NodeInfo) (callee : AstNode) (args : AstList)
      → Emits false (emit_plain_call emit name i callee args) false
  unfolding emit_plain_call
  emit_plain_call-Emits name i callee args =
      search (values, emit_args-Emits, coerce_args-Emits) depth 60 fits 3000

  emit_variant_or-Emits :
      (variant : Option (ℕ × EnumInfo)) (entry : Option VarEntry) (name : Bytes) (i : NodeInfo)
      (callee : AstNode) (args : AstList)
      → Emits false (emit_variant_or emit variant entry name i callee args) false
  unfolding emit_variant_or
  emit_variant_or-Emits (some v) entry name i callee args = emit_variant-Emits v.0 i callee args
  emit_variant_or-Emits none (some x) name i callee args = emit_pointer_call-Emits x i callee args
  emit_variant_or-Emits none none name i callee args = emit_plain_call-Emits name i callee args

  emit_named_call-Emits :
      (name : Bytes) (i : NodeInfo) (callee : AstNode) (args : AstList)
      → Emits false (emit_named_call emit name i callee args) false
  unfolding emit_named_call
  emit_named_call-Emits name i callee args =
      search (values, emit_ok-Emits, emit_err-Emits, emit_variant_or-Emits)

  pub emit_call_expr-Emits :
      (i : NodeInfo) (callee : AstNode) (args : AstList)
      → Emits false (emit_call_expr emit i callee args) false
  unfolding emit_call_expr
  emit_call_expr-Emits i (node_field j obj method) args = emit_method_call-Emits i j obj method args
  emit_call_expr-Emits i (node_ns_call j ns func inner) args = search (values, emit_ns_call-Emits)
  emit_call_expr-Emits i (node_ident j name) args =
      emit_named_call-Emits name i (node_ident j name) args
  emit_call_expr-Emits i no_node args = none-Emits
  emit_call_expr-Emits i n args = pure-Emits

  emit_message-Emits : (text : Bytes) (n : AstNode) → Emits false (emit_message emit text n) false
  unfolding emit_message
  emit_message-Emits text n = search values

  emit_panic-Emits : (args : AstList) → Emits false (emit_panic emit args) false
  unfolding emit_panic
  emit_panic-Emits args = search (values, emit_message-Emits, emit_panic_call-Emits)

  emit_assert-Emits : (args : AstList) → Emits false (emit_assert emit args) false
  unfolding emit_assert
  emit_assert-Emits args =
      search (values, emit_or-Emits, emit_message-Emits, emit_panic_call-Emits) depth 60 fits 4000

  emit_at_unreachable-Emits : Emits false (emit_at_unreachable emit) false
  unfolding emit_at_unreachable
  emit_at_unreachable-Emits = search (values, emit_unreachable-Emits)

  emit_memory-Emits :
      (fn default : Bytes) (converted : Bool) (args : AstList)
      → Emits false (emit_memory emit fn default converted args) false
  unfolding emit_memory
  emit_memory-Emits fn default converted args =
      search (values, emit_or-Emits, arg_type-Emits) depth 60 fits 4000

  emit_select-Emits : (args : AstList) → Emits false (emit_select emit args) false
  unfolding emit_select
  emit_select-Emits args = search (values, emit_or-Emits) depth 60 fits 4000

  effect-Emits :
      (i : NodeInfo) (name : Bytes) (t : TypeNode) (m : Gen AstList)
      → Emits false m false
      → Emits false (effect emit i name t m) false
  unfolding effect
  effect-Emits i name t m x = bind_open x λ args. pure-Emits

  pub emit_at_call-Emits :
      (i : NodeInfo) (name : Bytes) (args : AstList) (t : TypeNode)
      → Emits false (emit_at_call emit i name args t) false
  unfolding emit_at_call
  emit_at_call-Emits i name args t =
      search
        (
          values, effect-Emits, emit_panic-Emits, emit_assert-Emits, emit_at_unreachable-Emits,
          emit_memory-Emits, emit_select-Emits,
        )
        depth 60 fits 4000
