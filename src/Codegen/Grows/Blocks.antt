-- ===== src/Codegen/Grows/Blocks.antt =====
-- Declarations of variables, returns, deferred statements and blocks.
use fermi.Base.{ℕ, zero, suc, ◌+◌, refl, Bool, true, false, ◌++◌, take, Option, none, some}
use fermi.Base.Text.{Bytes, codes}
use fermi.Base.Decimal.{decimal}
use fermi.Ast.{VarHead, AstNode, AstList, no_node, node_block, nil, cons}
use fermi.Codegen.{modify}
use fermi.Codegen.Defers.{emit_deferred, defers_from, emit_defers, emit_ret, emit_ret_with_defers}
use fermi.Codegen.Blocks.{
  the_name, emit_jump, emit_icmp, new_slot, define_var, define_typed, define_inferred, own_copy,
  emit_cond, emit_inferred, emit_init, emit_typed, emit_var_decl, emit_return, emit_stmts,
  emit_block, emit_region, emit_unsafe, emit_break, emit_continue,
}
use fermi.Codegen.Calls.{Emit}
use fermi.Codegen.Grows.{
  Emits, pure-Emits, bind_open, then_open, then_ended, if-Emits, option-Emits, none-Emits,
  reads-Emits,
}
use fermi.Codegen.Grows.Writes.{moved-Grows}
use fermi.Codegen.Grows.Steps.{
  jump-Emits, quiet-Emits, br_if_open-Emits, var_def-Emits, var_def_mut-Emits,
}
use fermi.Codegen.Grows.Calls.{calls, Emitting}
use fermi.Codegen.Grows.Around.{in_scope-Emits, in_loop-Emits, with_unsafe-Emits, with_region-Emits}

pub the_name-Emits : {p : Bool} (name : Option Bytes) → Emits p (the_name name) p
unfolding the_name
the_name-Emits none = none-Emits
the_name-Emits (some s) = pure-Emits

pub emit_jump-Emits :
    (target : Option Bytes) (prefix : Bytes) → Emits false (emit_jump target prefix) false
unfolding emit_jump
emit_jump-Emits none prefix = then_ended (jump-Emits _ refl) (search calls)
emit_jump-Emits (some l) prefix = search calls

pub emit_icmp-Emits : (type a b pred : Bytes) → Emits false (emit_icmp type a b pred) false
unfolding emit_icmp
emit_icmp-Emits type a b pred = search calls

pub new_slot-Emits : {p : Bool} (name : Bytes) → Emits p (new_slot name) p
unfolding new_slot
new_slot-Emits name = if-Emits _ numbered-Emits pure-Emits
  where
    numbered-Emits :
        {p : Bool}
        → Emits p
            (λ c. some (take 127 (codes "var._." ++ decimal c.tmp), record c { tmp = suc c.tmp }))
            p
    numbered-Emits = quiet-Emits λ c q h. (moved-Grows c _ refl refl, h)

define_var-Emits :
    {p : Bool} (is_mut : Bool) (name type slot : Bytes)
    → Emits p (define_var is_mut name type slot) p
unfolding define_var
define_var-Emits is_mut name type slot =
    if-Emits is_mut (var_def_mut-Emits name type slot) (var_def-Emits name type slot)

pub define_typed-Emits :
    {p : Bool} (v : VarHead) (type slot : Bytes) → Emits p (define_typed v type slot) p
unfolding define_typed
define_typed-Emits v type slot =
    option-Emits v.name pure-Emits λ name. define_var-Emits v.is_mut name type slot

pub define_inferred-Emits :
    {p : Bool} (v : VarHead) (type slot : Bytes) → Emits p (define_inferred v type slot) p
unfolding define_inferred
define_inferred-Emits v type slot =
    option-Emits v.name pure-Emits
      λ name. if-Emits _ pure-Emits (define_var-Emits v.is_mut name type slot)

pub own_copy-Emits : (is_mut : Bool) (type v : Bytes) → Emits false (own_copy is_mut type v) false
unfolding own_copy
own_copy-Emits is_mut type v = search calls

pub emit_ret-Emits : (val : Option (Bytes × Bytes)) → Emits false (emit_ret val) true
unfolding emit_ret
emit_ret-Emits none = jump-Emits _ refl
emit_ret-Emits (some v) = jump-Emits _ refl

pub ruleset blocks = (
  calls, the_name-Emits, emit_jump-Emits, emit_icmp-Emits, new_slot-Emits, define_typed-Emits,
  define_inferred-Emits, own_copy-Emits, emit_ret-Emits, in_scope-Emits, in_loop-Emits,
  with_unsafe-Emits, with_region-Emits, br_if_open-Emits, var_def-Emits,
)

module _ {emit : Emit} (e : Emitting emit) where
  emit_deferred-Emits : (i : ℕ) (o : Option AstNode) → Emits false (emit_deferred emit i o) false
  unfolding emit_deferred modify
  emit_deferred-Emits i none = pure-Emits
  emit_deferred-Emits i (some n) =
      bind_open (e.stmts n) λ m. quiet-Emits λ c q h. (moved-Grows c _ refl refl, h)

  defers_from-Emits : (base count : ℕ) → Emits false (defers_from emit base count) false
  unfolding defers_from
  defers_from-Emits base zero = pure-Emits
  defers_from-Emits base (suc count) =
      bind_open (reads-Emits _)
        λ d. then_open (emit_deferred-Emits (base + count) d) (defers_from-Emits base count)

  pub emit_defers-Emits : Emits false (emit_defers emit) false
  unfolding emit_defers
  emit_defers-Emits = search (calls, defers_from-Emits)

  pub emit_ret_with_defers-Emits :
      (val : Option (Bytes × Bytes)) → Emits false (emit_ret_with_defers emit val) false
  unfolding emit_ret_with_defers
  emit_ret_with_defers-Emits val = search (blocks, emit_defers-Emits)

  pub emit_cond-Emits : (n : AstNode) → Emits false (emit_cond emit n) false
  unfolding emit_cond
  emit_cond-Emits n = search blocks

  emit_inferred-Emits :
      (v : VarHead) (init : AstNode) → Emits false (emit_inferred emit v init) false
  unfolding emit_inferred
  emit_inferred-Emits v init = search blocks depth 60 fits 3000

  emit_init-Emits :
      (v : VarHead) (ty slot : Bytes) (init : AstNode)
      → Emits false (emit_init emit v ty slot init) false
  unfolding emit_init
  emit_init-Emits v ty slot init = search blocks depth 60 fits 3000

  emit_typed-Emits :
      (v : VarHead) (ty : Bytes) (init : AstNode) → Emits false (emit_typed emit v ty init) false
  unfolding emit_typed
  emit_typed-Emits v ty init = search (blocks, emit_init-Emits) depth 60 fits 3000

  pub emit_var_decl-Emits :
      (v : VarHead) (init : AstNode) → Emits false (emit_var_decl emit v init) false
  unfolding emit_var_decl
  emit_var_decl-Emits v init =
      search (blocks, emit_inferred-Emits, emit_typed-Emits) depth 60 fits 3000

  pub emit_return-Emits : (val : AstNode) → Emits false (emit_return emit val) false
  unfolding emit_return
  emit_return-Emits val = search (blocks, emit_ret_with_defers-Emits) depth 60 fits 3000

  pub emit_stmts-Emits : (ns : AstList) → Emits false (emit_stmts emit ns) false
  unfolding emit_stmts
  emit_stmts-Emits nil = pure-Emits
  emit_stmts-Emits (cons n ns) =
      bind_open (if-Emits _ pure-Emits (e.stmts n))
        λ m. bind_open (emit_stmts-Emits ns) λ ms. pure-Emits

  pub emit_block-Emits : (n : AstNode) → Emits false (emit_block emit n) false
  unfolding emit_block
  emit_block-Emits no_node = pure-Emits
  emit_block-Emits (node_block i stmts) = search (blocks, emit_stmts-Emits)
  emit_block-Emits n = e.stmts n

  pub emit_region-Emits : (body : AstList) → Emits false (emit_region emit body) false
  unfolding emit_region
  emit_region-Emits body = search (blocks, emit_stmts-Emits) depth 60 fits 3000

  pub emit_unsafe-Emits : (body : AstNode) → Emits false (emit_unsafe emit body) false
  unfolding emit_unsafe
  emit_unsafe-Emits body = search (blocks, emit_block-Emits)

  pub emit_break-Emits : Emits false (emit_break emit) false
  unfolding emit_break
  emit_break-Emits = search (blocks, emit_defers-Emits)

pub emit_continue-Emits : Emits false emit_continue false
unfolding emit_continue
emit_continue-Emits = search blocks
