-- ===== src/Codegen/Grows/Calls.antt =====
-- Calls of the runtime and of the C library, and conversions.
use fermi.Base.{ℕ, zero, suc, ◌≡◌, arith, not, Bool, true, false, List, Option, none, some, refl}
use fermi.Base.Text.{Bytes, str_eq}
use fermi.Fir.{FirOp}
use fermi.Ast.{NodeInfo, AstNode, AstList, nil, cons}
use fermi.Codegen.{is_term, Codegen}
use fermi.Codegen.Nodes.{node_info}
use fermi.Codegen.Types.{
  emit_converted, conversion, typekind_to_llvm, named_type, ast_type_str, coerce_to,
}
use fermi.Codegen.Calls.{
  emit_io_println, emit_args, Emit, emit_call, emit_rt_call, emit_mut_str_copy,
  emit_mut_str_replace, emit_const_str, emit_printf, emit_printed, emit_io_print,
}
use fermi.Codegen.Namespaces.{Entry, emit_named, emit_ns_call}
use fermi.Codegen.Grows.{
  blocks_now, Last, Leaves, Emits, refl-Grows, pure-Emits, bind_open, bind_ended, then_open,
  then_ended, if-Emits, option-Emits, none-Emits, reads-Emits,
}
use fermi.Codegen.Grows.Steps.{
  quiet-Emits, newtmp-Emits, newlbl-Emits, new_block-Emits, plain-Emits, emit_alloca-Emits,
  emit_store-Emits, emit_load-Emits, emit_br-Emits, emit_br_cond-Emits,
}

pub ruleset chain = (
  bind_open, then_open, bind_ended, then_ended, if-Emits, option-Emits, pure-Emits, none-Emits,
  reads-Emits, newtmp-Emits, newlbl-Emits, plain-Emits, emit_alloca-Emits, emit_store-Emits,
  emit_load-Emits, emit_br-Emits, emit_br_cond-Emits, new_block-Emits,
)

pub emit_call-Emits :
    (dst ret_type fn : Bytes) (args : List (Bytes × Bytes))
    → Emits false (emit_call dst ret_type fn args) false
emit_call-Emits dst ret_type fn args = unfold emit_call in plain-Emits _ refl

pub emit_rt_call-Emits :
    (fn ret_type : Bytes) (args : List (Bytes × Bytes))
    → Emits false (emit_rt_call fn ret_type args) false
unfolding emit_rt_call
emit_rt_call-Emits fn ret_type args = search (chain, emit_call-Emits) depth 60 fits 3000

pub emit_mut_str_copy-Emits : (v : Bytes) → Emits false (emit_mut_str_copy v) false
unfolding emit_mut_str_copy
emit_mut_str_copy-Emits v = search (chain, emit_call-Emits) depth 60 fits 3000

pub emit_mut_str_replace-Emits :
    (old_v new_v : Bytes) → Emits false (emit_mut_str_replace old_v new_v) false
unfolding emit_mut_str_replace
emit_mut_str_replace-Emits old_v new_v =
    search (chain, emit_call-Emits, emit_mut_str_copy-Emits) depth 60 fits 3000

pub emit_const_str-Emits : (s : Bytes) → Emits false (emit_const_str s) false
unfolding emit_const_str
emit_const_str-Emits s = search chain depth 60 fits 3000

-- No conversion is a jump.
is_plain : Option FirOp → Bool
is_plain none = true
is_plain (some op) = not (is_term op)

conversion-is_plain : (from to : Bytes) → is_plain (conversion from to) ≡ true
unfolding conversion is_plain
conversion-is_plain from to = ground arith

emit_converted-Emits :
    (o : Option FirOp) (val from to dst : Bytes)
    → is_plain o ≡ true
    → Emits false (emit_converted o val from to dst) false
unfolding is_plain emit_converted
emit_converted-Emits none val from to dst h = pure-Emits
emit_converted-Emits (some op) val from to dst h =
    then_open (plain-Emits _ (ground arith)) pure-Emits

pub coerce_to-Emits : (val from to : Bytes) → Emits false (coerce_to val from to) false
unfolding coerce_to
coerce_to-Emits val from to = if-Emits (str_eq from to) pure-Emits (
    bind_open newtmp-Emits λ dst.
      emit_converted-Emits (conversion from to) val from to dst (conversion-is_plain from to))

pub ast_type_str-Emits : {p : Bool} (n : AstNode) → Emits p (ast_type_str n) p
unfolding ast_type_str
ast_type_str-Emits n = quiet-Emits λ c q h. named c q h (node_info n)
  where
    named :
        (c : Codegen) (q : Bool)
        → Last q (blocks_now c)
        → (o : Option NodeInfo)
        → Leaves q c (elim o [
          | none ↦ none
          | some i ↦ elim i.ty_name [
            | some name ↦ some (named_type name c, c)
            | none ↦ some (typekind_to_llvm i.ty, c)
          ]
        ])
    named c q h none = tt
    named c q h (some i) =
        elim i.ty_name
          as (λ o. Leaves q c (elim o [
            | some name ↦ some (named_type name c, c)
            | none ↦ some (typekind_to_llvm i.ty, c)
          ])) [ none ↦ (refl-Grows c, h) | some t ↦ (refl-Grows c, h) ]

-- The functions that call each other, as steps.
pub record Emitting (emit : Emit) : Type 0 where
  pub exprs : (n : AstNode) → Emits false (emit.expr n) false
  pub stmts : (n : AstNode) → Emits false (emit.stmt n) false

pub expr-Emits : {emit : Emit} → Emitting emit → (n : AstNode) → Emits false (emit.expr n) false
expr-Emits e n = e.exprs n

pub stmt-Emits : {emit : Emit} → Emitting emit → (n : AstNode) → Emits false (emit.stmt n) false
stmt-Emits e n = e.stmts n

pub ruleset calls = (
  chain, emit_call-Emits, emit_rt_call-Emits, emit_mut_str_copy-Emits, emit_mut_str_replace-Emits,
  emit_const_str-Emits, coerce_to-Emits, ast_type_str-Emits, expr-Emits, stmt-Emits,
)

pub emit_printf-Emits : (fmt type val : Bytes) → Emits false (emit_printf fmt type val) false
unfolding emit_printf
emit_printf-Emits fmt type val = search calls depth 60 fits 3000

module _ {emit : Emit} (e : Emitting emit) where
  pub emit_printed-Emits : (eol : Bytes) (n : AstNode) → Emits false (emit_printed emit eol n) false
  unfolding emit_printed
  emit_printed-Emits eol n = search (calls, emit_printf-Emits) depth 60 fits 3000

  pub emit_io_print-Emits : (args : AstList) → Emits false (emit_io_print emit args) false
  unfolding emit_io_print
  emit_io_print-Emits nil = search calls
  emit_io_print-Emits (cons n ns) = search (calls, emit_printed-Emits)

  pub emit_io_println-Emits : (args : AstList) → Emits false (emit_io_println emit args) false
  unfolding emit_io_println
  emit_io_println-Emits nil = search calls
  emit_io_println-Emits (cons n ns) = search (calls, emit_printed-Emits)

  pub emit_args-Emits : (room : ℕ) (args : AstList) → Emits false (emit_args emit room args) false
  unfolding emit_args
  emit_args-Emits zero ns = pure-Emits
  emit_args-Emits (suc room) nil = pure-Emits
  emit_args-Emits (suc room) (cons n ns) = bind_open (e.exprs n) λ r.
      bind_open (ast_type_str-Emits r.1) λ t. bind_open (emit_args-Emits room ns) λ rest. pure-Emits

  emit_named-Emits :
      (o : Option Entry) (name : Bytes) (argv : List (Bytes × Bytes))
      → Emits false (emit_named o name argv) false
  unfolding emit_named
  emit_named-Emits (some x) name argv = search calls
  emit_named-Emits none name argv = search calls

  pub emit_ns_call-Emits :
      (ns func : Bytes) (args : AstList) → Emits false (emit_ns_call emit ns func args) false
  unfolding emit_ns_call
  emit_ns_call-Emits ns func args =
      search (calls, emit_io_print-Emits, emit_io_println-Emits, emit_args-Emits, emit_named-Emits)
        depth 60 fits 3000
