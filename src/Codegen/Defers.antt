-- ===== src/Codegen/Defers.antt =====
-- src/fecodegen/codegen.c: deferred statements, which stand in the order in which they are met, and
-- the end of a function.
use fermi.Base.{
  ℕ, zero, suc, ◌+◌, ◌-◌, [], ◌∷◌, ◌++◌, Option, none, some, get_elem?, set, length, ltb,
  if◌then◌else◌,
}
use fermi.Base.Text.{Bytes, codes}
use fermi.Ast.{AstNode}
use fermi.Fir.{fir_ret, fir_ret_void}
use fermi.Codegen.{
  Codegen, Gen, pure, ◌>>=◌, ◌>>◌, reads, modify, newlbl, new_block, mk_instr, emit_instr,
}
use fermi.Codegen.Calls.{Emit}

-- NODE_DEFER: at most 64 statements are deferred.
unfoldable pub push_defer : AstNode → Gen Unit
push_defer n c = some (
  tt,
  (if ltb (length c.defer_stack) 64 then record c { defer_stack = c.defer_stack ++ n ∷ [] } else c),
)

abbrev pub put_defer : ℕ → AstNode → Codegen → Codegen
put_defer i n c = record c { defer_stack = set c.defer_stack i n }

-- The statement deferred at a place, which keeps the types that are set in it.
unfoldable pub emit_deferred : Emit → ℕ → Option AstNode → Gen Unit
emit_deferred emit i none = pure tt
emit_deferred emit i (some n) = do m ← emit.stmt n; modify (put_defer i m)

-- The statements deferred at the places below `base + count`, the last one first.
unfoldable pub defers_from : Emit → ℕ → ℕ → Gen Unit
defers_from emit base zero = pure tt
defers_from emit base (suc count) = do
  d ← reads λ c. get_elem? c.defer_stack (base + count)
  emit_deferred emit (base + count) d
  defers_from emit base count

-- The source reads `fn_defer_base` in each round; a statement leaves it as it is.
unfoldable pub emit_defers : Emit → Gen Unit
emit_defers emit = do
  base ← reads λ c. c.fn_defer_base
  top ← reads λ c. length c.defer_stack
  defers_from emit base (top - base)

unfoldable pub emit_ret : Option (Bytes × Bytes) → Gen Unit
emit_ret none = emit_instr (mk_instr fir_ret_void)
emit_ret (some (val, type)) =
    emit_instr (record (mk_instr fir_ret) { src1 = some val; type = some type })

unfoldable pub emit_ret_with_defers : Emit → Option (Bytes × Bytes) → Gen Unit
emit_ret_with_defers emit val = do
  emit_defers emit
  emit_ret val
  dead ← newlbl (codes "dead")
  new_block dead
