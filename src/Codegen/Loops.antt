-- ===== src/Codegen/Loops.antt =====
-- src/fecodegen/codegen.c, `emit_stmt`: branches and loops.
use fermi.Base.{Bool, true, false, ◌||◌, ◌++◌, Option, none, some, take, if◌then◌else◌}
use fermi.Base.Text.{Bytes, codes}
use fermi.Ast.{
  NodeInfo, AstNode, no_node, node_if, node_while, node_for_c, node_for_in, node_binary,
}
use fermi.Fir.{fir_add}
use fermi.Fir.Print.{or_else}
use fermi.Codegen.{
  Gen, pure, ◌>>=◌, ◌>>◌, reads, modify, newtmp, newlbl, new_block, mk_instr, emit_instr,
  emit_alloca, emit_store, emit_load, emit_br, emit_br_cond,
}
use fermi.Codegen.Scope.{var_def}
use fermi.Codegen.Types.{is_type}
use fermi.Codegen.Calls.{Emit}
use fermi.Codegen.Blocks.{if_open, in_scope, br_if_open, emit_icmp, is_null, emit_cond, emit_block}

-- The labels of a loop while it is emitted, and those of the loop around it behind it.
unfoldable pub in_loop : {A : Type 0} → Bytes → Bytes → Gen A → Gen A
in_loop brk cnt body = do
  prev_brk ← reads λ c. c.break_label
  prev_cnt ← reads λ c. c.cont_label
  modify λ c. record c { break_label = some brk; cont_label = some cnt }
  a ← body
  modify λ c. record c { break_label = prev_brk; cont_label = prev_cnt }
  pure a

abbrev pub is_range_op : Bytes → Bool
is_range_op op = is_type op ".." || is_type op "..="

abbrev pub is_inclusive : AstNode → Bool
is_inclusive (node_binary i op left right) = is_type op "..="
is_inclusive _ = false

-- `snprintf` into 64 bytes.
abbrev pub index_slot : Option Bytes → Bytes
index_slot var = take 63 (codes "var." ++ or_else var (codes "_i"))

unfoldable pub define_index : Option Bytes → Bytes → Gen Unit
define_index none slot = pure tt
define_index (some name) slot = var_def name (codes "i32") slot

-- The next value of the index and the jump back, if the body does not end with a jump.
unfoldable pub emit_next : Bytes → Bytes → Gen Unit
emit_next slot hl = if_open (do
  iv2 ← emit_load slot (codes "i32")
  inc ← newtmp
  emit_instr (record (mk_instr fir_add) {
    dst = some inc;
    type = some (codes "i32");
    src1 = some iv2;
    src2 = some (codes "1");
  })
  emit_store inc slot (codes "i32")
  emit_br hl)

module _ (emit : Emit) where
  unfoldable pub emit_else : Bytes → Bytes → AstNode → Gen AstNode
  emit_else fl ml els =
      if is_null els
      then pure els
      else do new_block fl; m ← emit_block emit els; br_if_open ml; pure m

  unfoldable pub emit_if : NodeInfo → AstNode → AstNode → AstNode → Gen AstNode
  emit_if i cond thn els = do
    cv ← emit_cond emit cond
    tl ← newlbl (codes "if_t")
    fl ← newlbl (codes "if_f")
    ml ← newlbl (codes "if_m")
    emit_br_cond cv.0 tl (if is_null els then ml else fl)
    new_block tl
    then' ← emit_block emit thn
    br_if_open ml
    els' ← emit_else fl ml els
    new_block ml
    pure (node_if i cv.1 then' els')

  -- A block that tests the condition of a loop at its head.
  unfoldable pub emit_test : Bytes → Bytes → AstNode → Gen AstNode
  emit_test bl el cond = do cv ← emit_cond emit cond; emit_br_cond cv.0 bl el; pure cv.1

  unfoldable pub emit_while : NodeInfo → AstNode → AstNode → Gen AstNode
  emit_while i cond body = do
    hl ← newlbl (codes "wh")
    bl ← newlbl (codes "wb")
    el ← newlbl (codes "we")
    in_loop el hl (do
      br_if_open hl
      new_block hl
      cond' ← emit_test bl el cond
      new_block bl
      body' ← emit_block emit body
      br_if_open hl
      new_block el
      pure (node_while i false cond' body'))

  unfoldable pub emit_do_while : NodeInfo → AstNode → AstNode → Gen AstNode
  emit_do_while i cond body = do
    bl ← newlbl (codes "dw")
    hl ← newlbl (codes "dwh")
    el ← newlbl (codes "dwe")
    in_loop el hl (do
      br_if_open bl
      new_block bl
      body' ← emit_block emit body
      br_if_open hl
      new_block hl
      cond' ← emit_test bl el cond
      new_block el
      pure (node_while i true cond' body'))

  unfoldable pub emit_for_cond : Bytes → Bytes → AstNode → Gen AstNode
  emit_for_cond bl el cond =
      if is_null cond then (do emit_br bl; pure cond) else emit_test bl el cond

  unfoldable pub emit_step : AstNode → Gen AstNode
  emit_step step = if is_null step then pure step else do r ← emit.expr step; pure r.1

  unfoldable pub emit_for_c : NodeInfo → AstNode → AstNode → AstNode → AstNode → Gen AstNode
  emit_for_c i init cond step body = do
    hl ← newlbl (codes "fh")
    bl ← newlbl (codes "fb")
    sl ← newlbl (codes "fs")
    el ← newlbl (codes "fe")
    in_loop el sl (
        in_scope (do
          init' ← if is_null init then pure init else emit.stmt init
          br_if_open hl
          new_block hl
          cond' ← emit_for_cond bl el cond
          new_block bl
          body' ← emit_block emit body
          br_if_open sl
          new_block sl
          step' ← emit_step step
          br_if_open hl
          new_block el
          pure (node_for_c i init' cond' step' body')))

  -- The first value and the end of what is iterated over, which starts at 0 if it is no range; its
  -- kind is read through a pointer that must not be null.
  unfoldable pub emit_range : AstNode → Gen (Bytes × Bytes × AstNode)
  emit_range (node_binary i op left right) =
      if is_range_op op
      then (do
        start ← emit.expr left
        end_v ← emit.expr right
        pure (start.0, end_v.0, node_binary i op start.1 end_v.1))
      else do end_v ← emit.expr (node_binary i op left right); pure (codes "0", end_v.0, end_v.1)
  emit_range no_node = λ c. none
  emit_range iter = do end_v ← emit.expr iter; pure (codes "0", end_v.0, end_v.1)

  unfoldable pub emit_for_in : NodeInfo → Option Bytes → AstNode → AstNode → Gen AstNode
  emit_for_in i var iter body = do
    hl ← newlbl (codes "fih")
    bl ← newlbl (codes "fib")
    el ← newlbl (codes "fie")
    in_loop el hl (
        in_scope (do
          range ← emit_range iter
          emit_alloca (index_slot var) (codes "i32")
          emit_store range.0 (index_slot var) (codes "i32")
          define_index var (index_slot var)
          br_if_open hl
          new_block hl
          iv ← emit_load (index_slot var) (codes "i32")
          cmp ←
              emit_icmp (codes "i1") iv range.1
                (if is_inclusive iter then codes "sle" else codes "slt")
          emit_br_cond cmp bl el
          new_block bl
          body' ← emit_block emit body
          emit_next (index_slot var) hl
          new_block el
          pure (node_for_in i var range.2 body')))
