-- ===== src/Codegen/Match.antt =====
-- src/fecodegen/codegen.c, `emit_stmt`: NODE_MATCH.
use fermi.Base.{ℕ, ◌*◌, Bool, true, false, not, ◌&&◌, List, [], ◌∷◌, none, some, if◌then◌else◌}
use fermi.Base.Text.{Bytes, codes}
use fermi.Base.Decimal.{decimal}
use fermi.Ast.{NodeInfo, ArmHead, AstNode, AstList, node_match, node_match_arm, nil, cons}
use fermi.Fir.{FirOp, fir_and, fir_shr, fir_icmp}
use fermi.Fir.Print.{or_else}
use fermi.Opt.Const.{print_lld}
use fermi.Codegen.{
  Codegen, Gen, pure, ◌>>=◌, ◌>>◌, reads, newtmp, newlbl, new_block, mk_instr, emit_instr,
  emit_alloca, emit_store, emit_br, emit_br_cond,
}
use fermi.Codegen.Scope.{find_enum_variant, var_def}
use fermi.Codegen.Types.{ast_type_str, coerce_to}
use fermi.Codegen.Calls.{Emit, emit_call, emit_const_str}
use fermi.Codegen.Blocks.{the_name, br_if_open, emit_icmp, slot_of, in_scope}

-- One label for each arm.
unfoldable pub arm_labels : AstList → Gen (List Bytes)
arm_labels nil = pure []
arm_labels (cons n ns) = do l ← newlbl (codes "marm"); ls ← arm_labels ns; pure (l ∷ ls)

-- An operation on two values of a type, in a new temporary.
unfoldable pub emit_binary : FirOp → Bytes → Bytes → Bytes → Gen Bytes
emit_binary op type a b = do
  dst ← newtmp
  emit_instr
      (record (mk_instr op) { dst = some dst; type = some type; src1 = some a; src2 = some b })
  pure dst

-- The tag that the low half of a value is compared with: twice the place of the variant, or 0.
unfoldable pub variant_tag : Bytes → Codegen → ℕ
variant_tag name c = elim (find_enum_variant name c) [ none ↦ 0 | some v ↦ v.0 * 2 ]

-- The test of a string arm: its condition and the label behind the arm.
unfoldable pub test_string : Bytes → ArmHead → Gen (Bytes × Bytes)
test_string mv h = do
  slit ← emit_const_str (or_else h.str_val [])
  cmp ← newtmp
  emit_call cmp (codes "i32") (codes "strcmp") ((codes "ptr", mv) ∷ (codes "ptr", slit) ∷ [])
  scond ← emit_icmp (codes "i1") cmp (codes "0") (codes "eq")
  next_l ← newlbl (codes "mcnext")
  pure (scond, next_l)

-- A comparison into a temporary that was taken before.
unfoldable pub compare_into : Bytes → Bytes → Bytes → Bytes → Bytes → Gen Unit
compare_into dst type a b pred = emit_instr (record (mk_instr fir_icmp) {
  dst = some dst;
  type = some type;
  src1 = some a;
  src2 = some b;
  src3 = some pred;
})

unfoldable pub test_variant : Bytes → Bytes → ArmHead → Gen (Bytes × Bytes)
test_variant mv mty h = do
  next_l ← newlbl (codes "mcnext")
  cond ← newtmp
  name ← the_name h.variant_name
  tag ← reads (variant_tag name)
  tag_v ← emit_binary fir_and mty mv (codes "4294967295")
  compare_into cond mty tag_v (decimal tag) (codes "eq")
  pure (cond, next_l)

-- The temporary taken first is not used.
unfoldable pub test_range : Bytes → Bytes → ArmHead → Gen (Bytes × Bytes)
test_range mv mty h = do
  next_l ← newlbl (codes "mcnext")
  unused ← newtmp
  clo ← newtmp
  chi ← newtmp
  compare_into clo mty mv (print_lld h.lit_lo) (codes "sge")
  compare_into chi mty mv (print_lld h.lit_hi) (codes "sle")
  cond ← emit_binary fir_and (codes "i1") clo chi
  pure (cond, next_l)

unfoldable pub test_value : Bytes → Bytes → ArmHead → Gen (Bytes × Bytes)
test_value mv mty h = do
  next_l ← newlbl (codes "mcnext")
  cond ← newtmp
  compare_into cond mty mv (print_lld h.lit_lo) (codes "eq")
  pure (cond, next_l)

-- Whether an arm binds the payload of its variant.
abbrev pub binds_payload : ArmHead → Bool
binds_payload h =
    not h.is_string && h.is_variant && elim h.bind_name [ none ↦ false | some name ↦ true ]

unfoldable pub emit_test_arm : Bytes → Bytes → ArmHead → Gen (Bytes × Bytes)
emit_test_arm mv mty h =
    if h.is_string
    then test_string mv h
    else if h.is_variant
    then test_variant mv mty h
    else if h.is_range
    then test_range mv mty h
    else test_value mv mty h

-- The payload stands in the high half.
unfoldable pub bind_payload : Bytes → Bytes → Bytes → Gen Unit
bind_payload mv mty name = do
  payload ← emit_binary fir_shr mty mv (codes "32")
  emit_alloca (slot_of name) (codes "i32")
  trunc ← coerce_to payload mty (codes "i32")
  emit_store trunc (slot_of name) (codes "i32")
  var_def name (codes "i32") (slot_of name)

module _ (emit : Emit) where
  -- The body of an arm in its own block.
  unfoldable pub emit_wildcard : Bytes → Bytes → AstNode → Gen AstNode
  emit_wildcard end_l label body = do
    emit_br label
    new_block label
    m ← in_scope (emit.stmt body)
    br_if_open end_l
    pure m

  unfoldable pub emit_tested : Bytes → Bytes → Bytes → Bytes → ArmHead → AstNode → Gen AstNode
  emit_tested mv mty end_l label h body = do
    test ← emit_test_arm mv mty h
    emit_br_cond test.0 label test.1
    new_block label
    m ← in_scope (do
      if binds_payload h then (the_name h.bind_name >>= bind_payload mv mty) else pure tt
      emit.stmt body)
    br_if_open end_l
    new_block test.1
    pure m

  unfoldable pub emit_arm : Bytes → Bytes → Bytes → Bytes → AstNode → Gen AstNode
  emit_arm mv mty end_l label (node_match_arm i h body) = do
    m ←
        if h.is_wildcard
        then emit_wildcard end_l label body
        else emit_tested mv mty end_l label h body
    pure (node_match_arm i h m)
  emit_arm mv mty end_l label n = do emit_br label; new_block label; pure n

  unfoldable pub emit_arms : Bytes → Bytes → Bytes → List Bytes → AstList → Gen AstList
  emit_arms mv mty end_l (l ∷ ls) (cons n ns) = do
    m ← emit_arm mv mty end_l l n
    ms ← emit_arms mv mty end_l ls ns
    pure (cons m ms)
  emit_arms mv mty end_l _ ns = pure ns

  unfoldable pub emit_match : NodeInfo → AstNode → AstList → Gen AstNode
  emit_match i expr arms = do
    mv ← emit.expr expr
    mty ← ast_type_str mv.1
    end_l ← newlbl (codes "mend")
    labels ← arm_labels arms
    arms' ← emit_arms mv.0 mty end_l labels arms
    br_if_open end_l
    new_block end_l
    pure (node_match i mv.1 arms')
