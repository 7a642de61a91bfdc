-- ===== src/Codegen/Grows/Loops.antt =====
-- Branches, loops and matches.
use fermi.Base.{◌≡◌, refl, Bool, true, false, List, [], ◌∷◌, Option, none, some}
use fermi.Base.Text.{Bytes, codes}
use fermi.Ast.{NodeInfo, ArmHead, AstNode, AstList, no_node, node_match_arm, node_binary, nil, cons}
use fermi.Fir.{FirOp}
use fermi.Codegen.{is_term}
use fermi.Codegen.Loops.{
  define_index, emit_next, emit_else, emit_if, emit_test, emit_while, emit_do_while, emit_for_cond,
  emit_step, emit_for_c, emit_range, emit_for_in,
}
use fermi.Codegen.Match.{
  arm_labels, emit_binary, test_string, compare_into, test_variant, test_range, test_value,
  emit_test_arm, bind_payload, emit_wildcard, emit_tested, emit_arm, emit_arms, emit_match,
}
use fermi.Codegen.Calls.{Emit}
use fermi.Codegen.Grows.{
  Emits, pure-Emits, bind-Emits, bind_open, then_open, then_ended, if-Emits, weaken-Emits,
  none-Emits,
}
use fermi.Codegen.Grows.Steps.{
  newtmp-Emits, newlbl-Emits, new_block-Emits, plain-Emits, emit_br-Emits, if_open-Emits,
  var_def-Emits,
}
use fermi.Codegen.Grows.Calls.{Emitting}
use fermi.Codegen.Grows.Blocks.{blocks, emit_cond-Emits, emit_block-Emits}

define_index-Emits :
    {p : Bool} (var : Option Bytes) (slot : Bytes) → Emits p (define_index var slot) p
unfolding define_index
define_index-Emits none slot = pure-Emits
define_index-Emits (some name) slot = var_def-Emits name (codes "i32") slot

emit_next-Emits : {p : Bool} (slot hl : Bytes) → Emits p (emit_next slot hl) true
unfolding emit_next
emit_next-Emits slot hl = if_open-Emits _ (search blocks)

-- The arms of a match.
arm_labels-Emits : {p : Bool} (arms : AstList) → Emits p (arm_labels arms) p
unfolding arm_labels
arm_labels-Emits nil = pure-Emits
arm_labels-Emits (cons n ns) =
    bind-Emits (newlbl-Emits _) λ l. bind-Emits (arm_labels-Emits ns) λ ls. pure-Emits

pub emit_binary-Emits :
    (op : FirOp) (type a b : Bytes)
    → is_term op ≡ false
    → Emits false (emit_binary op type a b) false
unfolding emit_binary
emit_binary-Emits op type a b h =
    bind_open newtmp-Emits λ dst. then_open (plain-Emits _ h) pure-Emits

compare_into-Emits :
    (dst type a b pred : Bytes) → Emits false (compare_into dst type a b pred) false
unfolding compare_into
compare_into-Emits dst type a b pred = plain-Emits _ refl

test_string-Emits : (mv : Bytes) (h : ArmHead) → Emits false (test_string mv h) false
unfolding test_string
test_string-Emits mv h = search blocks depth 60

test_variant-Emits : (mv mty : Bytes) (h : ArmHead) → Emits false (test_variant mv mty h) false
unfolding test_variant
test_variant-Emits mv mty h = search (blocks, emit_binary-Emits, compare_into-Emits) depth 60

test_range-Emits : (mv mty : Bytes) (h : ArmHead) → Emits false (test_range mv mty h) false
unfolding test_range
test_range-Emits mv mty h = search (blocks, emit_binary-Emits, compare_into-Emits) depth 60

test_value-Emits : (mv mty : Bytes) (h : ArmHead) → Emits false (test_value mv mty h) false
unfolding test_value
test_value-Emits mv mty h = search (blocks, compare_into-Emits) depth 60

emit_test_arm-Emits : (mv mty : Bytes) (h : ArmHead) → Emits false (emit_test_arm mv mty h) false
unfolding emit_test_arm
emit_test_arm-Emits mv mty h =
    search (blocks, test_string-Emits, test_variant-Emits, test_range-Emits, test_value-Emits)

bind_payload-Emits : (mv mty name : Bytes) → Emits false (bind_payload mv mty name) false
unfolding bind_payload
bind_payload-Emits mv mty name = search (blocks, emit_binary-Emits) depth 60

module _ {emit : Emit} (e : Emitting emit) where
  emit_else-Emits : (fl ml : Bytes) (els : AstNode) → Emits true (emit_else emit fl ml els) true
  unfolding emit_else
  emit_else-Emits fl ml els = search (blocks, emit_block-Emits) depth 60

  pub emit_if-Emits :
      (i : NodeInfo) (cond thn els : AstNode) → Emits false (emit_if emit i cond thn els) false
  unfolding emit_if
  emit_if-Emits i cond thn els =
      search (blocks, emit_cond-Emits, emit_block-Emits, emit_else-Emits) depth 60 fits 4000

  emit_test-Emits : (bl el : Bytes) (cond : AstNode) → Emits false (emit_test emit bl el cond) true
  unfolding emit_test
  emit_test-Emits bl el cond = search (blocks, emit_cond-Emits)

  pub emit_while-Emits :
      (i : NodeInfo) (cond body : AstNode) → Emits false (emit_while emit i cond body) false
  unfolding emit_while
  emit_while-Emits i cond body =
      search (blocks, emit_test-Emits, emit_block-Emits) depth 60 fits 4000

  pub emit_do_while-Emits :
      (i : NodeInfo) (cond body : AstNode) → Emits false (emit_do_while emit i cond body) false
  unfolding emit_do_while
  emit_do_while-Emits i cond body =
      search (blocks, emit_test-Emits, emit_block-Emits) depth 60 fits 4000

  emit_for_cond-Emits :
      (bl el : Bytes) (cond : AstNode) → Emits false (emit_for_cond emit bl el cond) true
  unfolding emit_for_cond
  emit_for_cond-Emits bl el cond = search (blocks, emit_test-Emits)

  emit_step-Emits : (step : AstNode) → Emits false (emit_step emit step) false
  unfolding emit_step
  emit_step-Emits step = search blocks

  pub emit_for_c-Emits :
      (i : NodeInfo) (init cond step body : AstNode)
      → Emits false (emit_for_c emit i init cond step body) false
  unfolding emit_for_c
  emit_for_c-Emits i init cond step body =
      search (blocks, emit_for_cond-Emits, emit_step-Emits, emit_block-Emits) depth 60 fits 6000

  emit_range-Emits : (iter : AstNode) → Emits false (emit_range emit iter) false
  unfolding emit_range
  emit_range-Emits no_node = none-Emits
  emit_range-Emits (node_binary i op left right) = search blocks depth 60
  emit_range-Emits n = bind_open (e.exprs n) λ r. pure-Emits

  pub emit_for_in-Emits :
      (i : NodeInfo) (var : Option Bytes) (iter body : AstNode)
      → Emits false (emit_for_in emit i var iter body) false
  unfolding emit_for_in
  emit_for_in-Emits i var iter body =
      search (blocks, emit_range-Emits, emit_next-Emits, define_index-Emits, emit_block-Emits) depth
        60 fits 6000

  emit_wildcard-Emits :
      (end_l label : Bytes) (body : AstNode)
      → Emits false (emit_wildcard emit end_l label body) true
  unfolding emit_wildcard
  emit_wildcard-Emits end_l label body = search blocks depth 60

  emit_tested-Emits :
      (mv mty end_l label : Bytes) (h : ArmHead) (body : AstNode)
      → Emits false (emit_tested emit mv mty end_l label h body) false
  unfolding emit_tested
  emit_tested-Emits mv mty end_l label h body =
      search (blocks, emit_test_arm-Emits, bind_payload-Emits) depth 60 fits 4000

  emit_arm-Emits :
      (mv mty end_l label : Bytes) (n : AstNode)
      → Emits false (emit_arm emit mv mty end_l label n) false
  unfolding emit_arm
  emit_arm-Emits mv mty end_l label (node_match_arm i h body) =
      bind_open
        (if-Emits h.is_wildcard (weaken-Emits (emit_wildcard-Emits end_l label body))
          (emit_tested-Emits mv mty end_l label h body))
        λ m. pure-Emits
  emit_arm-Emits mv mty end_l label n =
      then_ended (emit_br-Emits label) (then_open (new_block-Emits label) pure-Emits)

  emit_arms-Emits :
      (mv mty end_l : Bytes) (ls : List Bytes) (arms : AstList)
      → Emits false (emit_arms emit mv mty end_l ls arms) false
  unfolding emit_arms
  emit_arms-Emits mv mty end_l (l ∷ ls) (cons n ns) =
      bind_open (emit_arm-Emits mv mty end_l l n)
        λ m. bind_open (emit_arms-Emits mv mty end_l ls ns) λ ms. pure-Emits
  emit_arms-Emits mv mty end_l [] ns = pure-Emits
  emit_arms-Emits mv mty end_l (l ∷ ls) nil = pure-Emits

  pub emit_match-Emits :
      (i : NodeInfo) (expr : AstNode) (arms : AstList)
      → Emits false (emit_match emit i expr arms) false
  unfolding emit_match
  emit_match-Emits i expr arms =
      search (blocks, arm_labels-Emits, emit_arms-Emits) depth 60 fits 4000
