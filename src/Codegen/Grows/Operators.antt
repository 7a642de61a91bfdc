-- ===== src/Codegen/Grows/Operators.antt =====
-- Binary operators, compound assignments, objects and assignments.
use fermi.Base.{Bool, true, false, Option, none, some, if◌then◌else◌}
use fermi.Base.Text.{Bytes}
use fermi.Ast.{NodeInfo, AstNode}
use fermi.Codegen.{VarEntry, emit_br_cond}
use fermi.Codegen.Operators.{
  cmp_pred, emit_arith_op, emit_cmp, emit_operator, target_type, negate_if, is_concat, emit_logical,
  emit_concat, emit_pointer, emit_arith, emit_binary_expr, emit_target, emit_compound,
}
use fermi.Codegen.Types.{is_type, operand_type, type_for_op, is_float_type}
use fermi.Codegen.Nodes.{node_info}
use fermi.Codegen.Calls.{Emit}
use fermi.Codegen.Grows.{
  Emits, pure-Emits, bind-Emits, bind_open, then_open, if-Emits, option-Emits,
}
use fermi.Codegen.Grows.Steps.{newtmp-Emits, plain-Emits, emit_br_cond-Emits}
use fermi.Codegen.Grows.Calls.{ast_type_str-Emits, Emitting}
use fermi.Codegen.Grows.Values.{
  arith_op-plain, comparison-plain, compound_op-plain, ty_now-Emits, values,
}

operand_type-Emits : {p : Bool} (n : AstNode) → Emits p (operand_type n) p
operand_type-Emits n = option-Emits (node_info n) pure-Emits λ i. ast_type_str-Emits n

type_for_op-Emits : {p : Bool} (left right : AstNode) → Emits p (type_for_op left right) p
unfolding type_for_op
type_for_op-Emits left right =
    bind-Emits (operand_type-Emits left) λ l. bind-Emits (operand_type-Emits right) λ r. pure-Emits

emit_arith_op-Emits :
    (i : NodeInfo) (op ty dst lv rv : Bytes) (left right : AstNode)
    → Emits false (emit_arith_op i op ty dst lv rv left right) false
unfolding emit_arith_op
emit_arith_op-Emits i op ty dst lv rv left right = search (values, arith_op-plain)

emit_cmp-Emits :
    (i : NodeInfo) (op pred ty dst lv rv : Bytes) (left right : AstNode)
    → Emits false (emit_cmp i op pred ty dst lv rv left right) false
unfolding emit_cmp
emit_cmp-Emits i op pred ty dst lv rv left right =
    then_open (plain-Emits _ (comparison-plain (is_float_type ty))) pure-Emits

emit_operator-Emits :
    (i : NodeInfo) (op ty lv rv : Bytes) (left right : AstNode)
    → Emits false (emit_operator i op ty lv rv left right) false
unfolding emit_operator
emit_operator-Emits i op ty lv rv left right = bind_open newtmp-Emits λ dst.
    option-Emits (cmp_pred op (is_float_type ty)) (emit_arith_op-Emits i op ty dst lv rv left right)
      λ pred. emit_cmp-Emits i op pred ty dst lv rv left right

negate_if-Emits : (b : Bool) (v : Bytes) → Emits false (negate_if b v) false
unfolding negate_if
negate_if-Emits false v = pure-Emits
negate_if-Emits true v = search values

is_concat-Emits :
    {p : Bool} (op : Bytes) (left right : AstNode) → Emits p (is_concat op left right) p
unfolding is_concat
is_concat-Emits op left right =
    if-Emits (is_type op "+")
      (bind-Emits (ty_now-Emits left)
        λ lt. if-Emits _ pure-Emits (bind-Emits (ty_now-Emits right) λ rt. pure-Emits))
      pure-Emits

target_type-Emits :
    {p : Bool} (o : Option VarEntry) (left : AstNode) → Emits p (target_type o left) p
unfolding target_type
target_type-Emits none left = ast_type_str-Emits left
target_type-Emits (some x) left = pure-Emits

-- `&&` and `||`: the block before the branch ends with it.
short_branch-Emits :
    (b : Bool) (c s r : Bytes)
    → Emits false (if b then emit_br_cond c s r else emit_br_cond c r s) true
short_branch-Emits b c s r = if-Emits b (emit_br_cond-Emits c s r) (emit_br_cond-Emits c r s)

module _ {emit : Emit} (e : Emitting emit) where
  emit_logical-Emits :
      (i : NodeInfo) (op : Bytes) (left right : AstNode)
      → Emits false (emit_logical emit i op left right) false
  unfolding emit_logical
  emit_logical-Emits i op left right = search (values, short_branch-Emits) depth 60 fits 6000

  emit_concat-Emits :
      (i : NodeInfo) (op : Bytes) (left right : AstNode)
      → Emits false (emit_concat emit i op left right) false
  unfolding emit_concat
  emit_concat-Emits i op left right = search values depth 60

  emit_pointer-Emits :
      (i : NodeInfo) (op lv : Bytes) (left right : AstNode)
      → Emits false (emit_pointer emit i op lv left right) false
  unfolding emit_pointer
  emit_pointer-Emits i op lv left right = search (values, negate_if-Emits) depth 60

  emit_arith-Emits :
      (i : NodeInfo) (op : Bytes) (left right : AstNode)
      → Emits false (emit_arith emit i op left right) false
  unfolding emit_arith
  emit_arith-Emits i op left right =
      search (values, emit_pointer-Emits, type_for_op-Emits, emit_operator-Emits) depth 60 fits 4000

  pub emit_binary_expr-Emits :
      (i : NodeInfo) (op : Bytes) (left right : AstNode)
      → Emits false (emit_binary_expr emit i op left right) false
  unfolding emit_binary_expr
  emit_binary_expr-Emits i op left right =
      search (values, emit_logical-Emits, is_concat-Emits, emit_concat-Emits, emit_arith-Emits)

  emit_target-Emits :
      (o : Option VarEntry) (left : AstNode) → Emits false (emit_target emit o left) false
  unfolding emit_target
  emit_target-Emits none left = e.exprs left
  emit_target-Emits (some x) left = search values

  pub emit_compound-Emits :
      (i : NodeInfo) (op : Bytes) (left right : AstNode)
      → Emits false (emit_compound emit i op left right) false
  unfolding emit_compound
  emit_compound-Emits i op left right =
      search (values, emit_target-Emits, target_type-Emits, compound_op-plain) depth 60 fits 4000
