-- ===== src/Codegen/Grows/Values.antt =====
-- Names, operators, objects and assignments.
use fermi.Base.{ℕ, ◌≡◌, arith, Bool, false, Option, none, some, if◌then◌else◌}
use fermi.Base.Text.{Bytes, codes}
use fermi.Ast.{NodeInfo, AstNode, ty_long, node_ident}
use fermi.Fir.{FirOp, fir_fneg, fir_neg, fir_fcmp, fir_icmp}
use fermi.Base.Int.{ℤ}
use fermi.Opt.Const.{print_lld}
use fermi.Codegen.{◌>>=◌, VarEntry, EnumInfo, Codegen, emit_load, is_term}
use fermi.Codegen.Nodes.{node_info, with_ty}
use fermi.Codegen.Values.{
  emit_unary, value, ty_now, read_info, emit_sext, emit_variant_name, emit_global, emit_ident,
  emit_unary_op, emit_op_into, store_if, emit_increment,
}
use fermi.Codegen.Operators.{arith_op, or_nop, compound_op}
use fermi.Codegen.Calls.{Emit}
use fermi.Codegen.Grows.{
  blocks_now, Last, Leaves, Emits, refl-Grows, pure-Emits, bind_open, then_open, reads-Emits,
}
use fermi.Codegen.Grows.Steps.{plain-Emits, emit_load-Emits, quiet-Emits}
use fermi.Codegen.Grows.Calls.{Emitting}
use fermi.Codegen.Grows.Blocks.{blocks}

pub ty_now-Emits : {p : Bool} (n : AstNode) → Emits p (ty_now n) p
unfolding ty_now
ty_now-Emits n = quiet-Emits λ c q h. asked c q h (node_info n)
  where
    asked :
        (c : Codegen) (q : Bool)
        → Last q (blocks_now c)
        → (o : Option NodeInfo) → Leaves q c (elim o [ none ↦ none | some i ↦ some (i.ty, c) ])
    asked c q h none = tt
    asked c q h (some i) = (refl-Grows c, h)

pub emit_sext-Emits : (v from : Bytes) → Emits false (emit_sext v from) false
unfolding emit_sext
emit_sext-Emits v from = search blocks

emit_variant_name-Emits :
    (i : NodeInfo) (name : Bytes) (o : Option (ℕ × EnumInfo))
    → Emits false (emit_variant_name i name o) false
unfolding emit_variant_name
emit_variant_name-Emits i name none = pure-Emits
emit_variant_name-Emits i name (some v) = search (blocks, emit_sext-Emits)

emit_global-Emits : (i : NodeInfo) (name : Bytes) → Emits false (emit_global i name) false
unfolding emit_global
emit_global-Emits i name = search (blocks, emit_variant_name-Emits)

pub emit_ident-Emits : (i : NodeInfo) (name : Bytes) → Emits false (emit_ident i name) false
unfolding emit_ident
emit_ident-Emits i name =
    bind_open (reads-Emits _) λ constant. bind_open (reads-Emits _) λ entry. known constant entry
  where
    known :
        (o : Option ℤ) (x : Option VarEntry)
        → Emits false
            (elim o [
              | some z ↦ value (print_lld z) (node_ident (with_ty ty_long i) name)
              | none ↦ elim x [
                | some e ↦ do
                  v ← emit_load e.slot e.type
                  value v (node_ident (read_info e.type i) name)
                | none ↦ emit_global i name
              ]
            ])
            false
    known (some z) x = pure-Emits
    known none none = emit_global-Emits i name
    known none (some x) = bind_open (emit_load-Emits x.slot x.type) λ v. pure-Emits

-- Instructions with a given operation, which is no jump.
pub emit_unary_op-Emits :
    (op : FirOp) (dst type v : Bytes)
    → is_term op ≡ false
    → Emits false (emit_unary_op op dst type v) false
unfolding emit_unary_op
emit_unary_op-Emits op dst type v h = plain-Emits _ h

pub emit_op_into-Emits :
    (op : FirOp) (dst type a b : Bytes)
    → is_term op ≡ false
    → Emits false (emit_op_into op dst type a b) false
unfolding emit_op_into
emit_op_into-Emits op dst type a b h = plain-Emits _ h

pub store_if-Emits : (o : Option VarEntry) (v type : Bytes) → Emits false (store_if o v type) false
unfolding store_if
store_if-Emits none v type = pure-Emits
store_if-Emits (some x) v type = search blocks

emit_increment-Emits :
    (op : FirOp) (dst type v : Bytes) (operand : AstNode) (prefix : Bool)
    → is_term op ≡ false
    → Emits false (emit_increment op dst type v operand prefix) false
unfolding emit_increment
emit_increment-Emits op dst type v operand prefix h =
    then_open (emit_op_into-Emits op dst type v (codes "1") h) (search (blocks, store_if-Emits))

pub ruleset values =
    (blocks, ty_now-Emits, emit_sext-Emits, emit_unary_op-Emits, emit_op_into-Emits, store_if-Emits)

-- The operations of operators are no jumps.
negation-plain : (b : Bool) → is_term (if b then fir_fneg else fir_neg) ≡ false
negation-plain b = ground arith

pub arith_op-plain : (op : Bytes) (fl : Bool) → is_term (or_nop (arith_op op fl)) ≡ false
unfolding arith_op or_nop
arith_op-plain op fl = ground arith

pub comparison-plain : (b : Bool) → is_term (if b then fir_fcmp else fir_icmp) ≡ false
comparison-plain b = ground arith

pub compound_op-plain : (op : Bytes) (fl : Bool) → is_term (compound_op op fl) ≡ false
unfolding compound_op
compound_op-plain op fl = ground arith

module _ {emit : Emit} (e : Emitting emit) where
  pub emit_unary-Emits :
      (i : NodeInfo) (op : Bytes) (operand : AstNode) (prefix : Bool)
      → Emits false (emit_unary emit i op operand prefix) false
  unfolding emit_unary
  emit_unary-Emits i op operand prefix =
      search (values, emit_increment-Emits, negation-plain) depth 60 fits 6000
