-- ===== src/Opt/Branches.antt =====
-- `simplify_br` only takes jumps away: what was unreachable stays so.
use fermi.Base.{
  ℕ, zero, suc, ◌≢◌, ◌≡◌, refl, ◌∙◌, sym, ap, arith, Bool, true, false, List, [], ◌∷◌, Option, none,
  some, length, get_elem?, Bool-cases, inl, inr, Option-cases,
}
use fermi.Fir.{FirOp, fir_br, fir_br_cond, FirInstr, FirBlock, last}
use fermi.Opt.Blocks.{jumps_to, op_targets, edge}
use fermi.Opt.Passes.{constant_branch, simplify_last, simplify_block, simplify_br}
use fermi.Opt.Reach.{Reach, entry, jump}

-- A conditional branch that ends a block names both of its labels.
abbrev pub HasLabels : FirOp → FirInstr → Type 0
HasLabels fir_br_cond i = (i.src2 ≢ none) × (i.src3 ≢ none)
HasLabels _ i = Unit

abbrev LastHasLabels : Option FirInstr → Type 0
LastHasLabels none = Unit
LastHasLabels (some i) = HasLabels i.op i

abbrev pub WellFormed : List FirBlock → Type 0
WellFormed [] = Unit
WellFormed (b ∷ bs) = LastHasLabels (last b.instrs) × WellFormed bs

constant_branch-targets :
    (op : FirOp) (i : FirInstr) (t : FirBlock)
    → i.op ≡ op
    → HasLabels op i
    → op_targets (constant_branch op i).op (constant_branch op i) t ≡ true
    → op_targets op i t ≡ true
unfolding constant_branch
constant_branch-targets fir_br_cond i t e l h = ground arith
constant_branch-targets _ i t e l h = rw e at h

-- The targets of a block, by its last instruction.
last_targets : Option FirInstr → FirBlock → Bool
last_targets none t = false
last_targets (some i) t = op_targets i.op i t

last-simplify_last :
    (is : List FirInstr) (t : FirBlock)
    → LastHasLabels (last is)
    → last_targets (last (simplify_last is)) t ≡ true
    → last_targets (last is) t ≡ true
unfolding simplify_last last_targets
last-simplify_last [] t l h = h
last-simplify_last (i ∷ []) t l h = constant_branch-targets i.op i t refl l h
last-simplify_last (i ∷ j ∷ []) t l h = last-simplify_last (j ∷ []) t l h
last-simplify_last (i ∷ j ∷ k ∷ is) t l h = last-simplify_last (j ∷ k ∷ is) t l h

jumps_to-last_targets : (b t : FirBlock) → jumps_to b t ≡ last_targets (last b.instrs) t
unfolding jumps_to last_targets
jumps_to-last_targets b t = elim (Option-cases (last b.instrs)) [
  | inl e ↦ rw (e, jumps_to, last_targets)
  | inr (i, e) ↦ rw (e, jumps_to, last_targets)
]

-- Only the target's label counts.
last_targets_label :
    (o : Option FirInstr) (t u : FirBlock) → t.label ≡ u.label → last_targets o t ≡ last_targets o u
unfolding last_targets
last_targets_label none t u e = refl
last_targets_label (some i) t u e = op_targets_label i.op i t u e
  where
    op_targets_label :
        (op : FirOp) (i : FirInstr) (t u : FirBlock)
        → t.label ≡ u.label
        → op_targets op i t ≡ op_targets op i u
    op_targets_label fir_br i t u e = ground arith
    op_targets_label fir_br_cond i t u e = ground arith
    op_targets_label _ i t u e = refl

simplify_block-label : (b : FirBlock) → (simplify_block b).label ≡ b.label
unfolding simplify_block
simplify_block-label b = ground arith

simplify_block-jumps :
    (b t : FirBlock)
    → LastHasLabels (last b.instrs)
    → last_targets (last (simplify_block b).instrs) t ≡ true
    → last_targets (last b.instrs) t ≡ true
unfolding simplify_block
simplify_block-jumps b t l h = elim (Bool-cases b.dead) [
  | inl e ↦ rw e at h
  | inr e ↦ last-simplify_last b.instrs t l (rw e at h)
]

jumps_to-simplify_block :
    (b t : FirBlock)
    → LastHasLabels (last b.instrs)
    → jumps_to (simplify_block b) (simplify_block t) ≡ true
    → jumps_to b t ≡ true
jumps_to-simplify_block b t l h =
    jumps_to-last_targets b t
    ∙ simplify_block-jumps b t l (
        sym (
          last_targets_label (last (simplify_block b).instrs) (simplify_block t) t
            (simplify_block-label t))
        ∙ sym (jumps_to-last_targets (simplify_block b) (simplify_block t))
        ∙ h)

length-simplify_br : (bs : List FirBlock) → length (simplify_br bs) ≡ length bs
unfolding simplify_br
length-simplify_br [] = refl
length-simplify_br (b ∷ bs) = ap suc (length-simplify_br bs)

get_elem?-simplify_br :
    (bs : List FirBlock) (i : ℕ) {b : FirBlock}
    → WellFormed bs
    → get_elem? (simplify_br bs) i ≡ some b
    → (c : FirBlock) × (get_elem? bs i ≡ some c)
      × (b ≡ simplify_block c)
      × LastHasLabels (last c.instrs)
unfolding simplify_br
get_elem?-simplify_br [] i w h = cc
get_elem?-simplify_br (c ∷ bs) zero w h = (c, refl, cc, w.0)
get_elem?-simplify_br (c ∷ bs) (suc i) w h = get_elem?-simplify_br bs i w.1 h

-- The two blocks of an edge.
edge-blocks :
    (bs : List FirBlock) (i j : ℕ)
    → edge bs i j ≡ true
    → (b : FirBlock) × (t : FirBlock) × (get_elem? bs i ≡ some b)
      × (get_elem? bs j ≡ some t)
      × (jumps_to b t ≡ true)
unfolding edge
edge-blocks bs i j h = elim (Option-cases (get_elem? bs i)) [
  | inl e ↦ cc (rw (e, edge) at h)
  | inr (b, e) ↦ elim (Option-cases (get_elem? bs j)) [
    | inl f ↦ cc (rw (e, f, edge) at h)
    | inr (t, f) ↦ (b, t, e, f, rw (e, f, edge) at h)
  ]
]

edge-of_blocks :
    (bs : List FirBlock) (i j : ℕ) (b t : FirBlock)
    → get_elem? bs i ≡ some b
    → get_elem? bs j ≡ some t
    → jumps_to b t ≡ true
    → edge bs i j ≡ true
unfolding edge
edge-of_blocks bs i j b t e f h = rw (e, f, edge) h

edge-simplify_br :
    (bs : List FirBlock) (i j : ℕ)
    → WellFormed bs
    → edge (simplify_br bs) i j ≡ true
    → edge bs i j ≡ true
edge-simplify_br bs i j w h =
    let (b, t, bi, tj, jumps) = edge-blocks (simplify_br bs) i j h in
    let (c, ci, bc, lc) = get_elem?-simplify_br bs i w bi in
    let (u, uj, tu, lu) = get_elem?-simplify_br bs j w tj in
    edge-of_blocks bs i j c u ci uj (jumps_to-simplify_block c u lc (rw (bc, tu) at jumps))

-- Where each conditional branch that ends a block names both labels: a block that jumps reach
-- after `simplify_br` was reached before it.
Reach-simplify_br :
    (bs : List FirBlock) {j : ℕ} → WellFormed bs → Reach (simplify_br bs) j → Reach bs j
Reach-simplify_br bs w (entry e) = entry e
Reach-simplify_br bs w (jump {i} {j} r hi hj e) =
    jump (Reach-simplify_br bs w r) (omega (arith, length-simplify_br bs))
      (omega (arith, length-simplify_br bs)) (edge-simplify_br bs i j w e)
