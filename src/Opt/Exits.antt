-- ===== src/Opt/Exits.antt =====
-- `simplify_br`: control leaves each block for the same label as before, and no branch on a constant
-- is left.
use fermi.Base.{
  ℕ, zero, suc, ◌≡◌, refl, ap, arith, Bool, true, false, not, List, [], ◌∷◌, Option, none, some,
  if◌then◌else◌, get_elem?, Bool-cases, inl, inr,
}
use fermi.Base.Int.{pos}
use fermi.Base.Text.{Bytes}
use fermi.Fir.{FirOp, fir_br, fir_br_cond, FirInstr, FirBlock, last}
use fermi.Opt.Const.{is_int_const, atoll}
use fermi.Opt.Fold.{eq_ℤ}
use fermi.Opt.Passes.{constant_branch, simplify_last, simplify_block, simplify_br}

-- Whether a condition holds: a constant if it is not 0, a name as the environment says.
abbrev pub holds : (Bytes → Bool) → Bytes → Bool
holds env s = if is_int_const (some s) then not (eq_ℤ (atoll s) (pos 0)) else env s

-- The label for which control leaves a block by its last instruction.
abbrev pub exit_by : (Bytes → Bool) → FirOp → FirInstr → Option Bytes
exit_by env fir_br i = i.src1
exit_by env fir_br_cond i = elim i.src1 [
  | none ↦ none
  | some c ↦ if holds env c then i.src2 else i.src3
]
exit_by env _ i = none

abbrev pub exit : (Bytes → Bool) → Option FirInstr → Option Bytes
exit env none = none
exit env (some i) = exit_by env i.op i

-- Whether it is a conditional branch on a constant.
abbrev pub is_decided_by : FirOp → FirInstr → Bool
is_decided_by fir_br_cond i = is_int_const i.src1
is_decided_by _ i = false

abbrev pub is_decided : Option FirInstr → Bool
is_decided none = false
is_decided (some i) = is_decided_by i.op i

-- The instructions in front of the last one.
unfoldable pub front : List FirInstr → List FirInstr
front [] = []
front (i ∷ []) = []
front (i ∷ j ∷ is) = i ∷ front (j ∷ is)

exit-constant_branch :
    (env : Bytes → Bool) (op : FirOp) (i : FirInstr)
    → i.op ≡ op
    → exit_by env (constant_branch op i).op (constant_branch op i) ≡ exit_by env op i
unfolding constant_branch
exit-constant_branch env fir_br_cond i e = ground arith
exit-constant_branch env _ i e = rw e refl

none_const : is_int_const none ≡ false
unfolding is_int_const
none_const = refl

is_decided-constant_branch :
    (op : FirOp) (i : FirInstr)
    → i.op ≡ op
    → is_decided_by (constant_branch op i).op (constant_branch op i) ≡ false
unfolding constant_branch
is_decided-constant_branch fir_br_cond i e = ground (arith, none_const)
is_decided-constant_branch _ i e = rw e refl

exit-simplify_last :
    (env : Bytes → Bool) (is : List FirInstr)
    → exit env (last (simplify_last is)) ≡ exit env (last is)
unfolding simplify_last
exit-simplify_last env [] = refl
exit-simplify_last env (i ∷ []) = exit-constant_branch env i.op i refl
exit-simplify_last env (i ∷ j ∷ []) = exit-simplify_last env (j ∷ [])
exit-simplify_last env (i ∷ j ∷ k ∷ is) = exit-simplify_last env (j ∷ k ∷ is)

is_decided-simplify_last : (is : List FirInstr) → is_decided (last (simplify_last is)) ≡ false
unfolding simplify_last
is_decided-simplify_last [] = refl
is_decided-simplify_last (i ∷ []) = is_decided-constant_branch i.op i refl
is_decided-simplify_last (i ∷ j ∷ []) = is_decided-simplify_last (j ∷ [])
is_decided-simplify_last (i ∷ j ∷ k ∷ is) = is_decided-simplify_last (j ∷ k ∷ is)

front-simplify_last : (is : List FirInstr) → front (simplify_last is) ≡ front is
unfolding simplify_last front
front-simplify_last [] = refl
front-simplify_last (i ∷ []) = refl
front-simplify_last (i ∷ j ∷ []) = refl
front-simplify_last (i ∷ j ∷ k ∷ is) = ap (λ js. i ∷ js) (front-simplify_last (j ∷ k ∷ is))

-- What simplifying does to a block.
pub record Simplified (b c : FirBlock) : Type 0 where
  pub same_label : c.label ≡ b.label
  pub same_dead : c.dead ≡ b.dead
  pub same_front : front c.instrs ≡ front b.instrs
  pub same_exit : (env : Bytes → Bool) → exit env (last c.instrs) ≡ exit env (last b.instrs)
  pub undecided : b.dead ≡ false → is_decided (last c.instrs) ≡ false
  pub dead_kept : b.dead ≡ true → c ≡ b

simplify_block-Simplified : (b : FirBlock) → Simplified b (simplify_block b)
unfolding simplify_block
simplify_block-Simplified b = elim (Bool-cases b.dead) [
  | inl e ↦ rw e (record {
    same_label = refl;
    same_dead = refl;
    same_front = refl;
    same_exit = λ env. refl;
    undecided = λ d. cc;
    dead_kept = λ d. refl;
  })
  | inr e ↦ rw e (record {
    same_label = refl;
    same_dead = refl;
    same_front = front-simplify_last b.instrs;
    same_exit = λ env. exit-simplify_last env b.instrs;
    undecided = λ d. is_decided-simplify_last b.instrs;
    dead_kept = λ d. cc;
  })
]

-- Each block stands where it stood, with its label, its dead flag and the instructions before its
-- last one. Whatever the names hold, control leaves it for the same label as before. A block that is
-- not dead does not end with a conditional branch on a constant any more; a dead one is as it was.
pub simplify_br-Simplified :
    (bs : List FirBlock) (i : ℕ) (b : FirBlock)
    → get_elem? bs i ≡ some b
    → (c : FirBlock) × (get_elem? (simplify_br bs) i ≡ some c) × Simplified b c
unfolding simplify_br
simplify_br-Simplified [] i b e = absurd cc
simplify_br-Simplified (a ∷ bs) zero b e =
    let same : a ≡ b = cc in (simplify_block b, rw same refl, simplify_block-Simplified b)
simplify_br-Simplified (a ∷ bs) (suc i) b e = simplify_br-Simplified bs i b e
