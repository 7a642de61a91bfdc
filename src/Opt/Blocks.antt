-- ===== src/Opt/Blocks.antt =====
-- src/feopt/opt.c: `remove_trailing_after_term` and `mark_dead_blocks`. The flags `dead` are a
-- function of the block's index while they are computed.
use fermi.Base.{
  ℕ, suc, ◌+◌, Bool, true, false, not, ◌&&◌, ◌||◌, List, [], ◌∷◌, Option, none, some, if◌then◌else◌,
  length, get_elem?, ◌==◌,
}
use fermi.Base.Loops.{while, for_range, any_below}
use fermi.Base.Text.{Bytes, str_eq}
use fermi.Fir.{
  FirOp, fir_br, fir_br_cond, fir_ret, fir_ret_void, fir_unreachable, FirInstr, FirBlock, last,
}

abbrev pub is_term : FirOp → Bool
is_term fir_br = true
is_term fir_br_cond = true
is_term fir_ret = true
is_term fir_ret_void = true
is_term fir_unreachable = true
is_term _ = false

-- The instructions up to the first that ends a block.
unfoldable pub cut_after_term : List FirInstr → List FirInstr
cut_after_term [] = []
cut_after_term (i ∷ is) = if is_term i.op then i ∷ [] else i ∷ cut_after_term is

unfoldable pub remove_trailing_after_term : FirBlock → FirBlock
unfolding cut_after_term
remove_trailing_after_term b = record b { instrs = cut_after_term b.instrs }

-- `strcmp(t->label, s) == 0` for a string that may be null.
abbrev pub names : Option Bytes → FirBlock → Bool
names none t = false
names (some s) t = str_eq t.label s

-- The two tests on the last instruction: `FIR_BR` with `src1`, and `FIR_BR_COND` with both labels.
abbrev pub both : Option Bytes → Option Bytes → FirBlock → Bool
both (some s) (some u) t = str_eq t.label s || str_eq t.label u
both _ _ t = false

abbrev pub op_targets : FirOp → FirInstr → FirBlock → Bool
op_targets fir_br i t = names i.src1 t
op_targets fir_br_cond i t = both i.src2 i.src3 t
op_targets _ i t = false

unfoldable pub jumps_to : FirBlock → FirBlock → Bool
unfolding str_eq
jumps_to b t = elim (last b.instrs) [ none ↦ false | some i ↦ op_targets i.op i t ]

-- The block at index `i` jumps to the one at `j`.
unfoldable pub edge : List FirBlock → ℕ → ℕ → Bool
unfolding jumps_to
edge bs i j = elim (get_elem? bs i) [
  | none ↦ false
  | some b ↦ elim (get_elem? bs j) [ none ↦ false | some t ↦ jumps_to b t ]
]

pub record Marks : Type 0 where
  pub dead : ℕ → Bool
  pub changed : Bool

-- One block of the loop: all dead targets of a block that is not dead become alive.
unfoldable pub visit : List FirBlock → ℕ → Marks → Marks
unfolding any_below
visit bs i m = if m.dead i then m else record {
  dead = λ j. m.dead j && not (edge bs i j);
  changed = any_below (length bs) (λ j. m.dead j && edge bs i j) || m.changed;
}

-- `changed = 0; for (b ...) ...`
unfoldable pub mark_round : List FirBlock → Marks → Marks
mark_round bs m = for_range (length bs) 0 (visit bs) (record { dead = m.dead; changed = false })

-- All blocks are dead but the entry.
abbrev pub initial_marks : Marks
initial_marks = record { dead = λ j. not (j == 0); changed = true }

-- `while (changed)`; each round but the last revives a block.
unfoldable pub mark_loop : List FirBlock → Marks
mark_loop bs = while (suc (length bs + 1)) (λ m. m.changed) (mark_round bs) initial_marks

unfoldable pub set_dead : (ℕ → Bool) → ℕ → List FirBlock → List FirBlock
set_dead dead i [] = []
set_dead dead i (b ∷ bs) = record b { dead = dead i } ∷ set_dead dead (i + 1) bs

unfoldable pub mark_dead_blocks : List FirBlock → List FirBlock
mark_dead_blocks bs = set_dead (mark_loop bs).dead 0 bs
