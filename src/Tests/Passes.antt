-- ===== src/Tests/Passes.antt =====
-- The optimizer on short functions.
use fermi.Base.{
  get_elem?, ℕ, ◌^◌, ◌≡◌, ◌↔◌, refl, true, false, ◌&&◌, ◌||◌, none, some, List, [], ◌∷◌, Option,
  if◌then◌else◌, ltb, length,
}
use fermi.Base.Loops.{while, for_range, any_below}
use fermi.Base.Text.{Bytes, codes, str_eq}
use fermi.Fir.{FirOp, fir_br_cond, fir_ret, fir_mul, FirInstr, FirBlock}
use fermi.Opt.Blocks.{edge, jumps_to, mark_dead_blocks, mark_loop, mark_round, visit, set_dead}
use fermi.Opt.Passes.{simplify_br}
use fermi.Opt.Exits.{Simplified, simplify_br-Simplified}
use fermi.Opt.Defs.{Def, find, def_get, def_kill, def_set, max_defs}
use fermi.Opt.Defs.Laws.{Unique, is_some, def_kill_lem, def_set_lem}
use fermi.Opt.Fold.{rewrite_int}
use fermi.Opt.Reach.{Reach, mark_dead_blocks_iff}
use fermi.Opt.Sound.{Means, result, rewrite_int-Means}

abbrev instr : FirOp → Option Bytes → Option Bytes → Option Bytes → FirInstr
instr op s1 s2 s3 = record {
  op = op;
  dst = none;
  type = none;
  src1 = s1;
  src2 = s2;
  src3 = s3;
  args = [];
  arg_types = [];
  is_tail = false;
}

abbrev block : Bytes → FirInstr → FirBlock
block label i = record { label = label; instrs = i ∷ []; dead = false }

-- A branch on 1 to the second block, over the third.
abbrev blocks : List FirBlock
blocks =
    block (codes "a") (instr fir_br_cond (some (codes "1")) (some (codes "b")) (some (codes "b")))
    ∷ block (codes "b") (instr fir_ret none none none)
    ∷ block (codes "c") (instr fir_ret none none none)
    ∷ []

program : Unit {0}
unfolding for_range any_below while set_dead edge jumps_to visit mark_round mark_loop
    mark_dead_blocks str_eq
program = tt

mark_dead_blocks_iff_example : (true ≡ false) ↔ Reach blocks 2
mark_dead_blocks_iff_example =
    mark_dead_blocks_iff blocks 2
      (record (block (codes "c") (instr fir_ret none none none)) { dead = true })
      (unfold program in refl)

abbrev branch : FirBlock
branch =
    block (codes "a") (instr fir_br_cond (some (codes "0")) (some (codes "b")) (some (codes "c")))

simplify_br-Simplified_example :
    (c : FirBlock) × (get_elem? (simplify_br (branch ∷ blocks)) 0 ≡ some c) × Simplified branch c
simplify_br-Simplified_example = simplify_br-Simplified (branch ∷ blocks) 0 branch refl

env : Bytes → ℕ
env _ = 5

rewrite_int-Means_example :
    Means
      (2 ^ 32)
      (2 ^ 32)
      refl
      env
      (rewrite_int fir_mul (codes "%t1") (codes "2"))
      (result (2 ^ 32) (2 ^ 32) refl env fir_mul (codes "%t1") (codes "2"))
rewrite_int-Means_example =
    rewrite_int-Means (2 ^ 32) (2 ^ 32) refl env fir_mul (codes "%t1") (codes "2") tt

abbrev table : List Def
table =
    record { name = codes "x"; val = codes "1"; type = none }
    ∷ record { name = codes "y"; val = codes "2"; type = none }
    ∷ []

table-Unique : Unique table
unfolding find str_eq
table-Unique = (refl, (refl, tt))

def_kill_lem_example :
    Unique (def_kill (codes "x") table)
    × (def_get (codes "y") (def_kill (codes "x") table)
        ≡ (if str_eq (codes "x") (codes "y") then none else def_get (codes "y") table))
def_kill_lem_example = def_kill_lem (codes "x") (codes "y") table table-Unique

def_set_lem_example :
    Unique (def_set (codes "x") (codes "3") none table)
    × (def_get (codes "x") (def_set (codes "x") (codes "3") none table) ≡ (
        if str_eq (codes "x") (codes "x")
          && (is_some (def_get (codes "x") table) || ltb (length table) max_defs)
        then some (codes "3")
        else def_get (codes "x") table))
def_set_lem_example = def_set_lem (codes "x") (codes "3") (codes "x") none table table-Unique
