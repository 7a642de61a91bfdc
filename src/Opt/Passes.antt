-- ===== src/Opt/Passes.antt =====
-- src/feopt/opt.c: the passes over instructions, blocks and functions, and `mir_opt`. `dse_block`
-- stands in the source and is called by nothing.
use fermi.Base.{
  ℕ, zero, suc, Bool, true, false, ◌&&◌, ◌||◌, List, [], ◌∷◌, map, Option, none, some,
  if◌then◌else◌, length, ltb,
}
use fermi.Base.Int.{pos}
use fermi.Base.Text.{Bytes, codes, str_eq}
use fermi.Fir.{
  FirOp, fir_alloca, fir_store, fir_load, fir_add, fir_fadd, fir_zext, fir_sext, fir_icmp, fir_br,
  fir_br_cond, FirInstr, FirBlock, FirFn, FirModule,
}
use fermi.Opt.Blocks.{remove_trailing_after_term, mark_dead_blocks}
use fermi.Opt.Const.{Doubles, is_int_const, atoll, print_lld, is_float_const, is_const_val}
use fermi.Opt.Defs.{Def, def_set, def_get, def_kill}
use fermi.Opt.Fold.{is_float_ty, float_constant, rewrite_int, identity, Rewrite, eq_ℤ, same_temp}

-- An instruction after one step of the loop, the table behind it, and `changed`.
pub record Folded : Type 0 where
  pub instr : FirInstr
  pub defs : List Def
  pub changed : Bool

abbrev pub kept : FirInstr → List Def → Folded
kept i ds = record { instr = i; defs = ds; changed = false }

abbrev pub rewritten : FirInstr → List Def → FirOp → Bytes → Bytes → Folded
rewritten i ds op a b = record {
  instr = record i { op = op; src1 = some a; src2 = some b };
  defs = ds;
  changed = true;
}

-- `FIR_STORE`: a constant is remembered for its variable, any other value forgotten.
unfoldable pub fold_store : Doubles → FirInstr → List Def → Folded
fold_store fl i ds = elim i.dst [
  | none ↦ kept i ds
  | some name ↦
      if is_const_val fl i.src1
      then elim i.src1 [ none ↦ kept i ds | some v ↦ kept i (def_set name v i.type ds) ]
      else kept i (def_kill name ds)
]

-- `FIR_LOAD` of a variable that holds a known constant becomes that constant plus 0.
unfoldable pub fold_load : FirInstr → List Def → Folded
fold_load i ds = elim i.src1 [
  | none ↦ kept i ds
  | some x ↦ elim (def_get x ds) [
    | none ↦ kept i ds
    | some cv ↦
        if is_float_ty i.type
        then rewritten i ds fir_fadd cv (codes "0.0")
        else rewritten i ds fir_add cv (codes "0")
  ]
]

apply_rewrite : FirInstr → List Def → Rewrite → Folded
apply_rewrite i ds none = kept i ds
apply_rewrite i ds (some (a, b)) = rewritten i ds fir_add a b

-- `strtod` of both operands, for a floating type.
unfoldable pub float_operands : Doubles → FirInstr → Bytes → Bytes → Option Bytes
float_operands fl i s1 s2 =
    if is_float_const fl (some s1) && is_float_const fl (some s2)
    then float_constant fl i.op (fl.strtod s1) (fl.strtod s2)
    else none

-- All other operations; constants are folded only where there is a destination.
unfoldable pub fold_operands : Doubles → FirInstr → List Def → Bytes → Bytes → Folded
unfolding apply_rewrite
fold_operands fl i ds s1 s2 = elim i.dst [
  | none ↦ apply_rewrite i ds (identity i.op s1 s2)
  | some d ↦
      if is_float_ty i.type
      then elim (float_operands fl i s1 s2) [
        | none ↦ apply_rewrite i ds (identity i.op s1 s2)
        | some r ↦ rewritten i ds fir_fadd r (codes "0.0")
      ]
      else apply_rewrite i ds (rewrite_int i.op s1 s2)
]

unfoldable pub fold_other : Doubles → FirInstr → List Def → Folded
fold_other fl i ds = elim i.src1 [
  | none ↦ kept i ds
  | some s1 ↦ elim i.src2 [ none ↦ kept i ds | some s2 ↦ fold_operands fl i ds s1 s2 ]
]

unfoldable pub fold_op : Doubles → FirOp → FirInstr → List Def → Folded
fold_op fl fir_alloca i ds = kept i ds
fold_op fl fir_store i ds = fold_store fl i ds
fold_op fl fir_load i ds = fold_load i ds
fold_op fl _ i ds = fold_other fl i ds

unfoldable pub fold_instrs : Doubles → List FirInstr → List Def → List FirInstr × Bool
fold_instrs fl [] ds = ([], false)
fold_instrs fl (i ∷ is) ds =
    let f = fold_op fl i.op i ds in
    let (rest, changed) = fold_instrs fl is f.defs in (f.instr ∷ rest, f.changed || changed)

unfoldable pub fold_block : Doubles → FirBlock → FirBlock × Bool
fold_block fl b =
    let (is, changed) = fold_instrs fl b.instrs [] in (record b { instrs = is }, changed)

-- The variables that a block loads, at most 1024 of them: `loads`.
max_loads : ℕ
max_loads = 1024

is_loaded : Bytes → List Bytes → Bool
is_loaded x [] = false
is_loaded x (y ∷ ys) = str_eq y x || is_loaded x ys

load_of : FirOp → FirInstr → Option Bytes
load_of fir_load i = i.src1
load_of _ i = none

collect_loads : List FirInstr → List Bytes → List Bytes
collect_loads [] xs = xs
collect_loads (i ∷ is) xs = collect_loads is (elim (load_of i.op i) [
  | none ↦ xs
  | some x ↦ if is_loaded x xs then xs else if ltb (length xs) max_loads then x ∷ xs else xs
])

store_of : FirOp → FirInstr → Option Bytes
store_of fir_store i = i.dst
store_of _ i = none

drop_stores : List Bytes → List FirInstr → List FirInstr
drop_stores xs [] = []
drop_stores xs (i ∷ is) =
    let rest = drop_stores xs is in
    elim (store_of i.op i) [ none ↦ i ∷ rest | some d ↦ if is_loaded d xs then i ∷ rest else rest ]

unfoldable pub dse_block : FirBlock → FirBlock
unfolding drop_stores collect_loads store_of load_of is_loaded max_loads
dse_block b = record b { instrs = drop_stores (collect_loads b.instrs []) b.instrs }

-- The two peepholes: an extension of a constant, and a temporary compared with itself.
unfoldable pub extend_const : FirInstr → FirInstr
extend_const i = elim i.src1 [
  | none ↦ i
  | some s ↦
      if is_int_const (some s)
      then record i { op = fir_add; src1 = some (print_lld (atoll s)); src2 = some (codes "0") }
      else i
]

opt_eq : Option Bytes → Bytes → Bool
opt_eq none t = false
opt_eq (some s) t = str_eq s t

both_same : Option Bytes → Option Bytes → Bool
both_same (some a) (some b) = same_temp a b
both_same _ _ = false

unfoldable pub compare_same : FirInstr → FirInstr
unfolding opt_eq both_same
compare_same i =
    if both_same i.src1 i.src2 && opt_eq i.src3 (codes "eq")
    then record i {
      op = fir_add;
      type = some (codes "i1");
      src1 = some (codes "1");
      src2 = some (codes "0");
    }
    else i

unfoldable pub peephole_op : FirOp → FirInstr → FirInstr
peephole_op fir_zext i = extend_const i
peephole_op fir_sext i = extend_const i
peephole_op fir_icmp i = compare_same i
peephole_op _ i = i

unfoldable pub peephole_block : FirBlock → FirBlock
peephole_block b = record b { instrs = map (λ i. peephole_op i.op i) b.instrs }

-- A conditional branch on a constant becomes a jump to the side that is taken.
unfoldable pub constant_branch : FirOp → FirInstr → FirInstr
constant_branch fir_br_cond i = elim i.src1 [
  | none ↦ i
  | some c ↦
      if is_int_const (some c)
      then record i {
        op = fir_br;
        src1 = if eq_ℤ (atoll c) (pos 0) then i.src3 else i.src2;
        src2 = none;
        src3 = none;
      }
      else i
]
constant_branch _ i = i

unfoldable pub simplify_last : List FirInstr → List FirInstr
simplify_last [] = []
simplify_last (i ∷ []) = constant_branch i.op i ∷ []
simplify_last (i ∷ j ∷ is) = i ∷ simplify_last (j ∷ is)

unfoldable pub simplify_block : FirBlock → FirBlock
simplify_block b = if b.dead then b else record b { instrs = simplify_last b.instrs }

unfoldable pub simplify_br : List FirBlock → List FirBlock
simplify_br [] = []
simplify_br (b ∷ bs) = simplify_block b ∷ simplify_br bs

-- One round of folding over the live blocks.
unfoldable pub fold_round : Doubles → List FirBlock → List FirBlock × Bool
fold_round fl [] = ([], false)
fold_round fl (b ∷ bs) =
    let (rest, changed) = fold_round fl bs in
    if b.dead
    then (b ∷ rest, changed)
    else ((fold_block fl b).0 ∷ rest, (fold_block fl b).1 || changed)

-- `for (iter = 0; iter < 16 && changed; iter++)`
unfoldable pub fold_rounds : Doubles → ℕ → List FirBlock → List FirBlock
fold_rounds fl zero bs = bs
fold_rounds fl (suc iter) bs = elim ((fold_round fl bs).1) [
  | true ↦ fold_rounds fl iter (fold_round fl bs).0
  | false ↦ (fold_round fl bs).0
]

unfoldable pub opt_fn : Doubles → FirFn → FirFn
opt_fn fl f =
    let cut = mark_dead_blocks (map remove_trailing_after_term f.blocks) in
    let folded = fold_rounds fl 16 cut in
    let peepholed = map (λ (b : FirBlock). if b.dead then b else peephole_block b) folded in
    record f { blocks = mark_dead_blocks (simplify_br peepholed) }

unfoldable pub mir_opt : Doubles → FirModule → FirModule
mir_opt fl m = record m { fns = map (opt_fn fl) m.fns }
