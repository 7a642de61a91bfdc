-- ===== src/Codegen/Grows/Steps.antt =====
-- The basic steps of the generator: instructions, blocks, names and variables.
use fermi.Base.{
  length, ltb, ◌≡◌, refl, Bool, true, false, List, [], ◌∷◌, ◌++◌, Option, none, some, if◌then◌else◌,
  arith,
}
use fermi.Base.Text.{Bytes}
use fermi.Fir.{FirFn, FirInstr, FirBlock, last}
use fermi.Codegen.{
  VarEntry, pure, ◌>>=◌, Codegen, Gen, fns, fn_at, last_instr_is_term, newtmp, newlbl, new_block,
  last_ends, add_instr, emit_instr, is_term, ends_term, emit_alloca, emit_store, emit_load, emit_br,
  emit_br_cond,
}
use fermi.Codegen.Scope.{max_vars, var_def, var_def_mut}
use fermi.Codegen.Blocks.{if_open, br_if_open}
use fermi.Codegen.Grows.{
  blocks_now, blocks_of, Leaves, refl-Grows, are_sealed, Last, Emits, pure-Emits, bind-Emits,
  then-Emits, anyhow-Emits,
}
use fermi.Codegen.Grows.Writes.{Wrote, moved-Grows, on_blocks-Emits}

pub newtmp-Emits : {p : Bool} → Emits p newtmp p
newtmp-Emits = unfold newtmp in record { run = λ c h. (moved-Grows c _ refl refl, h) }

pub newlbl-Emits : {p : Bool} (prefix : Bytes) → Emits p (newlbl prefix) p
newlbl-Emits prefix = unfold newlbl in record { run = λ c h. (moved-Grows c _ refl refl, h) }

-- A new block may only follow one that ends with a jump.
sealed-snoc :
    (bs : List FirBlock) (b : FirBlock)
    → last_ends bs ≡ true
    → are_sealed bs ≡ true
    → are_sealed (bs ++ b ∷ []) ≡ true
unfolding are_sealed last_ends
sealed-snoc [] b e s = refl
sealed-snoc (d ∷ []) b e s = rw e refl
sealed-snoc (d ∷ x ∷ bs) b e s = ground (arith, sealed-snoc (x ∷ bs) b e)

pub new_block-Emits : (label : Bytes) → Emits true (new_block label) false
new_block-Emits label =
    unfold new_block in on_blocks-Emits true false _ λ bs e. (sealed-snoc bs _ e, tt)

last-snoc : (is : List FirInstr) (i : FirInstr) → last (is ++ i ∷ []) ≡ some i
last-snoc [] i = refl
last-snoc (j ∷ []) i = refl
last-snoc (j ∷ k ∷ is) i = last-snoc (k ∷ is) i

ends_term-snoc :
    (b : FirBlock) (i : FirInstr)
    → ends_term (record b { instrs = b.instrs ++ i ∷ [] }) ≡ is_term i.op
unfolding ends_term
ends_term-snoc b i = rw (last-snoc b.instrs i, ends_term) refl

-- The blocks behind a further instruction: those before the last one are as they were, and whether
-- the last one ends with a jump is the instruction's.
Written : FirInstr → List FirBlock → Option (List FirBlock) → Type 0
Written i bs none = Unit
Written i bs (some []) = ⊥
Written i bs (some (d ∷ ds)) =
    (are_sealed bs ≡ true → are_sealed (d ∷ ds) ≡ true) × (last_ends (d ∷ ds) ≡ is_term i.op)

behind :
    (i : FirInstr) (b d : FirBlock) (bs : List FirBlock) (o : Option (List FirBlock))
    → Written i (d ∷ bs) o
    → Written i (b ∷ d ∷ bs) (elim o [ none ↦ none | some rest ↦ some (b ∷ rest) ])
unfolding Written are_sealed last_ends
behind i b d bs none w = tt
behind i b d bs (some []) w = absurd w
behind i b d bs (some (x ∷ xs)) w = (λ s. ground (arith, w.0), w.1)

add_instr-Written : (i : FirInstr) (bs : List FirBlock) → Written i bs (add_instr i bs)
unfolding add_instr Written are_sealed last_ends
add_instr-Written i [] = tt
add_instr-Written i (b ∷ []) = (λ s. refl, ends_term-snoc b i)
add_instr-Written i (b ∷ d ∷ bs) =
    behind i b d bs (add_instr i (d ∷ bs)) (add_instr-Written i (d ∷ bs))

Last-of : (q : Bool) (bs : List FirBlock) → last_ends bs ≡ q → Last q bs
Last-of false bs e = tt
Last-of true bs e = e

Written-Wrote :
    (i : FirInstr) (bs : List FirBlock) (o : Option (List FirBlock))
    → Written i bs o
    → Wrote (is_term i.op) bs o
unfolding Written
Written-Wrote i bs none w = tt
Written-Wrote i bs (some []) w = absurd w
Written-Wrote i bs (some (d ∷ ds)) w = (w.0, Last-of (is_term i.op) (d ∷ ds) w.1)

pub emit_instr-Emits : (i : FirInstr) → Emits false (emit_instr i) (is_term i.op)
emit_instr-Emits i =
    unfold emit_instr in
    on_blocks-Emits false _ _ λ bs h. Written-Wrote i bs _ (add_instr-Written i bs)

-- An instruction that is no jump, and one that is.
pub plain-Emits : {p : Bool} (i : FirInstr) → is_term i.op ≡ false → Emits p (emit_instr i) false
plain-Emits i e = anyhow-Emits (rw e at (emit_instr-Emits i))

pub jump-Emits : {p : Bool} (i : FirInstr) → is_term i.op ≡ true → Emits p (emit_instr i) true
jump-Emits i e = anyhow-Emits (rw e at (emit_instr-Emits i))

pub emit_alloca-Emits : {p : Bool} (dst type : Bytes) → Emits p (emit_alloca dst type) false
emit_alloca-Emits dst type = unfold emit_alloca in plain-Emits _ refl

pub emit_store-Emits : {p : Bool} (v slot type : Bytes) → Emits p (emit_store v slot type) false
emit_store-Emits v slot type = unfold emit_store in plain-Emits _ refl

pub emit_load-Emits : {p : Bool} (slot type : Bytes) → Emits p (emit_load slot type) false
unfolding emit_load
emit_load-Emits slot type =
    bind-Emits newtmp-Emits λ dst. then-Emits (plain-Emits _ refl) pure-Emits

pub emit_br-Emits : {p : Bool} (label : Bytes) → Emits p (emit_br label) true
emit_br-Emits label = unfold emit_br in jump-Emits _ refl

pub emit_br_cond-Emits : {p : Bool} (cond t f : Bytes) → Emits p (emit_br_cond cond t f) true
emit_br_cond-Emits cond t f = unfold emit_br_cond in jump-Emits _ refl

-- A step that changes nothing but counters, variables and tables.
pub quiet-Emits :
    {A : Type 0} {p : Bool} {m : Gen A}
    → ((c : Codegen) (q : Bool) → Last q (blocks_now c) → Leaves q c (m c))
    → Emits p m p
quiet-Emits {p = p} x = record { run = λ c h. x c p h }

pub last_instr_is_term-Emits : {p : Bool} → Emits p last_instr_is_term p
unfolding last_instr_is_term
last_instr_is_term-Emits = quiet-Emits λ c q h. asked c q h (fn_at (fns c) c.cur_fn)
  where
    asked :
        (c : Codegen) (q : Bool)
        → Last q (blocks_now c)
        → (o : Option FirFn)
        → Leaves q c (elim o [ none ↦ none | some f ↦ some (last_ends f.blocks, c) ])
    asked c q h none = tt
    asked c q h (some f) = (refl-Grows c, h)

-- Behind a step that is taken where a block is still open, it ends with a jump.
module _ (m : Gen Unit) (x : Emits false m true) (c : Codegen) where
  chosen :
      (f : FirFn) (b : Bool)
      → fn_at (fns c) c.cur_fn ≡ some f
      → last_ends f.blocks ≡ b
      → Leaves true c ((if b then pure tt else m) c)
  unfolding blocks_of
  chosen f true e h = (refl-Grows c, rw (e, blocks_of) h)
  chosen f false e h = x.run c tt

  opened :
      (o : Option FirFn)
      → fn_at (fns c) c.cur_fn ≡ o
      → Leaves true c
          (elim (elim o as (λ _. Option (Bool × Codegen)) [
            | none ↦ none
            | some f ↦ some (last_ends f.blocks, c)
          ]) [ none ↦ none | some r ↦ (if r.0 then pure tt else m) r.1 ])
  opened none e = tt
  opened (some f) e = chosen f (last_ends f.blocks) e refl

pub if_open-Emits : {p : Bool} (m : Gen Unit) → Emits false m true → Emits p (if_open m) true
unfolding if_open last_instr_is_term ◌>>=◌
if_open-Emits m x = record { run = λ c h. opened m x c (fn_at (fns c) c.cur_fn) refl }

pub br_if_open-Emits : {p : Bool} (label : Bytes) → Emits p (br_if_open label) true
br_if_open-Emits label = unfold br_if_open in if_open-Emits _ (emit_br-Emits label)

added :
    (e : VarEntry) (c : Codegen) (q : Bool)
    → Last q (blocks_now c)
    → (b : Bool) → Leaves q c (some (tt, if b then record c { vars = e ∷ c.vars } else c))
added e c q h true = (moved-Grows c _ refl refl, h)
added e c q h false = (refl-Grows c, h)

pub var_def-Emits : {p : Bool} (name type slot : Bytes) → Emits p (var_def name type slot) p
unfolding var_def
var_def-Emits name type slot = quiet-Emits λ c q h. added _ c q h (ltb (length c.vars) max_vars)

pub var_def_mut-Emits : {p : Bool} (name type slot : Bytes) → Emits p (var_def_mut name type slot) p
unfolding var_def_mut
var_def_mut-Emits name type slot = quiet-Emits λ c q h. added _ c q h (ltb (length c.vars) max_vars)
