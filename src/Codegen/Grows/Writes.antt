-- ===== src/Codegen/Grows/Writes.antt =====
-- What is written to the blocks of the current function.
use fermi.Base.{
  ℕ, ◌≡◌, refl, ap, arith, Bool, true, List, Option, none, some, set, get_elem?-lt, length-set,
  get_elem?-set, get_elem?-set_other,
}
use fermi.Fir.{FirBlock, FirFn}
use fermi.Codegen.{Codegen, fns, with_fns, fn_at, on_blocks, put_blocks}
use fermi.Codegen.Grows.{
  are_sealed, blocks_of, blocks_now, Grown, context, Grows, Last, Leaves, Emits, refl-Grown,
}

-- A change of nothing but counters, variables and tables.
pub moved-Grows : (c d : Codegen) → fns d ≡ fns c → context d ≡ context c → Grows c d
moved-Grows c d e k = record { grown = rw e (refl-Grown c.cur_fn (fns c)); kept = k }

-- The current function, if another list of blocks is put into it.
fn_at-put_blocks :
    (fs : List FirFn) (k : Option ℕ) (f : FirFn) (bs : List FirBlock)
    → fn_at fs k ≡ some f
    → fn_at (put_blocks fs k f bs) k ≡ some (record f { blocks = bs })
fn_at-put_blocks fs none f bs e = absurd cc
fn_at-put_blocks fs (some k) f bs e = get_elem?-set fs k _ (get_elem?-lt fs k f e)

put_blocks-Grown :
    (fs : List FirFn) (k : Option ℕ) (f : FirFn) (bs : List FirBlock)
    → fn_at fs k ≡ some f
    → (are_sealed f.blocks ≡ true → are_sealed bs ≡ true)
    → Grown k fs (put_blocks fs k f bs)
unfolding blocks_of
put_blocks-Grown fs none f bs e s = absurd cc
put_blocks-Grown fs (some k) f bs e s =
    let new : FirFn = record f { blocks = bs } in
    record {
      longer = omega (arith, length-set fs k new);
      others = λ i h n. get_elem?-set_other fs k i new λ m. n (ap some m);
      added = λ i g h n r.
          absurd (omega (arith, length-set fs k new, get_elem?-lt (set fs k new) i g r));
      sealed =
          λ h. rw (fn_at-put_blocks fs (some k) f bs e, blocks_of) (s (rw (e, blocks_of) at h));
    }

-- What a change of the blocks leaves: all but the last one still end with a jump.
abbrev pub Wrote : Bool → List FirBlock → Option (List FirBlock) → Type 0
Wrote q bs none = Unit
Wrote q bs (some ds) = (are_sealed bs ≡ true → are_sealed ds ≡ true) × Last q ds

written :
    (q : Bool) (c : Codegen) (f : FirFn) (o : Option (List FirBlock))
    → fn_at (fns c) c.cur_fn ≡ some f
    → Wrote q f.blocks o
    → Leaves q c (elim o [
      | none ↦ none
      | some bs ↦ some (tt, with_fns c (put_blocks (fns c) c.cur_fn f bs))
    ])
unfolding blocks_of
written q c f none e x = tt
written q c f (some bs) e x = (
  record { grown = put_blocks-Grown (fns c) c.cur_fn f bs e x.0; kept = refl },
  rw (fn_at-put_blocks (fns c) c.cur_fn f bs e, blocks_of) x.1,
)

-- A change of the blocks, from states whose blocks are as `P` says.
module _ (P : List FirBlock → Type 0) (q : Bool) (g : List FirBlock → Option (List FirBlock)) where
  found :
      (c : Codegen) (o : Option FirFn)
      → fn_at (fns c) c.cur_fn ≡ o
      → P (blocks_of o)
      → ((bs : List FirBlock) → P bs → Wrote q bs (g bs))
      → Leaves q c (elim o [
        | none ↦ none
        | some f ↦ elim (g f.blocks) [
          | none ↦ none
          | some bs ↦ some (tt, with_fns c (put_blocks (fns c) c.cur_fn f bs))
        ]
      ])
  unfolding blocks_of
  found c none e h x = tt
  found c (some f) e h x = written q c f (g f.blocks) e (x f.blocks h)

  pub on_blocks-Leaves :
      ((bs : List FirBlock) → P bs → Wrote q bs (g bs))
      → (c : Codegen) → P (blocks_now c)
      → Leaves q c (on_blocks g c)
  unfolding on_blocks
  on_blocks-Leaves x c h = found c (fn_at (fns c) c.cur_fn) refl h x

pub on_blocks-Emits :
    (p q : Bool) (g : List FirBlock → Option (List FirBlock))
    → ((bs : List FirBlock) → Last p bs → Wrote q bs (g bs))
    → Emits p (on_blocks g) q
on_blocks-Emits p q g x = record { run = on_blocks-Leaves (Last p) q g x }
