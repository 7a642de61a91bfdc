-- ===== src/Runtime/Region.antt =====
-- rt/fermi_rt.c, the regions: a stack of at most 32 lists of blocks. `malloc`'s result is an argument,
-- and what `fe_region_pop` gives to `free` is a result.
use mathlib.Core.List.{append-nil}
use fermi.Base.{
  ℕ, ◌+◌, ◌-◌, ◌<◌, ◌≡◌, refl, ap, ◌∙◌, arith, true, List, [], ◌∷◌, ◌++◌, if◌then◌else◌, ltb, ◌==◌,
}

abbrev pub max_region_depth : ℕ
max_region_depth = 32

pub record Regions : Type 0 where
  pub heads : ℕ → List ℕ
  pub depth : ℕ

-- `fe_region_heads[i] = blocks`
unfoldable pub set_head : Regions → ℕ → List ℕ → Regions
set_head r i blocks = record r { heads = λ j. if j == i then blocks else r.heads j }

unfoldable pub fe_region_push : Regions → Regions
fe_region_push r =
    if ltb r.depth max_region_depth
    then record (set_head r r.depth []) { depth = r.depth + 1 }
    else r

-- The node of the block `p`, if a region is open.
unfoldable pub fe_region_alloc : ℕ → Regions → Regions
fe_region_alloc p r =
    if ltb 0 r.depth then set_head r (r.depth - 1) (p ∷ r.heads (r.depth - 1)) else r

-- The blocks that are freed, in order.
unfoldable pub fe_region_pop : Regions → List ℕ × Regions
fe_region_pop r =
    if ltb 0 r.depth then (r.heads (r.depth - 1), record r { depth = r.depth - 1 }) else ([], r)

-- Allocations one after the other; `ps` has the last one first.
pub alloc_all : List ℕ → Regions → Regions
alloc_all [] r = r
alloc_all (p ∷ ps) r = fe_region_alloc p (alloc_all ps r)

-- What allocations do to an open region.
record Allocated (r : Regions) (ps : List ℕ) (s : Regions) : Type 0 where
  same_depth : s.depth ≡ r.depth
  top : s.heads (r.depth - 1) ≡ ps ++ r.heads (r.depth - 1)
  below : (j : ℕ) → j < r.depth - 1 → s.heads j ≡ r.heads j

fe_region_alloc-Allocated :
    (p : ℕ) (ps : List ℕ) (r s : Regions)
    → 0 < r.depth
    → Allocated r ps s
    → Allocated r (p ∷ ps) (fe_region_alloc p s)
unfolding fe_region_alloc set_head
fe_region_alloc-Allocated p ps r s h a =
    let open_region : ltb 0 s.depth ≡ true = ground (arith, a.same_depth) in
    rw (open_region, a.same_depth)
      (record {
        same_depth = refl;
        top = ground (arith, a.top);
        below = λ j l. ground (arith, a.below j l);
      })

alloc_all-Allocated : (ps : List ℕ) (r : Regions) → 0 < r.depth → Allocated r ps (alloc_all ps r)
unfolding alloc_all
alloc_all-Allocated [] r h = record { same_depth = refl; top = refl; below = λ j l. refl }
alloc_all-Allocated (p ∷ ps) r h =
    fe_region_alloc-Allocated p ps r (alloc_all ps r) h (alloc_all-Allocated ps r h)

push-depth : (r : Regions) → r.depth < max_region_depth → (fe_region_push r).depth ≡ r.depth + 1
unfolding fe_region_push set_head
push-depth r h = ground arith

push-top : (r : Regions) → r.depth < max_region_depth → (fe_region_push r).heads r.depth ≡ []
unfolding fe_region_push set_head
push-top r h = ground arith

push-below : (r : Regions) (j : ℕ) → j < r.depth → (fe_region_push r).heads j ≡ r.heads j
unfolding fe_region_push set_head
push-below r j h = ground arith

-- A region that is opened, filled and closed.
abbrev pub closed : Regions → List ℕ → List ℕ × Regions
closed r ps = fe_region_pop (alloc_all ps (fe_region_push r))

-- With fewer than 32 regions open: after opening a region and allocating blocks, closing it frees
-- exactly these blocks, the last one first, and the depth is what it was.
pub fe_region_pop-push :
    (r : Regions) (ps : List ℕ)
    → r.depth < max_region_depth
    → ((closed r ps).0 ≡ ps) × ((closed r ps).1.depth ≡ r.depth)
unfolding fe_region_pop
fe_region_pop-push r ps h =
    let d = push-depth r h in
    let a = alloc_all-Allocated ps (fe_region_push r) (omega (arith, d)) in
    let s = alloc_all ps (fe_region_push r) in
    let open_region : ltb 0 s.depth ≡ true = ground (arith, a.same_depth, d) in
    let head : s.depth - 1 ≡ r.depth = omega (arith, a.same_depth, d) in
    let index : (fe_region_push r).depth - 1 ≡ r.depth = omega (arith, d) in
    let top : s.heads r.depth ≡ ps ++ (fe_region_push r).heads r.depth = rw index at a.top in
    rw (open_region, head) (top ∙ ap (λ bs. ps ++ bs) (push-top r h) ∙ append-nil ps, refl)

-- With fewer than 32 regions open: opening a region, allocating blocks and closing it leaves the
-- blocks of each outer region as they were.
pub fe_region_pop-outer :
    (r : Regions) (ps : List ℕ) (j : ℕ)
    → r.depth < max_region_depth
    → j < r.depth
    → (closed r ps).1.heads j ≡ r.heads j
unfolding fe_region_pop
fe_region_pop-outer r ps j h l =
    let d = push-depth r h in
    let a = alloc_all-Allocated ps (fe_region_push r) (omega (arith, d)) in
    ground (arith, a.below j (omega (arith, d)), push-below r j l)

-- With 32 regions open, opening one more does nothing: closing it frees the blocks of the region
-- that is still in use.
pub fe_region_pop-full :
    (r : Regions) → r.depth ≡ max_region_depth → (fe_region_pop (fe_region_push r)).0 ≡ r.heads 31
unfolding fe_region_pop fe_region_push
fe_region_pop-full r h = ground (arith, h)
