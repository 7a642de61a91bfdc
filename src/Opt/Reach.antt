-- ===== src/Opt/Reach.antt =====
-- `mark_dead_blocks` leaves alive exactly the blocks that jumps reach from the entry.
use fermi.Base.{
  ℕ, zero, suc, ◌+◌, ◌≤◌, ◌<◌, ◌≡◌, inl, inr, refl, arith, Bool, true, false, ◌&&◌, List, [], ◌∷◌,
  if◌then◌else◌, length, ◌==◌, Bool-cases, ◌↔◌, sym, ap, ◌∙◌, some, get_elem?,
}
use fermi.Base.Loops.{
  while_keeps, while_ends, for_range_keeps, any_below-false, count_below, count_below-le,
  count_below-lt, count_below_bound,
}
use fermi.Fir.{FirBlock}
use fermi.Opt.Blocks.{
  edge, Marks, visit, mark_round, initial_marks, mark_loop, set_dead, mark_dead_blocks,
}

-- Jumps lead from the first block to the one at an index.
pub data Reach (bs : List FirBlock) : ℕ → Type 0 where
  entry : {j : ℕ} → j ≡ 0 → Reach bs j
  jump : {i j : ℕ} → Reach bs i → i < length bs → j < length bs → edge bs i j ≡ true → Reach bs j

module _ (bs : List FirBlock) where
  -- Every block that is not dead is reached.
  abbrev Sound : Marks → Type 0
  Sound m = (j : ℕ) → j < length bs → m.dead j ≡ false → Reach bs j

  visit-Sound : (i : ℕ) (m : Marks) → i < length bs → Sound m → Sound (visit bs i m)
  unfolding visit
  visit-Sound i m h s j hj e = elim (Bool-cases (m.dead i)) [
    | inl d ↦ s j hj (rw d at e)
    | inr d ↦ elim (Bool-cases (m.dead j)) [
      | inr live ↦ s j hj live
      | inl was ↦ jump (s i h d) h hj (ground arith)
    ]
  ]

  mark_round-Sound : (m : Marks) → Sound m → Sound (mark_round bs m)
  unfolding mark_round
  mark_round-Sound m s =
      for_range_keeps (λ i m. Sound m) (length bs) (visit bs) visit-Sound (length bs) 0
        (record { dead = m.dead; changed = false }) (omega arith) s

  -- A round that changes nothing has seen every jump of the blocks below `i` go to a live block.
  abbrev ClosedBelow : ℕ → Marks → Type 0
  ClosedBelow i m =
      m.changed ≡ false
      → (a b : ℕ) → a < i
      → b < length bs
      → m.dead a ≡ false
      → edge bs a b ≡ true
      → m.dead b ≡ false

  visit-unchanged :
      (i : ℕ) (m : Marks) (b : ℕ)
      → (visit bs i m).changed ≡ false
      → b < length bs
      → (m.changed ≡ false)
        × ((visit bs i m).dead b ≡ m.dead b)
        × (m.dead i ≡ false → edge bs i b ≡ true → m.dead b ≡ false)
  unfolding visit
  visit-unchanged i m b e h =
      ground (arith, any_below-false (length bs) (λ j. m.dead j && edge bs i j) b)

  visit-ClosedBelow :
      (i : ℕ) (m : Marks) → i < length bs → ClosedBelow i m → ClosedBelow (i + 1) (visit bs i m)
  visit-ClosedBelow i m h c e a b ha hb da ab =
      let atb = visit-unchanged i m b e hb in
      let ata = visit-unchanged i m a e (omega arith) in
      elim (Bool-cases (a == i)) [
        | inl same ↦
            let q : a ≡ i = ground arith in atb.1 ∙ atb.2 (rw (← q) (sym ata.1 ∙ da)) (rw (← q) ab)
        | inr other ↦ atb.1 ∙ c atb.0 a b (ground arith) hb (sym ata.1 ∙ da) ab
      ]

  mark_round-Closed : (m : Marks) → ClosedBelow (length bs) (mark_round bs m)
  unfolding mark_round
  mark_round-Closed m =
      for_range_keeps ClosedBelow (length bs) (visit bs) visit-ClosedBelow (length bs) 0
        (record { dead = m.dead; changed = false }) (omega arith) (λ e a b ha. absurd (omega arith))

  -- A round that changes something leaves fewer dead blocks.
  abbrev Fewer : ℕ → Marks → Type 0
  Fewer n m =
      (count_below (length bs) m.dead ≤ n) × (m.changed ≡ true → count_below (length bs) m.dead < n)

  visit-Fewer : (n i : ℕ) (m : Marks) → Fewer n m → Fewer n (visit bs i m)
  unfolding visit
  visit-Fewer n i m f = ground (
    arith,
    count_below-le (length bs) m.dead (edge bs i),
    count_below-lt (length bs) m.dead (edge bs i),
  )

  mark_round-Fewer : (m : Marks) → Fewer (count_below (length bs) m.dead) (mark_round bs m)
  unfolding mark_round
  mark_round-Fewer m =
      for_range_keeps (λ i t. Fewer (count_below (length bs) m.dead) t) (length bs) (visit bs)
        (λ i t h. visit-Fewer (count_below (length bs) m.dead) i t) (length bs) 0
        (record { dead = m.dead; changed = false }) (omega arith) (omega arith, λ e. cc)

  -- The number of rounds left.
  rounds_left : Marks → ℕ
  rounds_left m = if m.changed then count_below (length bs) m.dead + 1 else 0

  mark_round-shorter :
      (m : Marks) → m.changed ≡ true → rounds_left (mark_round bs m) < rounds_left m
  unfolding rounds_left
  mark_round-shorter m e = ground (arith, mark_round-Fewer m)

  -- The loop ends because a round changed nothing, within the rounds that it is given.
  mark_loop-stops : (mark_loop bs).changed ≡ false
  unfolding mark_loop rounds_left
  mark_loop-stops =
      while_ends rounds_left (λ m. m.changed) (mark_round bs) mark_round-shorter
        (suc (length bs + 1)) initial_marks
        (omega (arith, count_below_bound (length bs) initial_marks.dead))

  -- What holds in the loop: sound marks, a live entry, and no jump left out where nothing changed.
  record Inv (m : Marks) : Type 0 where
    sound : Sound m
    closed : ClosedBelow (length bs) m
    entry_live : m.dead 0 ≡ false

  visit-entry : (i : ℕ) (m : Marks) → m.dead 0 ≡ false → (visit bs i m).dead 0 ≡ false
  unfolding visit
  visit-entry i m e = ground arith

  mark_round-entry : (m : Marks) → m.dead 0 ≡ false → (mark_round bs m).dead 0 ≡ false
  unfolding mark_round
  mark_round-entry m e =
      for_range_keeps (λ i t. t.dead 0 ≡ false) (length bs) (visit bs) (λ i t h. visit-entry i t)
        (length bs) 0 (record { dead = m.dead; changed = false }) (omega arith) e

  mark_loop-Inv : Inv (mark_loop bs)
  unfolding mark_loop
  mark_loop-Inv =
      while_keeps Inv (λ m. m.changed) (mark_round bs)
        (λ m v e. record {
          sound = mark_round-Sound m v.sound;
          closed = mark_round-Closed m;
          entry_live = mark_round-entry m v.entry_live;
        })
        (suc (length bs + 1)) initial_marks
        (record { sound = λ j h e. entry (ground arith); closed = λ e. cc; entry_live = refl })

  Reach-live : {j : ℕ} → Reach bs j → (mark_loop bs).dead j ≡ false
  Reach-live (entry e) = rw e mark_loop-Inv.entry_live
  Reach-live (jump {i} {j} r hi hj e) =
      mark_loop-Inv.closed mark_loop-stops i j hi hj (Reach-live r) e

  -- A block is left alive exactly if jumps lead to it from the entry.
  mark_loop_iff : (j : ℕ) → j < length bs → ((mark_loop bs).dead j ≡ false) ↔ Reach bs j
  mark_loop_iff j h = (mark_loop-Inv.sound j h, Reach-live)

get_elem?-set_dead :
    (dead : ℕ → Bool) (bs : List FirBlock) (i j k : ℕ) {b : FirBlock}
    → i + j ≡ k
    → get_elem? (set_dead dead i bs) j ≡ some b
    → b.dead ≡ dead k
unfolding set_dead
get_elem?-set_dead dead [] i j k e h = cc
get_elem?-set_dead dead (c ∷ bs) i zero k e h = let q : i ≡ k = omega arith in ground arith
get_elem?-set_dead dead (c ∷ bs) i (suc j) k e h =
    get_elem?-set_dead dead bs (i + 1) j k (omega arith) h

length-set_dead :
    (dead : ℕ → Bool) (bs : List FirBlock) (i : ℕ) → length (set_dead dead i bs) ≡ length bs
unfolding set_dead
length-set_dead dead [] i = refl
length-set_dead dead (b ∷ bs) i = ap suc (length-set_dead dead bs (i + 1))

get_elem?-lt : (bs : List FirBlock) (j : ℕ) {b : FirBlock} → get_elem? bs j ≡ some b → j < length bs
get_elem?-lt [] j h = cc
get_elem?-lt (c ∷ bs) zero h = omega arith
get_elem?-lt (c ∷ bs) (suc j) h = omega (arith, get_elem?-lt bs j h)

-- Dead-block marking is exact: a block of the result is not dead if and only if jumps lead to
-- it from the entry, whatever the blocks and their jumps.
pub mark_dead_blocks_iff :
    (bs : List FirBlock) (j : ℕ) (b : FirBlock)
    → get_elem? (mark_dead_blocks bs) j ≡ some b
    → (b.dead ≡ false) ↔ Reach bs j
unfolding mark_dead_blocks
mark_dead_blocks_iff bs j b h =
    let flag = get_elem?-set_dead (mark_loop bs).dead bs 0 j j (omega arith) h in
    let room : j < length bs = omega (
      arith,
      get_elem?-lt (set_dead (mark_loop bs).dead 0 bs) j h,
      length-set_dead (mark_loop bs).dead bs 0,
    ) in
    let exact = mark_loop_iff bs j room in (λ e. exact.0 (sym flag ∙ e), λ r. flag ∙ exact.1 r)
