-- ===== src/Arena/Layout.antt =====
-- Where `arena_alloc` puts its blocks: inside a chunk, aligned, and above all earlier blocks.
use fermi.Base.{
  ℕ, ◌+◌, ◌%◌, ◌^◌, ◌≤◌, ◌<◌, ◌≡◌, refl, List, [], ◌∷◌, Option, none, some, arith, ◌==◌,
  if◌then◌else◌, length,
}
use fermi.Arena.{Chunk, Arena, Pointer, arena_new, align, reserve, take_block, arena_alloc}

-- Sizes below 2^62 keep the arithmetic of `size_t` exact.
abbrev pub max_size : ℕ
max_size = 2 ^ 62

pub record ChunkIsValid (c : Chunk) : Type 0 where
  pub within : c.used ≤ c.cap
  pub aligned : c.used % 8 ≡ 0
  pub small : c.cap < max_size

abbrev pub ChunksAreValid : List Chunk → Type 0
ChunksAreValid [] = Unit
ChunksAreValid (c ∷ cs) = ChunkIsValid c × ChunksAreValid cs

pub record IsValid (a : Arena) : Type 0 where
  pub chunks : ChunksAreValid a.chunks
  pub block : a.block_size < max_size

-- The chunk that a pointer names.
abbrev pub chunk_at : List Chunk → ℕ → Option Chunk
chunk_at [] k = none
chunk_at (c ∷ cs) k = if k == length cs then some c else chunk_at cs k

pub align_bounds :
    (n : ℕ) → n + 8 < max_size → (n ≤ align n) × (align n < n + 8) × (align n % 8 ≡ 0)
unfolding align
align_bounds n h = (omega arith, omega arith, omega arith)

pub arena_new-IsValid : (n : ℕ) → n < max_size → IsValid (arena_new n)
unfolding arena_new
arena_new-IsValid n h = ground arith

-- The head after `reserve` has room for the block.
abbrev HasRoom : List Chunk → ℕ → Type 0
HasRoom [] n = ⊥
HasRoom (c ∷ cs) n = c.used + n ≤ c.cap

reserve-HasRoom :
    (cs : List Chunk) (b n : ℕ) → ChunksAreValid cs → n < max_size → HasRoom (reserve cs b n) n
unfolding reserve
reserve-HasRoom [] b n v h = ground arith
reserve-HasRoom (c ∷ cs) b n v h = ground arith

reserve-IsValid :
    (cs : List Chunk) (b n : ℕ)
    → ChunksAreValid cs
    → b < max_size
    → n < max_size
    → ChunksAreValid (reserve cs b n)
unfolding reserve
reserve-IsValid [] b n v hb h = ground arith
reserve-IsValid (c ∷ cs) b n v hb h = ground arith

take_block-IsValid :
    (cs : List Chunk) (n : ℕ)
    → ChunksAreValid cs
    → HasRoom cs n
    → n % 8 ≡ 0
    → n < max_size
    → ChunksAreValid (take_block cs n).1
unfolding take_block
take_block-IsValid [] n v r e h = absurd r
take_block-IsValid (c ∷ cs) n v r e h = ground arith

align_small : (n : ℕ) → n + 8 < max_size → align n < max_size
align_small n h = omega (arith, (align_bounds n h).1)

-- For `n + 8` below 2^62, allocation keeps the arena valid: every chunk is filled within its
-- capacity, in steps of 8 bytes, and smaller than 2^62.
pub arena_alloc-IsValid :
    (a : Arena) (n : ℕ) → IsValid a → n + 8 < max_size → IsValid (arena_alloc a n).1
unfolding arena_alloc
arena_alloc-IsValid a n v h =
    let small = align_small n h in
    record {
      chunks =
          take_block-IsValid (reserve a.chunks a.block_size (align n)) (align n)
            (reserve-IsValid a.chunks a.block_size (align n) v.chunks v.block small)
            (reserve-HasRoom a.chunks a.block_size (align n) v.chunks small) (align_bounds n h).2
            small;
      block = v.block;
    }

-- How far a chunk is filled, 0 where there is none, and its capacity.
abbrev pub used_at : List Chunk → ℕ → ℕ
used_at [] k = 0
used_at (c ∷ cs) k = if k == length cs then c.used else used_at cs k

abbrev pub cap_at : List Chunk → ℕ → ℕ
cap_at [] k = 0
cap_at (c ∷ cs) k = if k == length cs then c.cap else cap_at cs k

pub used_at_beyond : (cs : List Chunk) (k : ℕ) → length cs ≤ k → used_at cs k ≡ 0
used_at_beyond [] k h = refl
used_at_beyond (c ∷ cs) k h = ground (arith, used_at_beyond cs k)

-- `n` bytes at `p` lie in the filled part of a chunk.
abbrev pub Live : Arena → Pointer → ℕ → Type 0
Live a p n = p.offset + n ≤ used_at a.chunks p.chunk

-- A block of `n` bytes at `p` of the chunks `cs'`, taken from `cs`.
record Placed (cs : List Chunk) (n : ℕ) (p : Pointer) (cs' : List Chunk) : Type 0 where
  above : used_at cs p.chunk ≤ p.offset
  filled : p.offset + n ≤ used_at cs' p.chunk
  within : used_at cs' p.chunk ≤ cap_at cs' p.chunk
  aligned : p.offset % 8 ≡ 0

take_block-Placed :
    (cs : List Chunk) (n : ℕ)
    → ChunksAreValid cs
    → HasRoom cs n
    → Placed cs n (take_block cs n).0 (take_block cs n).1
unfolding take_block
take_block-Placed [] n v r = absurd r
take_block-Placed (c ∷ cs) n v r = ground arith

pub used_at-reserve : (cs : List Chunk) (b n k : ℕ) → used_at (reserve cs b n) k ≡ used_at cs k
unfolding reserve
used_at-reserve [] b n k = ground arith
used_at-reserve (c ∷ cs) b n k = ground (arith, used_at_beyond cs k)

used_at-take_block :
    (cs : List Chunk) (n k : ℕ)
    → ChunksAreValid cs
    → HasRoom cs n
    → used_at cs k ≤ used_at (take_block cs n).1 k
unfolding take_block
used_at-take_block [] n k v r = absurd r
used_at-take_block (c ∷ cs) n k v r = ground arith

-- A block as its caller sees it: aligned to 8 bytes, inside its chunk, and above all that the
-- chunk held before.
pub record Fits (a : Arena) (n : ℕ) (p : Pointer) (a' : Arena) : Type 0 where
  pub above : used_at a.chunks p.chunk ≤ p.offset
  pub live : Live a' p n
  pub within : p.offset + n ≤ cap_at a'.chunks p.chunk
  pub aligned : p.offset % 8 ≡ 0

-- In a valid arena and for `n + 8` below 2^62: the block of `n` bytes is aligned to 8 bytes,
-- lies in the filled part of a chunk within its capacity, and above all that the chunk held
-- before.
pub arena_alloc-Fits :
    (a : Arena) (n : ℕ)
    → IsValid a
    → n + 8 < max_size
    → Fits a n (arena_alloc a n).0 (arena_alloc a n).1
unfolding arena_alloc
arena_alloc-Fits a n v h =
    let small = align_small n h in
    let cs = reserve a.chunks a.block_size (align n) in
    let placed =
      take_block-Placed cs (align n)
        (reserve-IsValid a.chunks a.block_size (align n) v.chunks v.block small)
        (reserve-HasRoom a.chunks a.block_size (align n) v.chunks small) in
    let p = (take_block cs (align n)).0 in
    let bound = align_bounds n h in
    let same = used_at-reserve a.chunks a.block_size (align n) p.chunk in
    record {
      above = omega (arith, placed.above, same);
      live = omega (arith, placed.filled, bound.0);
      within = omega (arith, placed.filled, placed.within, bound.0);
      aligned = placed.aligned;
    }

-- In a valid arena and for `n + 8` below 2^62: a block that lay in the filled part of a chunk
-- does so after the next allocation.
arena_alloc-Live :
    (a : Arena) (n : ℕ) (q : Pointer) (m : ℕ)
    → IsValid a
    → n + 8 < max_size
    → Live a q m
    → Live (arena_alloc a n).1 q m
unfolding arena_alloc
arena_alloc-Live a n q m v h live =
    let small = align_small n h in
    let cs = reserve a.chunks a.block_size (align n) in
    omega (
      arith,
      used_at-reserve a.chunks a.block_size (align n) q.chunk,
      used_at-take_block cs (align n) q.chunk
          (reserve-IsValid a.chunks a.block_size (align n) v.chunks v.block small)
          (reserve-HasRoom a.chunks a.block_size (align n) v.chunks small),
    )
