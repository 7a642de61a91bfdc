-- ===== src/Arena/Contents.antt =====
-- What the arena's bytes hold: a new block is zeroed, a copied string reads back, and no
-- operation touches the bytes of an earlier block.
use native.Mathlib.Nat.{add-zero}
use fermi.Base.{
  ℕ, ◌+◌, ◌-◌, ◌≤◌, ◌<◌, ◌≡◌, refl, ◌∙◌, List, [], ◌∷◌, Option, none, some, arith, ◌==◌,
  if◌then◌else◌, length, get_or,
}
use fermi.Base.Text.{Bytes}
use fermi.Arena.{
  Chunk, Arena, Pointer, size_t, align, reserve, take_block, arena_alloc, store, arena_strndup,
}
use fermi.Arena.Layout.{
  max_size, align_bounds, used_at-reserve, IsValid, used_at, used_at_beyond, Live, arena_alloc-Fits,
}

-- The byte at an offset of a chunk.
abbrev pub byte_at : List Chunk → ℕ → ℕ → Option ℕ
byte_at [] k i = none
byte_at (c ∷ cs) k i = if k == length cs then c.contents i else byte_at cs k i

-- `p[i]`
abbrev pub read : Arena → Pointer → ℕ → Option ℕ
read a p i = byte_at a.chunks p.chunk (p.offset + i)

length-store :
    (cs : List Chunk) (p : Pointer) (s : Bytes) (n : ℕ) → length (store cs p s n) ≡ length cs
unfolding store
length-store [] p s n = refl
length-store (c ∷ cs) p s n = ground (arith, length-store cs p s n)

used_at-store :
    (cs : List Chunk) (p : Pointer) (s : Bytes) (n k : ℕ)
    → used_at (store cs p s n) k ≡ used_at cs k
unfolding store
used_at-store [] p s n k = refl
used_at-store (c ∷ cs) p s n k = ground (arith, used_at-store cs p s n k, length-store cs p s n)

-- A chunk that holds bytes exists.
byte_at-store_in :
    (cs : List Chunk) (p : Pointer) (s : Bytes) (n i : ℕ)
    → 0 < used_at cs p.chunk
    → i < n
    → byte_at (store cs p s n) p.chunk (p.offset + i) ≡ some (get_or s i 0)
unfolding store
byte_at-store_in [] p s n i u h = absurd (omega arith)
byte_at-store_in (c ∷ cs) p s n i u h =
    let e : p.offset + i - p.offset ≡ i = omega arith in
    ground (arith, e, byte_at-store_in cs p s n i, length-store cs p s n)

-- Bytes elsewhere are left alone.
byte_at-store_out :
    (cs : List Chunk) (p : Pointer) (s : Bytes) (n k j : ℕ)
    → (k ≡ p.chunk → j < p.offset)
    → byte_at (store cs p s n) k j ≡ byte_at cs k j
unfolding store
byte_at-store_out [] p s n k j out = refl
byte_at-store_out (c ∷ cs) p s n k j out =
    ground (arith, byte_at-store_out cs p s n k j, length-store cs p s n)

byte_at-reserve :
    (cs : List Chunk) (b n k j : ℕ)
    → j < used_at cs k
    → byte_at (reserve cs b n) k j ≡ byte_at cs k j
unfolding reserve
byte_at-reserve [] b n k j h = absurd (omega arith)
byte_at-reserve (c ∷ cs) b n k j h = ground (arith, used_at_beyond cs k)

byte_at-take_block :
    (cs : List Chunk) (n k j : ℕ)
    → j < used_at cs k
    → byte_at (take_block cs n).1 k j ≡ byte_at cs k j
unfolding take_block
byte_at-take_block [] n k j h = absurd (omega arith)
byte_at-take_block (c ∷ cs) n k j h = ground arith

-- A byte of a block in the filled part of a chunk reads the same after the next allocation.
read-arena_alloc :
    (a : Arena) (n : ℕ) (q : Pointer) (m i : ℕ)
    → Live a q m
    → i < m
    → read (arena_alloc a n).1 q i ≡ read a q i
unfolding arena_alloc
read-arena_alloc a n q m i live h =
    let cs = reserve a.chunks a.block_size (align n) in
    byte_at-take_block cs (align n) q.chunk (q.offset + i)
      (omega (arith, used_at-reserve a.chunks a.block_size (align n) q.chunk))
    ∙ byte_at-reserve a.chunks a.block_size (align n) q.chunk (q.offset + i) (omega arith)

byte_at-take_block_self :
    (cs : List Chunk) (n i : ℕ)
    → 0 < length cs
    → i < n
    → byte_at (take_block cs n).1 (take_block cs n).0.chunk ((take_block cs n).0.offset + i)
      ≡ some 0
unfolding take_block
byte_at-take_block_self [] n i l h = absurd (omega arith)
byte_at-take_block_self (c ∷ cs) n i l h = ground arith

length-reserve : (cs : List Chunk) (b n : ℕ) → 0 < length (reserve cs b n)
unfolding reserve
length-reserve [] b n = omega arith
length-reserve (c ∷ cs) b n = ground arith

-- For `n + 8` below 2^62, each of the `n` bytes of a new block reads as 0.
read-arena_alloc_self :
    (a : Arena) (n i : ℕ)
    → n + 8 < max_size
    → i < n
    → read (arena_alloc a n).1 (arena_alloc a n).0 i ≡ some 0
unfolding arena_alloc
read-arena_alloc_self a n i small h =
    byte_at-take_block_self (reserve a.chunks a.block_size (align n)) (align n) i
      (length-reserve a.chunks a.block_size (align n)) (omega (arith, (align_bounds n small).0))

-- A copy of `n` bytes of `s`: the pointer `q` that was returned, and the arena after it.
pub record Copied (a : Arena) (s : Bytes) (n : ℕ) (q : Option Pointer) (a' : Arena) : Type 0 where
  pub at : Pointer
  pub returned : q ≡ some at
  pub above : used_at a.chunks at.chunk ≤ at.offset
  pub live : Live a' at (n + 1)
  pub reads : (i : ℕ) → i < n → read a' at i ≡ some (get_or s i 0)
  pub ends : read a' at n ≡ some 0
  pub keeps : (r : Pointer) (m i : ℕ) → Live a r m → i < m → read a' r i ≡ read a r i

-- What `arena_strndup` does to the arena behind its first block.
abbrev copied : Arena → Pointer → Bytes → ℕ → Arena
copied a p s n = record a {
  chunks = store (store a.chunks p s n) (record p { offset = p.offset + n }) [] 1;
}

module _ (a : Arena) (p : Pointer) (s : Bytes) (n : ℕ) (live : Live a p (n + 1)) where
  used_at-copied : (k : ℕ) → used_at (copied a p s n).chunks k ≡ used_at a.chunks k
  used_at-copied k =
      used_at-store (store a.chunks p s n) (record p { offset = p.offset + n }) [] 1 k
      ∙ used_at-store a.chunks p s n k

  read-copied : (i : ℕ) → i < n → read (copied a p s n) p i ≡ some (get_or s i 0)
  read-copied i h =
      byte_at-store_out (store a.chunks p s n) (record p { offset = p.offset + n }) [] 1 p.chunk
        (p.offset + i) (λ _. omega arith)
      ∙ byte_at-store_in a.chunks p s n i (omega arith) h

  read-copied_end : read (copied a p s n) p n ≡ some 0
  read-copied_end = rw add-zero at (
      byte_at-store_in (store a.chunks p s n) (record p { offset = p.offset + n }) [] 1 0
        (omega (arith, used_at-store a.chunks p s n p.chunk)) (omega arith))

  read-copied_other :
      (k j : ℕ)
      → (k ≡ p.chunk → j < p.offset)
      → byte_at (copied a p s n).chunks k j ≡ byte_at a.chunks k j
  read-copied_other k j out =
      byte_at-store_out (store a.chunks p s n) (record p { offset = p.offset + n }) [] 1 k j
        (λ e. omega (arith, out e))
      ∙ byte_at-store_out a.chunks p s n k j out

-- In a valid arena and for `n + 9` below 2^62: `arena_strndup` returns a block of `n + 1` bytes
-- above all earlier ones, which reads as the first `n` bytes of `s` and a NUL, and it changes
-- no byte of an earlier block.
pub arena_strndup-Copied :
    (a : Arena) (s : Bytes) (n : ℕ)
    → IsValid a
    → n + 9 < max_size
    → Copied a s n (arena_strndup a (some s) n).0 (arena_strndup a (some s) n).1
unfolding arena_strndup
arena_strndup-Copied a s n v h = rw exact (
    let fits = arena_alloc-Fits a (n + 1) v (omega arith) in
    record {
      at = p;
      returned = refl;
      above = fits.above;
      live = omega (arith, fits.live, used_at-copied a' p s n fits.live p.chunk);
      reads = read-copied a' p s n fits.live;
      ends = read-copied_end a' p s n fits.live;
      keeps = λ r m i live lt.
          read-copied_other a' p s n fits.live r.chunk (r.offset + i) (λ e.
            let f = fits.above in
            let g : used_at a.chunks r.chunk ≡ used_at a.chunks p.chunk = rw e in omega arith)
          ∙ read-arena_alloc a (n + 1) r m i live lt;
    })
  where
    p : Pointer
    p = (arena_alloc a (n + 1)).0

    a' : Arena
    a' = (arena_alloc a (n + 1)).1

    exact : size_t (n + 1) ≡ n + 1
    exact = omega arith
