-- ===== src/Arena.antt =====
-- src/fearena/arena.c and arena.h: the bump allocator that every phase of the compiler uses.
-- A chunk's bytes are a function of the offset; `none` is a byte that `malloc` left unset.
-- A pointer names its chunk by the number of chunks that are older. `malloc` is taken to succeed,
-- as the source does: it tests no result.
pub mod Layout
pub mod Contents
use fermi.Base.{
  ℕ, ◌+◌, ◌-◌, ◌*◌, ◌/◌, ◌%◌, ◌^◌, ◌&&◌, List, [], ◌∷◌, Option, none, some, ltb, leb, ◌==◌,
  if◌then◌else◌, length, get_or,
}
use fermi.Base.Text.{Bytes}

pub record Chunk : Type 0 where
  pub contents : ℕ → Option ℕ
  pub used : ℕ
  pub cap : ℕ

pub record Arena : Type 0 where
  pub chunks : List Chunk
  pub block_size : ℕ

pub record Pointer : Type 0 where
  pub chunk : ℕ
  pub offset : ℕ

-- `size_t` has 64 bits.
abbrev pub size_t : ℕ → ℕ
size_t n = n % 2 ^ 64

abbrev pub fresh_chunk : ℕ → Chunk
fresh_chunk cap = record { contents = λ _. none; used = 0; cap = cap }

unfoldable pub arena_new : ℕ → Arena
arena_new block_size =
    let size = if ltb 0 block_size then block_size else 65536 in
    record { chunks = fresh_chunk size ∷ []; block_size = size }

-- `(n + 7) & ~(size_t)7`
unfoldable pub align : ℕ → ℕ
align n = size_t (n + 7) / 8 * 8

-- The test `!c || c->used + n > c->cap`, with the new head that it may push.
unfoldable pub reserve : List Chunk → ℕ → ℕ → List Chunk
reserve [] block_size n = fresh_chunk (if ltb block_size n then n else block_size) ∷ []
reserve (c ∷ cs) block_size n =
    if ltb c.cap (size_t (c.used + n))
    then fresh_chunk (if ltb block_size n then n else block_size) ∷ c ∷ cs
    else c ∷ cs

-- `memcpy(p, s, n)`, and `memset(p, 0, n)` for `s` empty: past its end `s` reads as its NUL.
abbrev pub write : (ℕ → Option ℕ) → ℕ → Bytes → ℕ → ℕ → Option ℕ
write contents offset s n i =
    if leb offset i && ltb i (offset + n) then some (get_or s (i - offset) 0) else contents i

-- `p = c->data + c->used; c->used += n; memset(p, 0, n)` on the head.
unfoldable pub take_block : List Chunk → ℕ → Pointer × List Chunk
take_block [] n = (record { chunk = 0; offset = 0 }, [])
take_block (c ∷ cs) n = (
  record { chunk = length cs; offset = c.used },
  record c { contents = write c.contents c.used [] n; used = size_t (c.used + n) } ∷ cs,
)

unfoldable pub arena_alloc : Arena → ℕ → Pointer × Arena
unfolding align reserve take_block
arena_alloc a n =
    let (p, chunks) = take_block (reserve a.chunks a.block_size (align n)) (align n) in
    (p, record a { chunks = chunks })

-- Store the bytes of `s` at a pointer.
unfoldable pub store : List Chunk → Pointer → Bytes → ℕ → List Chunk
store [] p s n = []
store (c ∷ cs) p s n =
    if p.chunk == length cs
    then record c { contents = write c.contents p.offset s n } ∷ cs
    else c ∷ store cs p s n

-- `memcpy(p, s, n); p[n] = '\0'` after `arena_alloc(a, n + 1)`; `none` is the null pointer.
unfoldable pub arena_strndup : Arena → Option Bytes → ℕ → Option Pointer × Arena
unfolding store
arena_strndup a none n = (none, a)
arena_strndup a (some s) n =
    let (p, a') = arena_alloc a (size_t (n + 1)) in
    let copied = store a'.chunks p s n in
    let end = record p { offset = p.offset + n } in
    (some p, record a' { chunks = store copied end [] 1 })

-- The same with `n = strlen(s)`.
unfoldable pub arena_strdup : Arena → Option Bytes → Option Pointer × Arena
arena_strdup a none = (none, a)
arena_strdup a (some s) =
    let (p, a') = arena_alloc a (size_t (length s + 1)) in
    let copied = store a'.chunks p s (length s) in
    let end = record p { offset = p.offset + length s } in
    (some p, record a' { chunks = store copied end [] 1 })

-- Every chunk is freed, the newest first; the block size stays.
unfoldable pub arena_free : Arena → List Chunk × Arena
arena_free a = (a.chunks, record a { chunks = [] })
