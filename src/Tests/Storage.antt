-- ===== src/Tests/Storage.antt =====
-- The arena with one half-full chunk.
use fermi.Base.{arith, some, [], ◌∷◌}
use fermi.Base.Text.{codes}
use fermi.Arena.{Chunk, Arena, Pointer, arena_alloc, arena_strndup}
use fermi.Arena.Contents.{Copied, arena_strndup-Copied}
use fermi.Arena.Layout.{IsValid, Fits, arena_alloc-IsValid, arena_alloc-Fits}

abbrev chunk : Chunk
chunk = record { contents = λ _. some 7; used = 16; cap = 32 }

abbrev arena : Arena
arena = record { chunks = chunk ∷ []; block_size = 32 }

abbrev block : Pointer
block = record { chunk = 0; offset = 8 }

arena-IsValid : IsValid arena
arena-IsValid = record {
  chunks = (record { within = omega arith; aligned = omega arith; small = omega arith }, tt);
  block = omega arith;
}

arena_strndup-Copied_example :
    Copied arena
      (codes "main")
      4
      (arena_strndup arena (some (codes "main")) 4).0
      (arena_strndup arena (some (codes "main")) 4).1
arena_strndup-Copied_example =
    arena_strndup-Copied arena (codes "main") 4 arena-IsValid (omega arith)

arena_alloc-Fits_example : Fits arena 20 (arena_alloc arena 20).0 (arena_alloc arena 20).1
arena_alloc-Fits_example = arena_alloc-Fits arena 20 arena-IsValid (omega arith)

arena_alloc-IsValid_example : IsValid (arena_alloc arena 20).1
arena_alloc-IsValid_example = arena_alloc-IsValid arena 20 arena-IsValid (omega arith)
