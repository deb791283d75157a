-- ===== src/Examples/ArenaRuns.antt =====
-- src/common/arena.c with a `malloc` that always returns the address 4096.
use alkyl.Prelude.{ℕ, ◌≤◌, ◌≡◌, Option, some, [], ◌∷◌, All, map, arith}
use alkyl.Arena.{Arena, aligned, arena_alloc, arena_blocks, arena_reset, block_size}
use alkyl.Arena.Fits.{IsArena, IsFree, Granted, arena_alloc-IsArena}
use alkyl.Arena.Reset.{StartsAtHead, extent, arena_reset-IsArena}

abbrev malloc : ℕ → Option ℕ
malloc n = some 4096

-- An arena of two blocks, the first with 16 bytes used and room for 8 more.
abbrev two_blocks : Arena
two_blocks = record {
  before = [];
  current = some (record { address = 64; capacity = 24; used = 16 });
  after = record { address = 1024; capacity = 32; used = 0 } ∷ [];
  default_block_size = block_size;
}

two_blocks-IsArena : IsArena two_blocks
two_blocks-IsArena = omega arith

arena_alloc-IsArena_example :
    Granted malloc two_blocks
      (arena_alloc malloc two_blocks 10).1
      (aligned 10)
      (arena_alloc malloc two_blocks 10).0
    × (10 ≤ aligned 10)
    × IsArena (arena_alloc malloc two_blocks 10).1
arena_alloc-IsArena_example =
    arena_alloc-IsArena malloc two_blocks 10 two_blocks-IsArena (omega arith) (omega arith)

arena_reset-IsArena_example :
    IsArena (arena_reset two_blocks)
    × All IsFree (arena_blocks (arena_reset two_blocks))
    × (map extent (arena_blocks (arena_reset two_blocks)) ≡ map extent (arena_blocks two_blocks))
    × StartsAtHead (arena_reset two_blocks)
    × ((arena_reset two_blocks).default_block_size ≡ two_blocks.default_block_size)
arena_reset-IsArena_example = arena_reset-IsArena two_blocks two_blocks-IsArena
