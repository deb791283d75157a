-- ===== src/Arena.antt =====
-- src/common/arena.c and include/common/arena.h: the allocator whose blocks all other parts take their
-- memory from. The interner is left out.
use alkyl.Prelude.{
  ℕ, zero, suc, ◌+◌, ◌-◌, ◌%◌, ◌^◌, Bool, true, false, Option, none, some, List, [], ◌∷◌, ◌++◌, ltb,
  leb, ◌==◌, if◌then◌else◌, map,
}
pub mod Fits
pub mod Reset

-- A block of memory: the address that `malloc` returned stands for it.
pub record ArenaBlock : Type 0 where
  pub address : ℕ
  pub capacity : ℕ
  pub used : ℕ

-- The list of blocks, cut at `current`: those before it, nearest first, and those after it. `head` is
-- the first of all; it is NULL just when `current` is.
pub record Arena : Type 0 where
  pub before : List ArenaBlock
  pub current : Option ArenaBlock
  pub after : List ArenaBlock
  pub default_block_size : ℕ

-- What a call returns: NULL, memory at an offset in a block, or nothing, since it calls `abort`.
pub data Grant : Type 0 where
  null aborted : Grant
  at_offset : ℕ → ℕ → Grant

-- `ARENA_BLOCK_SIZE` and the size of the header of a block.
abbrev pub block_size : ℕ
block_size = 65536

abbrev pub header_size : ℕ
header_size = 24

unfoldable pub arena_init : Arena
arena_init = record { before = []; current = none; after = []; default_block_size = block_size }

-- `(size + 7) & ~7` on 64 bits.
unfoldable pub aligned : ℕ → ℕ
aligned size = (size + 7) % 2 ^ 64 - (size + 7) % 2 ^ 64 % 8

-- The number of bytes goes to `malloc`, which may return NULL.
unfoldable pub arena_create_block : (ℕ → Option ℕ) → ℕ → Option ArenaBlock
arena_create_block malloc size =
    if ltb (2 ^ 64 - 1 - header_size) size then none else elim (malloc (header_size + size)) [
      | none ↦ none
      | some p ↦ some (record { address = p; capacity = size; used = 0 })
    ]

-- Taking memory from the current block.
unfoldable pub bump : List ArenaBlock → ArenaBlock → List ArenaBlock → ℕ → ℕ → Grant × Arena
bump before b after default n = (
  at_offset b.address b.used,
  record {
    before = before;
    current = some (record b { used = (b.used + n) % 2 ^ 64 });
    after = after;
    default_block_size = default;
  },
)

-- The blocks before one that comes after `current`.
unfoldable pub passed : List ArenaBlock → Option ArenaBlock → List ArenaBlock
passed before none = []
passed before (some c) = c ∷ before

-- Those after it: without a head it is the only one.
unfoldable pub followers : Option ArenaBlock → List ArenaBlock → List ArenaBlock
followers none after = []
followers (some c) after = after

unfoldable pub link_block : Arena → Option ArenaBlock → ℕ → Grant × Arena
unfolding bump passed followers
link_block a none n = (aborted, a)
link_block a (some b) n =
    bump (passed a.before a.current) b (followers a.current a.after) a.default_block_size n

unfoldable pub new_block : (ℕ → Option ℕ) → Arena → ℕ → Grant × Arena
new_block malloc a n =
    link_block a
      (arena_create_block malloc (if ltb a.default_block_size n then n else a.default_block_size)) n

-- `arena_alloc` calls `abort` where this returns NULL.
unfoldable pub arena_alloc_slow :
    (ℕ → Option ℕ) → Arena → Option ArenaBlock → List ArenaBlock → ℕ → Grant × Arena
arena_alloc_slow malloc a none after n = new_block malloc a n
arena_alloc_slow malloc a (some c) [] n = new_block malloc a n
arena_alloc_slow malloc a (some c) (next ∷ rest) n =
    if leb n next.capacity
    then bump (c ∷ a.before) next rest a.default_block_size n
    else new_block malloc a n

unfoldable pub alloc_aligned : (ℕ → Option ℕ) → Arena → Option ArenaBlock → ℕ → Grant × Arena
alloc_aligned malloc a none n = arena_alloc_slow malloc a none a.after n
alloc_aligned malloc a (some c) n =
    if leb ((c.used + n) % 2 ^ 64) c.capacity
    then bump a.before c a.after a.default_block_size n
    else arena_alloc_slow malloc a (some c) a.after n

unfoldable pub arena_alloc : (ℕ → Option ℕ) → Arena → ℕ → Grant × Arena
unfolding alloc_aligned aligned
arena_alloc malloc a size =
    if size == 0 then (null, a) else alloc_aligned malloc a a.current (aligned size)

-- All blocks, from the head on.
unfoldable pub back_onto : List ArenaBlock → List ArenaBlock → List ArenaBlock
back_onto [] bs = bs
back_onto (b ∷ before) bs = back_onto before (b ∷ bs)

unfoldable pub blocks_from : Option ArenaBlock → List ArenaBlock → List ArenaBlock
blocks_from none after = after
blocks_from (some c) after = c ∷ after

unfoldable pub arena_blocks : Arena → List ArenaBlock
unfolding back_onto blocks_from
arena_blocks a = back_onto a.before (blocks_from a.current a.after)

unfoldable pub unused : List ArenaBlock → List ArenaBlock
unused [] = []
unused (b ∷ bs) = record b { used = 0 } ∷ unused bs

-- The arena of these blocks, of which the head is current.
unfoldable pub at_head : List ArenaBlock → ℕ → Arena
at_head [] default = record {
  before = [];
  current = none;
  after = [];
  default_block_size = default;
}
at_head (b ∷ bs) default = record {
  before = [];
  current = some b;
  after = bs;
  default_block_size = default;
}

unfoldable pub arena_reset : Arena → Arena
unfolding at_head unused arena_blocks
arena_reset a = at_head (unused (arena_blocks a)) a.default_block_size
