-- ===== src/Arena/Reset.antt =====
-- src/common/arena.c: `arena_reset` frees the memory of every block and keeps the blocks.
use alkyl.Prelude.{
  ℕ, ◌^◌, ◌<◌, ◌≡◌, refl, ap, Option, none, some, List, [], ◌∷◌, map, All, All-imp, arith,
}
use alkyl.Arena.{
  ArenaBlock, Arena, back_onto, blocks_from, arena_blocks, unused, at_head, arena_reset,
}
use alkyl.Arena.Fits.{IsArena, IsFree, IsCurrent}

-- The block is less than half of the address space.
abbrev IsSmall : ArenaBlock → Type 0
IsSmall b = b.capacity < 2 ^ 63

-- The first of the blocks.
abbrev pub first_block : List ArenaBlock → Option ArenaBlock
first_block [] = none
first_block (b ∷ bs) = some b

-- The current block is the head of the list: none is before it, and without it there are no blocks.
abbrev pub StartsAtHead : Arena → Type 0
StartsAtHead a = (a.before ≡ []) × (a.current ≡ first_block (arena_blocks a))

-- Where a block is, and its size.
abbrev pub extent : ArenaBlock → ℕ × ℕ
extent b = (b.address, b.capacity)

back_onto-IsSmall :
    (before bs : List ArenaBlock)
    → All IsSmall before
    → All IsSmall bs
    → All IsSmall (back_onto before bs)
unfolding back_onto
back_onto-IsSmall [] bs h k = k
back_onto-IsSmall (b ∷ before) bs h k = back_onto-IsSmall before (b ∷ bs) h.1 (h.0, k)

blocks_from-IsSmall :
    (current : Option ArenaBlock) (after : List ArenaBlock)
    → IsCurrent current
    → All IsFree after
    → All IsSmall (blocks_from current after)
unfolding blocks_from
blocks_from-IsSmall none after h k = All-imp (λ b f. f.1) after k
blocks_from-IsSmall (some c) after h k = (h.2, All-imp (λ b f. f.1) after k)

unused-IsFree : (bs : List ArenaBlock) → All IsSmall bs → All IsFree (unused bs)
unfolding unused
unused-IsFree [] h = tt
unused-IsFree (b ∷ bs) h = ((refl, h.0), unused-IsFree bs h.1)

map-unused : (bs : List ArenaBlock) → map extent (unused bs) ≡ map extent bs
unfolding unused
map-unused [] = refl
map-unused (b ∷ bs) = ap (λ r. extent b ∷ r) (map-unused bs)

arena_blocks-at_head : (bs : List ArenaBlock) (default : ℕ) → arena_blocks (at_head bs default) ≡ bs
unfolding arena_blocks at_head
arena_blocks-at_head [] default = refl
arena_blocks-at_head (b ∷ bs) default = refl

at_head-IsArena :
    (bs : List ArenaBlock) (default : ℕ)
    → All IsFree bs
    → default < 2 ^ 63
    → IsArena (at_head bs default)
unfolding at_head
at_head-IsArena [] default h d = (tt, tt, tt, d)
at_head-IsArena (b ∷ bs) default h d = (tt, (omega (arith, h.0), omega (arith, h.0), h.0.1), h.1, d)

StartsAtHead-at_head : (bs : List ArenaBlock) (default : ℕ) → StartsAtHead (at_head bs default)
unfolding at_head arena_blocks back_onto blocks_from
StartsAtHead-at_head [] default = (refl, refl)
StartsAtHead-at_head (b ∷ bs) default = (refl, refl)

default-at_head :
    (bs : List ArenaBlock) (default : ℕ) → (at_head bs default).default_block_size ≡ default
unfolding at_head
default-at_head [] default = refl
default-at_head (b ∷ bs) default = refl

arena_blocks-IsSmall : (a : Arena) → IsArena a → All IsSmall (arena_blocks a)
unfolding arena_blocks
arena_blocks-IsSmall a h =
    back_onto-IsSmall a.before (blocks_from a.current a.after) (All-imp (λ b f. f.2) a.before h.0)
      (blocks_from-IsSmall a.current a.after h.1 h.2)

-- `arena_reset` of a well-formed arena gives a well-formed arena with the same blocks in the same
-- order, of which nothing is used, and with the same default size. The first of them is current: no
-- block is before it, and there is a current block unless there are no blocks.
pub arena_reset-IsArena :
    (a : Arena) (h : IsArena a)
    → IsArena (arena_reset a)
      × All IsFree (arena_blocks (arena_reset a))
      × (map extent (arena_blocks (arena_reset a)) ≡ map extent (arena_blocks a))
      × StartsAtHead (arena_reset a)
      × ((arena_reset a).default_block_size ≡ a.default_block_size)
unfolding arena_reset
arena_reset-IsArena a h =
    let free = unused-IsFree (arena_blocks a) (arena_blocks-IsSmall a h) in
    let back = arena_blocks-at_head (unused (arena_blocks a)) a.default_block_size in
    (
      at_head-IsArena (unused (arena_blocks a)) a.default_block_size free h.3,
      rw back free,
      rw back (map-unused (arena_blocks a)),
      StartsAtHead-at_head (unused (arena_blocks a)) a.default_block_size,
      default-at_head (unused (arena_blocks a)) a.default_block_size,
    )
