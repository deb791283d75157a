-- ===== src/Arena/Fits.antt =====
-- src/common/arena.c: the memory that the allocator returns lies in its block, behind all that was
-- returned from the block before.
use alkyl.Prelude.{
  ℕ, ◌+◌, ◌-◌, ◌%◌, ◌^◌, ◌≤◌, ◌<◌, ◌≡◌, refl, ◌⊎◌, inl, inr, false, Option, none, some, List, [],
  ◌∷◌, ltb, leb, ◌==◌, arith, All, Bool-cases, Option-cases,
}
use alkyl.Arena.{
  ArenaBlock, Arena, Grant, aborted, at_offset, header_size, aligned, arena_create_block, bump,
  passed, followers, link_block, new_block, arena_alloc_slow, alloc_aligned, arena_alloc,
  arena_init,
}

-- What is used of a block fits it and is aligned.
abbrev pub IsBlock : ArenaBlock → Type 0
IsBlock b = (b.used ≤ b.capacity) × (b.used % 8 ≡ 0) × (b.capacity < 2 ^ 63)

-- Nothing of the block is used.
abbrev pub IsFree : ArenaBlock → Type 0
IsFree b = (b.used ≡ 0) × (b.capacity < 2 ^ 63)

abbrev pub IsCurrent : Option ArenaBlock → Type 0
IsCurrent none = Unit
IsCurrent (some b) = IsBlock b

-- Every block is well formed, and those after the current one are free.
abbrev pub IsArena : Arena → Type 0
IsArena a =
    All IsBlock a.before
    × IsCurrent a.current
    × All IsFree a.after
    × (a.default_block_size < 2 ^ 63)

pub arena_init-IsArena : IsArena arena_init
unfolding arena_init
arena_init-IsArena = omega arith

-- What a call grants `n` bytes from: the current block or the one after it, behind what is used of it,
-- or a new block, which with its header fills the memory that was asked of `malloc`; it aborts only
-- where `malloc` returns NULL for a block with room for the bytes. The block is then current, and used
-- up to the end of the grant.
pub data Granted (malloc : ℕ → Option ℕ) (a a1 : Arena) (n : ℕ) : Grant → Type 0 where
  from_block :
      (b c : ArenaBlock)
      → (a.current ≡ some b) ⊎ ((rest : List ArenaBlock) × (a.after ≡ b ∷ rest))
      → a1.current ≡ some c
      → c.address ≡ b.address
      → c.capacity ≡ b.capacity
      → c.used ≡ b.used + n
      → Granted malloc a a1 n (at_offset b.address b.used)
  from_new :
      (p : ℕ) (c : ArenaBlock)
      → malloc (header_size + c.capacity) ≡ some p
      → a1.current ≡ some c
      → c.address ≡ p
      → c.used ≡ n
      → Granted malloc a a1 n (at_offset p 0)
  out_of_memory :
      (size : ℕ)
      → n ≤ size
      → malloc (header_size + size) ≡ none
      → a1 ≡ a
      → Granted malloc a a1 n aborted

aligned_lem :
    (size : ℕ)
    → size ≤ 2 ^ 62
    → (size ≤ aligned size) × (aligned size % 8 ≡ 0) × (aligned size < 2 ^ 63)
unfolding aligned
aligned_lem size h = omega (arith, h)

-- A block with room for the bytes.
abbrev HasRoom : ArenaBlock → ℕ → Type 0
HasRoom b n = (b.used + n ≤ b.capacity) × (b.used % 8 ≡ 0) × (b.capacity < 2 ^ 63) × (n % 8 ≡ 0)

bump-IsArena :
    (before : List ArenaBlock) (b : ArenaBlock) (after : List ArenaBlock) (default n : ℕ)
    → HasRoom b n
    → All IsBlock before
    → All IsFree after
    → default < 2 ^ 63
    → IsArena (bump before b after default n).1
unfolding bump
bump-IsArena before b after default n room h k d =
    (h, (omega (arith, room), omega (arith, room), room.2), k, d)

bumped : (b : ArenaBlock) (n : ℕ) → HasRoom b n → (b.used + n) % 2 ^ 64 ≡ b.used + n
bumped b n room = omega (arith, room)

passed-IsBlock :
    (before : List ArenaBlock) (c : Option ArenaBlock)
    → All IsBlock before
    → IsCurrent c
    → All IsBlock (passed before c)
unfolding passed
passed-IsBlock before none h k = tt
passed-IsBlock before (some c) h k = (k, h)

followers-IsFree :
    (c : Option ArenaBlock) (after : List ArenaBlock)
    → All IsFree after
    → All IsFree (followers c after)
unfolding followers
followers-IsFree none after h = tt
followers-IsFree (some c) after h = h

module _ (malloc : ℕ → Option ℕ) where
  -- The outcome of a call for `n` bytes.
  abbrev IsServed : Arena → ℕ → Grant × Arena → Type 0
  IsServed a n r = Granted malloc a r.1 n r.0 × IsArena r.1

  IsServed-link_block :
      (a : Arena) (n p size : ℕ) (h : IsArena a) (even : n % 8 ≡ 0) (room : n ≤ size)
      (small : size < 2 ^ 63) (e : malloc (header_size + size) ≡ some p)
      → IsServed a n (link_block a (some (record { address = p; capacity = size; used = 0 })) n)
  unfolding link_block bump
  IsServed-link_block a n p size h even room small e =
      let b : ArenaBlock = record { address = p; capacity = size; used = 0 } in
      let fits : HasRoom b n = omega (arith, even, room, small) in
      (
        from_new p (record b { used = (0 + n) % 2 ^ 64 }) e refl refl (omega (arith, room, small)),
        bump-IsArena (passed a.before a.current) b (followers a.current a.after)
            a.default_block_size n fits (passed-IsBlock a.before a.current h.0 h.1)
            (followers-IsFree a.current a.after h.2) h.3,
      )

  IsServed-none :
      (a : Arena) (n size : ℕ) (h : IsArena a) (room : n ≤ size)
      (e : malloc (header_size + size) ≡ none)
      → IsServed a n (link_block a none n)
  unfolding link_block
  IsServed-none a n size h room e = (out_of_memory size room e refl, h)

  IsServed-created :
      (a : Arena) (n size : ℕ) (h : IsArena a) (even : n % 8 ≡ 0) (room : n ≤ size)
      (small : size < 2 ^ 63)
      → IsServed a n (link_block a (arena_create_block malloc size) n)
  unfolding arena_create_block
  IsServed-created a n size h even room small =
      let guard : ltb (2 ^ 64 - 1 - header_size) size ≡ false = ground (arith, small) in
      elim (Option-cases (malloc (header_size + size))) [
        | inl e ↦ rw (guard, e) (IsServed-none a n size h room e)
        | inr e ↦ rw (guard, e.1) (IsServed-link_block a n e.0 size h even room small e.1)
      ]

  IsServed-new_block :
      (a : Arena) (n : ℕ) (h : IsArena a) (even : n % 8 ≡ 0) (small : n < 2 ^ 63)
      → IsServed a n (new_block malloc a n)
  unfolding new_block
  IsServed-new_block a n h even small = elim (Bool-cases (ltb a.default_block_size n)) [
    | inl e ↦ rw e (IsServed-created a n n h even (omega arith) small)
    | inr e ↦ rw e (IsServed-created a n a.default_block_size h even (ground (arith, e)) h.3)
  ]

  IsServed-bump :
      (a : Arena) (n : ℕ) (before after : List ArenaBlock) (b : ArenaBlock) (default : ℕ)
      (fits : HasRoom b n)
      (from : (a.current ≡ some b) ⊎ ((rest : List ArenaBlock) × (a.after ≡ b ∷ rest)))
      → All IsBlock before
      → All IsFree after
      → default < 2 ^ 63
      → IsServed a n (bump before b after default n)
  unfolding bump
  IsServed-bump a n before after b default fits from h k d = (
    from_block b (record b { used = (b.used + n) % 2 ^ 64 }) from refl refl refl (bumped b n fits),
    bump-IsArena before b after default n fits h k d,
  )

  IsServed-slow :
      (a : Arena) (n : ℕ) (h : IsArena a) (even : n % 8 ≡ 0) (small : n < 2 ^ 63)
      (current : Option ArenaBlock) (after : List ArenaBlock) (e : a.current ≡ current)
      (f : a.after ≡ after)
      → IsServed a n (arena_alloc_slow malloc a current after n)
  unfolding arena_alloc_slow
  IsServed-slow a n h even small none after e f = IsServed-new_block a n h even small
  IsServed-slow a n h even small (some c) [] e f = IsServed-new_block a n h even small
  IsServed-slow a n h even small (some c) (next ∷ rest) e f =
      let frees : All IsFree (next ∷ rest) = rw f at h.2 in
      let this : IsBlock c = rw e at h.1 in
      elim (Bool-cases (leb n next.capacity)) [
        | inr no_room ↦ rw no_room (IsServed-new_block a n h even small)
        | inl room ↦ rw room (
            IsServed-bump a n (c ∷ a.before) rest next a.default_block_size
              (ground (arith, room, frees.0, even)) (inr (rest, f)) (this, h.0) frees.1 h.3)
      ]

  IsServed-aligned :
      (a : Arena) (n : ℕ) (h : IsArena a) (even : n % 8 ≡ 0) (small : n < 2 ^ 63)
      (current : Option ArenaBlock) (e : a.current ≡ current)
      → IsServed a n (alloc_aligned malloc a current n)
  unfolding alloc_aligned
  IsServed-aligned a n h even small none e = IsServed-slow a n h even small none a.after e refl
  IsServed-aligned a n h even small (some c) e =
      let this : IsBlock c = rw e at h.1 in
      let no_wrap : (c.used + n) % 2 ^ 64 ≡ c.used + n = omega (arith, this, small) in
      elim (Bool-cases (leb ((c.used + n) % 2 ^ 64) c.capacity)) [
        | inr no_room ↦ rw no_room (IsServed-slow a n h even small (some c) a.after e refl)
        | inl room ↦ rw room (
            IsServed-bump a n a.before a.after c a.default_block_size
              (ground (arith, room, this, even, no_wrap)) (inl e) h.0 h.2 h.3)
      ]

-- In a well-formed arena, `arena_alloc` of 1 to 2 ^ 62 bytes grants the bytes, rounded up to a multiple
-- of 8, from the current block or the next behind what is used of it, or from a new block whose
-- header and capacity are together the size asked of `malloc`, and aborts only where `malloc` returns
-- NULL for a header and room for the bytes. The arena is well formed again: what is used of a block
-- is within its capacity.
pub arena_alloc-IsArena :
    (malloc : ℕ → Option ℕ) (a : Arena) (size : ℕ) (h : IsArena a) (some_bytes : 0 < size)
    (small : size ≤ 2 ^ 62)
    → Granted malloc a (arena_alloc malloc a size).1 (aligned size) (arena_alloc malloc a size).0
      × (size ≤ aligned size)
      × IsArena (arena_alloc malloc a size).1
unfolding arena_alloc
arena_alloc-IsArena malloc a size h some_bytes small =
    let bytes = aligned_lem size small in
    let served = IsServed-aligned malloc a (aligned size) h bytes.1 bytes.2 a.current refl in
    let here : size == 0 ≡ false = ground (arith, some_bytes) in
    rw here (served.0, bytes.0, served.1)
