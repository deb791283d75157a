-- ===== src/Hashmap/Growth.antt =====
-- src/common/hashmap.c: `hashmap_resize`, and the test before an entry is added.
use alkyl.Prelude.{
  ℕ, suc, ◌+◌, ◌-◌, ◌*◌, ◌/◌, ◌^◌, ◌≤◌, ◌<◌, ◌≡◌, refl, ap, ◌∙◌, true, leb, Option, some, List,
  take, take-length, get_elem?, Str, Bool-cases, inl, inr, arith,
}
use native.Mathlib.Nat.{one-le-pow, pow-suc, pow-le-pow_right, zero-add}
use alkyl.Hashmap.Hash.{hash_string-lt}
use alkyl.Hashmap.Map.{
  DictEntry, HashMap, limit_of, fuel_for, and_then, no_indices, place_all, next_capacity,
  hashmap_resize, grow,
}
use alkyl.Hashmap.Table.{Placed, no_indices-IsTable, place_all-Placed}
use alkyl.Hashmap.Layout.{IsMap, mask_of-pow}

-- A map with the same entries, and room for one more.
pub record Grown (text_of : ℕ → Str) (m m1 : HashMap) : Type 0 where
  pub good : IsMap text_of m1
  pub entries : m1.entries ≡ m.entries
  pub size : m1.size ≡ m.size
  pub room : m1.size < limit_of m1.capacity
  pub arena : m1.arena ≡ m.arena
  pub owns_keys : m1.owns_keys ≡ m.owns_keys

next_capacity-pow : (k : ℕ) → k ≤ 30 → next_capacity (2 ^ k) ≡ 2 ^ suc k
unfolding next_capacity
next_capacity-pow k h =
    let pos : 1 ≤ 2 ^ k = one-le-pow k 2 (omega arith) in
    let small : 2 ^ k ≤ 2 ^ 30 = pow-le-pow_right (omega arith) h in
    let twice : 2 ^ suc k ≡ 2 * 2 ^ k = omega (arith, pow-suc 2 k) in
    rw twice (ground (arith, pos, small))

module _ (text_of : ℕ → Str) (m : HashMap) (good : IsMap text_of m) where
  entry-hash-lt : (j : ℕ) (e : DictEntry) → get_elem? m.entries j ≡ some e → e.hash < 2 ^ 32
  entry-hash-lt j e f =
      let alive = (good.placed j e f).0 in omega (arith, alive.1, hash_string-lt (text_of e.key))

  module _ (narrow : good.bits ≤ 30) where
    take_written : take m.size m.entries ≡ m.entries
    take_written = rw (← good.written) (take-length m.entries)

    rebuilt :
        (after : List (Option ℕ)) × (place_all
            (2 ^ suc good.bits - 1)
            (2 ^ suc good.bits + 7)
            0
            m.entries
            (no_indices (2 ^ suc good.bits))
          ≡ some after)
        × Placed (suc good.bits) (no_indices (2 ^ suc good.bits)) after 0 m.entries
    unfolding limit_of
    rebuilt =
        let pos : 1 ≤ 2 ^ good.bits = one-le-pow good.bits 2 (omega arith) in
        place_all-Placed (suc good.bits) 0 m.entries (no_indices (2 ^ suc good.bits))
          (no_indices-IsTable (suc good.bits))
          (omega (arith, good.room, good.power, good.written, pos, pow-suc 2 good.bits))
          entry-hash-lt

    rebuilt-IsMap :
        (after : List (Option ℕ))
        → Placed (suc good.bits) (no_indices (2 ^ suc good.bits)) after 0 m.entries
        → Grown text_of m
            (record m { capacity = 2 ^ suc good.bits; indices = after; entries = m.entries })
    unfolding limit_of
    rebuilt-IsMap after p =
        let pos : 1 ≤ 2 ^ good.bits = one-le-pow good.bits 2 (omega arith) in
        let room : m.size < 2 ^ suc good.bits * 2 / 3 =
          omega (arith, good.room, good.power, pos, pow-suc 2 good.bits) in
        record {
          good = record {
            bits = suc good.bits;
            narrow = omega (arith, narrow);
            power = refl;
            table = rw (zero-add, good.written) at p.table;
            written = good.written;
            room = omega (arith, room);
            placed = λ i e f.
                ((good.placed i e f).0, (let holds = p.placed i e f in rw zero-add at holds));
            distinct = good.distinct;
          };
          entries = refl;
          size = refl;
          room = room;
          arena = refl;
          owns_keys = refl;
        }

    -- `hashmap_resize` of a map of at most 2 ^ 30 slots ends. The map it leaves satisfies the invariant,
    -- has the same entries, in their order, and has room for one more.
    pub hashmap_resize-Grown : (m1 : HashMap) × (hashmap_resize m ≡ some m1) × Grown text_of m m1
    unfolding hashmap_resize and_then fuel_for
    hashmap_resize-Grown =
        let (after, run, p) = rebuilt in
        (
          record m { capacity = 2 ^ suc good.bits; indices = after; entries = m.entries },
          rw
              (
                good.power,
                next_capacity-pow good.bits narrow,
                take_written,
                mask_of-pow (suc good.bits) (omega (arith, narrow)),
                run,
              )
              refl,
          rebuilt-IsMap after p,
        )

  bits-le : m.size < 2 ^ 30 → leb (limit_of m.capacity) m.size ≡ true → good.bits ≤ 30
  unfolding limit_of
  bits-le few full = elim (Bool-cases (leb good.bits 30)) [
    | inl small ↦ ground (arith, small)
    | inr large ↦
        let top : good.bits ≡ 31 = ground (arith, large, good.narrow) in
        let capacity : m.capacity ≡ 2 ^ 31 = good.power ∙ ap (λ (b : ℕ). 2 ^ b) top in
        ground (arith, few, full, capacity)
  ]

  -- With fewer than 2 ^ 30 entries there is room, or the table can be doubled.
  pub grow-Grown : m.size < 2 ^ 30 → (m1 : HashMap) × (grow m ≡ some m1) × Grown text_of m m1
  unfolding grow
  grow-Grown few = elim (Bool-cases (leb (limit_of m.capacity) m.size)) [
    | inl full ↦ rw full (hashmap_resize-Grown (bits-le few full))
    | inr space ↦ rw space (
      m,
      refl,
      record {
        good = good;
        entries = refl;
        size = refl;
        room = ground (arith, space);
        arena = refl;
        owns_keys = refl;
      },
    )
  ]
