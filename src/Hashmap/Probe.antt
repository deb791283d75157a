-- ===== src/Hashmap/Probe.antt =====
-- src/common/hashmap.c: the search for a slot, which every operation on a hash map runs.
use alkyl.Prelude.{
  ℕ, zero, suc, ◌+◌, ◌*◌, ◌/◌, ◌^◌, bit_and, Bool, Option, none, some, List, get_elem?,
  if◌then◌else◌,
}

-- How a search ends: at a slot with the index of an entry that matches, at an empty slot, or neither
-- within the fuel (or at a slot that is out of bounds).
pub data Found : Type 0 where
  entry_at : ℕ → Found
  empty_at : ℕ → Found
  lost : Found

unfoldable pub next_slot : ℕ → ℕ → ℕ → ℕ
next_slot mask i perturb = bit_and (i * 5 + 1 + perturb) mask

unfoldable pub look : (ℕ → Bool) → ℕ → Option (Option ℕ) → Found → Found
look matches i none rest = lost
look matches i (some none) rest = empty_at i
look matches i (some (some idx)) rest = if matches idx then entry_at idx else rest

-- The `while` loop from slot `i`. A slot that holds -1 is `none` in the list of indices.
unfoldable pub probe : (ℕ → Bool) → ℕ → ℕ → List (Option ℕ) → ℕ → ℕ → Found
unfolding look next_slot
probe matches mask zero indices i perturb = lost
probe matches mask (suc fuel) indices i perturb =
    let rest = probe matches mask fuel indices (next_slot mask i perturb) (perturb / 2 ^ 5) in
    look matches i (get_elem? indices i) rest
