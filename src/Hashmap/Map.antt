-- ===== src/Hashmap/Map.antt =====
-- src/common/hashmap.c, src/include/common/hashmap.h: the hash map and its operations.
-- A key and a value are addresses, NULL is 0, and `text_of` says which string stands at an address; the
-- strings are taken not to change. The block `buckets` is two lists: the indices, with `none` for -1 (and
-- for TOMBSTONE, which is -1 as well), and the entries that have been written; it is NULL where there
-- are no indices. `arena` says whether there is one, and `copy` is the address that `arena_strdup` or
-- `strdup` returns. Memory is taken not to run out. An operation is `none` where its search does not end.
use alkyl.Prelude.{
  ℕ, zero, suc, ◌+◌, ◌-◌, ◌*◌, ◌/◌, ◌%◌, ◌^◌, bit_and, Bool, false, ◌||◌, not, ◌==◌, leb, Option,
  none, some, List, [], ◌∷◌, map, keep_if, take, set, if◌then◌else◌,
}
use alkyl.Hashmap.Hash.{next_pow2}
use alkyl.Hashmap.Probe.{Found, entry_at, empty_at, lost, probe}

pub record DictEntry : Type 0 where
  pub hash : ℕ
  pub key : ℕ
  pub value : ℕ

pub record HashMap : Type 0 where
  pub capacity : ℕ
  pub size : ℕ
  pub indices : List (Option ℕ)
  pub entries : List DictEntry
  pub arena : Bool
  pub owns_keys : Bool

-- `mask`, from a capacity of 32 bits; `limit`, the number of entries there is room for; and fuel for
-- every search in a table of that capacity.
unfoldable pub mask_of : ℕ → ℕ
mask_of capacity = (capacity + 2 ^ 32 - 1) % 2 ^ 32

unfoldable pub limit_of : ℕ → ℕ
limit_of capacity = capacity * 2 / 3

unfoldable pub fuel_for : ℕ → ℕ
fuel_for capacity = capacity + 7

unfoldable pub no_indices : ℕ → List (Option ℕ)
no_indices zero = []
no_indices (suc n) = none ∷ no_indices n

unfoldable pub write_value : List DictEntry → ℕ → ℕ → List DictEntry
write_value [] i v = []
write_value (x ∷ xs) zero v = record x { value = v } ∷ xs
write_value (x ∷ xs) (suc i) v = x ∷ write_value xs i v

-- A write to `entries[i]`, the cell behind the last written one included.
unfoldable pub write_entry : List DictEntry → ℕ → DictEntry → List DictEntry
write_entry [] i e = e ∷ []
write_entry (x ∷ xs) zero e = e ∷ xs
write_entry (x ∷ xs) (suc i) e = x ∷ write_entry xs i e

-- The loop of `hashmap_resize` over the entries.
unfoldable pub put_index : List (Option ℕ) → ℕ → Found → Option (List (Option ℕ))
put_index indices i (entry_at idx) = none
put_index indices i (empty_at j) = some (set indices j (some i))
put_index indices i lost = none

unfoldable pub and_then {ℓ κ} : {A : Type ℓ} {B : Type κ} → Option A → (A → Option B) → Option B
and_then none f = none
and_then (some a) f = f a

unfoldable pub place_all : ℕ → ℕ → ℕ → List DictEntry → List (Option ℕ) → Option (List (Option ℕ))
place_all mask fuel i [] indices = some indices
place_all mask fuel i (e ∷ es) indices =
    and_then
      (put_index indices i (probe (λ _. false) mask fuel indices (bit_and e.hash mask) e.hash))
      (place_all mask fuel (suc i) es)

unfoldable pub next_capacity : ℕ → ℕ
next_capacity old_cap = if old_cap == 0 then 8 else old_cap * 2 % 2 ^ 32

unfoldable pub hashmap_resize : HashMap → Option HashMap
hashmap_resize m =
    let new_cap = next_capacity m.capacity in
    let entries = take m.size m.entries in
    and_then (place_all (mask_of new_cap) (fuel_for new_cap) 0 entries (no_indices new_cap))
      (λ indices. some (record m { capacity = new_cap; indices = indices; entries = entries }))

-- The test at the head of the operations that may add an entry.
unfoldable pub grow : HashMap → Option HashMap
grow m = if leb (limit_of m.capacity) m.size then hashmap_resize m else some m

unfoldable pub hashmap_init : Bool → ℕ → HashMap
hashmap_init arena initial_capacity =
    let cap = next_pow2 initial_capacity in
    record {
      capacity = cap;
      size = 0;
      indices = no_indices cap;
      entries = [];
      arena = arena;
      owns_keys = false;
    }

-- A new entry in slot `i`.
unfoldable pub add_entry : HashMap → ℕ → DictEntry → HashMap
add_entry m i e = record m {
  size = (m.size + 1) % 2 ^ 32;
  indices = set m.indices i (some m.size);
  entries = write_entry m.entries m.size e;
}

unfoldable pub stored_key : HashMap → ℕ → ℕ → ℕ
stored_key m key copy = if m.arena || m.owns_keys then copy else key

-- `entries[idx].value` and `entries[idx].key`, 0 where nothing has been written.
unfoldable pub value_of : Option DictEntry → ℕ
value_of none = 0
value_of (some e) = e.value

unfoldable pub key_of : Option DictEntry → ℕ
key_of none = 0
key_of (some e) = e.key

-- What is freed, and the map that is left.
unfoldable pub hashmap_free : HashMap → List ℕ × HashMap
hashmap_free m = if m.arena then ([], m) else (
  if m.owns_keys
      then keep_if (λ k. not (k == 0)) (map (λ (e : DictEntry). e.key) (take m.size m.entries))
      else [],
  record m { capacity = 0; size = 0; indices = []; entries = [] },
)
