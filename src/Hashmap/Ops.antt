-- ===== src/Hashmap/Ops.antt =====
-- src/common/hashmap.c: the operations on a key. `text_of` says which string stands at an address, and
-- `copy` is the address that `arena_strdup` or `strdup` returns.
use alkyl.Prelude.{
  Run, ok, fault, null_deref, ℕ, ◌+◌, ◌-◌, ◌%◌, ◌^◌, bit_and, Bool, true, false, ◌&&◌, ◌||◌, not,
  ◌==◌, Option, none, some, List, [], ◌∷◌, get_elem?, set, if◌then◌else◌, Str, same_text,
}
use alkyl.Hashmap.Hash.{hash_string, hash_string_n}
use alkyl.Hashmap.Probe.{Found, entry_at, empty_at, lost, probe}
use alkyl.Hashmap.Map.{
  DictEntry, HashMap, mask_of, fuel_for, and_then, grow, add_entry, write_value, stored_key,
  value_of, key_of,
}

unfoldable pub is_empty : List (Option ℕ) → Bool
is_empty [] = true
is_empty (x ∷ xs) = false

unfoldable pub get_at : HashMap → Found → Option ℕ
get_at m (entry_at idx) = some (value_of (get_elem? m.entries idx))
get_at m (empty_at i) = some 0
get_at m lost = none

unfoldable pub removed_entry : DictEntry
removed_entry = record { hash = 0xFFFFFFFF; key = 0; value = 0 }

unfoldable pub remove_at : HashMap → Found → Option (Bool × HashMap)
remove_at m (entry_at idx) = some (
  true,
  record m { size = (m.size + 2 ^ 32 - 1) % 2 ^ 32; entries = set m.entries idx removed_entry },
)
remove_at m (empty_at i) = some (false, m)
remove_at m lost = none

module _ (text_of : ℕ → Str) where
  unfoldable pub streq_lit : ℕ → ℕ → Bool
  streq_lit interned lit =
      interned == lit
      || not (interned == 0 || lit == 0) && same_text (text_of interned) (text_of lit)

  unfoldable pub same_entry : Option DictEntry → ℕ → ℕ → Bool
  same_entry none hash key = false
  same_entry (some e) hash key = e.hash == hash && (e.key == key || streq_lit e.key key)

  -- The search of every operation for a key.
  unfoldable pub search : HashMap → ℕ → Found
  search m key =
      let hash = hash_string (text_of key) in
      probe (λ idx. same_entry (get_elem? m.entries idx) hash key) (mask_of m.capacity)
        (fuel_for m.capacity) m.indices (bit_and hash (mask_of m.capacity)) hash

  unfoldable pub new_entry : HashMap → ℕ → ℕ → ℕ → DictEntry
  new_entry m key copy value = record {
    hash = hash_string (text_of key);
    key = stored_key m key copy;
    value = value;
  }

  unfoldable pub put_at : HashMap → ℕ → ℕ → ℕ → Found → Option HashMap
  put_at m key copy value (entry_at idx) =
      some (record m { entries = write_value m.entries idx value })
  put_at m key copy value (empty_at i) = some (add_entry m i (new_entry m key copy value))
  put_at m key copy value lost = none

  unfoldable pub hashmap_put : HashMap → ℕ → ℕ → ℕ → Option HashMap
  hashmap_put m key copy value =
      if key == 0 then some m else and_then (grow m) (λ m. put_at m key copy value (search m key))

  unfoldable pub intern_at : HashMap → ℕ → ℕ → Found → Option (ℕ × HashMap)
  intern_at m key copy (entry_at idx) = some (key_of (get_elem? m.entries idx), m)
  intern_at m key copy (empty_at i) =
      let k = stored_key m key copy in some (k, add_entry m i (new_entry m key copy k))
  intern_at m key copy lost = none

  unfoldable pub hashmap_intern : HashMap → ℕ → ℕ → Option (ℕ × HashMap)
  hashmap_intern m key copy =
      if key == 0 then some (0, m) else and_then (grow m) (λ m. intern_at m key copy (search m key))

  unfoldable pub hashmap_get : HashMap → ℕ → Option ℕ
  hashmap_get m key = if key == 0 || is_empty m.indices then some 0 else get_at m (search m key)

  -- A text of known length. The search stops at a match, and at a removed entry with the text's hash, where
  -- `strlen` reads through NULL.
  unfoldable pub same_entry_n : Option DictEntry → ℕ → Str → Bool
  same_entry_n none hash text = false
  same_entry_n (some e) hash text = e.hash == hash && (e.key == 0 || same_text (text_of e.key) text)

  unfoldable pub read_entry : Option DictEntry → Run ℕ
  read_entry none = ok 0
  read_entry (some e) = if e.key == 0 then fault null_deref else ok e.value

  unfoldable pub get_n_at : HashMap → Found → Option (Run ℕ)
  get_n_at m (entry_at idx) = some (read_entry (get_elem? m.entries idx))
  get_n_at m (empty_at i) = some (ok 0)
  get_n_at m lost = none

  unfoldable pub hashmap_get_n : HashMap → ℕ → Str → Option (Run ℕ)
  hashmap_get_n m key text =
      let hash = hash_string_n text in
      if key == 0 || is_empty m.indices
      then some (ok 0)
      else get_n_at m (
          probe (λ idx. same_entry_n (get_elem? m.entries idx) hash text) (mask_of m.capacity)
            (fuel_for m.capacity) m.indices (bit_and hash (mask_of m.capacity)) hash)

  unfoldable pub hashmap_has : HashMap → ℕ → Option Bool
  hashmap_has m key = and_then (hashmap_get m key) (λ v. some (not (v == 0)))

  -- The count is of 64 bits, and its low 32 are returned.
  unfoldable pub inc_at : HashMap → ℕ → ℕ → Found → Option (ℕ × HashMap)
  inc_at m key copy (entry_at idx) =
      let count = (value_of (get_elem? m.entries idx) + 1) % 2 ^ 64 in
      some (count % 2 ^ 32, record m { entries = write_value m.entries idx count })
  inc_at m key copy (empty_at i) = some (1, add_entry m i (new_entry m key copy 1))
  inc_at m key copy lost = none

  unfoldable pub hashmap_inc : HashMap → ℕ → ℕ → Option (ℕ × HashMap)
  hashmap_inc m key copy =
      if key == 0 then some (0, m) else and_then (grow m) (λ m. inc_at m key copy (search m key))

  unfoldable pub hashmap_remove : HashMap → ℕ → Option (Bool × HashMap)
  hashmap_remove m key =
      if key == 0 || is_empty m.indices then some (false, m) else remove_at m (search m key)
