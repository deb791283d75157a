-- ===== src/Hashmap/Put.antt =====
-- src/common/hashmap.c: `hashmap_put` and `hashmap_inc` write a finite map, and `hashmap_get` and
-- `hashmap_has` read it.
use alkyl.Prelude.{
  ℕ, ◌+◌, ◌%◌, ◌^◌, ◌<◌, ◌≡◌, ◌≢◌, refl, sym, ap, ◌∙◌, ◌||◌, some, Str, Bool-cases, inl, inr,
}
use alkyl.Hashmap.Hash.{hash_string}
use alkyl.Hashmap.Probe.{Found, entry_at, empty_at, lost}
use alkyl.Hashmap.Map.{HashMap, limit_of, and_then, add_entry, stored_key, value_of}
use alkyl.Hashmap.Ops.{new_entry, put_at, hashmap_put, hashmap_get, inc_at, hashmap_inc}
use alkyl.Hashmap.Search.{search-Hit}
use alkyl.Hashmap.Layout.{
  not_null, IsMap-IsLayout, absent, IsEntry, IsMap, value_for, Hit, hit, miss,
}
use alkyl.Hashmap.Values.{value_for-hit, value_for-miss}
use alkyl.Hashmap.Removed.{live_for-value_for}
use alkyl.Hashmap.Remove.{hashmap_get-live_for}
use alkyl.Hashmap.Growth.{grow-Grown}
use alkyl.Hashmap.Written.{Wrote, Wrote-Grown, Wrote-same_text, write_value-Wrote, add_entry-Wrote}

-- A copy of a key: another address where the same text stands.
abbrev pub IsCopy : (ℕ → Str) → ℕ → ℕ → Type 0
IsCopy text_of key copy = (copy ≢ 0) × (text_of copy ≡ text_of key)

module _ (text_of : ℕ → Str) (key : ℕ) (live : key ≢ 0) where
  module _ (m : HashMap) (good : IsMap text_of m) where
    -- In a map that satisfies the invariant, `hashmap_get` of a key that is not NULL ends, and returns the
    -- value that the map's entries give the key's text, NULL where no entry has that text as its key.
    pub hashmap_get_lem :
        hashmap_get text_of m key ≡ some (value_for text_of (text_of key) m.entries)
    hashmap_get_lem =
        hashmap_get-live_for text_of key live m m.size (IsMap-IsLayout text_of m good)
        ∙ ap some
            (live_for-value_for text_of m.entries (text_of key) (λ i e f. (good.placed i e f).0.0))

    -- The address of the key that a new entry holds.
    pub stored_key_lem :
        (copy : ℕ)
        → IsCopy text_of key copy
        → (stored_key m key copy ≢ 0) × (text_of (stored_key m key copy) ≡ text_of key)
    unfolding stored_key
    stored_key_lem copy same = elim (Bool-cases (m.arena || m.owns_keys)) [
      | inl e ↦ rw e same
      | inr e ↦ rw e (live, refl)
    ]

    module _ (copy value : ℕ) (same : IsCopy text_of key copy)
        (space : m.size < limit_of m.capacity) where
      new_entry-IsEntry : IsEntry text_of (new_entry text_of m key copy value)
      unfolding new_entry
      new_entry-IsEntry =
          let (stored, text) = stored_key_lem copy same in (stored, ap hash_string (sym text))

      pub new_entry-Wrote :
          (s : ℕ)
          → Hit text_of m (text_of key) good.bits (empty_at s)
          → Wrote text_of m key value (add_entry m s (new_entry text_of m key copy value))
      unfolding new_entry
      new_entry-Wrote s (miss _ e l none_there) =
          let text = (stored_key_lem copy same).1 in
          Wrote-same_text text_of m _ (stored_key m key copy) key value text (
            add_entry-Wrote text_of m good space s (new_entry text_of m key copy value)
              new_entry-IsEntry e l
              (λ idx f g h. none_there idx f g (good.placed idx f g).0.0 (h ∙ text)))

      put_at-Wrote :
          (r : Found)
          → Hit text_of m (text_of key) good.bits r
          → (m1 : HashMap) × (put_at text_of m key copy value r ≡ some m1)
            × Wrote text_of m key value m1
      unfolding put_at
      put_at-Wrote (entry_at idx) (hit _ e f _ at) =
          (_, refl, write_value-Wrote text_of m good idx value key e f at)
      put_at-Wrote (empty_at s) h = (_, refl, new_entry-Wrote s h)
      put_at-Wrote lost h = elim h [ ]

    module _ (copy : ℕ) (same : IsCopy text_of key copy)
        (space : m.size < limit_of m.capacity) where
      -- The count that `hashmap_inc` leaves for a key.
      inc_at-Wrote :
          (r : Found)
          → Hit text_of m (text_of key) good.bits r
          → let count = (value_for text_of (text_of key) m.entries + 1) % 2 ^ 64 in
            (m1 : HashMap) × (inc_at text_of m key copy r ≡ some (count % 2 ^ 32, m1))
            × Wrote text_of m key count m1
      unfolding inc_at value_of
      inc_at-Wrote (entry_at idx) (hit _ e f _ at) =
          rw (f, value_for-hit text_of m.entries idx e (text_of key) good.distinct f at)
            (_, refl, write_value-Wrote text_of m good idx ((e.value + 1) % 2 ^ 64) key e f at)
      inc_at-Wrote (empty_at s) (miss _ e l none_there) =
          rw
            (value_for-miss text_of m.entries (text_of key)
              (absent text_of m (text_of key) good none_there))
            (_, refl, new_entry-Wrote copy 1 same space s (miss s e l none_there))
      inc_at-Wrote lost h = elim h [ ]

  module _ (m : HashMap) (good : IsMap text_of m) (few : m.size < 2 ^ 30) (copy : ℕ)
      (same : IsCopy text_of key copy) where
    -- `hashmap_put` of a key that is not NULL, into a map of fewer than 2 ^ 30 entries that satisfies the
    -- invariant, ends. It leaves a map that satisfies the invariant, where the key's text has the new
    -- value and every other text the value that it had. The map is resized where it is full, and the
    -- copy of the key that `arena_strdup` or `strdup` makes is any address where the same text stands.
    pub hashmap_put-Wrote :
        (value : ℕ)
        → (m1 : HashMap) × (hashmap_put text_of m key copy value ≡ some m1)
          × Wrote text_of m key value m1
    unfolding hashmap_put and_then
    hashmap_put-Wrote value =
        let (m1, grows, g) = grow-Grown text_of m good few in
        let (m2, e, w) =
          put_at-Wrote m1 g.good copy value same g.room _ (search-Hit text_of key live m1 g.good) in
        (m2, rw (not_null key live, grows) e, Wrote-Grown text_of m m1 m2 key value g w)

    -- `hashmap_inc` of a key that is not NULL, in such a map, ends. The key's text then has its value plus
    -- 1 on 64 bits, 1 where it had none, and the low 32 bits of that are returned; every other text has
    -- the value that it had, and the map satisfies the invariant.
    pub hashmap_inc-Wrote :
        let count = (value_for text_of (text_of key) m.entries + 1) % 2 ^ 64 in
        (m1 : HashMap) × (hashmap_inc text_of m key copy ≡ some (count % 2 ^ 32, m1))
        × Wrote text_of m key count m1
    unfolding hashmap_inc and_then
    hashmap_inc-Wrote =
        let (m1, grows, g) = grow-Grown text_of m good few in
        let (m2, e, w) =
          inc_at-Wrote m1 g.good copy same g.room _ (search-Hit text_of key live m1 g.good) in
        (
          m2,
          rw (not_null key live, grows, ← g.entries) e,
          Wrote-Grown text_of m m1 m2 key _ g (rw (← g.entries) w),
        )
