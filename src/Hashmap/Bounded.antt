-- ===== src/Hashmap/Bounded.antt =====
-- src/common/hashmap.c: `hashmap_get_n`, which looks up a text that is not terminated.
use alkyl.Prelude.{ℕ, ◌≡◌, ◌≢◌, ◌↔◌, refl, true, some, Str, same_text_iff, get_elem?, ok, arith}
use alkyl.Hashmap.Hash.{hash_string, hash_string_n}
use alkyl.Hashmap.Probe.{Found, entry_at, empty_at, lost}
use alkyl.Hashmap.Map.{DictEntry, HashMap}
use alkyl.Hashmap.Ops.{same_entry_n, read_entry, get_n_at, hashmap_get_n}
use alkyl.Hashmap.Layout.{
  IsMap, IsMap-IsLayout, not_null, has_buckets, value_for, Hit, hit, miss, absent,
}
use alkyl.Hashmap.Search.{probe-Hit}
use alkyl.Hashmap.Values.{value_for-hit, value_for-miss}

module _ (text_of : ℕ → Str) (m : HashMap) (good : IsMap text_of m) (key : ℕ) (live : key ≢ 0)
    (text : Str) where
  same_entry_n_iff :
      (idx : ℕ) (e : DictEntry)
      → get_elem? m.entries idx ≡ some e
      → (same_entry_n text_of (some e) (hash_string text) text ≡ true)
        ↔ ((e.key ≢ 0) × (e.hash ≡ hash_string text) × (text_of e.key ≡ text))
  unfolding same_entry_n
  same_entry_n_iff idx e f =
      ground (arith, (good.placed idx e f).0.0, same_text_iff (text_of e.key) text)

  get_n_at-Hit :
      (r : Found)
      → Hit text_of m text good.bits r
      → get_n_at text_of m r ≡ some (ok (value_for text_of text m.entries))
  unfolding get_n_at read_entry
  get_n_at-Hit (entry_at idx) (hit _ e f alive same) =
      rw (f, not_null e.key alive, value_for-hit text_of m.entries idx e text good.distinct f same)
        refl
  get_n_at-Hit (empty_at s) (miss _ f l none_there) =
      rw (value_for-miss text_of m.entries text (absent text_of m text good none_there)) refl
  get_n_at-Hit lost h = elim h [ ]

  -- In a map that satisfies the invariant, `hashmap_get_n` of a buffer that is not NULL ends, does not read
  -- through NULL, and returns the value that the map's entries give the text in the buffer, NULL where
  -- no entry has that text as its key.
  pub hashmap_get_n-value_for :
      hashmap_get_n text_of m key text ≡ some (ok (value_for text_of text m.entries))
  unfolding hashmap_get_n hash_string_n hash_string IsMap-IsLayout
  hashmap_get_n-value_for =
      rw (not_null key live, has_buckets text_of m m.size (IsMap-IsLayout text_of m good))
        (get_n_at-Hit _ (
          probe-Hit text_of m m.size (IsMap-IsLayout text_of m good) text
            (λ o. same_entry_n text_of o (hash_string text) text) same_entry_n_iff))
