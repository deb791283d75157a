-- ===== src/Hashmap/Search.antt =====
-- src/common/hashmap.c: what a search for a text returns under the invariant.
use alkyl.Prelude.{
  bit_and, Bool, true, false, Option, Bool-cases, inl, inr, ◌==◌, ℕ, ◌^◌, ◌≤◌, ◌<◌, ◌≡◌, ◌≢◌, ◌↔◌,
  refl, ap, ◌∙◌, true, false, some, get_elem?, get_elem?-some, Str, same_text_iff, arith,
}
use native.Mathlib.Nat.{one-le-pow}
use alkyl.Hashmap.Hash.{hash_string, hash_string-lt}
use alkyl.Hashmap.Probe.{probe, Found, entry_at, empty_at, lost}
use alkyl.Hashmap.Map.{DictEntry, HashMap, mask_of, limit_of, fuel_for}
use alkyl.Hashmap.Ops.{streq_lit, same_entry, search}
use alkyl.Hashmap.Table.{Holds, Outcome, matched, unmatched, probe_for, probe_for-Outcome}
use alkyl.Hashmap.Layout.{IsMap, IsLayout, IsMap-IsLayout, Hit, hit, miss, mask_of-pow}

-- A test that holds for the live entries of one text, which have its hash.
module _ (text_of : ℕ → Str) (m : HashMap) (n : ℕ) (good : IsLayout text_of m n) (q : Str)
    (test : Option DictEntry → Bool)
    (finds : (idx : ℕ) (e : DictEntry)
      → get_elem? m.entries idx ≡ some e
      → (test (some e) ≡ true)
        ↔ ((e.key ≢ 0) × (e.hash ≡ hash_string q) × (text_of e.key ≡ q))) where
  Hit-matched :
      (idx : ℕ)
      → test (get_elem? m.entries idx) ≡ true
      → Holds good.bits m.indices (hash_string q) idx
      → Hit text_of m q good.bits (entry_at idx)
  Hit-matched idx same (t, l, at) =
      let (e, f) =
        get_elem?-some m.entries idx (omega (arith, good.table.bounded t idx at, good.written)) in
      let same_e : test (some e) ≡ true = rw f at same in
      let (alive, _, text) = (finds idx e f).0 same_e in hit idx e f alive text

  Hit-unmatched :
      ((idx : ℕ)
        → Holds good.bits m.indices (hash_string q) idx
        → test (get_elem? m.entries idx) ≡ false)
      → (idx : ℕ) (e : DictEntry) → get_elem? m.entries idx ≡ some e
      → e.key ≢ 0
      → text_of e.key ≢ q
  Hit-unmatched others idx e f alive same =
      let (hash, holds) = good.placed idx e f alive in
      let hashes : e.hash ≡ hash_string q = hash ∙ ap hash_string same in
      let differs : test (some e) ≡ false =
        (let none_there = others idx (rw (← hashes) holds) in rw f at none_there) in
      let agrees = (finds idx e f).1 (alive, hashes, same) in cc

  Hit-Outcome :
      (r : Found)
      → Outcome (λ idx. test (get_elem? m.entries idx)) good.bits m.indices (hash_string q) r
      → Hit text_of m q good.bits r
  Hit-Outcome (entry_at idx) (matched _ same holds) = Hit-matched idx same holds
  Hit-Outcome (empty_at s) (unmatched _ e l others) = miss s e l (Hit-unmatched others)
  Hit-Outcome lost h = elim h [ ]

  as_probe_for :
      probe
        (λ idx. test (get_elem? m.entries idx))
        (mask_of m.capacity)
        (fuel_for m.capacity)
        m.indices
        (bit_and (hash_string q) (mask_of m.capacity))
        (hash_string q)
      ≡ probe_for (λ idx. test (get_elem? m.entries idx)) good.bits m.indices (hash_string q)
  unfolding fuel_for
  as_probe_for = rw (good.power, mask_of-pow good.bits good.narrow) refl

  -- The search with such a test, as the operations write it.
  pub probe-Hit : Hit text_of m q good.bits (
      probe
        (λ idx. test (get_elem? m.entries idx))
        (mask_of m.capacity)
        (fuel_for m.capacity)
        m.indices
        (bit_and (hash_string q) (mask_of m.capacity))
        (hash_string q))
  unfolding limit_of
  probe-Hit =
      let pos : 1 ≤ 2 ^ good.bits = one-le-pow good.bits 2 (omega arith) in
      let free_slot : n < 2 ^ good.bits = omega (arith, good.room, good.power, pos) in
      rw as_probe_for (
        Hit-Outcome _ (
          probe_for-Outcome good.bits m.indices n good.table (λ idx. test (get_elem? m.entries idx))
            (hash_string q) free_slot (hash_string-lt q)))

module _ (text_of : ℕ → Str) (key : ℕ) (live : key ≢ 0) where
  same_entry_iff :
      (e : DictEntry) (hash : ℕ)
      → (same_entry text_of (some e) hash key ≡ true)
        ↔ ((e.key ≢ 0) × (e.hash ≡ hash) × (text_of e.key ≡ text_of key))
  unfolding same_entry streq_lit
  same_entry_iff e hash = elim (Bool-cases (e.key == 0)) [
    | inl dead ↦ ground (arith, live, dead)
    | inr alive ↦
        ground (arith, live, alive, same_text_iff (text_of e.key) (text_of key), ap text_of)
  ]

  pub search-LayoutHit :
      (m : HashMap) (n : ℕ) (good : IsLayout text_of m n)
      → Hit text_of m (text_of key) good.bits (search text_of m key)
  unfolding search
  search-LayoutHit m n good =
      probe-Hit text_of m n good (text_of key)
        (λ o. same_entry text_of o (hash_string (text_of key)) key)
        (λ idx e f. same_entry_iff e (hash_string (text_of key)))

  pub search-Hit :
      (m : HashMap) (good : IsMap text_of m)
      → Hit text_of m (text_of key) good.bits (search text_of m key)
  unfolding IsMap-IsLayout
  search-Hit m good = search-LayoutHit m m.size (IsMap-IsLayout text_of m good)
