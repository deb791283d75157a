-- ===== src/Hashmap/Remove.antt =====
-- src/common/hashmap.c: `hashmap_get` and `hashmap_remove` of a map from which entries may have been removed.
use alkyl.Prelude.{
  ℕ, ◌≡◌, ◌≢◌, ◌↔◌, refl, sym, ap, ◌∙◌, Bool, true, false, some, length-set, set, get_elem?,
  get_elem?-set_cases, Str, same_text, same_text_iff, if◌then◌else◌, Bool-cases, inl, inr,
}
use alkyl.Hashmap.Probe.{Found, entry_at, empty_at, lost}
use alkyl.Hashmap.Map.{DictEntry, HashMap, value_of}
use alkyl.Hashmap.Ops.{search, get_at, hashmap_get, removed_entry, remove_at, hashmap_remove}
use alkyl.Hashmap.Search.{search-LayoutHit}
use alkyl.Hashmap.Layout.{not_null, IsLayout, has_buckets, Hit, hit, miss}
use alkyl.Hashmap.Removed.{live_for, live_for-hit, live_for-miss, live_for-set}

module _ (text_of : ℕ → Str) (key : ℕ) (live : key ≢ 0) (m : HashMap) (n : ℕ)
    (good : IsLayout text_of m n) where
  -- There is an entry for the key's text.
  abbrev pub Present : Type 0
  Present =
      (i : ℕ) × (e : DictEntry) × (get_elem? m.entries i ≡ some e)
      × (e.key ≢ 0)
      × (text_of e.key ≡ text_of key)

  get_at-Hit :
      (r : Found)
      → Hit text_of m (text_of key) good.bits r
      → get_at m r ≡ some (live_for text_of (text_of key) m.entries)
  unfolding get_at value_of
  get_at-Hit (entry_at idx) (hit _ e f alive same) =
      rw (f, live_for-hit text_of m.entries idx e (text_of key) good.distinct f alive same) refl
  get_at-Hit (empty_at s) (miss _ f l none_there) =
      rw (live_for-miss text_of m.entries (text_of key) none_there) refl
  get_at-Hit lost h = elim h [ ]

  -- In such a map `hashmap_get` of a key that is not NULL ends, and returns the value that the entries
  -- give the key's text, NULL where none of them has that text as its key.
  pub hashmap_get-live_for :
      hashmap_get text_of m key ≡ some (live_for text_of (text_of key) m.entries)
  unfolding hashmap_get
  hashmap_get-live_for =
      rw (not_null key live, has_buckets text_of m n good)
        (get_at-Hit (search text_of m key) (search-LayoutHit text_of key live m n good))

  without-IsLayout :
      (idx size : ℕ)
      → IsLayout text_of (record m { size = size; entries = set m.entries idx removed_entry }) n
  unfolding removed_entry
  without-IsLayout idx size = record {
    bits = good.bits;
    narrow = good.narrow;
    power = good.power;
    table = good.table;
    written = length-set m.entries idx removed_entry ∙ good.written;
    room = good.room;
    placed = λ i e f alive. good.placed i e (kept i e f alive) alive;
    distinct = λ i j e f a b alive same alive1.
        good.distinct i j e f (kept i e a alive) (kept j f b alive1) alive same alive1;
  }
    where
      kept :
          (i : ℕ) (e : DictEntry)
          → get_elem? (set m.entries idx removed_entry) i ≡ some e
          → e.key ≢ 0
          → get_elem? m.entries i ≡ some e
      kept i e f alive = elim (get_elem?-set_cases m.entries idx i removed_entry e f) [
        | inl gone ↦ absurd (alive (ap (λ (d : DictEntry). d.key) (sym gone.1)))
        | inr other ↦ other.1
      ]

  -- What a removal leaves: it tells whether there was an entry for the key's text, and that text alone has
  -- no value any more.
  pub record Removes (found : Bool) (m1 : HashMap) : Type 0 where
    pub told : (found ≡ true) ↔ Present
    pub layout : IsLayout text_of m1 n
    pub values :
        (q : Str)
        → live_for text_of q m1.entries
          ≡ (if same_text (text_of key) q then 0 else live_for text_of q m.entries)

  remove_at-Removes :
      (r : Found)
      → Hit text_of m (text_of key) good.bits r
      → (found : Bool) × (m1 : HashMap) × (remove_at m r ≡ some (found, m1)) × Removes found m1
  unfolding remove_at
  remove_at-Removes (entry_at idx) (hit _ e f alive same) = (
    true,
    _,
    refl,
    record {
      told = (λ _. (idx, e, f, alive, same), λ _. refl);
      layout = without-IsLayout idx _;
      values = λ q. rw (← same) (live_for-set text_of m.entries idx e q good.distinct f alive);
    },
  )
  remove_at-Removes (empty_at s) (miss _ f l none_there) = (
    false,
    m,
    refl,
    record {
      told = (λ e. cc, λ (i, e, a, alive, same). absurd (none_there i e a alive same));
      layout = good;
      values = λ q. elim (Bool-cases (same_text (text_of key) q)) [
        | inl a ↦ rw a (
            live_for-miss text_of m.entries q (λ i e b alive same.
              none_there i e b alive (same ∙ sym ((same_text_iff (text_of key) q).0 a))))
        | inr a ↦ rw a refl
      ];
    },
  )
  remove_at-Removes lost h = elim h [ ]

  -- `hashmap_remove` of a key that is not NULL ends, and says whether there was an entry for the key's text.
  pub hashmap_remove-Removes :
      (found : Bool) × (m1 : HashMap) × (hashmap_remove text_of m key ≡ some (found, m1))
      × Removes found m1
  unfolding hashmap_remove
  hashmap_remove-Removes =
      rw (not_null key live, has_buckets text_of m n good)
        (remove_at-Removes (search text_of m key) (search-LayoutHit text_of key live m n good))
