-- ===== src/Hashmap/Intern.antt =====
-- src/common/hashmap.c: `hashmap_intern` gives all keys of one text one address.
use alkyl.Prelude.{
  ℕ, suc, ◌^◌, ◌<◌, ◌≡◌, ◌≢◌, ◌↔◌, refl, sym, ap, ◌∙◌, ◌==◌, some, get_elem?, Str, same_text,
  same_text_iff, if◌then◌else◌, Bool-cases, inl, inr, arith,
}
use alkyl.Hashmap.Probe.{Found, entry_at, empty_at, lost}
use alkyl.Hashmap.Map.{DictEntry, HashMap, limit_of, and_then, add_entry, stored_key, key_of}
use alkyl.Hashmap.Ops.{new_entry, intern_at, hashmap_intern}
use alkyl.Hashmap.Search.{search-Hit}
use alkyl.Hashmap.Layout.{not_null, absent, IsMap, value_for, Hit, hit, miss}
use alkyl.Hashmap.Values.{value_for-hit, value_for-miss}
use alkyl.Hashmap.Growth.{Grown, grow-Grown}
use alkyl.Hashmap.Written.{Wrote, Wrote-Grown, add_entry-entries, get_elem?-snoc}
use alkyl.Hashmap.Put.{IsCopy, new_entry-Wrote, stored_key_lem}

-- The value of every entry is the address of its key: `hashmap_intern` alone has written to the map.
abbrev pub IsInterned : HashMap → Type 0
IsInterned m = (i : ℕ) (e : DictEntry) → get_elem? m.entries i ≡ some e → e.value ≡ e.key

-- The address that the entries give a text, or else the one that a new entry has.
pub canonical : ℕ → ℕ → ℕ
canonical known fresh = if known == 0 then fresh else known

pub canonical-known : (known fresh : ℕ) → known ≢ 0 → canonical known fresh ≡ known
unfolding canonical
canonical-known known fresh h = ground (arith, h)

canonical-none : (known fresh : ℕ) → known ≡ 0 → canonical known fresh ≡ fresh
unfolding canonical
canonical-none known fresh h = ground (arith, h)

module _ (text_of : ℕ → Str) (key : ℕ) (live : key ≢ 0) (copy : ℕ)
    (same : IsCopy text_of key copy) where
  -- The address that interning the key in the map returns.
  abbrev pub address_in : HashMap → ℕ
  address_in m = canonical (value_for text_of (text_of key) m.entries) (stored_key m key copy)

  -- What an interning leaves.
  pub record Interns (m : HashMap) (k : ℕ) (m1 : HashMap) : Type 0 where
    pub wrote : Wrote text_of m key k m1
    pub own : IsInterned m1
    pub alive : k ≢ 0
    pub text : text_of k ≡ text_of key

  module _ (m : HashMap) (good : IsMap text_of m) (own : IsInterned m) where
    known-Interns :
        (idx : ℕ) (e : DictEntry)
        → get_elem? m.entries idx ≡ some e
        → text_of e.key ≡ text_of key
        → Interns m e.key m
    known-Interns idx e f at = record {
      wrote = record {
        good = good;
        values = λ q. elim (Bool-cases (same_text (text_of key) q)) [
          | inl a ↦ rw a (
              value_for-hit text_of m.entries idx e q good.distinct f
                (at ∙ (same_text_iff (text_of key) q).0 a)
              ∙ own idx e f)
          | inr a ↦ rw a refl
        ];
        size = omega arith;
        arena = refl;
        owns_keys = refl;
      };
      own = own;
      alive = (good.placed idx e f).0.0;
      text = at;
    }

    module _ (space : m.size < limit_of m.capacity) where
      added-IsInterned :
          (s : ℕ)
          → IsInterned (add_entry m s (new_entry text_of m key copy (stored_key m key copy)))
      unfolding new_entry
      added-IsInterned s i e f =
          let k = stored_key m key copy in
          let fresh = new_entry text_of m key copy k in
          let at = rw (add_entry-entries m s fresh good.written) at f in
          elim (get_elem?-snoc m.entries fresh e i at) [
            | inl old ↦ own i e old
            | inr last ↦
                ap (λ (d : DictEntry). d.value) (sym last.1) ∙ ap (λ (d : DictEntry). d.key) last.1
          ]

      fresh-Interns :
          (s : ℕ)
          → Hit text_of m (text_of key) good.bits (empty_at s)
          → let k = stored_key m key copy in
            Interns m k (add_entry m s (new_entry text_of m key copy k))
      fresh-Interns s h =
          let k = stored_key m key copy in
          let (stored, text) = stored_key_lem text_of key live m good copy same in
          record {
            wrote = new_entry-Wrote text_of key live m good copy k same space s h;
            own = added-IsInterned s;
            alive = stored;
            text = text;
          }

      intern_at-Interns :
          (r : Found)
          → Hit text_of m (text_of key) good.bits r
          → (m1 : HashMap) × (intern_at text_of m key copy r ≡ some (address_in m, m1))
            × Interns m (address_in m) m1
      unfolding intern_at key_of
      intern_at-Interns (entry_at idx) (hit _ e f _ at) =
          let value = value_for-hit text_of m.entries idx e (text_of key) good.distinct f at in
          let known : address_in m ≡ e.key =
            rw (value, own idx e f)
              (canonical-known e.key (stored_key m key copy) (good.placed idx e f).0.0) in
          rw (known, f) (m, refl, known-Interns idx e f at)
      intern_at-Interns (empty_at s) (miss _ e l none_there) =
          let unknown : address_in m ≡ stored_key m key copy = canonical-none _ _ (
            value_for-miss text_of m.entries (text_of key)
              (absent text_of m (text_of key) good none_there)) in
          rw unknown (_, refl, fresh-Interns s (miss s e l none_there))
      intern_at-Interns lost h = elim h [ ]

  same_address : (m m1 : HashMap) → Grown text_of m m1 → address_in m1 ≡ address_in m
  unfolding stored_key
  same_address m m1 g = rw (g.entries, g.arena, g.owns_keys) refl

  -- `hashmap_intern` of a key that is not NULL, in a map of fewer than 2 ^ 30 entries that only interning
  -- has written to, ends. It returns an address where the key's text stands, and keeps the map so.
  pub hashmap_intern-Interns :
      (m : HashMap)
      → IsMap text_of m
      → IsInterned m
      → m.size < 2 ^ 30
      → (m1 : HashMap) × (hashmap_intern text_of m key copy ≡ some (address_in m, m1))
        × Interns m (address_in m) m1
  unfolding hashmap_intern and_then
  hashmap_intern-Interns m good own few =
      let (m1, grows, g) = grow-Grown text_of m good few in
      let own1 : IsInterned m1 = rw g.entries own in
      let (m2, e, w) =
        intern_at-Interns m1 g.good own1 g.room _ (search-Hit text_of key live m1 g.good) in
      let address : address_in m1 ≡ address_in m = same_address m m1 g in
      let w1 : Interns m1 (address_in m) m2 = rw (← address) w in
      (
        m2,
        rw (not_null key live, grows, ← address) e,
        record {
          wrote = Wrote-Grown text_of m m1 m2 key _ g w1.wrote;
          own = w1.own;
          alive = w1.alive;
          text = w1.text;
        },
      )

-- Two keys of one text that are interned one after the other, in a map that only interning has written
-- to and that has room left below 2 ^ 30 entries, get one address, which is not NULL and where their
-- text stands; two keys of different texts get different addresses.
pub hashmap_intern-canonical :
    (text_of : ℕ → Str) (m : HashMap) (key copy other copy1 : ℕ)
    → IsMap text_of m
    → IsInterned m
    → suc m.size < 2 ^ 30
    → key ≢ 0
    → other ≢ 0
    → IsCopy text_of key copy
    → IsCopy text_of other copy1
    → (k : ℕ) × (m1 : HashMap) × (k1 : ℕ) × (m2 : HashMap) × (hashmap_intern text_of m key copy
        ≡ some (k, m1))
      × (hashmap_intern text_of m1 other copy1 ≡ some (k1, m2))
      × (k ≢ 0)
      × (text_of k ≡ text_of key)
      × ((k ≡ k1) ↔ (text_of key ≡ text_of other))
hashmap_intern-canonical text_of m key copy other copy1 good own few live live1 same same1 =
    let (m1, e, r) =
      hashmap_intern-Interns text_of key live copy same m good own (omega (arith, few)) in
    let (m2, e1, r1) =
      hashmap_intern-Interns text_of other live1 copy1 same1 m1 r.wrote.good r.own
        (omega (arith, few, r.wrote.size)) in
    (
      _,
      m1,
      _,
      m2,
      e,
      e1,
      r.alive,
      r.text,
      (
        λ one. sym r.text ∙ ap text_of one ∙ r1.text,
        λ one.
            let known =
              r.wrote.values (text_of other)
              ∙ rw ((same_text_iff (text_of key) (text_of other)).1 one) refl in
            sym (
              ap (λ (v : ℕ). canonical v (stored_key m1 other copy1)) known
              ∙ canonical-known _ _ r.alive),
      ),
    )
