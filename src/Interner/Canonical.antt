-- ===== src/Interner/Canonical.antt =====
-- src/common/intern.c: the table gives every text one address, and keeps it.
use alkyl.Prelude.{
  ℕ, suc, ◌^◌, ◌≤◌, ◌<◌, ◌≡◌, ◌≢◌, ◌↔◌, refl, sym, ap, ◌∙◌, true, false, ◌==◌, Option, none, some,
  Str, same_text, same_text_iff, Bool-cases, inl, inr, ok, arith,
}
use alkyl.Hashmap.Map.{HashMap, hashmap_init, and_then}
use alkyl.Hashmap.Layout.{IsMap, value_for, not_null}
use alkyl.Hashmap.Written.{Wrote}
use alkyl.Hashmap.Put.{IsCopy, hashmap_put-Wrote, hashmap_get_lem}
use alkyl.Hashmap.Capacity.{hashmap_init-IsMap}
use alkyl.Hashmap.Bounded.{hashmap_get_n-value_for}
use alkyl.Interner.{
  ensure_intern_inited, intern_found, intern_string, intern_run, intern_string_len,
}

module _ (text_of : ℕ → Str) where
  -- The address that the table gives a text, 0 where it has none.
  abbrev pub address_of : Option HashMap → Str → ℕ
  address_of none q = 0
  address_of (some m) q = value_for text_of q m.entries

  abbrev pub IsGoodMap : Option HashMap → Type 0
  IsGoodMap none = Unit
  IsGoodMap (some m) = IsMap text_of m

  abbrev pub strings : Option HashMap → ℕ
  strings none = 0
  strings (some m) = m.size

  -- The map is well formed, and where the table has an address for a text, that text stands there.
  pub record IsInterner (table : Option HashMap) : Type 0 where
    pub map : IsGoodMap table
    pub texts : (q : Str) → address_of table q ≢ 0 → text_of (address_of table q) ≡ q

  pub none-IsInterner : IsInterner none
  none-IsInterner = record { map = tt; texts = λ q h. absurd (h refl) }

  -- What interning a text leaves: it returns the text's address, an address where the text stands, and
  -- every text that had an address has it still.
  pub record Interned (table : Option HashMap) (q : Str) (k : ℕ) (after : Option HashMap)
      : Type 0 where
    pub good : IsInterner after
    pub alive : k ≢ 0
    pub text : text_of k ≡ q
    pub address : address_of after q ≡ k
    pub kept : (t : Str) → address_of table t ≢ 0 → address_of after t ≡ address_of table t
    pub size : strings after ≤ suc (strings table)

  fresh-IsMap : IsMap text_of (hashmap_init true 1024)
  fresh-IsMap = (hashmap_init-IsMap text_of true 1024 (omega arith)).0

  -- The table once it is initialised has the same addresses.
  inited-IsInterner :
      (table : Option HashMap)
      → IsInterner table
      → IsInterner (some (ensure_intern_inited table))
        × ((q : Str) → address_of (some (ensure_intern_inited table)) q ≡ address_of table q)
        × (strings (some (ensure_intern_inited table)) ≡ strings table)
  unfolding ensure_intern_inited hashmap_init value_for
  inited-IsInterner none good =
      (record { map = fresh-IsMap; texts = λ q h. absurd (h refl) }, λ q. refl, refl)
  inited-IsInterner (some m) good = (good, λ q. refl, refl)

  -- The addresses of the text that a new entry is made for, and of its copy.
  abbrev pub IsFresh : Str → ℕ → ℕ → Type 0
  IsFresh q new_str key_copy =
      (new_str ≢ 0) × (text_of new_str ≡ q) × IsCopy text_of new_str key_copy

  module _ (m : HashMap) (good : IsInterner (some m)) (few : m.size < 2 ^ 30) (q : Str)
      (new_str key_copy : ℕ) (fresh : IsFresh q new_str key_copy) where
    known-Interned :
        value_for text_of q m.entries ≢ 0
        → Interned (some m) q (value_for text_of q m.entries) (some m)
    known-Interned h = record {
      good = good;
      alive = h;
      text = good.texts q h;
      address = refl;
      kept = λ t g. refl;
      size = omega arith;
    }

    module _ (m1 : HashMap) (w : Wrote text_of m new_str new_str m1) where
      value_for-new :
          (t : Str)
          → same_text (text_of new_str) t ≡ true
          → value_for text_of t m1.entries ≡ new_str
      value_for-new t e = w.values t ∙ rw e refl

      value_for-old :
          (t : Str)
          → same_text (text_of new_str) t ≡ false
          → value_for text_of t m1.entries ≡ value_for text_of t m.entries
      value_for-old t e = w.values t ∙ rw e refl

      wrote-texts :
          (t : Str)
          → value_for text_of t m1.entries ≢ 0
          → text_of (value_for text_of t m1.entries) ≡ t
      wrote-texts t h = elim (Bool-cases (same_text (text_of new_str) t)) [
        | inl e ↦ ap text_of (value_for-new t e) ∙ (same_text_iff (text_of new_str) t).0 e
        | inr e ↦ let old = value_for-old t e in ap text_of old ∙ good.texts t (λ z. h (old ∙ z))
      ]

      wrote-kept :
          value_for text_of q m.entries ≡ 0
          → (t : Str) → value_for text_of t m.entries ≢ 0
          → value_for text_of t m1.entries ≡ value_for text_of t m.entries
      wrote-kept unknown t g = elim (Bool-cases (same_text (text_of new_str) t)) [
        | inl e ↦
            let same : t ≡ q = sym ((same_text_iff (text_of new_str) t).0 e) ∙ fresh.1 in
            absurd (g (ap (λ (x : Str). value_for text_of x m.entries) same ∙ unknown))
        | inr e ↦ value_for-old t e
      ]

      wrote-Interned : value_for text_of q m.entries ≡ 0 → Interned (some m) q new_str (some m1)
      wrote-Interned unknown = record {
        good = record { map = w.good; texts = wrote-texts };
        alive = fresh.0;
        text = fresh.1;
        address = value_for-new q ((same_text_iff (text_of new_str) q).1 fresh.1);
        kept = wrote-kept unknown;
        size = w.size;
      }

    intern_found-Interned :
        (k : ℕ) × (after : Option HashMap) × (intern_found text_of m
            (value_for text_of q m.entries)
            new_str
            key_copy
          ≡ some (k, after))
        × Interned (some m) q k after
    unfolding intern_found and_then
    intern_found-Interned = elim (Bool-cases (value_for text_of q m.entries == 0)) [
      | inl e ↦
          let (m1, puts, w) =
            hashmap_put-Wrote text_of new_str fresh.0 m good.map few key_copy fresh.2 new_str in
          (new_str, some m1, rw (e, puts) refl, wrote-Interned m1 w (ground (arith, e)))
      | inr e ↦ (
        value_for text_of q m.entries,
        some m,
        rw e refl,
        known-Interned (λ z. ground (arith, e, z)),
      )
    ]

  module _ (table : Option HashMap) (good : IsInterner table) (few : strings table < 2 ^ 30)
      (str : ℕ) (live : str ≢ 0) (new_str key_copy : ℕ) where
    -- The table, and whether it was initialised before is all one.
    Interned-inited :
        (q : Str) (k : ℕ) (after : Option HashMap)
        → Interned (some (ensure_intern_inited table)) q k after
        → Interned table q k after
    Interned-inited q k after r =
        let (_, same, size) = inited-IsInterner table good in
        record {
          good = r.good;
          alive = r.alive;
          text = r.text;
          address = r.address;
          kept = λ t g. r.kept t (λ z. g (sym (same t) ∙ z)) ∙ same t;
          size = omega (arith, r.size, size);
        }

    few_inited : (ensure_intern_inited table).size < 2 ^ 30
    few_inited = omega (arith, few, (inited-IsInterner table good).2)

    -- `intern_string` of a string that is not NULL, with a table of fewer than 2 ^ 30 strings, ends. It
    -- returns an address where the same text stands, which is the text's from then on; every text
    -- that had an address keeps it. A copy of a new string is any address where its text stands.
    pub intern_string-Interned :
        IsFresh (text_of str) new_str key_copy
        → (k : ℕ) × (after : Option HashMap) × (intern_string text_of table str new_str key_copy
            ≡ some (k, after))
          × Interned table (text_of str) k after
    unfolding intern_string and_then
    intern_string-Interned fresh =
        let m = ensure_intern_inited table in
        let inited = (inited-IsInterner table good).0 in
        let (k, after, e, r) =
          intern_found-Interned m inited few_inited (text_of str) new_str key_copy fresh in
        (
          k,
          after,
          rw (not_null str live, hashmap_get_lem text_of str live m inited.map) e,
          Interned-inited (text_of str) k after r,
        )

    -- `intern_string_len` of a buffer that is not NULL, with such a table, ends without a read through
    -- NULL, and does the same for the text in the buffer.
    pub intern_string_len-Interned :
        (q : Str)
        → IsFresh q new_str key_copy
        → (k : ℕ) × (after : Option HashMap) × (intern_string_len text_of table str q new_str
              key_copy
            ≡ some (ok (k, after)))
          × Interned table q k after
    unfolding intern_string_len intern_run and_then
    intern_string_len-Interned q fresh =
        let m = ensure_intern_inited table in
        let inited = (inited-IsInterner table good).0 in
        let (k, after, e, r) = intern_found-Interned m inited few_inited q new_str key_copy fresh in
        (
          k,
          after,
          rw (not_null str live, hashmap_get_n-value_for text_of m inited.map str live q, e) refl,
          Interned-inited q k after r,
        )

-- A string that is interned by `intern_string` and then, in a table of fewer than 2 ^ 30 strings before
-- the two calls, a buffer by `intern_string_len` get one address exactly when their texts are the same.
pub intern_string-intern_string_len :
    (text_of : ℕ → Str) (table : Option HashMap)
    (str new_str key_copy buffer new_str1 key_copy1 : ℕ) (q : Str)
    → IsInterner text_of table
    → suc (strings text_of table) < 2 ^ 30
    → str ≢ 0
    → buffer ≢ 0
    → IsFresh text_of (text_of str) new_str key_copy
    → IsFresh text_of q new_str1 key_copy1
    → (k : ℕ) × (after : Option HashMap) × (k1 : ℕ) × (after1 : Option HashMap) × (intern_string
          text_of table str new_str key_copy
        ≡ some (k, after))
      × (intern_string_len text_of after buffer q new_str1 key_copy1 ≡ some (ok (k1, after1)))
      × ((k ≡ k1) ↔ (text_of str ≡ q))
intern_string-intern_string_len text_of table str new_str key_copy buffer new_str1 key_copy1 q good
      few live live1 fresh fresh1 =
    let (k, after, e, r) =
      intern_string-Interned text_of table good (omega (arith, few)) str live new_str key_copy
        fresh in
    let (k1, after1, e1, r1) =
      intern_string_len-Interned text_of after r.good (omega (arith, few, r.size)) buffer live1
        new_str1 key_copy1 q fresh1 in
    (
      k,
      after,
      k1,
      after1,
      e,
      e1,
      (
        λ one. sym r.text ∙ ap text_of one ∙ r1.text,
        λ same.
            let before : address_of text_of after q ≡ k =
              ap (address_of text_of after) (sym same) ∙ r.address in
            sym (sym r1.address ∙ r1.kept q (λ z. r.alive (sym before ∙ z)) ∙ before),
      ),
    )
