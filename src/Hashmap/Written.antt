-- ===== src/Hashmap/Written.antt =====
-- src/common/hashmap.c: the two ways in which an operation writes to a map, under the invariant: to the
-- value of an entry, and a new entry.
use alkyl.Prelude.{
  ℕ, zero, suc, ◌+◌, ◌-◌, ◌%◌, ◌^◌, ◌≤◌, ◌<◌, ◌≡◌, ◌≢◌, refl, sym, ap, ◌∙◌, none, some, List, [],
  ◌∷◌, ◌++◌, length, length-append, set, get_elem?, Str, same_text, if◌then◌else◌, ◌⊎◌, inl, inr,
  arith,
}
use native.Mathlib.Nat.{pow-le-pow_right}
use alkyl.Hashmap.Leads.{Leads, Reads-fill}
use alkyl.Hashmap.Map.{DictEntry, HashMap, limit_of, add_entry, write_entry, write_value}
use alkyl.Hashmap.Table.{Holds, start, set-IsTable, fill-Holds}
use alkyl.Hashmap.Layout.{IsEntry, IsMap, IsDistinct, value_for}
use alkyl.Hashmap.Values.{
  write_entry-length, length-write_value, get_elem?-write_value, value_for-append,
  value_for-write_value,
}
use alkyl.Hashmap.Growth.{Grown}

-- An entry of a list with one more at its end.
pub get_elem?-snoc :
    (es : List DictEntry) (e f : DictEntry) (i : ℕ)
    → get_elem? (es ++ e ∷ []) i ≡ some f
    → (get_elem? es i ≡ some f) ⊎ ((i ≡ length es) × (e ≡ f))
get_elem?-snoc [] e f zero h = inr (refl, cc)
get_elem?-snoc [] e f (suc i) h = cc
get_elem?-snoc (x ∷ es) e f zero h = inl h
get_elem?-snoc (x ∷ es) e f (suc i) h = elim (get_elem?-snoc es e f i h) [
  | inl a ↦ inl a
  | inr a ↦ inr (ap suc a.0, a.1)
]

-- A new entry goes behind the others.
pub add_entry-entries :
    (m : HashMap) (s : ℕ) (e : DictEntry)
    → length m.entries ≡ m.size
    → (add_entry m s e).entries ≡ m.entries ++ e ∷ []
unfolding add_entry
add_entry-entries m s e h = rw (← h) (write_entry-length m.entries e)

module _ (text_of : ℕ → Str) where
  IsDistinct-snoc :
      (es : List DictEntry) (e : DictEntry)
      → IsDistinct text_of es
      → ((idx : ℕ) (f : DictEntry) → get_elem? es idx ≡ some f → text_of f.key ≢ text_of e.key)
      → IsDistinct text_of (es ++ e ∷ [])
  IsDistinct-snoc es e h new i j f g a b same = elim (get_elem?-snoc es e f i a) [
    | inl c ↦ elim (get_elem?-snoc es e g j b) [
      | inl d ↦ h i j f g c d same
      | inr d ↦ absurd (new i f c (same ∙ ap (λ (x : DictEntry). text_of x.key) (sym d.1)))
    ]
    | inr c ↦ elim (get_elem?-snoc es e g j b) [
      | inl d ↦ absurd (new j g d (sym same ∙ ap (λ (x : DictEntry). text_of x.key) (sym c.1)))
      | inr d ↦ c.0 ∙ sym d.0
    ]
  ]

  -- What an operation on a key leaves: a map, where the key's text alone has another value.
  pub record Wrote (m : HashMap) (key value : ℕ) (m1 : HashMap) : Type 0 where
    pub good : IsMap text_of m1
    pub values :
        (q : Str)
        → value_for text_of q m1.entries
          ≡ (if same_text (text_of key) q then value else value_for text_of q m.entries)
    pub size : m1.size ≤ suc m.size
    pub arena : m1.arena ≡ m.arena
    pub owns_keys : m1.owns_keys ≡ m.owns_keys

  pub Wrote-Grown :
      (m m1 m2 : HashMap) (key value : ℕ)
      → Grown text_of m m1
      → Wrote m1 key value m2
      → Wrote m key value m2
  Wrote-Grown m m1 m2 key value g w = record {
    good = w.good;
    values = λ q. rw (← g.entries) (w.values q);
    size = omega (arith, w.size, g.size);
    arena = w.arena ∙ g.arena;
    owns_keys = w.owns_keys ∙ g.owns_keys;
  }

  pub Wrote-same_text :
      (m m1 : HashMap) (key1 key value : ℕ)
      → text_of key1 ≡ text_of key
      → Wrote m key1 value m1
      → Wrote m key value m1
  Wrote-same_text m m1 key1 key value e w = record {
    good = w.good;
    values = λ q. rw (← e) (w.values q);
    size = w.size;
    arena = w.arena;
    owns_keys = w.owns_keys;
  }

  module _ (m : HashMap) (good : IsMap text_of m) where
    write_value-IsMap :
        (idx v : ℕ) → IsMap text_of (record m { entries = write_value m.entries idx v })
    write_value-IsMap idx v = record {
      bits = good.bits;
      narrow = good.narrow;
      power = good.power;
      table = good.table;
      written = length-write_value m.entries idx v ∙ good.written;
      room = good.room;
      placed = λ i e f.
          let (d, g, hashes, keys) = get_elem?-write_value m.entries idx v i e f in
          rw (hashes, keys) (good.placed i d g);
      distinct = λ i j e f a b same.
          let (d, g, _, keys) = get_elem?-write_value m.entries idx v i e a in
          let (d2, g2, _, keys2) = get_elem?-write_value m.entries idx v j f b in
          good.distinct i j d d2 g g2 (ap text_of (sym keys) ∙ same ∙ ap text_of keys2);
    }

    pub write_value-Wrote :
        (idx v key : ℕ) (e : DictEntry)
        → get_elem? m.entries idx ≡ some e
        → text_of e.key ≡ text_of key
        → Wrote m key v (record m { entries = write_value m.entries idx v })
    write_value-Wrote idx v key e f same = record {
      good = write_value-IsMap idx v;
      values = λ q. rw (← same) (value_for-write_value text_of m.entries idx e v q good.distinct f);
      size = omega arith;
      arena = refl;
      owns_keys = refl;
    }

    module _ (space : m.size < limit_of m.capacity) (s : ℕ) (e : DictEntry)
        (alive : IsEntry text_of e) (empty : get_elem? m.indices s ≡ some none)
        (leads : Leads (2 ^ good.bits - 1) m.indices s (start good.bits e.hash) e.hash)
        (new : (idx : ℕ) (f : DictEntry)
          → get_elem? m.entries idx ≡ some f
          → text_of f.key ≢ text_of e.key) where
      pub add_entry-eq : add_entry m s e ≡ record m {
        size = suc m.size;
        indices = set m.indices s (some m.size);
        entries = m.entries ++ e ∷ [];
      }
      unfolding add_entry limit_of
      add_entry-eq =
          let small : 2 ^ good.bits ≤ 2 ^ 31 = pow-le-pow_right (omega arith) good.narrow in
          let no_wrap : (m.size + 1) % 2 ^ 32 ≡ suc m.size =
            omega (arith, space, good.power, small) in
          let at_end : write_entry m.entries m.size e ≡ m.entries ++ e ∷ [] =
            rw (← good.written) (write_entry-length m.entries e) in
          simp (no_wrap, at_end)

      IsEntry-added :
          (i : ℕ) (f : DictEntry)
          → get_elem? (m.entries ++ e ∷ []) i ≡ some f
          → IsEntry text_of f × Holds good.bits (set m.indices s (some m.size)) f.hash i
      IsEntry-added i f h = elim (get_elem?-snoc m.entries e f i h) [
        | inl a ↦
            let (live, holds) = good.placed i f a in
            (live, Reads-fill (2 ^ good.bits - 1) m.indices s m.size empty _ _ i holds)
        | inr a ↦
            rw (← a.1, a.0, good.written)
              (alive, fill-Holds good.bits m.indices e.hash m.size s empty leads)
      ]

      added-IsMap : IsMap text_of (record m {
        size = suc m.size;
        indices = set m.indices s (some m.size);
        entries = m.entries ++ e ∷ [];
      })
      unfolding limit_of
      added-IsMap = record {
        bits = good.bits;
        narrow = good.narrow;
        power = good.power;
        table = set-IsTable good.bits m.indices m.size good.table s empty;
        written = omega (arith, length-append m.entries (e ∷ []), good.written);
        room = omega (arith, space);
        placed = IsEntry-added;
        distinct = IsDistinct-snoc m.entries e good.distinct new;
      }

      pub add_entry-Wrote : Wrote m e.key e.value (add_entry m s e)
      add_entry-Wrote = rw add_entry-eq (record {
        good = added-IsMap;
        values = λ q. value_for-append text_of m.entries e q new;
        size = omega arith;
        arena = refl;
        owns_keys = refl;
      })
