-- ===== src/Hashmap/Layout.antt =====
-- src/common/hashmap.c: the invariant of a hash map, and what a search for a key returns under it.
use alkyl.Prelude.{
  Option, ◌==◌, ℕ, ◌+◌, ◌-◌, ◌^◌, ◌≤◌, ◌≡◌, ◌≢◌, refl, false, none, some, List, [], ◌∷◌, length,
  get_elem?, mod_unique, Str, same_text, if◌then◌else◌, arith,
}
use native.Mathlib.Nat.{one-le-pow, pow-le-pow_right}
use alkyl.Hashmap.Hash.{hash_string}
use alkyl.Hashmap.Probe.{Found, entry_at, empty_at}
use alkyl.Hashmap.Leads.{Leads}
use alkyl.Hashmap.Map.{DictEntry, HashMap, mask_of, limit_of}
use alkyl.Hashmap.Ops.{is_empty}
use alkyl.Hashmap.Table.{IsTable, Holds, start}

module _ (text_of : ℕ → Str) where
  -- The entry of a key, with the hash of its text.
  abbrev pub IsEntry : DictEntry → Type 0
  IsEntry e = (e.key ≢ 0) × (e.hash ≡ hash_string (text_of e.key))

  -- No two entries have keys of one text.
  abbrev pub IsDistinct : List DictEntry → Type 0
  IsDistinct es =
      (i j : ℕ) (e f : DictEntry)
      → get_elem? es i ≡ some e
      → get_elem? es j ≡ some f
      → text_of e.key ≡ text_of f.key
      → i ≡ j

  -- The capacity is a power of two, the table refers to each of the entries once, a search for the key
  -- of an entry comes to it, and no two entries have keys of one text.
  pub record IsMap (m : HashMap) : Type 0 where
    pub bits : ℕ
    pub narrow : bits ≤ 31
    pub power : m.capacity ≡ 2 ^ bits
    pub table : IsTable bits m.indices m.size
    pub written : length m.entries ≡ m.size
    pub room : m.size ≤ limit_of m.capacity
    pub placed :
        (i : ℕ) (e : DictEntry)
        → get_elem? m.entries i ≡ some e
        → IsEntry e × Holds bits m.indices e.hash i
    pub distinct : IsDistinct m.entries

  -- The same for a map some of whose `n` entries have been removed: nothing is said of these.
  pub record IsLayout (m : HashMap) (n : ℕ) : Type 0 where
    pub bits : ℕ
    pub narrow : bits ≤ 31
    pub power : m.capacity ≡ 2 ^ bits
    pub table : IsTable bits m.indices n
    pub written : length m.entries ≡ n
    pub room : n ≤ limit_of m.capacity
    pub placed :
        (i : ℕ) (e : DictEntry)
        → get_elem? m.entries i ≡ some e
        → e.key ≢ 0
        → (e.hash ≡ hash_string (text_of e.key)) × Holds bits m.indices e.hash i
    pub distinct :
        (i j : ℕ) (e f : DictEntry)
        → get_elem? m.entries i ≡ some e
        → get_elem? m.entries j ≡ some f
        → e.key ≢ 0
        → text_of e.key ≡ text_of f.key
        → f.key ≢ 0
        → i ≡ j

  -- The value that the entries give a text, 0 where none has it as its key.
  unfoldable pub value_for : Str → List DictEntry → ℕ
  value_for q [] = 0
  value_for q (e ∷ es) = if same_text (text_of e.key) q then e.value else value_for q es

  -- A search ends at the entry with the key's text, or at an empty slot where there is none.
  pub data Hit (m : HashMap) (q : Str) (k : ℕ) : Found → Type 0 where
    hit :
        (idx : ℕ) (e : DictEntry)
        → get_elem? m.entries idx ≡ some e
        → e.key ≢ 0
        → text_of e.key ≡ q
        → Hit m q k (entry_at idx)
    miss :
        (s : ℕ)
        → get_elem? m.indices s ≡ some none
        → Leads (2 ^ k - 1) m.indices s (start k (hash_string q)) (hash_string q)
        → ((idx : ℕ) (e : DictEntry)
            → get_elem? m.entries idx ≡ some e
            → e.key ≢ 0
            → text_of e.key ≢ q)
        → Hit m q k (empty_at s)

pub mask_of-pow : (k : ℕ) → k ≤ 31 → mask_of (2 ^ k) ≡ 2 ^ k - 1
unfolding mask_of
mask_of-pow k h =
    let pos : 1 ≤ 2 ^ k = one-le-pow k 2 (omega arith) in
    let small : 2 ^ k ≤ 2 ^ 31 = pow-le-pow_right (omega arith) h in
    mod_unique (2 ^ k + 2 ^ 32 - 1) (2 ^ 32) 1 (2 ^ k - 1) (omega (arith, pos))
      (omega (arith, small))

pub not_null : (key : ℕ) → key ≢ 0 → (key == 0) ≡ false
not_null key live = ground (arith, live)

pub has_buckets :
    (text_of : ℕ → Str) (m : HashMap) (n : ℕ) → IsLayout text_of m n → is_empty m.indices ≡ false
unfolding is_empty
has_buckets text_of m n good =
    occupied m.indices (omega (arith, good.table.width, one-le-pow good.bits 2 (omega arith)))
  where
    occupied : (xs : List (Option ℕ)) → 1 ≤ length xs → is_empty xs ≡ false
    occupied [] h = absurd (omega (arith, h))
    occupied (x ∷ xs) h = refl

-- A map without removed entries is such a layout.
unfoldable pub IsMap-IsLayout :
    (text_of : ℕ → Str) (m : HashMap) → IsMap text_of m → IsLayout text_of m m.size
IsMap-IsLayout text_of m good = record {
  bits = good.bits;
  narrow = good.narrow;
  power = good.power;
  table = good.table;
  written = good.written;
  room = good.room;
  placed = λ i e f alive. (let (here, holds) = good.placed i e f in (here.1, holds));
  distinct = λ i j e f a b alive same alive1. good.distinct i j e f a b same;
}

-- In a map without removed entries, a text that no live entry has is the text of no entry.
pub absent :
    (text_of : ℕ → Str) (m : HashMap) (q : Str)
    → IsMap text_of m
    → ((i : ℕ) (e : DictEntry) → get_elem? m.entries i ≡ some e → e.key ≢ 0 → text_of e.key ≢ q)
    → (i : ℕ) (e : DictEntry) → get_elem? m.entries i ≡ some e
    → text_of e.key ≢ q
absent text_of m q good h i e f = h i e f (good.placed i e f).0.0
