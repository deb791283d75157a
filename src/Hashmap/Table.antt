-- ===== src/Hashmap/Table.antt =====
-- src/common/hashmap.c: the table of indices, how it is filled, and what a search in it returns.
use alkyl.Prelude.{
  ℕ, zero, suc, ◌+◌, ◌-◌, ◌^◌, ◌<◌, ◌≡◌, ◌≢◌, refl, ap, ◌∙◌, inl, inr, Bool, true, false, Option,
  none, some, List, [], ◌∷◌, length, get_elem?, set, length-set, get_elem?-set_cases,
  get_elem?-set_self, get_elem?-lt, bit_and, bit_and-mask, arith,
}
use native.Mathlib.Nat.{one-le-pow, mod-lt}
use alkyl.Hashmap.Probe.{Found, entry_at, empty_at, lost, probe}
use alkyl.Hashmap.Walk.{slot_at_covers, probe-ne-lost}
use alkyl.Hashmap.Leads.{Leads, Reads, Ends, Ends-probe, Leads-fill, Reads-fill}
use alkyl.Hashmap.Map.{DictEntry, no_indices, put_index, and_then, place_all}

-- The number of slots that hold an index.
pub filled : List (Option ℕ) → ℕ
filled [] = 0
filled (none ∷ xs) = filled xs
filled (some x ∷ xs) = suc (filled xs)

filled-set :
    (xs : List (Option ℕ)) (s v : ℕ)
    → get_elem? xs s ≡ some none
    → filled (set xs s (some v)) ≡ suc (filled xs)
unfolding filled
filled-set [] s v e = cc
filled-set (none ∷ xs) zero v e = refl
filled-set (some x ∷ xs) zero v e = cc
filled-set (none ∷ xs) (suc s) v e = filled-set xs s v e
filled-set (some x ∷ xs) (suc s) v e = ap suc (filled-set xs s v e)

empty_slot :
    (xs : List (Option ℕ))
    → filled xs < length xs
    → (s : ℕ) × (s < length xs) × (get_elem? xs s ≡ some none)
unfolding filled
empty_slot [] h = absurd (omega (arith, h))
empty_slot (none ∷ xs) h = (0, omega arith, refl)
empty_slot (some x ∷ xs) h =
    let (s, le, e) = empty_slot xs (omega (arith, h)) in (suc s, omega (arith, le), e)

filled-no_indices : (n : ℕ) → filled (no_indices n) ≡ 0
unfolding filled no_indices
filled-no_indices zero = refl
filled-no_indices (suc n) = filled-no_indices n

length-no_indices : (n : ℕ) → length (no_indices n) ≡ n
unfolding no_indices
length-no_indices zero = refl
length-no_indices (suc n) = ap suc (length-no_indices n)

get_elem?-no_indices : (n i idx : ℕ) → get_elem? (no_indices n) i ≢ some (some idx)
unfolding no_indices
get_elem?-no_indices zero i idx e = cc
get_elem?-no_indices (suc n) zero idx e = cc
get_elem?-no_indices (suc n) (suc i) idx e = get_elem?-no_indices n i idx e

-- A table of `2 ^ k` slots that holds `n` indices, all below `n`.
pub record IsTable (k : ℕ) (indices : List (Option ℕ)) (n : ℕ) : Type 0 where
  pub width : length indices ≡ 2 ^ k
  pub count : filled indices ≡ n
  pub bounded : (i idx : ℕ) → get_elem? indices i ≡ some (some idx) → idx < n

pub no_indices-IsTable : (k : ℕ) → IsTable k (no_indices (2 ^ k)) 0
no_indices-IsTable k = record {
  width = length-no_indices (2 ^ k);
  count = filled-no_indices (2 ^ k);
  bounded = λ i idx e. absurd (get_elem?-no_indices (2 ^ k) i idx e);
}

-- A search in the table, and what it reads on its way.
abbrev pub start : ℕ → ℕ → ℕ
start k hash = bit_and hash (2 ^ k - 1)

abbrev pub probe_for : (ℕ → Bool) → ℕ → List (Option ℕ) → ℕ → Found
probe_for matches k indices hash = probe matches (2 ^ k - 1) (2 ^ k + 7) indices (start k hash) hash

abbrev pub Holds : ℕ → List (Option ℕ) → ℕ → ℕ → Type 0
Holds k indices hash idx = Reads (2 ^ k - 1) indices (start k hash) hash idx

-- A search ends at a match, or at an empty slot where nothing on its way matches.
pub data Outcome (matches : ℕ → Bool) (k : ℕ) (indices : List (Option ℕ)) (hash : ℕ)
    : Found → Type 0 where
  matched :
      (idx : ℕ)
      → matches idx ≡ true
      → Holds k indices hash idx
      → Outcome matches k indices hash (entry_at idx)
  unmatched :
      (s : ℕ)
      → get_elem? indices s ≡ some none
      → Leads (2 ^ k - 1) indices s (start k hash) hash
      → ((idx : ℕ) → Holds k indices hash idx → matches idx ≡ false)
      → Outcome matches k indices hash (empty_at s)

module _ (k : ℕ) (indices : List (Option ℕ)) (n : ℕ) (table : IsTable k indices n) where
  probe_for-ne-lost :
      (matches : ℕ → Bool) (hash : ℕ)
      → n < 2 ^ k
      → hash < 2 ^ 32
      → probe_for matches k indices hash ≢ lost
  probe_for-ne-lost matches hash room small =
      let (s, le, e) = empty_slot indices (omega (arith, room, table.width, table.count)) in
      let begins : start k hash < 2 ^ k =
        rw (bit_and-mask k hash) (mod-lt hash (one-le-pow k 2 (omega arith))) in
      let (steps, bound, at) =
        slot_at_covers k (start k hash) hash s begins small (omega (arith, le, table.width)) in
      probe-ne-lost matches k (2 ^ k + 7) steps indices (start k hash) hash table.width begins bound
        (rw at e)

  -- In a table of `2 ^ k` slots with an empty one, a search for a hash of 32 bits ends within `2 ^ k + 7`
  -- steps: at an index that matches, or at an empty slot; then no index that a search for that hash
  -- comes to matches.
  pub probe_for-Outcome :
      (matches : ℕ → Bool) (hash : ℕ)
      → n < 2 ^ k
      → hash < 2 ^ 32
      → Outcome matches k indices hash (probe_for matches k indices hash)
  probe_for-Outcome matches hash room small =
      outcome _ (probe_for-ne-lost matches hash room small)
        (Ends-probe matches (2 ^ k - 1) indices (2 ^ k + 7) (start k hash) hash)
    where
      outcome :
          (r : Found)
          → r ≢ lost
          → Ends matches (2 ^ k - 1) indices (start k hash) hash r
          → Outcome matches k indices hash r
      outcome (entry_at idx) ends h = matched idx h.0 h.1
      outcome (empty_at s) ends (e, l, others) = unmatched s e l others
      outcome lost ends h = absurd (ends refl)

  -- The next index goes into an empty slot.
  pub set-IsTable :
      (s : ℕ) → get_elem? indices s ≡ some none → IsTable k (set indices s (some n)) (suc n)
  set-IsTable s e = record {
    width = length-set indices s (some n) ∙ table.width;
    count = filled-set indices s n e ∙ ap suc table.count;
    bounded = λ i idx f. elim (get_elem?-set_cases indices s i (some n) (some idx) f) [
      | inl same ↦ omega (arith, some-inj _ _ same.1)
      | inr other ↦ omega (arith, table.bounded i idx other.1)
    ];
  }
    where
      some-inj : (a b : ℕ) → some a ≡ some b → a ≡ b
      some-inj a b e = cc

-- What the loop of `hashmap_resize` makes of a table: it has the new indices too, and every search that
-- found an index finds it still.
pub record Placed (k : ℕ) (before after : List (Option ℕ)) (n : ℕ) (es : List DictEntry)
    : Type 0 where
  pub table : IsTable k after (n + length es)
  pub kept : (i p idx : ℕ) → Reads (2 ^ k - 1) before i p idx → Reads (2 ^ k - 1) after i p idx
  pub placed : (j : ℕ) (e : DictEntry) → get_elem? es j ≡ some e → Holds k after e.hash (n + j)

pub fill-Holds :
    (k : ℕ) (indices : List (Option ℕ)) (hash n s : ℕ)
    → get_elem? indices s ≡ some none
    → Leads (2 ^ k - 1) indices s (start k hash) hash
    → Holds k (set indices s (some n)) hash n
fill-Holds k indices hash n s e l = (
  s,
  Leads-fill (2 ^ k - 1) indices s n e s (start k hash) hash l,
  get_elem?-set_self indices s (some n) (get_elem?-lt indices s e),
)

-- A search for nothing ends at an empty slot.
vacant :
    (k : ℕ) (indices : List (Option ℕ)) (hash : ℕ) (r : Found)
    → Outcome (λ _. false) k indices hash r
    → (s : ℕ) × (r ≡ empty_at s)
      × (get_elem? indices s ≡ some none)
      × Leads (2 ^ k - 1) indices s (start k hash) hash
vacant k indices hash (entry_at idx) (matched _ e h) = cc
vacant k indices hash (empty_at s) (unmatched _ e l others) = (s, refl, e, l)
vacant k indices hash lost h = elim h [ ]

pub place_all-Placed :
    (k n : ℕ) (es : List DictEntry) (indices : List (Option ℕ))
    → IsTable k indices n
    → n + length es < 2 ^ k
    → ((j : ℕ) (e : DictEntry) → get_elem? es j ≡ some e → e.hash < 2 ^ 32)
    → (after : List (Option ℕ)) × (place_all (2 ^ k - 1) (2 ^ k + 7) n es indices ≡ some after)
      × Placed k indices after n es
unfolding place_all put_index and_then
place_all-Placed k n [] indices table room small = (
  indices,
  refl,
  record { table = rw (plus_zero n) table; kept = λ i p idx r. r; placed = λ j e f. cc },
)
  where
    plus_zero : (n : ℕ) → n + 0 ≡ n
    plus_zero n = omega arith
place_all-Placed k n (e ∷ es) indices table room small =
    let (s, ends, empty, leads) = vacant k indices e.hash _ (
      probe_for-Outcome k indices n table (λ _. false) e.hash (omega (arith, room))
        (small 0 e refl)) in
    let filled_one = set indices s (some n) in
    let (after, run, rest) =
      place_all-Placed k (suc n) es filled_one (set-IsTable k indices n table s empty)
        (omega (arith, room)) (λ j f g. small (suc j) f g) in
    let first = fill-Holds k indices e.hash n s empty leads in
    (
      after,
      rw ends run,
      record {
        table = rw (shift n (length es)) rest.table;
        kept = λ i p idx r. rest.kept i p idx (Reads-fill (2 ^ k - 1) indices s n empty i p idx r);
        placed = place_cons k n e es after (rest.kept _ _ _ first) rest.placed;
      },
    )
  where
    shift : (n m : ℕ) → n + suc m ≡ suc n + m
    shift n m = omega arith

    place_cons :
        (k n : ℕ) (e : DictEntry) (es : List DictEntry) (after : List (Option ℕ))
        → Holds k after e.hash n
        → ((j : ℕ) (f : DictEntry) → get_elem? es j ≡ some f → Holds k after f.hash (suc n + j))
        → (j : ℕ) (f : DictEntry) → get_elem? (e ∷ es) j ≡ some f
        → Holds k after f.hash (n + j)
    place_cons k n e es after first rest zero f g =
        let same : e ≡ f = cc in let at : n + 0 ≡ n = omega arith in rw (at, ← same) first
    place_cons k n e es after first rest (suc j) f g =
        let at : n + suc j ≡ suc n + j = omega arith in rw at (rest j f g)
