-- ===== src/Examples/HashmapRuns.antt =====
-- src/common/hashmap.c with the strings "x" at the addresses 1 and 3 and "y" elsewhere, in a map of 8 slots.
use alkyl.Prelude.{
  List, Bool, true, ℕ, ◌+◌, ◌≡◌, ◌≢◌, ◌↔◌, refl, false, true, ◌==◌, Option, some, [], ◌∷◌, Str,
  same_text, if◌then◌else◌, arith,
}
use alkyl.Hashmap.Hash.{
  hash_string, hash_words, finish, scramble, mul32, rotl32, mix_word, word_of, murmur3_32, smear,
  next_pow2,
}
use alkyl.Hashmap.Probe.{probe, next_slot, look}
use alkyl.Hashmap.Map.{
  HashMap, hashmap_init, no_indices, mask_of, limit_of, fuel_for, write_value, write_entry,
  and_then, grow, add_entry, stored_key, value_of,
}
use alkyl.Hashmap.Ops.{
  hashmap_has, is_empty, get_at, removed_entry, remove_at, hashmap_remove, streq_lit, same_entry,
  search, new_entry, put_at, hashmap_put, hashmap_get, hashmap_intern,
}
use alkyl.Hashmap.Table.{Outcome, probe_for, no_indices-IsTable, probe_for-Outcome}
use alkyl.Hashmap.Layout.{IsMap, IsLayout, IsMap-IsLayout}
use alkyl.Hashmap.Put.{IsCopy}
use alkyl.Hashmap.Intern.{hashmap_intern-canonical}
use alkyl.Hashmap.Sets.{put_all, has_text, hashmap_has-put_all}
use alkyl.Hashmap.Laws.{hashmap_put-get, hashmap_remove-get}
use alkyl.Hashmap.Remove.{Present}

abbrev texts : ℕ → Str
texts a = if a == 1 then 120 ∷ [] else if a == 3 then 120 ∷ [] else 121 ∷ []

-- The hash of "abc".
murmur3_32_test : murmur3_32 (97 ∷ 98 ∷ 99 ∷ []) ≡ 2389207173
unfolding murmur3_32 hash_words finish scramble mul32 rotl32 mix_word word_of
murmur3_32_test = refl

next_pow2_test : next_pow2 100 ≡ 128
unfolding next_pow2 smear
next_pow2_test = refl

abbrev eight : HashMap
eight = record {
  capacity = 8;
  size = 0;
  indices = no_indices 8;
  entries = [];
  arena = true;
  owns_keys = false;
}

hashmap_init_test : hashmap_init true 5 ≡ eight
unfolding hashmap_init next_pow2 smear
hashmap_init_test = refl

eight-IsMap : IsMap texts eight
eight-IsMap = record {
  bits = 3;
  narrow = omega arith;
  power = refl;
  table = no_indices-IsTable 3;
  written = refl;
  room = omega arith;
  placed = λ i e f. cc;
  distinct = λ i j e f a b same. cc;
}

-- After "x" and "y" have been put and "x" removed, a put of "z" writes over the entry of "y".
letters : ℕ → Str
letters a = (119 + a) ∷ []

after_remove : Option ℕ
after_remove = and_then (hashmap_put letters eight 1 1 71) (λ a.
    and_then (hashmap_put letters a 2 2 72) (λ b.
      and_then (hashmap_remove letters b 1)
        (λ c. and_then (hashmap_put letters c.1 3 3 73) (λ d. hashmap_get letters d 2))))

after_remove_test : after_remove ≡ some 0
unfolding after_remove letters hashmap_put hashmap_get hashmap_remove remove_at removed_entry
    is_empty get_at put_at search same_entry streq_lit new_entry stored_key value_of add_entry grow
    and_then write_entry write_value fuel_for limit_of mask_of no_indices probe next_slot look
    hash_string murmur3_32 hash_words finish scramble mul32 rotl32 mix_word word_of
after_remove_test = refl

abbrev key : ℕ
key = 1

live : key ≢ 0
live e = omega (arith, e)

key-IsCopy : IsCopy texts key 3
key-IsCopy = (λ e. omega (arith, e), refl)

hashmap_put-get_example :
    (m1 : HashMap) × (hashmap_put texts eight key 3 70 ≡ some m1)
    × IsMap texts m1
    × ((q : ℕ)
        → q ≢ 0
        → hashmap_get texts m1 q
          ≡ (if same_text (texts key) (texts q) then some 70 else hashmap_get texts eight q))
hashmap_put-get_example =
    hashmap_put-get texts eight key 3 70 eight-IsMap (omega arith) live key-IsCopy

abbrev other : ℕ
other = 2

other_live : other ≢ 0
other_live e = omega (arith, e)

other-IsCopy : IsCopy texts other 4
other-IsCopy = (λ e. omega (arith, e), refl)

hashmap_intern-canonical_example :
    (k : ℕ) × (m1 : HashMap) × (k1 : ℕ) × (m2 : HashMap) × (hashmap_intern texts eight key 3
      ≡ some (k, m1))
    × (hashmap_intern texts m1 other 4 ≡ some (k1, m2))
    × (k ≢ 0)
    × (texts k ≡ texts key)
    × ((k ≡ k1) ↔ (texts key ≡ texts other))
hashmap_intern-canonical_example =
    hashmap_intern-canonical texts eight key 3 other 4 eight-IsMap (λ i e f. cc) (omega arith) live
      other_live key-IsCopy other-IsCopy

probe_for-Outcome_example :
    Outcome (λ _. false) 3 (no_indices 8) 77 (probe_for (λ _. false) 3 (no_indices 8) 77)
probe_for-Outcome_example =
    probe_for-Outcome 3 (no_indices 8) 0 (no_indices-IsTable 3) (λ _. false) 77 (omega arith)
      (omega arith)

-- The map after a put, in which "x" has the value 70.
one_entry :
    (m1 : HashMap) × (hashmap_put texts eight key 3 70 ≡ some m1)
    × IsMap texts m1
    × ((q : ℕ)
        → q ≢ 0
        → hashmap_get texts m1 q
          ≡ (if same_text (texts key) (texts q) then some 70 else hashmap_get texts eight q))
one_entry = hashmap_put-get texts eight key 3 70 eight-IsMap (omega arith) live key-IsCopy

hashmap_remove-get_example :
    (found : Bool) × (m1 : HashMap) × (hashmap_remove texts one_entry.0 key ≡ some (found, m1))
    × ((found ≡ true)
        ↔ Present texts key live one_entry.0 one_entry.0.size
            (IsMap-IsLayout texts one_entry.0 one_entry.2))
    × IsLayout texts m1 one_entry.0.size
    × ((q : ℕ)
        → q ≢ 0
        → hashmap_get texts m1 q
          ≡ (if same_text (texts key) (texts q) then some 0 else hashmap_get texts one_entry.0 q))
hashmap_remove-get_example =
    hashmap_remove-get texts one_entry.0 one_entry.0.size key
      (IsMap-IsLayout texts one_entry.0 one_entry.2) live

abbrev two_keys : List (ℕ × ℕ)
two_keys = (1, 3) ∷ (2, 4) ∷ []

hashmap_has-put_all_example :
    (m : HashMap) × (put_all texts (hashmap_init true 32) two_keys ≡ some m)
    × ((q : ℕ) → q ≢ 0 → hashmap_has texts m q ≡ some (has_text texts two_keys (texts q)))
hashmap_has-put_all_example =
    hashmap_has-put_all texts true 32 two_keys (omega arith)
      (
        ((λ e. omega (arith, e)), ((λ e. omega (arith, e)), refl)),
        (((λ e. omega (arith, e)), ((λ e. omega (arith, e)), refl)), tt),
      )
      (omega arith)
