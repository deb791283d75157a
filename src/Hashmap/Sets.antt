-- ===== src/Hashmap/Sets.antt =====
-- src/common/hashmap.c as a set of texts, the way src/alick/memory.c and src/optlir/mem2reg.c use it: the keys
-- are put with the value 1, and `hashmap_has` asks for them.
use alkyl.Prelude.{
  ℕ, ◌+◌, ◌^◌, ◌≤◌, ◌<◌, ◌≡◌, ◌≢◌, refl, Bool, true, false, not, ◌||◌, ◌==◌, Option, some, List, [],
  ◌∷◌, length, All, Str, same_text, if◌then◌else◌, arith,
}
use alkyl.Hashmap.Map.{HashMap, hashmap_init, and_then}
use alkyl.Hashmap.Ops.{hashmap_put, hashmap_has}
use alkyl.Hashmap.Layout.{IsMap, value_for}
use alkyl.Hashmap.Put.{IsCopy, hashmap_put-Wrote, hashmap_get_lem}
use alkyl.Hashmap.Capacity.{hashmap_init-IsMap, value_for-hashmap_init}

module _ (text_of : ℕ → Str) where
  -- The keys of a list are put one after the other, each with the address of its copy.
  pub put_all : HashMap → List (ℕ × ℕ) → Option HashMap
  put_all m [] = some m
  put_all m (k ∷ ks) = and_then (hashmap_put text_of m k.0 k.1 1) (λ m1. put_all m1 ks)

  pub has_text : List (ℕ × ℕ) → Str → Bool
  has_text [] q = false
  has_text (k ∷ ks) q = same_text (text_of k.0) q || has_text ks q

  abbrev pub IsKey : ℕ × ℕ → Type 0
  IsKey k = (k.0 ≢ 0) × IsCopy text_of k.0 k.1

  -- The map `m1` has the value 1 for the texts of the keys, and the values of `m` for the others.
  abbrev Added : HashMap → List (ℕ × ℕ) → HashMap → Type 0
  Added m ks m1 =
      IsMap text_of m1
      × ((q : Str)
          → value_for text_of q m1.entries
            ≡ (if has_text ks q then 1 else value_for text_of q m.entries))

  put_all-Added :
      (m : HashMap) (ks : List (ℕ × ℕ))
      → IsMap text_of m
      → All IsKey ks
      → m.size + length ks < 2 ^ 30
      → (m1 : HashMap) × (put_all m ks ≡ some m1) × Added m ks m1
  unfolding put_all has_text and_then
  put_all-Added m [] good keys few = (m, refl, (good, λ q. refl))
  put_all-Added m (k ∷ ks) good keys few =
      let (m1, puts, w) =
        hashmap_put-Wrote text_of k.0 keys.0.0 m good (omega (arith, few)) k.1 keys.0.1 1 in
      let (m2, rest, a) = put_all-Added m1 ks w.good keys.1 (omega (arith, few, w.size)) in
      (m2, rw puts rest, (a.0, λ q. ground (arith, a.1 q, w.values q)))

size-hashmap_init : (arena : Bool) (n : ℕ) → (hashmap_init arena n).size ≡ 0
unfolding hashmap_init
size-hashmap_init arena n = refl

-- Into a map that `hashmap_init` makes, fewer than 2 ^ 30 keys are put, none of them NULL. Every put ends,
-- and then `hashmap_has` of a key that is not NULL tells whether one of them has its text.
pub hashmap_has-put_all :
    (text_of : ℕ → Str) (arena : Bool) (n : ℕ) (ks : List (ℕ × ℕ))
    → n ≤ 2 ^ 31
    → All (IsKey text_of) ks
    → length ks < 2 ^ 30
    → (m : HashMap) × (put_all text_of (hashmap_init arena n) ks ≡ some m)
      × ((q : ℕ) → q ≢ 0 → hashmap_has text_of m q ≡ some (has_text text_of ks (text_of q)))
unfolding hashmap_has and_then
hashmap_has-put_all text_of arena n ks h keys few =
    let empty = hashmap_init arena n in
    let (good, _) = hashmap_init-IsMap text_of arena n h in
    let (m, runs, a) =
      put_all-Added text_of empty ks good keys (omega (arith, few, size-hashmap_init arena n)) in
    (
      m,
      runs,
      λ q live.
          rw
            (
              hashmap_get_lem text_of q live m a.0,
              a.1 (text_of q),
              value_for-hashmap_init text_of arena n (text_of q),
            )
            (told (has_text text_of ks (text_of q))),
    )
  where
    told : (b : Bool) → some (not ((if b then 1 else 0) == 0)) ≡ some b
    told true = refl
    told false = refl
