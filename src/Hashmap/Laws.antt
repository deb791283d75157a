-- ===== src/Hashmap/Laws.antt =====
-- src/common/hashmap.c: what a client sees of `hashmap_put` through `hashmap_get`.
use alkyl.Prelude.{
  Bool, true, false, ℕ, ◌^◌, ◌<◌, ◌≡◌, ◌≢◌, ◌↔◌, refl, some, Str, same_text, if◌then◌else◌,
  Bool-cases, inl, inr,
}
use alkyl.Hashmap.Map.{HashMap}
use alkyl.Hashmap.Ops.{hashmap_put, hashmap_get, hashmap_remove}
use alkyl.Hashmap.Layout.{IsMap, IsLayout}
use alkyl.Hashmap.Removed.{live_for}
use alkyl.Hashmap.Remove.{Present, hashmap_get-live_for, hashmap_remove-Removes}
use alkyl.Hashmap.Put.{IsCopy, hashmap_put-Wrote, hashmap_get_lem}

some_if : (b : Bool) (x y : ℕ) → some (if b then x else y) ≡ (if b then some x else some y)
some_if true x y = refl
some_if false x y = refl

-- `hashmap_put` of a key that is not NULL, into a map of fewer than 2 ^ 30 entries that satisfies the
-- invariant, ends and keeps the invariant, whether or not it resizes the map. `hashmap_get` of a key
-- with the same text then returns the value that was put, and `hashmap_get` of any other key what it
-- returned before.
pub hashmap_put-get :
    (text_of : ℕ → Str) (m : HashMap) (key copy value : ℕ)
    → IsMap text_of m
    → m.size < 2 ^ 30
    → key ≢ 0
    → IsCopy text_of key copy
    → (m1 : HashMap) × (hashmap_put text_of m key copy value ≡ some m1)
      × IsMap text_of m1
      × ((q : ℕ)
          → q ≢ 0
          → hashmap_get text_of m1 q
            ≡ (if same_text (text_of key) (text_of q) then some value else hashmap_get text_of m q))
hashmap_put-get text_of m key copy value good few live same =
    let (m1, e, w) = hashmap_put-Wrote text_of key live m good few copy same value in
    (
      m1,
      e,
      w.good,
      λ q alive.
          rw
            (
              hashmap_get_lem text_of q alive m1 w.good,
              hashmap_get_lem text_of q alive m good,
              w.values (text_of q),
            )
            (elim (Bool-cases (same_text (text_of key) (text_of q))) [
              | inl a ↦ rw a refl
              | inr a ↦ rw a refl
            ]),
    )

-- `hashmap_remove` of a key that is not NULL, from a map that satisfies the invariant, or from which
-- entries have been removed since, ends, and says whether an entry had the key's text. `hashmap_get` of
-- a key with the same text then returns NULL, and of any other key what it returned before; so it is
-- for any number of removals.
pub hashmap_remove-get :
    (text_of : ℕ → Str) (m : HashMap) (n key : ℕ)
    → (good : IsLayout text_of m n) → (live : key ≢ 0)
    → (found : Bool) × (m1 : HashMap) × (hashmap_remove text_of m key ≡ some (found, m1))
      × ((found ≡ true) ↔ Present text_of key live m n good)
      × IsLayout text_of m1 n
      × ((q : ℕ)
          → q ≢ 0
          → hashmap_get text_of m1 q
            ≡ (if same_text (text_of key) (text_of q) then some 0 else hashmap_get text_of m q))
hashmap_remove-get text_of m n key good live =
    let (found, m1, e, r) = hashmap_remove-Removes text_of key live m n good in
    (
      found,
      m1,
      e,
      r.told,
      r.layout,
      λ q alive.
          rw
            (
              hashmap_get-live_for text_of q alive m1 n r.layout,
              hashmap_get-live_for text_of q alive m n good,
              r.values (text_of q),
            )
            (some_if _ 0 (live_for text_of (text_of q) m.entries)),
    )
