-- ===== src/Hashmap/Walk.antt =====
-- src/common/hashmap.c: a search in a table with an empty slot ends, at that slot at the latest.
use alkyl.Prelude.{
  ℕ, zero, suc, ◌+◌, ◌-◌, ◌*◌, ◌/◌, ◌%◌, ◌^◌, ◌<◌, ◌≡◌, refl, ◌∙◌, sym, ap, ◌≢◌, Bool, Option, none,
  some, List, length, get_elem?, get_elem?-some, bit_and-mask, Bool-cases, inl, inr, arith,
}
use native.Mathlib.Nat.{
  pow-suc, one-le-pow, mod-lt, mod-eq_of_lt, div-add-mod, mul-add-mod_self_left,
}
use alkyl.Hashmap.Cycle.{iterate, iterate_covers}
use alkyl.Hashmap.Probe.{Found, lost, next_slot, look, probe}

-- The slot that a search reads after `n` others.
pub slot_at : ℕ → ℕ → ℕ → ℕ → ℕ
slot_at mask zero i p = i
slot_at mask (suc n) i p = slot_at mask n (next_slot mask i p) (p / 2 ^ 5)

pub next_slot-lt : (k i p : ℕ) → next_slot (2 ^ k - 1) i p < 2 ^ k
unfolding next_slot
next_slot-lt k i p = rw (bit_and-mask k (i * 5 + 1 + p)) (mod-lt _ (one-le-pow k 2 (omega arith)))

-- The perturbation is 0 after as many steps as it has groups of five bits.
fades :
    (k c i p : ℕ)
    → p < 2 ^ (c * 5)
    → i < 2 ^ k
    → (j : ℕ) × (j < 2 ^ k)
      × ((n : ℕ) → slot_at (2 ^ k - 1) (c + n) i p ≡ slot_at (2 ^ k - 1) n j 0)
unfolding slot_at
fades k zero i p h small =
    let none_left : p ≡ 0 = omega (arith, h) in (i, small, λ n. rw (none_left, plain n) refl)
  where
    plain : (n : ℕ) → 0 + n ≡ n
    plain n = omega arith
fades k (suc c) i p h small =
    let shorter : p / 2 ^ 5 < 2 ^ (c * 5) = omega (arith, h, wider c) in
    let (j, le, e) =
      fades k c (next_slot (2 ^ k - 1) i p) (p / 2 ^ 5) shorter (next_slot-lt k i p) in
    (j, le, λ n. rw (assoc c n) (e n))
  where
    assoc : (c n : ℕ) → suc c + n ≡ suc (c + n)
    assoc c n = omega arith

    five : (c : ℕ) → suc c * 5 ≡ suc (suc (suc (suc (suc (c * 5)))))
    five c = omega arith

    wider : (c : ℕ) → 2 ^ (suc c * 5) ≡ 32 * 2 ^ (c * 5)
    wider c = rw (five c) (
        omega (
          arith,
          pow-suc 2 (c * 5),
          pow-suc 2 (suc (c * 5)),
          pow-suc 2 (suc (suc (c * 5))),
          pow-suc 2 (suc (suc (suc (c * 5)))),
          pow-suc 2 (suc (suc (suc (suc (c * 5))))),
        ))

next_slot-plain : (k x : ℕ) → next_slot (2 ^ k - 1) (x % 2 ^ k) 0 ≡ (x * 5 + 1) % 2 ^ k
unfolding next_slot
next_slot-plain k x =
    let p = 2 ^ k in
    bit_and-mask k (x % p * 5 + 1 + 0)
    ∙ sym (
        ap (λ (z : ℕ). z % p) (whole p (x / p) (x % p) x (div-add-mod x p))
        ∙ mul-add-mod_self_left p (5 * (x / p)) (x % p * 5 + 1 + 0))
  where
    five : (p q : ℕ) → p * (5 * q) ≡ 5 * (p * q)
    five p q = omega arith

    whole : (p q r x : ℕ) → p * q + r ≡ x → x * 5 + 1 ≡ p * (5 * q) + (r * 5 + 1 + 0)
    whole p q r x e = omega (arith, e, five p q)

-- From then on the slots are the residues of `5 * x + 1`, repeated.
slot_at-iterate : (k n x : ℕ) → slot_at (2 ^ k - 1) n (x % 2 ^ k) 0 ≡ iterate n x % 2 ^ k
unfolding slot_at iterate
slot_at-iterate k zero x = refl
slot_at-iterate k (suc n) x = rw (next_slot-plain k x) (slot_at-iterate k n (x * 5 + 1))

-- A search that starts with a hash of 32 bits reads each slot within `2 ^ k + 7` steps.
pub slot_at_covers :
    (k i p t : ℕ)
    → i < 2 ^ k
    → p < 2 ^ 32
    → t < 2 ^ k
    → (n : ℕ) × (n < 2 ^ k + 7) × (slot_at (2 ^ k - 1) n i p ≡ t)
slot_at_covers k i p t small hash h =
    let (j, le, e) = fades k 7 i p (omega (arith, hash)) small in
    let (n, bound, f) = iterate_covers k j t h in
    (
      7 + n,
      omega (arith, bound),
      e n
          ∙ ap (λ (z : ℕ). slot_at (2 ^ k - 1) n z 0) (sym (mod-eq_of_lt le))
          ∙ slot_at-iterate k n j
          ∙ f,
    )

-- A search with fuel for the steps to an empty slot ends.
pub probe-ne-lost :
    (matches : ℕ → Bool) (k fuel n : ℕ) (indices : List (Option ℕ)) (i p : ℕ)
    → length indices ≡ 2 ^ k
    → i < 2 ^ k
    → n < fuel
    → get_elem? indices (slot_at (2 ^ k - 1) n i p) ≡ some none
    → probe matches (2 ^ k - 1) fuel indices i p ≢ lost
unfolding probe look slot_at
probe-ne-lost matches k zero n indices i p w small h e = absurd (omega (arith, h))
probe-ne-lost matches k (suc fuel) zero indices i p w small h e = rw e (λ f. cc)
probe-ne-lost matches k (suc fuel) (suc n) indices i p w small h e =
    let (x, f) = get_elem?-some indices i (omega (arith, w, small)) in
    let rest =
      probe-ne-lost matches k fuel n indices (next_slot (2 ^ k - 1) i p) (p / 2 ^ 5) w
        (next_slot-lt k i p) (omega (arith, h)) e in
    rw f (goes_on x _ rest)
  where
    goes_on : (x : Option ℕ) (rest : Found) → rest ≢ lost → look matches i (some x) rest ≢ lost
    goes_on none rest r f = cc
    goes_on (some idx) rest r f = elim (Bool-cases (matches idx)) [
      | inl e ↦ let g = rw e at f in cc
      | inr e ↦ r (rw e at f)
    ]
