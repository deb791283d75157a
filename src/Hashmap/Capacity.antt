-- ===== src/Hashmap/Capacity.antt =====
-- src/common/hashmap.c: the capacity that `next_pow2` returns, and the map that `hashmap_init` makes with it.
use alkyl.Prelude.{
  ℕ, zero, suc, ◌+◌, ◌-◌, ◌*◌, ◌/◌, ◌%◌, ◌^◌, ◌≤◌, ◌<◌, ◌≡◌, ◌≢◌, refl, ap, ◌∙◌, ◌⊎◌, inl, inr,
  Bool, false, ltb, leb, ◌==◌, Bool-cases, some, Str, if◌then◌else◌, IsFilled, spread-IsFilled,
  bit_or-zero_right, arith,
}
use native.Mathlib.Nat.{pow-suc, pow-le-pow_right, div-eq_of_lt}
use alkyl.Hashmap.Hash.{smear, next_pow2}
use alkyl.Hashmap.Map.{hashmap_init}
use alkyl.Hashmap.Table.{no_indices-IsTable}
use alkyl.Hashmap.Ops.{hashmap_get}
use alkyl.Hashmap.Put.{hashmap_get_lem}
use alkyl.Hashmap.Layout.{IsMap, value_for}

-- A shift by the number of ones makes twice as many, or all bits are ones before and after.
IsFilled-smear : (w t m : ℕ) → IsFilled w (w - t) m → IsFilled w (w - (t + t)) (smear t m)
unfolding smear
IsFilled-smear w t m filled = elim (Bool-cases (leb t w)) [
  | inl e ↦
      let width : t + (w - t) ≡ w = ground (arith, e) in
      let left : w - t - t ≡ w - (t + t) = omega arith in
      let more = spread-IsFilled t (w - t) m (rw width filled) in rw (width, left) at more
  | inr e ↦
      let before : w - t ≡ 0 = ground (arith, e) in
      let after : w - (t + t) ≡ 0 = ground (arith, e) in
      let wide : 2 ^ w ≤ 2 ^ t = pow-le-pow_right (omega arith) (ground (arith, e)) in
      let gone : m / 2 ^ t ≡ 0 = div-eq_of_lt (omega (arith, filled.1, wide)) in
      let all_ones = rw before at filled in
      rw (after, gone, bit_or-zero_right w m filled.1) all_ones
]

-- The bits of a number.
log_cases : (n v : ℕ) → 0 < v → v < 2 ^ n → (b : ℕ) × (b < n) × (2 ^ b ≤ v) × (v < 2 ^ suc b)
log_cases zero v pos h = absurd (omega (arith, pos, h))
log_cases (suc n) v pos h = elim (Bool-cases (ltb v (2 ^ n))) [
  | inl e ↦
      let (b, small, low, high) = log_cases n v pos (ground (arith, e)) in
      (b, omega (arith, small), low, high)
  | inr e ↦ (n, omega arith, ground (arith, e), h)
]

smeared : ℕ → ℕ
smeared v = smear 16 (smear 8 (smear 4 (smear 2 (smear 1 v))))

smeared-ones : (b v : ℕ) → b < 31 → 2 ^ b ≤ v → v < 2 ^ suc b → smeared v + 1 ≡ 2 ^ suc b
unfolding smeared
smeared-ones b v small low high =
    let w = suc b in
    let below : w - 1 ≡ b = omega arith in
    let first : IsFilled w (w - 1) v = rw below (omega (arith, low, pow-suc 2 b), high) in
    let five = IsFilled-smear w 16 _ (
      IsFilled-smear w 8 _
        (IsFilled-smear w 4 _ (IsFilled-smear w 2 _ (IsFilled-smear w 1 v first)))) in
    let none_left : w - (16 + 16) ≡ 0 = omega (arith, small) in
    let ones = rw none_left at five in omega (arith, ones.0, ones.1)

-- What `next_pow2` makes of its argument less 1.
capacity_above : ℕ → ℕ
capacity_above v = let m = (smeared v + 1) % 2 ^ 32 in if ltb m 8 then 8 else m

-- The least power of two that is neither below 8 nor below `n`.
abbrev pub IsLeastPower : ℕ → ℕ → Type 0
IsLeastPower n c = (k : ℕ) × (k ≤ 31) × (c ≡ 2 ^ k) × (n ≤ c) × (8 ≤ c) × ((c ≡ 8) ⊎ (c < 2 * n))

capacity_above-IsLeastPower : (v : ℕ) → 0 < v → v < 2 ^ 31 → IsLeastPower (suc v) (capacity_above v)
unfolding capacity_above
capacity_above-IsLeastPower v pos h =
    let (b, small, low, high) = log_cases 31 v pos h in
    let fits : suc b ≤ 31 = omega (arith, small) in
    let top : 2 ^ suc b ≤ 2 ^ 31 = pow-le-pow_right (omega arith) fits in
    let m : (smeared v + 1) % 2 ^ 32 ≡ 2 ^ suc b =
      omega (arith, smeared-ones b v small low high, top) in
    elim (Bool-cases (ltb (2 ^ suc b) 8)) [
      | inl e ↦ rw (m, e) (3, omega arith, refl, ground (arith, e, high), omega arith, inl refl)
      | inr e ↦
          rw (m, e)
            (
              suc b,
              omega (arith, small),
              refl,
              omega (arith, high),
              ground (arith, e),
              inr (omega (arith, low, pow-suc 2 b)),
            )
    ]

next_pow2-pos : (n : ℕ) → 0 < n → next_pow2 n ≡ capacity_above (n - 1)
unfolding next_pow2 capacity_above smeared
next_pow2-pos n h = let pos : (n == 0) ≡ false = ground (arith, h) in rw pos refl

-- For every hint up to 2 ^ 31, `next_pow2` returns a power of two that is at least 8, at least the hint,
-- and, where it is not 8, below twice the hint: the least such power.
pub next_pow2-IsLeastPower : (n : ℕ) → n ≤ 2 ^ 31 → IsLeastPower n (next_pow2 n)
unfolding next_pow2 smear
next_pow2-IsLeastPower zero h = (3, omega arith, refl, omega arith, omega arith, inl refl)
next_pow2-IsLeastPower (suc zero) h = (3, omega arith, refl, omega arith, omega arith, inl refl)
next_pow2-IsLeastPower (suc (suc v)) h =
    let less : suc (suc v) - 1 ≡ suc v = omega arith in
    let above = capacity_above-IsLeastPower (suc v) (omega arith) (omega (arith, h)) in
    let same : next_pow2 (suc (suc v)) ≡ capacity_above (suc v) =
      next_pow2-pos (suc (suc v)) (omega arith) ∙ ap capacity_above less in
    rw same above

new-IsMap :
    (text_of : ℕ → Str) (arena : Bool) (n : ℕ) → n ≤ 2 ^ 31 → IsMap text_of (hashmap_init arena n)
unfolding hashmap_init
new-IsMap text_of arena n h =
    let least = next_pow2-IsLeastPower n h in
    record {
      bits = least.0;
      narrow = least.1;
      power = least.2;
      table = rw (least.2) (no_indices-IsTable least.0);
      written = refl;
      room = omega arith;
      placed = λ i e f. cc;
      distinct = λ i j e f a b same. cc;
    }

pub value_for-hashmap_init :
    (text_of : ℕ → Str) (arena : Bool) (n : ℕ) (q : Str)
    → value_for text_of q (hashmap_init arena n).entries ≡ 0
unfolding hashmap_init value_for
value_for-hashmap_init text_of arena n q = refl

-- `hashmap_init` with a hint up to 2 ^ 31 makes a map that satisfies the invariant, and `hashmap_get` there
-- returns NULL for every key that is not NULL.
pub hashmap_init-IsMap :
    (text_of : ℕ → Str) (arena : Bool) (n : ℕ)
    → n ≤ 2 ^ 31
    → IsMap text_of (hashmap_init arena n)
      × ((key : ℕ) → key ≢ 0 → hashmap_get text_of (hashmap_init arena n) key ≡ some 0)
hashmap_init-IsMap text_of arena n h =
    let good = new-IsMap text_of arena n h in
    (
      good,
      λ key live.
          hashmap_get_lem text_of key live (hashmap_init arena n) good
          ∙ ap some (value_for-hashmap_init text_of arena n (text_of key)),
    )
