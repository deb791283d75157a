-- ===== src/Hashmap/Cycle.antt =====
-- src/common/hashmap.c: the sequence of slots that a search visits once `perturb` is 0 comes by every
-- slot: the map `5 * x + 1` runs through all residues of a power of two.
use alkyl.Prelude.{
  ℕ, zero, suc, ◌-◌, ◌⊎◌, inl, inr, ltb, Bool-cases, ◌+◌, ◌*◌, ◌/◌, ◌%◌, ◌^◌, ◌≤◌, ◌<◌, ◌≡◌, refl,
  ◌∙◌, ap, sym, arith, mod_unique,
}
use native.Mathlib.Nat.{
  one-le-pow, two-pow-succ, zero-add, mod-lt, mod-eq_of_lt, mod-eq-sub-mod, div-add-mod,
  mul-add-mod_self_left,
}

unfoldable pub iterate : ℕ → ℕ → ℕ
iterate zero x = x
iterate (suc n) x = iterate n (x * 5 + 1)

pub iterate-add : (m n x : ℕ) → iterate (m + n) x ≡ iterate n (iterate m x)
unfolding iterate
iterate-add zero n x = rw zero-add refl
iterate-add (suc m) n x =
    let e : suc m + n ≡ suc (m + n) = omega arith in rw e (iterate-add m n (x * 5 + 1))

-- Two turns of `p` steps are one of `2 * p`.
two_turns :
    (p m u x y z : ℕ)
    → y ≡ x + 4 * (p * (m * x)) + p * (2 * u) + p
    → z ≡ y + 4 * (p * (m * y)) + p * (2 * u) + p
    → z
      ≡ x
        + 4 * (2 * p * ((m + 2 * (p * (m * m))) * x))
        + 2 * p * (2 * (u + p * m + 2 * (p * (m * u))))
        + 2 * p
two_turns p m u x y z e f = omega (arith, e, f, ap (λ (t : ℕ). 4 * (p * (m * t))) e)

-- After `2 ^ k` steps `x` is `(1 + 4 * 2 ^ k * m) * x + 2 ^ k * (2 * u + 1)`.
turn :
    (k : ℕ)
    → (m u : ℕ) × ((x : ℕ)
        → iterate (2 ^ k) x ≡ x + 4 * (2 ^ k * (m * x)) + 2 ^ k * (2 * u) + 2 ^ k)
unfolding iterate
turn zero = (1, 0, λ x. omega arith)
turn (suc k) =
    let (m, u, h) = turn k in
    let p = 2 ^ k in
    (
      m + 2 * (p * (m * m)),
      u + p * m + 2 * (p * (m * u)),
      λ x.
          rw (two-pow-succ k, iterate-add p p x, ← double p)
            (two_turns p m u x (iterate p x) (iterate p (iterate p x)) (h x) (h (iterate p x))),
    )
  where
    double : (p : ℕ) → 2 * p ≡ p + p
    double p = omega arith

-- The remainder by `p` of a number below `2 * p`.
mod_cases : (x p : ℕ) → x < p + p → ((x < p) × (x % p ≡ x)) ⊎ ((p ≤ x) × (x % p + p ≡ x))
mod_cases x p h = elim (Bool-cases (ltb x p)) [
  | inl e ↦ inl (ground (arith, e), mod-eq_of_lt (ground (arith, e)))
  | inr e ↦
      let le : p ≤ x = ground (arith, e) in
      inr (le, omega (arith, mod-eq-sub-mod le, mod_lem (x - p) (omega (arith, le, h))))
]
  where
    mod_lem : (y : ℕ) → y < p → y % p ≡ y
    mod_lem y g = mod-eq_of_lt g

-- Of two numbers with the same remainder by `p`, the remainders by `2 * p` are the same, or become so
-- when an odd multiple of `p` is added to the first.
same_or_shifted :
    (p y t : ℕ)
    → 0 < p
    → t < p + p
    → y % p ≡ t % p
    → (y % (p + p) ≡ t) ⊎ ((w : ℕ) → (y + p + (p + p) * w) % (p + p) ≡ t)
same_or_shifted p y t pos h e =
    let q = y / (p + p) in
    let s = y % (p + p) in
    let parts : (p + p) * q + s ≡ y = div-add-mod y (p + p) in
    let s_mod : y % p ≡ s % p =
      ap (λ (z : ℕ). z % p) (sym parts ∙ halves p q s) ∙ mul-add-mod_self_left p (2 * q) s in
    elim (mod_cases s p (mod-lt y (omega (arith, pos)))) [
      | inl a ↦ elim (mod_cases t p h) [
        | inl b ↦ inl (omega (arith, a.1, b.1, e, s_mod))
        | inr b ↦ inr (λ w. mod_unique _ _ (q + w) t (omega (arith, a.1, b.1, e, s_mod, parts)) h)
      ]
      | inr a ↦ elim (mod_cases t p h) [
        | inr b ↦ inl (omega (arith, a.1, b.1, e, s_mod))
        | inl b ↦
            inr (λ w. mod_unique _ _ (q + 1 + w) t (omega (arith, a.1, b.1, e, s_mod, parts)) h)
      ]
    ]
  where
    halves : (p q s : ℕ) → (p + p) * q + s ≡ p * (2 * q) + s
    halves p q s = omega arith

extend :
    (k n x t m u : ℕ)
    → n < 2 ^ k
    → t < 2 ^ suc k
    → iterate n x % 2 ^ k ≡ t % 2 ^ k
    → ((y : ℕ) → iterate (2 ^ k) y ≡ y + 4 * (2 ^ k * (m * y)) + 2 ^ k * (2 * u) + 2 ^ k)
    → (r : ℕ) × (r < 2 ^ suc k) × (iterate r x % 2 ^ suc k ≡ t)
extend k n x t m u small h e goes =
    let p = 2 ^ k in
    let pos : 0 < p = one-le-pow k 2 (omega arith) in
    elim (same_or_shifted p (iterate n x) t pos (omega (arith, h, two-pow-succ k)) e) [
      | inl same ↦ (n, omega (arith, small, two-pow-succ k), rw (two_pow k) same)
      | inr shifted ↦ (
        n + p,
        omega (arith, small, two-pow-succ k),
        rw (two_pow k, iterate-add n p x, goes (iterate n x), regroup p m u (iterate n x))
            (shifted (2 * (m * iterate n x) + u)),
      )
    ]
  where
    two_pow : (k : ℕ) → 2 ^ suc k ≡ 2 ^ k + 2 ^ k
    two_pow = two-pow-succ

    regroup :
        (p m u y : ℕ)
        → y + 4 * (p * (m * y)) + p * (2 * u) + p ≡ y + p + (p + p) * (2 * (m * y) + u)
    regroup p m u y = omega arith

-- From every start each residue comes up within `2 ^ k` steps.
pub iterate_covers : (k x t : ℕ) → t < 2 ^ k → (n : ℕ) × (n < 2 ^ k) × (iterate n x % 2 ^ k ≡ t)
unfolding iterate
iterate_covers zero x t h = (0, omega arith, omega (arith, h))
iterate_covers (suc k) x t h =
    let (m, u, goes) = turn k in
    let (n, small, e) = iterate_covers k x (t % 2 ^ k) (mod-lt t (one-le-pow k 2 (omega arith))) in
    extend k n x t m u small h e goes
