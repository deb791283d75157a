-- ===== src/Optlir/Constants/Quotients.antt =====
-- src/optlir/local.c: a folded quotient and remainder belong together.
use alkyl.Prelude.{
  ℕ, ◌+◌, ◌-◌, ◌*◌, ◌/◌, ◌%◌, ◌^◌, ◌≤◌, ◌<◌, ◌≡◌, ◌≢◌, refl, sym, ap, ◌∙◌, ◌⊎◌, inl, inr, true,
  false, ◌==◌, leb, Bool-cases, some, ok, mod_unique, arith,
}
use native.Mathlib.Nat.{mod-lt, div-add-mod, div-le_self}
use alkyl.Ir.Op
use alkyl.Optlir.Constants.{
  negative, negate, magnitude, overflows, divided, remainder, quotient_case, int_binary,
}

-- The bit pattern `c` of minus `n`.
abbrev IsMinus : ℕ → ℕ → Type 0
IsMinus c n = (c ≡ 0) × (n ≡ 0) ⊎ (c + n ≡ 2 ^ 64)

negate-IsMinus : (n : ℕ) → n ≤ 2 ^ 63 → IsMinus (negate n) n
unfolding negate
negate-IsMinus n h = elim (Bool-cases (n == 0)) [
  | inl e ↦ inl (ground (arith, e))
  | inr e ↦ inr (ground (arith, e, h))
]

magnitude-small : (n : ℕ) → n < 2 ^ 63 → (magnitude n ≡ n) × (negative n ≡ false)
unfolding magnitude negative
magnitude-small n h = let e : leb (2 ^ 63) n ≡ false = ground (arith, h) in rw e (refl, refl)

magnitude-negate :
    (n : ℕ)
    → n < 2 ^ 63
    → (magnitude (negate n) ≡ n) × ((negate n ≡ 0) ⊎ (negative (negate n) ≡ true))
unfolding magnitude negative negate
magnitude-negate n h = elim (Bool-cases (n == 0)) [
  | inl e ↦ let none_left : n ≡ 0 = ground (arith, e) in rw none_left (refl, inl refl)
  | inr e ↦
      let c : (2 ^ 64 - n) % 2 ^ 64 ≡ 2 ^ 64 - n = ground (arith, e, h) in
      let large : leb (2 ^ 63) (2 ^ 64 - n) ≡ true = ground (arith, h) in
      rw (c, large) (omega (arith, h), inr refl)
]

-- `a = b * q + r`, where the bit patterns stand for numbers of either sign.
module _ (a b q r : ℕ) (split : b * q + r ≡ a) (small : a ≤ 2 ^ 63) (divisor : b ≤ 2 ^ 63)
    (pos : 0 < b) (less : r < b) (quotient : q ≤ a) where
  q_pos : 0 < a → r ≡ 0 → 0 < q
  q_pos h g = elim (Bool-cases (q == 0)) [
    | inl e ↦
        let none_left : q ≡ 0 = ground (arith, e) in
        absurd (omega (arith, split, h, g, ap (λ (t : ℕ). b * t) none_left))
    | inr e ↦ ground (arith, e)
  ]

  plus_plus : a < 2 ^ 63 → (q * b + r) % 2 ^ 64 ≡ a
  plus_plus h = mod_unique _ (2 ^ 64) 0 a (omega (arith, split)) (omega (arith, h))

  plus_minus :
      (b1 q1 : ℕ) → a < 2 ^ 63 → b1 + b ≡ 2 ^ 64 → IsMinus q1 q → (q1 * b1 + r) % 2 ^ 64 ≡ a
  plus_minus b1 q1 h e (inl none_left) =
      mod_unique _ (2 ^ 64) 0 a
        (omega
          (arith, split, ap (λ (t : ℕ). t * b1) none_left.0, ap (λ (t : ℕ). b * t) none_left.1))
        (omega (arith, h))
  plus_minus b1 q1 h e (inr f) =
      mod_unique _ (2 ^ 64) (q1 - b) a
        (omega (
          arith,
          split,
          quotient,
          small,
          divisor,
          f,
          ap (λ (t : ℕ). q1 * t) e,
          ap (λ (t : ℕ). t * b) f,
        ))
        (omega (arith, h))

  minus_plus :
      (a1 q1 r1 : ℕ)
      → 0 < a
      → a1 + a ≡ 2 ^ 64
      → IsMinus q1 q
      → IsMinus r1 r
      → (q1 * b + r1) % 2 ^ 64 ≡ a1
  minus_plus a1 q1 r1 h e (inl f) (inl g) =
      absurd (omega (arith, split, h, f.1, g.1, ap (λ (t : ℕ). b * t) f.1))
  minus_plus a1 q1 r1 h e (inl f) (inr g) =
      mod_unique _ (2 ^ 64) 0 a1
        (omega (arith, split, e, g, ap (λ (t : ℕ). t * b) f.0, ap (λ (t : ℕ). b * t) f.1))
        (omega (arith, e, h))
  minus_plus a1 q1 r1 h e (inr f) (inl g) =
      mod_unique _ (2 ^ 64) (b - 1) a1 (omega (arith, split, e, g, pos, ap (λ (t : ℕ). t * b) f))
        (omega (arith, e, h))
  minus_plus a1 q1 r1 h e (inr f) (inr g) =
      mod_unique _ (2 ^ 64) b a1 (omega (arith, split, e, g, ap (λ (t : ℕ). t * b) f))
        (omega (arith, e, h))

  minus_minus :
      (a1 b1 r1 : ℕ)
      → 0 < a
      → a1 + a ≡ 2 ^ 64
      → b1 + b ≡ 2 ^ 64
      → IsMinus r1 r
      → (q * b1 + r1) % 2 ^ 64 ≡ a1
  minus_minus a1 b1 r1 h e f (inl g) =
      mod_unique _ (2 ^ 64) (q - 1) a1
        (omega (arith, split, e, g, h, q_pos h g.1, ap (λ (t : ℕ). q * t) f)) (omega (arith, e, h))
  minus_minus a1 b1 r1 h e f (inr g) =
      mod_unique _ (2 ^ 64) q a1 (omega (arith, split, e, g, ap (λ (t : ℕ). q * t) f))
        (omega (arith, e, h))

-- The sign and the size of a bit pattern.
signed_cases :
    (v : ℕ)
    → v < 2 ^ 64
    → ((negative v ≡ false) × (magnitude v ≡ v) × (v < 2 ^ 63))
      ⊎ ((negative v ≡ true)
          × (v + magnitude v ≡ 2 ^ 64)
          × (0 < magnitude v)
          × (magnitude v ≤ 2 ^ 63))
unfolding negative magnitude
signed_cases v h = elim (Bool-cases (leb (2 ^ 63) v)) [
  | inl e ↦ inr (rw e (refl, ground (arith, e, h), ground (arith, e, h), ground (arith, e, h)))
  | inr e ↦ inl (rw e (refl, refl, ground (arith, e)))
]

module _ (v1 v2 : ℕ) (small1 : v1 < 2 ^ 64) (small2 : v2 < 2 ^ 64) (divisor : v2 ≢ 0) where
  magnitude-pos : 0 < magnitude v2
  magnitude-pos = elim (signed_cases v2 small2) [
    | inl p ↦ omega (arith, p.1, not_zero)
    | inr m ↦ m.2
  ]
    where
      not_zero : 0 < v2
      not_zero = elim (Bool-cases (v2 == 0)) [
        | inl e ↦ absurd (divisor (ground (arith, e)))
        | inr e ↦ ground (arith, e)
      ]

  magnitude-le : (v : ℕ) → v < 2 ^ 64 → magnitude v ≤ 2 ^ 63
  magnitude-le v h = elim (signed_cases v h) [ inl p ↦ omega (arith, p.1, p.2) | inr m ↦ m.3 ]

  divided-remainder : (divided v1 v2 * v2 + remainder v1 v2) % 2 ^ 64 ≡ v1
  unfolding divided remainder
  divided-remainder =
      let a = magnitude v1 in
      let b = magnitude v2 in
      let q = a / b in
      let r = a % b in
      let split : b * q + r ≡ a = div-add-mod a b in
      let less : r < b = mod-lt a magnitude-pos in
      let le1 = magnitude-le v1 small1 in
      let le2 = magnitude-le v2 small2 in
      let fits : q ≤ a = div-le_self a b in
      let minus_q = negate-IsMinus q (omega (arith, fits, le1)) in
      let minus_r = negate-IsMinus r (omega (arith, less, le2)) in
      elim (signed_cases v1 small1) [
        | inl p ↦ elim (signed_cases v2 small2) [
          | inl n ↦
              rw (p.0, n.0)
                (ap (λ (t : ℕ). (q * t + r) % 2 ^ 64) (sym n.1)
                  ∙ plus_plus a b q r split le1 le2 magnitude-pos less fits
                      (omega (arith, p.1, p.2))
                  ∙ p.1)
          | inr n ↦
              rw (p.0, n.0)
                (plus_minus a b q r split le1 le2 magnitude-pos less fits v2 (negate q)
                    (omega (arith, p.1, p.2)) n.1 minus_q
                  ∙ p.1)
        ]
        | inr p ↦ elim (signed_cases v2 small2) [
          | inl n ↦
              rw (p.0, n.0)
                (ap (λ (t : ℕ). (negate q * t + negate r) % 2 ^ 64) (sym n.1)
                  ∙ minus_plus a b q r split le1 le2 magnitude-pos less fits v1 (negate q)
                      (negate r) p.2 p.1 minus_q minus_r)
          | inr n ↦
              rw (p.0, n.0)
                (minus_minus a b q r split le1 le2 magnitude-pos less fits v1 v2 (negate r) p.2 p.1
                  n.1 minus_r)
        ]
      ]

  remainder-bound :
      (magnitude (remainder v1 v2) < magnitude v2)
      × ((remainder v1 v2 ≡ 0) ⊎ (negative (remainder v1 v2) ≡ negative v1))
  unfolding remainder
  remainder-bound =
      let r = magnitude v1 % magnitude v2 in
      let less : r < magnitude v2 = mod-lt (magnitude v1) magnitude-pos in
      let small : r < 2 ^ 63 = omega (arith, less, magnitude-le v2 small2) in
      elim (Bool-cases (negative v1)) [
        | inl e ↦ let size = magnitude-negate r small in rw (e, size.0) (less, size.1)
        | inr e ↦ let size = magnitude-small r small in rw (e, size.0) (less, inr size.1)
      ]

  -- Of two bit patterns below 2 ^ 64, the second not 0, and not the least number and -1, the folded
  -- quotient times the divisor, plus the folded remainder, wraps to the dividend; the remainder is
  -- smaller than the divisor in size, and it is 0 or has the sign of the dividend.
  pub int_binary-div :
      overflows v1 v2 ≡ false
      → (q : ℕ) × (r : ℕ) × (int_binary Op.div v1 v2 ≡ some (ok q))
        × (int_binary Op.modulo v1 v2 ≡ some (ok r))
        × ((q * v2 + r) % 2 ^ 64 ≡ v1)
        × (magnitude r < magnitude v2)
        × ((r ≡ 0) ⊎ (negative r ≡ negative v1))
  unfolding int_binary quotient_case
  int_binary-div h =
      let not_zero : (v2 == 0) ≡ false = ground (arith, divisor) in
      (
        divided v1 v2,
        remainder v1 v2,
        rw (not_zero, h) refl,
        rw (not_zero, h) refl,
        divided-remainder,
        remainder-bound.0,
        remainder-bound.1,
      )
