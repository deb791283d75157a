-- ===== src/Prelude/Ones.antt =====
-- `|` of a number with itself shifted right, which spreads its ones downwards, at every width.
use Prim.Native.Nat.{ℕ, zero, suc, ◌+◌, ◌-◌, ◌*◌, ◌/◌, ◌%◌, ◌^◌, ◌≤◌, ◌<◌, bit_or}
use mathlib.Core.Path.{◌≡◌, ap, ◌∙◌}
use native.Mathlib.Nat.{
  pow-suc, one-le-pow, div-add-mod, mod-lt, le-div_iff_mul-le, div-lt_iff_lt-mul, pow-le-pow_right,
}
use native.Mathlib.Omega.{arith}
use alkyl.Prelude.Bits.{bit_or_lowest, bit_or-zero_left}

-- On numbers of `c` bits `|` is at least each of them, and has `c` bits.
bit_or-bounds : (c y x : ℕ) → y < 2 ^ c → x < 2 ^ c → (x ≤ bit_or y x) × (bit_or y x < 2 ^ c)
bit_or-bounds zero y x h g =
    let none_left : y ≡ 0 = omega (arith, h) in rw none_left (omega (arith, bit_or-zero_left x, g))
bit_or-bounds (suc c) y x h g =
    let halves =
      bit_or-bounds c (y / 2) (x / 2) (omega (arith, h, pow-suc 2 c))
        (omega (arith, g, pow-suc 2 c)) in
    let lowest = bit_or_lowest y x in ground (arith, halves, lowest, pow-suc 2 c)

pub bit_or-zero_right : (c y : ℕ) → y < 2 ^ c → bit_or y 0 ≡ y
bit_or-zero_right zero y h =
    let none_left : y ≡ 0 = omega (arith, h) in rw none_left (bit_or-zero_left 0)
bit_or-zero_right (suc c) y h =
    let half = bit_or-zero_right c (y / 2) (omega (arith, h, pow-suc 2 c)) in
    ground (arith, half, bit_or_lowest y 0)

-- The bits above those of `x` stay.
bit_or-over :
    (c w a y x : ℕ)
    → a < 2 ^ w
    → y < 2 ^ c
    → x < 2 ^ c
    → bit_or (2 ^ c * a + y) x ≡ 2 ^ c * a + bit_or y x
bit_or-over zero w a y x high h g =
    let ny : y ≡ 0 = omega (arith, h) in
    let nx : x ≡ 0 = omega (arith, g) in
    rw (ny, nx, bit_or-zero_left 0, one a) (bit_or-zero_right w a high)
  where
    one : (a : ℕ) → 2 ^ 0 * a + 0 ≡ a
    one a = omega arith
bit_or-over (suc c) w a y x high h g =
    let rest =
      bit_or-over c w a (y / 2) (x / 2) high (omega (arith, h, pow-suc 2 c))
        (omega (arith, g, pow-suc 2 c)) in
    let twice : 2 ^ suc c * a ≡ 2 * (2 ^ c * a) =
      ap (λ (t : ℕ). t * a) (pow-suc 2 c) ∙ regroup (2 ^ c) a in
    let half : (2 ^ suc c * a + y) / 2 ≡ 2 ^ c * a + y / 2 = omega (arith, twice) in
    let low : (2 ^ suc c * a + y) % 2 ≡ y % 2 = omega (arith, twice) in
    bit_or_lowest (2 ^ suc c * a + y) x
    ∙ rw (half, low, rest) (omega (arith, twice, bit_or_lowest y x))
  where
    regroup : (p a : ℕ) → p * 2 * a ≡ 2 * (p * a)
    regroup p a = omega arith

-- Of `t + c` bits, all but the lowest `c` are ones.
abbrev pub IsFilled : ℕ → ℕ → ℕ → Type 0
IsFilled w c m = (2 ^ w ≤ m + 2 ^ c) × (m < 2 ^ w)

pow_add : (m n : ℕ) → 2 ^ (m + n) ≡ 2 ^ m * 2 ^ n
pow_add zero n = rw (plain n) (omega arith)
  where
    plain : (n : ℕ) → 0 + n ≡ n
    plain n = omega arith
pow_add (suc m) n = rw (shift m n) (
    omega
      (arith, pow-suc 2 (m + n), pow_add m n, product (2 ^ m) (2 ^ n) (2 ^ suc m) (pow-suc 2 m)))
  where
    shift : (m n : ℕ) → suc m + n ≡ suc (m + n)
    shift m n = omega arith

    product : (p q r : ℕ) → r ≡ p * 2 → r * q ≡ 2 * (p * q)
    product p q r e = omega (arith, ap (λ (t : ℕ). t * q) e)

-- `d` and `e` times `q` make up `w`, of which `m` lacks no more than `c`.
scaled_le : (d e q w m c p : ℕ) → d + e ≡ p → w ≡ q * p → w ≤ m + c → c ≤ e * q → d * q ≤ m
scaled_le d e q w m c p sum whole low spill =
    omega (arith, ap (λ (t : ℕ). q * t) sum, whole, low, spill)

module _ (t c m : ℕ) (filled : IsFilled (t + c) c m) where
  pos_t : 0 < 2 ^ t
  pos_t = one-le-pow t 2 (omega arith)

  pos_c : 0 < 2 ^ c
  pos_c = one-le-pow c 2 (omega arith)

  shifted_small : m / 2 ^ t < 2 ^ c
  shifted_small = (div-lt_iff_lt-mul pos_t).1 (omega (arith, filled.1, pow_add t c))

  -- The bits above the lowest `c` are ones.
  top_ones : m / 2 ^ c + 1 ≡ 2 ^ t
  top_ones =
      let small : m / 2 ^ c < 2 ^ t =
        (div-lt_iff_lt-mul pos_c).1 (omega (arith, filled.1, pow_add t c)) in
      let large : 2 ^ t - 1 ≤ m / 2 ^ c = (le-div_iff_mul-le pos_c).1 (
        scaled_le (2 ^ t - 1) 1 (2 ^ c) (2 ^ (t + c)) m (2 ^ c) (2 ^ t) (omega (arith, pos_t))
          (omega (arith, pow_add t c)) filled.0 (omega arith)) in
      omega (arith, small, large, pos_t)

  shifted_large : 2 ^ c ≤ m / 2 ^ t + 2 ^ (c - t)
  shifted_large =
      let fits : 2 ^ (c - t) ≤ 2 ^ c = pow-le-pow_right (omega arith) (omega arith) in
      let spill : 2 ^ c ≤ 2 ^ (c - t) * 2 ^ t =
        rw (← pow_add (c - t) t) (pow-le-pow_right (omega arith) (omega arith)) in
      let large : 2 ^ c - 2 ^ (c - t) ≤ m / 2 ^ t = (le-div_iff_mul-le pos_t).1 (
        scaled_le (2 ^ c - 2 ^ (c - t)) (2 ^ (c - t)) (2 ^ t) (2 ^ (t + c)) m (2 ^ c) (2 ^ c)
          (omega (arith, fits)) (pow_add t c) filled.0 spill) in
      omega (arith, large)

  -- A shift by the number of ones makes twice as many.
  pub spread-IsFilled : IsFilled (t + c) (c - t) (bit_or m (m / 2 ^ t))
  spread-IsFilled =
      let top = m / 2 ^ c in
      let y = m % 2 ^ c in
      let x = m / 2 ^ t in
      let y_small : y < 2 ^ c = mod-lt m pos_c in
      let parts : 2 ^ c * top + y ≡ m = div-add-mod m (2 ^ c) in
      let over = bit_or-over c t top y x (omega (arith, top_ones)) y_small shifted_small in
      let result : bit_or m x ≡ 2 ^ c * top + bit_or y x = rw parts at over in
      let (above, below) = bit_or-bounds c y x y_small shifted_small in
      let whole : 2 ^ (t + c) ≡ 2 ^ c * top + 2 ^ c =
        omega (arith, pow_add t c, ap (λ (z : ℕ). 2 ^ c * z) top_ones) in
      (omega (arith, result, above, whole, shifted_large), omega (arith, result, below, whole))
