-- ===== src/Prelude/Masks.antt =====
-- `&` with a mask of low bits, and the width of `^`, at every width.
use Prim.Native.Nat.{
  ℕ, zero, suc, ◌+◌, ◌-◌, ◌*◌, ◌/◌, ◌%◌, ◌^◌, ◌≤◌, ◌<◌, bit_and, bit_xor, digits, differ,
  bit_xor-bitwise,
}
use mathlib.Core.Path.{◌≡◌, ap, ◌∙◌}
use native.Mathlib.Nat.{
  pow-suc, one-le-pow, add-mul-mod_self_left, mod-eq_of_lt, div-add-mod, mod-lt,
}
use native.Mathlib.Omega.{arith}
use alkyl.Prelude.Bits.{bit_and_lowest, bit_and-zero_bounded}

-- The remainder is the only number below the divisor that leaves a multiple.
pub mod_unique : (a n q s : ℕ) → a ≡ s + n * q → s < n → a % n ≡ s
mod_unique a n q s e h = rw e (add-mul-mod_self_left s n q ∙ mod-eq_of_lt h)

mod_halves : (k a : ℕ) → a % 2 ^ suc k ≡ a / 2 % 2 ^ k * 2 + a % 2
mod_halves k a =
    let p = 2 ^ k in
    mod_unique a (2 ^ suc k) (a / 2 / p) (a / 2 % p * 2 + a % 2)
      (omega
        (arith, pow-suc 2 k, ap (λ (t : ℕ). t * (a / 2 / p)) (pow-suc 2 k), div-add-mod (a / 2) p))
      (omega (arith, pow-suc 2 k, mod-lt (a / 2) (one-le-pow k 2 (omega arith))))

-- A mask of `k` ones keeps the remainder by `2 ^ k`.
pub bit_and-mask : (k a : ℕ) → bit_and a (2 ^ k - 1) ≡ a % 2 ^ k
bit_and-mask zero a = omega (arith, bit_and-zero_bounded a a (omega arith))
bit_and-mask (suc k) a =
    let pos : 1 ≤ 2 ^ k = one-le-pow k 2 (omega arith) in
    let half : (2 ^ suc k - 1) / 2 ≡ 2 ^ k - 1 = omega (arith, pow-suc 2 k, pos) in
    let low : (2 ^ suc k - 1) % 2 ≡ 1 = omega (arith, pow-suc 2 k, pos) in
    bit_and_lowest a (2 ^ suc k - 1)
    ∙ rw (half, low, bit_and-mask k (a / 2), mod_halves k a) (ground arith)

differ-le : (x y : ℕ) → x < 2 → y < 2 → differ x y ≤ 1
differ-le zero y h g = omega (arith, g)
differ-le (suc zero) zero h g = omega arith
differ-le (suc zero) (suc y) h g = omega (arith, g)
differ-le (suc (suc x)) y h g = absurd (omega (arith, h))

digits-lt : (n k a b : ℕ) → a < 2 ^ k → b < 2 ^ k → digits (λ x. x) differ n a b < 2 ^ k
digits-lt zero k a b h g = g
digits-lt (suc n) k zero b h g = g
digits-lt (suc n) zero (suc a) b h g = absurd (omega (arith, h))
digits-lt (suc n) (suc k) (suc a) b h g = omega (
  arith,
  pow-suc 2 k,
  differ-le (suc a % 2) (b % 2),
  digits-lt n k (suc a / 2) (b / 2) (omega (arith, pow-suc 2 k)) (omega (arith, pow-suc 2 k)),
)

pub bit_xor-lt : (k a b : ℕ) → a < 2 ^ k → b < 2 ^ k → bit_xor a b < 2 ^ k
bit_xor-lt k a b h g = rw (bit_xor-bitwise a b) (digits-lt a k a b h g)
