-- ===== src/Prelude/Bits.antt =====
-- `|` and `&` as arithmetic, where the code uses them on fields of bits that do not overlap.
use Prim.Native.Nat.{
  ℕ, zero, suc, ◌+◌, ◌*◌, ◌/◌, ◌%◌, ◌^◌, ◌≤◌, ◌<◌, min, max, bit_and, bit_or, digits,
  bit_and-bitwise, bit_or-bitwise,
}
use mathlib.Core.Path.{◌≡◌, refl, ap}
use mathlib.Core.Bool.{Bool, true, ◌&&◌}
use native.Mathlib.Nat.{pow-suc}
use native.Mathlib.Omega.{arith}
use alkyl.Prelude.Tests.{◌==◌}

-- The recursion on digits does not depend on its count, once that is large enough.
or_digits_enough :
    (n m a b : ℕ) → a ≤ n → a ≤ m → digits (λ x. x) max n a b ≡ digits (λ x. x) max m a b
or_digits_enough zero zero a b p q = refl
or_digits_enough zero (suc m) zero b p q = refl
or_digits_enough zero (suc m) (suc a) b p q = absurd (omega arith)
or_digits_enough (suc n) zero zero b p q = refl
or_digits_enough (suc n) zero (suc a) b p q = absurd (omega arith)
or_digits_enough (suc n) (suc m) zero b p q = refl
or_digits_enough (suc n) (suc m) (suc a) b p q =
    omega (arith, or_digits_enough n m (suc a / 2) (b / 2) (omega arith) (omega arith))

pub bit_or-zero_left : (b : ℕ) → bit_or 0 b ≡ b
bit_or-zero_left b = bit_or-bitwise 0 b

pub bit_or_lowest : (a b : ℕ) → bit_or a b ≡ bit_or (a / 2) (b / 2) * 2 + max (a % 2) (b % 2)
bit_or_lowest zero b = omega (arith, bit_or-zero_left b, bit_or-zero_left (b / 2))
bit_or_lowest (suc a) b = omega (
  arith,
  bit_or-bitwise (suc a) b,
  bit_or-bitwise (suc a / 2) (b / 2),
  or_digits_enough a (suc a / 2) (suc a / 2) (b / 2) (omega arith) (omega arith),
)

-- `r | (q << k)` is a sum when `r` fits `k` bits.
pub bit_or-shifted : (k q r : ℕ) → r < 2 ^ k → bit_or r (q * 2 ^ k) ≡ r + q * 2 ^ k
bit_or-shifted zero zero r fits = ground (arith, bit_or-zero_left 0)
bit_or-shifted zero q r fits = ground (arith, bit_or-zero_left q)
bit_or-shifted (suc k) q r fits = ground (
  arith,
  bit_or_lowest r (q * 2 ^ suc k),
  ap (λ (t : ℕ). q * t) (pow-suc 2 k),
  bit_or-shifted k q (r / 2) (omega arith),
)

and_digits_enough :
    (n m a b : ℕ) → a ≤ n → a ≤ m → digits (λ _. 0) min n a b ≡ digits (λ _. 0) min m a b
and_digits_enough zero zero a b p q = refl
and_digits_enough zero (suc m) zero b p q = refl
and_digits_enough zero (suc m) (suc a) b p q = absurd (omega arith)
and_digits_enough (suc n) zero zero b p q = refl
and_digits_enough (suc n) zero (suc a) b p q = absurd (omega arith)
and_digits_enough (suc n) (suc m) zero b p q = refl
and_digits_enough (suc n) (suc m) (suc a) b p q =
    omega (arith, and_digits_enough n m (suc a / 2) (b / 2) (omega arith) (omega arith))

bit_and-zero_left : (b : ℕ) → bit_and 0 b ≡ 0
bit_and-zero_left b = bit_and-bitwise 0 b

pub bit_and_lowest : (a b : ℕ) → bit_and a b ≡ bit_and (a / 2) (b / 2) * 2 + min (a % 2) (b % 2)
bit_and_lowest zero b = omega (arith, bit_and-zero_left b, bit_and-zero_left (b / 2))
bit_and_lowest (suc a) b = omega (
  arith,
  bit_and-bitwise (suc a) b,
  bit_and-bitwise (suc a / 2) (b / 2),
  and_digits_enough a (suc a / 2) (suc a / 2) (b / 2) (omega arith) (omega arith),
)

pub bit_and-zero_bounded : (n a : ℕ) → a ≤ n → bit_and a 0 ≡ 0
bit_and-zero_bounded n zero h = bit_and-zero_left 0
bit_and-zero_bounded zero (suc a) h = absurd (omega arith)
bit_and-zero_bounded (suc n) (suc a) h =
    omega (arith, bit_and_lowest (suc a) 0, bit_and-zero_bounded n (suc a / 2) (omega arith))

-- A mask of ones keeps the low bits: one digit a step.
bit_and-three : (a : ℕ) → bit_and a 3 ≡ a % 4
bit_and-three a = omega (
  arith,
  bit_and_lowest a 3,
  bit_and_lowest (a / 2) 1,
  bit_and-zero_bounded (a / 2 / 2) (a / 2 / 2) (omega arith),
)

bit_and-fifteen : (a : ℕ) → bit_and a 15 ≡ a % 16
bit_and-fifteen a =
    omega (arith, bit_and_lowest a 15, bit_and_lowest (a / 2) 7, bit_and-three (a / 2 / 2))

pub bit_and-low_seven : (a : ℕ) → bit_and a 0x7f ≡ a % 128
bit_and-low_seven a = omega (
  arith,
  bit_and_lowest a 127,
  bit_and_lowest (a / 2) 63,
  bit_and_lowest (a / 2 / 2) 31,
  bit_and-fifteen (a / 2 / 2 / 2),
)

module _ (f g : ℕ → ℕ) where
  same_below : ℕ → Bool
  same_below zero = true
  same_below (suc n) = f n == g n && same_below n

  same_below_lem : (n : ℕ) → same_below n ≡ true → (x : ℕ) → x < n → f x ≡ g x
  unfolding same_below
  same_below_lem zero e x h = absurd (omega arith)
  same_below_lem (suc n) e x h = ground (arith, same_below_lem n (ground arith) x)

-- The flag bit of one byte of LEB128, checked at every byte.
pub bit_and-top : (b : ℕ) → b < 256 → bit_and b 0x80 ≡ b / 128 * 128
unfolding same_below
bit_and-top = same_below_lem _ _ 256 refl

pub bit_or-top : (b : ℕ) → b < 128 → bit_or b 0x80 ≡ b + 128
unfolding same_below
bit_or-top = same_below_lem _ _ 128 refl
