-- ===== src/Binary/Leb.antt =====
-- LEB128: `br_u32` reads back what `bw_u32` writes.
pub mod Bounds
use mathlib.Core.WellFounded.{Acc}
use native.Mathlib.Nat.{div-add-mod}
use native.Mathlib.Numerals.{towards_suc}
use alkyl.Prelude.{
  ℕ, zero, suc, ◌+◌, ◌*◌, ◌/◌, ◌%◌, ◌^◌, ◌≤◌, ◌<◌, ◌≡◌, ap, bit_and-low_seven, bit_and-top,
  bit_or-top, bit_or-shifted, List, ◌∷◌, ◌++◌, arith, ok,
}
use alkyl.Binary.Write.{bw_u32_loop, bw_u32}
use alkyl.Binary.Read.{br_u32_loop, br_u32}
use alkyl.Binary.File.{Reads}

-- One round of the reader on a last byte, and on a byte with the top bit set.
br_last :
    (w result shift : ℕ) (file : List ℕ)
    → w < 128
    → shift < 32
    → result < 2 ^ shift
    → w * 2 ^ shift < 2 ^ 32
    → br_u32_loop (w ∷ file) result shift ≡ ok (result + w * 2 ^ shift, file)
unfolding br_u32_loop
br_last w result shift file hw hs hr fits =
    ground (arith, bit_and-low_seven w, bit_and-top w, bit_or-shifted shift w result)

br_more :
    (g result shift : ℕ) (file : List ℕ)
    → g < 128
    → shift < 32
    → result < 2 ^ shift
    → g * 2 ^ shift < 2 ^ 32
    → br_u32_loop ((g + 128) ∷ file) result shift
      ≡ br_u32_loop file (result + g * 2 ^ shift) (shift + 7)
unfolding br_u32_loop
br_more g result shift file hg hs hr fits =
    ground
      (arith, bit_and-low_seven (g + 128), bit_and-top (g + 128), bit_or-shifted shift g result)

pow_shift : (s : ℕ) → 2 ^ (s + 7) ≡ 128 * 2 ^ s
pow_shift s = simp towards_suc (omega arith)

-- The lowest group of `v` and the rest, both shifted by `s`.
split_group : (v s : ℕ) → v * 2 ^ s ≡ v % 128 * 2 ^ s + v / 128 * 2 ^ (s + 7)
split_group v s = omega (
  arith,
  ap (λ (t : ℕ). t * 2 ^ s) (div-add-mod v 128),
  ap (λ (t : ℕ). v / 128 * t) (pow_shift s),
)

group_fits : (g s r : ℕ) → g < 128 → r < 2 ^ s → r + g * 2 ^ s < 2 ^ (s + 7)
group_fits g s r hg hr = rw (pow_shift s) (grind arith)

-- `k` more rounds are enough for `v`, and they end before the shift reaches 32.
br_u32_loop-bw_u32_loop :
    (k v result shift : ℕ) (w : Acc ◌<◌ v) (file : List ℕ)
    → v < 128 ^ suc k
    → shift + 7 * k ≤ 28
    → result < 2 ^ shift
    → result + v * 2 ^ shift < 2 ^ 32
    → br_u32_loop (bw_u32_loop v w ++ file) result shift ≡ ok (result + v * 2 ^ shift, file)
unfolding bw_u32_loop
br_u32_loop-bw_u32_loop zero v result shift (Acc.intro _ smaller) file hv hs hr fits =
    ground (arith, bit_and-low_seven v, br_last v result shift file)
br_u32_loop-bw_u32_loop (suc k) v result shift (Acc.intro _ smaller) file hv hs hr fits = grind (
  arith,
  bit_and-low_seven v,
  bit_or-top (v % 128),
  br_last v result shift file,
  split_group v shift,
  group_fits (v % 128) shift result,
  λ (w : Acc ◌<◌ (v / 128)). br_more (v % 128) result shift (bw_u32_loop (v / 128) w ++ file),
  λ (w : Acc ◌<◌ (v / 128)).
      br_u32_loop-bw_u32_loop k (v / 128) (result + v % 128 * 2 ^ shift) (shift + 7) w file,
)

-- A number below 2 ^ 32 that `bw_u32` writes is what `br_u32` reads back, whatever bytes follow it, and
-- those are left.
pub br_u32-bw_u32 : (v : ℕ) → v < 2 ^ 32 → Reads br_u32 (bw_u32 v) v
unfolding br_u32 bw_u32
br_u32-bw_u32 v h file =
    rw
      (br_u32_loop-bw_u32_loop 4 (v % 2 ^ 32) 0 0 _ file (omega arith) (omega arith) (omega arith)
        (omega arith))
      (ground arith)
