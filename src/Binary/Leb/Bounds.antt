-- ===== src/Binary/Leb/Bounds.antt =====
-- `br_u32` on any input: what it returns, what it takes, and when its shift is undefined.
use alkyl.Prelude.{
  ℕ, zero, suc, ◌+◌, ◌-◌, ◌*◌, ◌%◌, ◌^◌, ◌≤◌, ◌<◌, ◌≡◌, refl, ap, ◌↔◌, bit_and, bit_or,
  bit_and-low_seven, bit_and-top, bit_or-shifted, List, [], ◌∷◌, arith, length, All, take, ok,
  fault, wide_shift,
}
use alkyl.Binary.Read.{br_u32_loop, br_u32}

-- A byte that another one of the same number follows.
abbrev pub IsContinued : ℕ → Type 0
IsContinued b = 128 ≤ b

-- Five bytes with the top bit set, and another byte.
abbrev pub IsOverlong : List ℕ → Type 0
IsOverlong file = (5 < length file) × All IsContinued (take 5 file)

abbrev pub IsByte : ℕ → Type 0
IsByte b = b < 256

-- One round, before the test of the top bit.
group_of : ℕ → ℕ → ℕ
group_of byte shift = bit_and byte 0x7f * 2 ^ shift % 2 ^ 32

-- After `j` bytes the shift is 7 * j, and the result fits 7 * j bits; after five it fits 32.
round_fits :
    (j byte result : ℕ)
    → j < 5
    → result < 2 ^ (7 * j)
    → bit_or result (group_of byte (7 * j)) < 2 ^ 32
      × (j < 4 → bit_or result (group_of byte (7 * j)) < 2 ^ (7 * suc j))
unfolding group_of
round_fits zero byte result hj hr =
    ground (arith, bit_and-low_seven byte, bit_or-shifted 0 (byte % 128) result)
round_fits (suc zero) byte result hj hr =
    ground (arith, bit_and-low_seven byte, bit_or-shifted 7 (byte % 128) result)
round_fits (suc (suc zero)) byte result hj hr =
    ground (arith, bit_and-low_seven byte, bit_or-shifted 14 (byte % 128) result)
round_fits (suc (suc (suc zero))) byte result hj hr =
    ground (arith, bit_and-low_seven byte, bit_or-shifted 21 (byte % 128) result)
round_fits (suc (suc (suc (suc zero)))) byte result hj hr =
    ground (arith, bit_and-low_seven byte, bit_or-shifted 28 (byte % 16) result)
round_fits (suc (suc (suc (suc (suc j))))) byte result hj hr = absurd (omega arith)

br_u32_loop_bounds :
    (file : List ℕ) (j result shift v : ℕ) (rest : List ℕ)
    → shift ≡ 7 * j
    → j ≤ 5
    → result < 2 ^ 32
    → (j < 5 → result < 2 ^ (7 * j))
    → br_u32_loop file result shift ≡ ok (v, rest)
    → (v < 2 ^ 32) × (length rest ≤ length file - 1) × (length file + j ≤ length rest + 5)
unfolding br_u32_loop group_of
br_u32_loop_bounds [] j result shift v rest hs hj wide narrow e = ground arith
br_u32_loop_bounds (byte ∷ file) j result shift v rest hs hj wide narrow e = ground (
  arith,
  hs,
  ap (λ (t : ℕ). 2 ^ t) hs,
  round_fits j byte result,
  br_u32_loop_bounds file (suc j) (bit_or result (group_of byte shift)) (shift + 7) v rest,
)

br_u32_loop_faults :
    (k : ℕ) (file : List ℕ) (result shift : ℕ)
    → shift + 7 * k ≡ 35
    → All IsByte file
    → (br_u32_loop file result shift ≡ fault wide_shift)
      ↔ ((k < length file) × All IsContinued (take k file))
unfolding br_u32_loop
br_u32_loop_faults k [] result shift hs bytes = ground arith
br_u32_loop_faults zero (byte ∷ file) result shift hs bytes = ground arith
br_u32_loop_faults (suc k) (byte ∷ file) result shift hs bytes = ground (
  arith,
  bit_and-top byte,
  br_u32_loop_faults k file (bit_or result (bit_and byte 0x7f * 2 ^ shift % 2 ^ 32)) (shift + 7),
)

-- A number that `br_u32` returns has 32 bits, and it takes one to five bytes for it, none only at
-- the end of the file.
pub br_u32_bounds :
    (file : List ℕ) (v : ℕ) (rest : List ℕ)
    → br_u32 file ≡ ok (v, rest)
    → (v < 2 ^ 32) × (length rest ≤ length file - 1) × (length file ≤ length rest + 5)
unfolding br_u32
br_u32_bounds file v rest e = ground (arith, br_u32_loop_bounds file 0 0 0 v rest)

-- `br_u32` shifts by more than the width of its operand exactly when five bytes with the top bit set
-- are followed by a sixth byte.
pub br_u32_faults :
    (file : List ℕ) → All IsByte file → (br_u32 file ≡ fault wide_shift) ↔ IsOverlong file
unfolding br_u32
br_u32_faults file bytes = br_u32_loop_faults 5 file 0 0 refl bytes
