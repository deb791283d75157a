-- ===== src/Examples/BinaryRuns.antt =====
-- src/alir/binary_write.c and src/alir/binary_read.c at the sample module.
use alkyl.Prelude.{
  ℕ, ◌+◌, ◌-◌, ◌^◌, ◌≤◌, ◌<◌, ◌≡◌, refl, ◌↔◌, true, none, some, List, [], ◌∷◌, ◌++◌, length, ok,
  fault, wide_shift, arith,
}
use alkyl.Ir.{Value, Module}
use alkyl.Binary.Write.{bw_value, alir_write_binary}
use alkyl.Binary.Read.{br_u32, br_u32_loop, br_value, alir_read_binary}
use alkyl.Binary.Kept.{FitsModule, FitsSome, keep_module}
use alkyl.Binary.Leb.Bounds.{IsOverlong, br_u32_bounds, br_u32_faults}
use alkyl.Binary.RoundTrip.{alir_read_binary-alir_write_binary}
use alkyl.Binary.Stable.{alir_write_binary-alir_read_binary}
use alkyl.Binary.Header.{HasHeader, alir_read_binary-eq-none}
use alkyl.Binary.Losses.{br_value-bw_value_number}
use alkyl.Examples.Samples.{sample_module, constant, int_type}

sample-FitsModule : FitsModule sample_module
sample-FitsModule = omega arith

alir_read_binary-alir_write_binary_example :
    alir_read_binary (alir_write_binary sample_module true).1
    ≡ ok (some (keep_module sample_module))
alir_read_binary-alir_write_binary_example =
    alir_read_binary-alir_write_binary sample_module sample-FitsModule

alir_write_binary-alir_read_binary_example :
    (m : Module) × (alir_read_binary (alir_write_binary sample_module true).1 ≡ ok (some m))
    × (alir_write_binary m true ≡ alir_write_binary sample_module true)
alir_write_binary-alir_read_binary_example =
    alir_write_binary-alir_read_binary sample_module sample-FitsModule

abbrev text_file : List ℕ
text_file = 0xfa ∷ 0x8a ∷ 0x0a ∷ []

alir_read_binary-eq-none_example :
    (alir_read_binary (some text_file) ≡ ok none) ↔ (¬ HasHeader text_file)
alir_read_binary-eq-none_example = alir_read_binary-eq-none text_file

-- A number of two bytes, and one that runs over.
abbrev two_bytes : List ℕ
two_bytes = 0xac ∷ 2 ∷ 9 ∷ []

br_u32-two_bytes : br_u32 two_bytes ≡ ok (300, 9 ∷ [])
unfolding br_u32 br_u32_loop
br_u32-two_bytes = refl

br_u32_bounds_example : (300 < 2 ^ 32) × (1 ≤ length two_bytes - 1) × (length two_bytes ≤ 1 + 5)
br_u32_bounds_example = br_u32_bounds two_bytes 300 (9 ∷ []) br_u32-two_bytes

abbrev overlong : List ℕ
overlong = 0x80 ∷ 0x80 ∷ 0x80 ∷ 0x80 ∷ 0x80 ∷ 0 ∷ []

br_u32_faults_example : (br_u32 overlong ≡ fault wide_shift) ↔ IsOverlong overlong
br_u32_faults_example = br_u32_faults overlong (omega arith)

-- The constant -1 of 64 bits, of an unsigned type.
abbrev minus_one : Value
minus_one = record (constant 0xffff_ffff_ffff_ffff) {
  type = record int_type { is_unsigned = true };
}

minus_one-FitsSome : FitsSome minus_one
minus_one-FitsSome = omega arith

br_value-bw_value_number_example :
    (u : Value) × (br_value (bw_value (some minus_one) ++ []) ≡ ok (some u, []))
    × ((u.bits ≡ minus_one.bits) ↔ (minus_one.bits < 2 ^ 32))
br_value-bw_value_number_example = br_value-bw_value_number minus_one [] minus_one-FitsSome refl
