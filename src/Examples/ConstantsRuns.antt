-- ===== src/Examples/ConstantsRuns.antt =====
-- src/optlir/local.c: constants folded.
use alkyl.Prelude.{ℕ, ◌+◌, ◌*◌, ◌%◌, ◌^◌, ◌<◌, ◌≡◌, ◌≢◌, ◌⊎◌, refl, some, ok, arith}
use alkyl.Ir.Op
use alkyl.Optlir.Constants.{
  negative, negate, magnitude, overflows, divided, shifted_left, shifted_right, rotated_right,
  int_binary, quotient_case,
}
use alkyl.Optlir.Constants.Quotients.{int_binary-div}

-- -7 and 2: the quotient is -3 and the remainder -1.
abbrev minus_seven : ℕ
minus_seven = 0xfffffffffffffff9

abbrev two : ℕ
two = 2

two-ne-zero : two ≢ 0
two-ne-zero e = omega (arith, e)

int_binary-div_example :
    (q : ℕ) × (r : ℕ) × (int_binary Op.div minus_seven two ≡ some (ok q))
    × (int_binary Op.modulo minus_seven two ≡ some (ok r))
    × ((q * two + r) % 2 ^ 64 ≡ minus_seven)
    × (magnitude r < magnitude two)
    × ((r ≡ 0) ⊎ (negative r ≡ negative minus_seven))
unfolding overflows
int_binary-div_example = int_binary-div minus_seven two (omega arith) (omega arith) two-ne-zero refl

int_binary_run : int_binary Op.div minus_seven two ≡ some (ok 0xfffffffffffffffd)
unfolding int_binary quotient_case overflows divided magnitude negative negate
int_binary_run = refl

-- A rotation of the least number by 4 to the right copies the sign into the bits that it moves over.
rotated_right_run : rotated_right (2 ^ 63) 4 ≡ 0xf800000000000000
unfolding rotated_right shifted_right shifted_left negative
rotated_right_run = refl
