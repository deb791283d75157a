-- ===== src/Binary/Losses.antt =====
-- What a value loses on its way through a file.
use alkyl.Prelude.{ℕ, ◌%◌, ◌^◌, ◌<◌, ◌≡◌, ◌↔◌, true, some, List, ◌++◌, arith, ok}
use alkyl.Ir.{Value}
use alkyl.Binary.Write.{is_number, bw_value}
use alkyl.Binary.Read.{br_value}
use alkyl.Binary.Kept.{FitsSome, keep_some, keep_value}
use alkyl.Binary.RoundTrip.{br_value-bw_value}

-- A number that is written and read back is unchanged exactly when it is below 2 ^ 32: the high half
-- of a 64-bit constant, of a double or of a negative number is lost.
pub br_value-bw_value_number :
    (v : Value) (rest : List ℕ) (h : FitsSome v) (number : is_number v.kind ≡ true)
    → (u : Value) × (br_value (bw_value (some v) ++ rest) ≡ ok (some u, rest))
      × ((u.bits ≡ v.bits) ↔ (v.bits < 2 ^ 32))
unfolding keep_value keep_some
br_value-bw_value_number v rest h number =
    let same : (keep_some v).bits ≡ v.bits % 2 ^ 32 = rw number in
    (keep_some v, br_value-bw_value (some v) h rest, ground (arith, same))
