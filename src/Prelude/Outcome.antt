-- ===== src/Prelude/Outcome.antt =====
-- What a run of the C code ends in: a value, or what the C standard leaves undefined.
use mathlib.Core.Path.{◌≡◌, refl}
use mathlib.Core.Logic.{◌⊎◌, inl, inr}

-- `wide_shift`: a shift by the operand's width or more. `null_deref`: a read through NULL.
-- `divide_overflow`: the least number divided by -1. `out_of_bounds`: a read behind the end.
-- `endless_loop`: a loop that goes on for ever.
pub data Fault : Type 0 where
  wide_shift null_deref divide_overflow out_of_bounds endless_loop dangling_pointer int_overflow :
      Fault

pub data Run {ℓ} (A : Type ℓ) : Type ℓ where
  ok : A → Run A
  fault : Fault → Run A

abbrev pub bind {ℓ κ} : {A : Type ℓ} {B : Type κ} → Run A → (A → Run B) → Run B
bind (ok a) f = f a
bind (fault e) f = fault e

pub Run-cases {ℓ} :
    {A : Type ℓ} (r : Run A) → ((a : A) × (r ≡ ok a)) ⊎ ((e : Fault) × (r ≡ fault e))
Run-cases (ok a) = inl (a, refl)
Run-cases (fault e) = inr (e, refl)
