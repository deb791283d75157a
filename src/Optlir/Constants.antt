-- ===== src/Optlir/Constants.antt =====
-- src/optlir/local.c: evaluation of an operation on constants. A `long long` is the number of its bit pattern
-- below 2 ^ 64; its sums, differences and products are taken to wrap. The operations on `double` are
-- parameters, on bit patterns.
use alkyl.Prelude.{
  ℕ, ◌+◌, ◌-◌, ◌*◌, ◌/◌, ◌%◌, ◌^◌, bit_and, bit_or, bit_xor, Bool, true, false, not, ◌&&◌, ◌||◌,
  ◌==◌, ltb, leb, if◌then◌else◌, Option, none, some, Run, ok, fault, wide_shift, divide_overflow,
  bind,
}
use alkyl.Ir.{VarType}
use alkyl.Ir.Op
use alkyl.Ir.Names.{type_bool}
use alkyl.Optlir.Branches.{ConstVal, zero_const, is_float_type}
pub mod Quotients

-- `+`, `-`, `*` and `/` on `double`, the conversions between `long long` and `double`, and `d != 0`.
pub record Doubles : Type 0 where
  pub add : ℕ → ℕ → ℕ
  pub sub : ℕ → ℕ → ℕ
  pub mul : ℕ → ℕ → ℕ
  pub div : ℕ → ℕ → ℕ
  pub of_int : ℕ → ℕ
  pub to_int : ℕ → ℕ
  pub not_zero : ℕ → Bool

unfoldable pub negative : ℕ → Bool
negative v = leb (2 ^ 63) v

unfoldable pub negate : ℕ → ℕ
negate v = (2 ^ 64 - v) % 2 ^ 64

unfoldable pub magnitude : ℕ → ℕ
magnitude v = if negative v then 2 ^ 64 - v else v

-- `v1 / v2` and `v1 % v2`, both rounded to 0, which leave the least number by -1 undefined.
unfoldable pub overflows : ℕ → ℕ → Bool
overflows v1 v2 = v1 == 2 ^ 63 && v2 == 2 ^ 64 - 1

unfoldable pub divided : ℕ → ℕ → ℕ
divided v1 v2 =
    let q = magnitude v1 / magnitude v2 in
    if negative v1
    then (if negative v2 then q else negate q)
    else (if negative v2 then negate q else q)

unfoldable pub remainder : ℕ → ℕ → ℕ
remainder v1 v2 = let r = magnitude v1 % magnitude v2 in if negative v1 then negate r else r

-- `v << n` and `v >> n`, which leave a count outside 0 to 63 undefined; `>>` keeps the sign.
unfoldable pub shifted_left : ℕ → ℕ → ℕ
shifted_left v n = v * 2 ^ n % 2 ^ 64

unfoldable pub shifted_right : ℕ → ℕ → ℕ
shifted_right v n = if negative v then v / 2 ^ n + (2 ^ 64 - 2 ^ (64 - n)) else v / 2 ^ n

unfoldable pub below : ℕ → ℕ → Bool
below v1 v2 = ltb ((v1 + 2 ^ 63) % 2 ^ 64) ((v2 + 2 ^ 63) % 2 ^ 64)

unfoldable pub truth : Bool → ℕ
truth b = if b then 1 else 0

-- A division by 0 gives 0.
unfoldable pub quotient_case : ℕ → ℕ → ℕ → Run ℕ
quotient_case v1 v2 q =
    if v2 == 0 then ok 0 else if overflows v1 v2 then fault divide_overflow else ok q

unfoldable pub shift_case : ℕ → ℕ → Run ℕ
shift_case n v = if ltb n 64 then ok v else fault wide_shift

unfoldable pub rotated_right : ℕ → ℕ → ℕ
rotated_right v n = if n == 0 then v else bit_or (shifted_right v n) (shifted_left v (64 - n))

unfoldable pub rotated_left : ℕ → ℕ → ℕ
rotated_left v n = if n == 0 then v else bit_or (shifted_left v n) (shifted_right v (64 - n))

-- The second `switch` of `eval_const_binary`, `none` where it has no case. Sums, differences and
-- products wrap: C leaves their overflow undefined on signed numbers.
unfoldable pub int_binary : ℕ → ℕ → ℕ → Option (Run ℕ)
int_binary op v1 v2 =
    if op == Op.add
    then some (ok ((v1 + v2) % 2 ^ 64))
    else if op == Op.sub
    then some (ok ((v1 + negate v2) % 2 ^ 64))
    else if op == Op.mul
    then some (ok (v1 * v2 % 2 ^ 64))
    else if op == Op.div
    then some (quotient_case v1 v2 (divided v1 v2))
    else if op == Op.modulo
    then some (quotient_case v1 v2 (remainder v1 v2))
    else if op == Op.and
    then some (ok (bit_and v1 v2))
    else if op == Op.or
    then some (ok (bit_or v1 v2))
    else if op == Op.xor
    then some (ok (bit_xor v1 v2))
    else if op == Op.shl
    then some (shift_case v2 (shifted_left v1 v2))
    else if op == Op.shr
    then some (shift_case v2 (shifted_right v1 v2))
    else if op == Op.rotr
    then some (ok (rotated_right v1 (v2 % 64)))
    else if op == Op.rotl
    then some (ok (rotated_left v1 (v2 % 64)))
    else if op == Op.lt
    then some (ok (truth (below v1 v2)))
    else if op == Op.gt
    then some (ok (truth (below v2 v1)))
    else if op == Op.lte
    then some (ok (truth (not (below v2 v1))))
    else if op == Op.gte
    then some (ok (truth (not (below v1 v2))))
    else if op == Op.eq
    then some (ok (truth (v1 == v2)))
    else if op == Op.neq
    then some (ok (truth (not (v1 == v2))))
    else none

module _ (doubles : Doubles) where
  unfoldable pub as_double : ConstVal → ℕ
  as_double c = if c.is_float then c.double_val else doubles.of_int c.int_val

  -- The first `switch` of `eval_const_binary`; 0 is the bit pattern of the number 0.
  unfoldable pub double_binary : ℕ → ℕ → ℕ → Option ℕ
  double_binary op d1 d2 =
      if op == Op.add
      then some (doubles.add d1 d2)
      else if op == Op.sub
      then some (doubles.sub d1 d2)
      else if op == Op.mul
      then some (doubles.mul d1 d2)
      else if op == Op.div
      then some (if doubles.not_zero d2 then doubles.div d1 d2 else 0)
      else if op == Op.fadd
      then some (doubles.add d1 d2)
      else if op == Op.fsub
      then some (doubles.sub d1 d2)
      else if op == Op.fmul
      then some (doubles.mul d1 d2)
      else if op == Op.fdiv
      then some (if doubles.not_zero d2 then doubles.div d1 d2 else 0)
      else none

  unfoldable pub double_const : Bool → Option ℕ → ConstVal
  double_const is_float none = record zero_const { is_float = is_float }
  double_const is_float (some d) = record zero_const {
    is_float = is_float;
    double_val = d;
    is_const = true;
  }

  unfoldable pub int_const : Bool → Option (Run ℕ) → Run ConstVal
  int_const is_float none = ok (record zero_const { is_float = is_float })
  int_const is_float (some r) =
      bind r (λ v. ok (record zero_const { is_float = is_float; int_val = v; is_const = true }))

  unfoldable pub eval_const_binary : ℕ → ConstVal → ConstVal → VarType → Run ConstVal
  eval_const_binary op l r type =
      if l.is_float || r.is_float
      then ok (double_const (is_float_type type) (double_binary op (as_double l) (as_double r)))
      else int_const (is_float_type type) (int_binary op l.int_val r.int_val)

  unfoldable pub complement : ℕ → ℕ
  complement v = 2 ^ 64 - 1 - v

  unfoldable pub eval_const_unary : ℕ → ConstVal → VarType → ConstVal
  eval_const_unary op v type =
      if is_float_type type
      then double_const true (
          if op == Op.not
          then some (doubles.of_int (complement (doubles.to_int (as_double v))))
          else none)
      else if op == Op.not
      then record zero_const {
        int_val = if type.base == type_bool then truth (v.int_val == 0) else complement v.int_val;
        is_const = true;
      }
      else zero_const

-- -1 is the greatest bit pattern.
unfoldable pub is_identity_op : ℕ → ConstVal → Bool
is_identity_op op c =
    c.is_const
    && (c.int_val == 0 && (op == Op.add || op == Op.sub || op == Op.or || op == Op.xor)
        || c.int_val == 1 && (op == Op.mul || op == Op.div || op == Op.modulo)
        || c.int_val == 2 ^ 64 - 1 && op == Op.and
        || c.int_val == 0 && op == Op.mul)

unfoldable pub is_self_cancel_op : ℕ → Bool
is_self_cancel_op op = op == Op.sub || op == Op.xor
