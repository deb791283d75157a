-- ===== src/Alick.antt =====
-- src/alick/: the checker of ALIR modules. A check returns the list of the problems that it reports,
-- in their order: each is one call of `alick_error`, which counts it and prints a message.
use alkyl.Prelude.{
  ℕ, zero, ◌+◌, ◌^◌, Bool, ◌&&◌, List, [], ◌∷◌, ◌++◌, ltb, if◌then◌else◌, length, Run, ok, fault,
  bind, int_overflow,
}
use alkyl.Ir.{Function, Module}
use alkyl.Alick.Report.{Problem}
use alkyl.Alick.Check.{alick_check_cfg, alick_check_types}
use alkyl.Alick.Memory.{alick_check_memory}
pub mod Report
pub mod Labels
pub mod Check
pub mod Memory
pub mod Verdict

-- `block_count > 0` on the bits of an `int`.
pub has_blocks : Function → Bool
has_blocks f = ltb 0 f.block_count && ltb f.block_count (2 ^ 31)

-- `error_count` after so many more reports: it is an `int`.
pub count_errors : ℕ → ℕ → Run ℕ
count_errors errors reports =
    if ltb (errors + reports) (2 ^ 31) then ok (errors + reports) else fault int_overflow

-- Only functions with blocks are checked. The result is `ctx.error_count` after the function. The flag
-- says whether the module has a compiler context with an arena.
pub check_function : Bool → Function → ℕ → Run ℕ
unfolding has_blocks count_errors
check_function arena f errors =
    if has_blocks f
    then bind (alick_check_types f) (λ types.
      bind (alick_check_memory arena f)
        (λ memory. count_errors errors (length (alick_check_cfg f) + length types + length memory)))
    else ok errors

pub check_functions : Bool → List Function → ℕ → Run ℕ
check_functions arena [] errors = ok errors
check_functions arena (f ∷ fs) errors =
    bind (check_function arena f errors) (check_functions arena fs)

-- The number of errors found.
pub alick_check_module : Bool → Module → Run ℕ
alick_check_module arena m = check_functions arena m.functions 0
