-- ===== src/Examples/AlickRuns.antt =====
-- src/alick/ at the sample function.
use alkyl.Prelude.{refl, codes, ◌∷◌, none, some, true, Any, ◌≡◌, ◌↔◌, [], All, ok}
use alkyl.Alick.{alick_check_module}
use alkyl.Alick.Check.{alick_check_cfg, alick_check_types}
use alkyl.Alick.Check.Flow.{IsSound, alick_check_cfg-eq-nil}
use alkyl.Alick.Check.Operands.{
  HasOperands, LacksPointer, Returns, ReadsNull, alick_check_types-eq-nil,
  alick_check_types-Returns,
}
use alkyl.Ir.{Inst, Function}
use alkyl.Ir.Op
use alkyl.Alick.Memory.{temp, digits, int_text, key_text, alick_check_memory}
use alkyl.Alick.Memory.Clean.{IsClean, alick_check_memory-eq-nil}
use alkyl.Alick.Verdict.{HasBlocks, IsAccepted, alick_check_module-eq-zero}
use alkyl.Examples.Samples.{sample, sample_module, instruction, temporary, function_of, l1}

alick_check_cfg-eq-nil_example :
    (alick_check_cfg sample ≡ []) ↔ All (λ b. IsSound sample b.insts) sample.blocks
alick_check_cfg-eq-nil_example = alick_check_cfg-eq-nil sample

alick_check_types-eq-nil_example :
    (alick_check_types sample ≡ ok []) ↔ All (λ b. All HasOperands b.insts) sample.blocks
alick_check_types-eq-nil_example = alick_check_types-eq-nil sample

alick_check_types-Returns_example :
    (Returns (alick_check_types sample)
      ↔ All (λ b. All (λ i. ¬ LacksPointer i) b.insts) sample.blocks)
    × (ReadsNull (alick_check_types sample) ↔ Any (λ b. Any LacksPointer b.insts) sample.blocks)
alick_check_types-Returns_example = alick_check_types-Returns sample

alick_check_memory-eq-nil_example :
    (alick_check_memory true sample ≡ ok []) ↔ All (λ b. IsClean b.insts) sample.blocks
alick_check_memory-eq-nil_example = alick_check_memory-eq-nil sample

alick_check_module-eq-zero_example :
    (alick_check_module true sample_module ≡ ok 0)
    ↔ All (λ f. HasBlocks f → IsAccepted f) sample_module.functions
alick_check_module-eq-zero_example = alick_check_module-eq-zero sample_module

-- A value that is freed twice, and is used by the second.
abbrev freeing : Inst
freeing = instruction Op.free_stack none (some (temporary 12)) none []

abbrev freed_twice : Function
freed_twice = function_of (record { id = 0; label = some l1; insts = freeing ∷ freeing ∷ [] } ∷ [])

key_text-temp : key_text (temp 12) ≡ codes "%t12"
unfolding key_text int_text digits
key_text-temp = refl

key_text-negative : key_text (temp 0xffff_fffb) ≡ codes "%t-5"
unfolding key_text int_text digits
key_text-negative = refl
