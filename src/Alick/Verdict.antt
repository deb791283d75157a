-- ===== src/Alick/Verdict.antt =====
-- What a module that `alick_check_module` accepts looks like.
use alkyl.Prelude.{
  ℕ, ◌^◌, true, ◌<◌, ◌≡◌, ◌↔◌, inl, inr, List, [], ◌∷◌, arith, All, length-eq-zero, ok, Run-cases,
}
use alkyl.Ir.{Function, Module}
use alkyl.Alick.Check.{alick_check_cfg, alick_check_types}
use alkyl.Alick.Check.Flow.{IsSound, alick_check_cfg-eq-nil}
use alkyl.Alick.Check.Operands.{HasOperands, alick_check_types-eq-nil}
use alkyl.Alick.Memory.{alick_check_memory}
use alkyl.Alick.Memory.Clean.{IsClean, alick_check_memory-eq-nil}
use alkyl.Alick.{has_blocks, count_errors, check_function, check_functions, alick_check_module}

-- The three properties of a function, block by block.
pub record IsAccepted (f : Function) : Type 0 where
  pub flow : All (λ b. IsSound f b.insts) f.blocks
  pub operands : All (λ b. All HasOperands b.insts) f.blocks
  pub memory : All (λ b. IsClean b.insts) f.blocks

IsAccepted-iff :
    (f : Function)
    → IsAccepted f ↔ (
        (alick_check_cfg f ≡ [])
        × (alick_check_types f ≡ ok [])
        × (alick_check_memory true f ≡ ok []))
IsAccepted-iff f =
    let (flow, none_flow) = alick_check_cfg-eq-nil f in
    let (operands, none_operands) = alick_check_types-eq-nil f in
    let (memory, none_memory) = alick_check_memory-eq-nil f in
    (
      λ h. (none_flow h.flow, none_operands h.operands, none_memory h.memory),
      λ h. record { flow = flow h.0; operands = operands h.1; memory = memory h.2 },
    )

-- The `int` that counts the blocks of the function is positive.
abbrev pub HasBlocks : Function → Type 0
HasBlocks f = (0 < f.block_count) × (f.block_count < 2 ^ 31)

check_function-eq-zero :
    (f : Function) (errors : ℕ)
    → (check_function true f errors ≡ ok 0) ↔ ((errors ≡ 0) × (HasBlocks f → IsAccepted f))
unfolding check_function has_blocks count_errors
check_function-eq-zero f errors = elim (Run-cases (alick_check_types f)) [
  | inr (e, stuck) ↦ ground (arith, stuck, IsAccepted-iff f)
  | inl (ps, types) ↦ elim (Run-cases (alick_check_memory true f)) [
    | inr (e, stuck) ↦ ground (arith, types, stuck, IsAccepted-iff f)
    | inl (qs, memory) ↦ ground (
      arith,
      types,
      memory,
      IsAccepted-iff f,
      length-eq-zero ps,
      length-eq-zero (alick_check_cfg f),
      length-eq-zero qs,
    )
  ]
]

check_functions-eq-zero :
    (fs : List Function) (errors : ℕ)
    → (check_functions true fs errors ≡ ok 0)
      ↔ ((errors ≡ 0) × All (λ f. HasBlocks f → IsAccepted f) fs)
unfolding check_functions
check_functions-eq-zero [] errors = ground arith
check_functions-eq-zero (f ∷ fs) errors = elim (Run-cases (check_function true f errors)) [
  | inr (e, stuck) ↦ ground (arith, stuck, check_function-eq-zero f errors)
  | inl (n, run) ↦
      ground (arith, run, check_function-eq-zero f errors, check_functions-eq-zero fs n)
]

-- For a module that has a compiler context with an arena, `alick_check_module` returns 0 exactly when
-- every function whose number of blocks is positive is accepted by the three checks: sound blocks, the operands that each opcode needs, and no use after FREE_STACK.
pub alick_check_module-eq-zero :
    (m : Module)
    → (alick_check_module true m ≡ ok 0) ↔ All (λ f. HasBlocks f → IsAccepted f) m.functions
unfolding alick_check_module
alick_check_module-eq-zero m = ground (arith, check_functions-eq-zero m.functions 0)
