-- ===== src/Alick/Memory/Dangling.antt =====
-- `alick_check_memory` in a module with an arena, and in one without.
use alkyl.Prelude.{◌≡◌, ◌⊎◌, List, [], ◌∷◌, Any, Run, ok, fault, dangling_pointer}
use alkyl.Ir.{Inst}
use alkyl.Alick.Report.{Problem}
use alkyl.Alick.Memory.{Key}
use alkyl.Alick.Memory.Searches.{Touches}
use alkyl.Alick.Memory.Clean.{Frees}

-- Something that an instruction frees is touched by a later one of the block.
abbrev pub Dangles : List Inst → Type 0
Dangles [] = ⊥
Dangles (i ∷ is) = ((j : Key) × Frees i j × Any (Touches j) is) ⊎ Dangles is

abbrev pub Faults : Run (List Problem) → Type 0
Faults r = r ≡ fault dangling_pointer

-- The run returns no reports, or faults.
abbrev Silent : Run (List Problem) → Type 0
Silent r = (r ≡ ok []) ⊎ Faults r
