-- ===== src/Alick/Memory/Clean.antt =====
-- What a function without reports of `alick_check_memory` looks like.
use mathlib.Core.Logic.{⊎_elim}
use alkyl.Prelude.{
  same_text_iff, ◌≡◌, refl, ◌↔◌, ◌⊎◌, inl, inr, true, false, Option, some, List, [], ◌∷◌, arith,
  ◌++◌, All, append-eq-nil, Bool-cases, Option-cases, Run, ok, fault, bind,
}
use alkyl.Ir.{Value, Inst, Block, Function}
use alkyl.Ir.Op
use alkyl.Alick.Report.{Problem}
use alkyl.Alick.Check.Operands.{both-eq-nil}
use alkyl.Alick.Memory.{
  Key, temp, name, get_val_key, same_key, hashmap_has, is_freed, check_args, check_free, check_uses,
  put_key, track_free, memory_insts, memory_blocks, alick_check_memory,
}

-- The value has this key.
abbrev pub HasKey : Key → Option Value → Type 0
HasKey k v = get_val_key v ≡ some k

-- The instruction frees the key; no operand or argument of the instruction has the key.
abbrev pub Frees : Inst → Key → Type 0
Frees i k = (i.op ≡ Op.free_stack) × HasKey k i.op1

abbrev pub Avoids : Key → Inst → Type 0
Avoids k i = (¬ HasKey k i.op1) × (¬ HasKey k i.op2) × All (λ v. ¬ HasKey k v) i.args

-- Nothing that an instruction frees is named by a later one of the block.
abbrev pub IsClean : List Inst → Type 0
IsClean [] = Unit
IsClean (i ∷ is) = ((k : Key) → Frees i k → All (Avoids k) is) × IsClean is

pub same_key_iff : (j k : Key) → (same_key j k ≡ true) ↔ (j ≡ k)
unfolding same_key
same_key_iff (temp m) (temp n) = ground arith
same_key_iff (temp m) (name t) = (λ e. cc, λ e. cc)
same_key_iff (name s) (temp n) = (λ e. cc, λ e. cc)
same_key_iff (name s) (name t) = ground (arith, same_text_iff s t)

-- The key is in the map.
abbrev pub Freed : List Key → Key → Type 0
Freed freed k = hashmap_has freed k ≡ true

is_freed-of_Freed :
    (freed : List Key) (v : Option Value) (k : Key)
    → is_freed freed (get_val_key v) ≡ false
    → Freed freed k
    → ¬ HasKey k v
is_freed-of_Freed freed v k e h same = unfold is_freed in cc (rw same at e)

is_freed-eq-false :
    (freed : List Key) (v : Option Value)
    → ((k : Key) → Freed freed k → ¬ HasKey k v)
    → is_freed freed (get_val_key v) ≡ false
unfolding is_freed
is_freed-eq-false freed v h = elim (Option-cases (get_val_key v)) [
  | inl e ↦ rw e
  | inr (k, e) ↦ elim (Bool-cases (hashmap_has freed k)) [
    | inl there ↦ absurd (h k there e)
    | inr gone ↦ rw e gone
  ]
]

check_args-eq-nil :
    (freed : List Key) (vs : List (Option Value))
    → (check_args freed vs ≡ []) ↔ ((k : Key) → Freed freed k → All (λ v. ¬ HasKey k v) vs)
unfolding check_args
check_args-eq-nil freed [] = (λ _ k h. tt, λ _. refl)
check_args-eq-nil freed (v ∷ vs) = (
  λ e k h. (
    is_freed-of_Freed freed v k (ground arith) h,
    (check_args-eq-nil freed vs).0 (ground arith) k h,
  ),
  λ h.
      rw (is_freed-eq-false freed v (λ k g. (h k g).0))
        ((check_args-eq-nil freed vs).1 (λ k g. (h k g).1)),
)

-- A double free is also a use of the freed operand.
check_uses_parts :
    (freed : List Key) (i : Inst)
    → (check_uses freed i ≡ []) ↔ (
        (is_freed freed (get_val_key i.op1) ≡ false)
        × (is_freed freed (get_val_key i.op2) ≡ false)
        × (check_args freed i.args ≡ []))
unfolding check_uses check_free
check_uses_parts freed i =
    ground (arith, append-eq-nil (check_args freed i.args) (check_free freed i))

pub check_uses-eq-nil :
    (freed : List Key) (i : Inst)
    → (check_uses freed i ≡ []) ↔ ((k : Key) → Freed freed k → Avoids k i)
check_uses-eq-nil freed i =
    let (parts, whole) = check_uses_parts freed i in
    let (args, none_args) = check_args-eq-nil freed i.args in
    (
      λ e k h.
          let (first, second, others) = parts e in
          (
            is_freed-of_Freed freed i.op1 k first h,
            is_freed-of_Freed freed i.op2 k second h,
            args others k h,
          ),
      λ h. whole (
        is_freed-eq-false freed i.op1 (λ k g. (h k g).0),
        is_freed-eq-false freed i.op2 (λ k g. (h k g).1),
        none_args (λ k g. (h k g).2),
      ),
    )

hashmap_has-put_key :
    (freed : List Key) (j k : Key) → Freed (put_key freed (some j)) k ↔ (Freed freed k ⊎ (j ≡ k))
unfolding put_key hashmap_has
hashmap_has-put_key freed j k = elim (Bool-cases (hashmap_has freed j)) [
  | inl there ↦ rw there (inl, ⊎_elim (λ h. h) (λ e. rw e at there))
  | inr gone ↦ rw gone (ground (arith, same_key_iff j k))
]

pub hashmap_has-track_free :
    (freed : List Key) (i : Inst) (k : Key)
    → Freed (track_free freed i) k ↔ (Freed freed k ⊎ Frees i k)
unfolding track_free put_key
hashmap_has-track_free freed i k = elim (Option-cases (get_val_key i.op1)) [
  | inl e ↦ ground (arith, e)
  | inr (j, e) ↦ ground (arith, e, hashmap_has-put_key freed j k)
]

reports-eq-nil :
    (qs : List Problem) (r : Run (List Problem))
    → (bind r (λ ps. ok (qs ++ ps)) ≡ ok []) ↔ ((qs ≡ []) × (r ≡ ok []))
reports-eq-nil qs (ok ps) = ground (arith, append-eq-nil qs ps)
reports-eq-nil qs (fault e) = (λ h. cc, λ h. cc (h.1))

memory_insts-eq-nil :
    (freed : List Key) (is : List Inst)
    → (memory_insts true freed is ≡ ok [])
      ↔ (((k : Key) → Freed freed k → All (Avoids k) is) × IsClean is)
unfolding memory_insts
memory_insts-eq-nil freed [] = (λ _. (λ k h. tt, tt), λ _. refl)
memory_insts-eq-nil freed (i ∷ is) =
    let (uses, none_used) = check_uses-eq-nil freed i in
    let (later, none_later) = memory_insts-eq-nil (track_free freed i) is in
    (
      λ e.
          let (now, rest) =
            (reports-eq-nil (check_uses freed i) (memory_insts true (track_free freed i) is)).0 e in
          let (apart, clean) = later rest in
          (
            λ k h. (uses now k h, apart k ((hashmap_has-track_free freed i k).1 (inl h))),
            (λ k h. apart k ((hashmap_has-track_free freed i k).1 (inr h)), clean),
          ),
      λ (apart, (here, clean)).
          (reports-eq-nil (check_uses freed i) (memory_insts true (track_free freed i) is)).1 (
            none_used (λ k h. (apart k h).0),
            none_later (
              λ k h. ⊎_elim (λ g. (apart k g).1) (here k) ((hashmap_has-track_free freed i k).0 h),
              clean,
            ),
          ),
    )

memory_blocks-eq-nil :
    (bs : List Block) → (memory_blocks true bs ≡ ok []) ↔ All (λ b. IsClean b.insts) bs
unfolding memory_blocks
memory_blocks-eq-nil [] = (λ _. tt, λ _. refl)
memory_blocks-eq-nil (b ∷ bs) =
    let (apart, clean) = both-eq-nil (memory_insts true [] b.insts) (memory_blocks true bs) in
    let (first, none_first) = memory_insts-eq-nil [] b.insts in
    let (rest, none_rest) = memory_blocks-eq-nil bs in
    (
      λ e. ((first (apart e).0).1, rest (apart e).1),
      λ h. clean (none_first (λ k g. unfold hashmap_has in cc, h.0), none_rest h.1),
    )

-- In a module that has an arena, `alick_check_memory` returns and reports nothing exactly when, in every block of the function, no instruction
-- that comes after a FREE_STACK has an operand or argument with the freed key.
pub alick_check_memory-eq-nil :
    (f : Function) → (alick_check_memory true f ≡ ok []) ↔ All (λ b. IsClean b.insts) f.blocks
unfolding alick_check_memory
alick_check_memory-eq-nil f = memory_blocks-eq-nil f.blocks
