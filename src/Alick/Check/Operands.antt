-- ===== src/Alick/Check/Operands.antt =====
-- What a function without reports of `alick_check_types` looks like, and when the check returns.
use alkyl.Prelude.{
  ℕ, ◌≤◌, ◌≡◌, ◌≢◌, refl, ◌↔◌, ◌⊎◌, true, false, Option, none, some, List, [], ◌∷◌, ◌++◌, arith,
  ◌==◌, ◌&&◌, ◌||◌, Bool-cases, inl, inr, Any, All, append-eq-nil, Run, Fault, ok, fault, bind,
  null_deref,
}
use alkyl.Ir.{Value, Inst, Block, Function}
use alkyl.Ir.Op
use alkyl.Ir.Names.{type_unknown}
use alkyl.Alick.Report.{Problem, untyped_op1, untyped_op2}
use alkyl.Alick.Check.{
  check_typed, is_binary, is_unary, check_get_ptr, check_operands, type_insts, type_blocks,
  alick_check_types, is_null,
}

-- The operators from ADD to SHR but NOT, and the comparisons. ROTR and ROTL are not among them.
abbrev pub IsBinary : ℕ → Type 0
IsBinary op = ((Op.add ≤ op) × (op ≤ Op.shr) × (op ≢ Op.not)) ⊎ ((Op.lt ≤ op) × (op ≤ Op.neq))

abbrev pub IsUnary : ℕ → Type 0
IsUnary op = (op ≡ Op.not) ⊎ (op ≡ Op.cast) ⊎ (op ≡ Op.bitcast)

-- An operand whose type is known.
unfoldable pub IsTyped : Option Value → Type 0
IsTyped v = (u : Value) × (v ≡ some u) × (u.type.base ≢ type_unknown)

-- The operands that an instruction of each kind needs.
pub record HasOperands (i : Inst) : Type 0 where
  pub store : i.op ≡ Op.store → (i.op1 ≢ none) × (i.op2 ≢ none)
  pub load : i.op ≡ Op.load → (i.dest ≢ none) × (i.op1 ≢ none)
  pub get_ptr : i.op ≡ Op.get_ptr → (i.dest ≢ none) × IsTyped i.op1 × IsTyped i.op2
  pub alloca : i.op ≡ Op.alloca → i.dest ≢ none
  pub binary : IsBinary i.op → (i.dest ≢ none) × (i.op1 ≢ none) × (i.op2 ≢ none)
  pub unary : IsUnary i.op → (i.dest ≢ none) × (i.op1 ≢ none)
  pub call : i.op ≡ Op.call → i.op1 ≢ none

is_null_iff : (v : Option Value) → (is_null v ≡ false) ↔ (v ≢ none)
is_null_iff none = (λ e. cc, λ h. absurd (h refl))
is_null_iff (some v) = (λ _ e. cc, λ _. refl)

is_binary_iff : (op : ℕ) → (is_binary op ≡ true) ↔ IsBinary op
unfolding is_binary
is_binary_iff op = ground arith

is_unary_iff : (op : ℕ) → (is_unary op ≡ true) ↔ IsUnary op
unfolding is_unary
is_unary_iff op = ground arith

check_typed-eq-nil : (v : Option Value) (p : Problem) → (check_typed v p ≡ ok []) ↔ IsTyped v
unfolding check_typed IsTyped
check_typed-eq-nil none p = (λ e. cc, λ h. cc (h.1))
check_typed-eq-nil (some v) p = (λ e. (v, refl, ground arith), λ (u, same, known). ground arith)

IsTyped-ne-none : (v : Option Value) → IsTyped v → v ≢ none
unfolding IsTyped
IsTyped-ne-none v (u, same, known) e = cc

check_get_ptr-eq-nil :
    (i : Inst) → (check_get_ptr i ≡ ok []) ↔ ((i.dest ≢ none) × IsTyped i.op1 × IsTyped i.op2)
unfolding check_get_ptr check_typed
check_get_ptr-eq-nil i = ground (
  arith,
  is_null_iff i.dest,
  IsTyped-ne-none i.op1,
  IsTyped-ne-none i.op2,
  check_typed-eq-nil i.op1 untyped_op1,
  check_typed-eq-nil i.op2 untyped_op2,
)

check_operands-eq-nil : (i : Inst) → (check_operands i ≡ ok []) ↔ HasOperands i
unfolding check_operands
check_operands-eq-nil i = ground (
  arith,
  is_null_iff i.dest,
  is_null_iff i.op1,
  is_null_iff i.op2,
  is_binary_iff i.op,
  is_unary_iff i.op,
  check_get_ptr-eq-nil i,
)

-- Two parts of a check, one after the other.
abbrev pub both : Run (List Problem) → Run (List Problem) → Run (List Problem)
both r s = bind r λ ps. bind s λ qs. ok (ps ++ qs)

pub both-eq-nil : (r s : Run (List Problem)) → (both r s ≡ ok []) ↔ ((r ≡ ok []) × (s ≡ ok []))
both-eq-nil (ok ps) (ok qs) = ground (arith, append-eq-nil ps qs)
both-eq-nil (ok ps) (fault e) = (λ h. cc, λ h. cc (h.1))
both-eq-nil (fault e) s = (λ h. cc, λ h. cc (h.0))

abbrev pub Returns : Run (List Problem) → Type 0
Returns r = (ps : List Problem) × (r ≡ ok ps)

pub both-Returns : (r s : Run (List Problem)) → Returns (both r s) ↔ (Returns r × Returns s)
both-Returns (ok ps) (ok qs) = (λ _. ((ps, refl), (qs, refl)), λ _. (ps ++ qs, refl))
both-Returns (ok ps) (fault e) = (λ h. cc (h.1), λ h. cc (h.1.1))
both-Returns (fault e) s = (λ h. cc (h.1), λ h. cc (h.0.1))

type_insts-eq-nil : (is : List Inst) → (type_insts is ≡ ok []) ↔ All HasOperands is
unfolding type_insts
type_insts-eq-nil [] = (λ _. tt, λ _. refl)
type_insts-eq-nil (i ∷ is) = ground (
  arith,
  both-eq-nil (check_operands i) (type_insts is),
  check_operands-eq-nil i,
  type_insts-eq-nil is,
)

type_blocks-eq-nil :
    (bs : List Block) → (type_blocks bs ≡ ok []) ↔ All (λ b. All HasOperands b.insts) bs
unfolding type_blocks
type_blocks-eq-nil [] = (λ _. tt, λ _. refl)
type_blocks-eq-nil (b ∷ bs) = ground (
  arith,
  both-eq-nil (type_insts b.insts) (type_blocks bs),
  type_insts-eq-nil b.insts,
  type_blocks-eq-nil bs,
)

-- `alick_check_types` returns and reports nothing exactly when every instruction of the function has
-- the operands that its opcode needs, those of GET_PTR with a known type.
pub alick_check_types-eq-nil :
    (f : Function) → (alick_check_types f ≡ ok []) ↔ All (λ b. All HasOperands b.insts) f.blocks
unfolding alick_check_types
alick_check_types-eq-nil f = type_blocks-eq-nil f.blocks

-- A GET_PTR that lacks an operand.
abbrev pub LacksPointer : Inst → Type 0
LacksPointer i = (i.op ≡ Op.get_ptr) × ((i.op1 ≡ none) ⊎ (i.op2 ≡ none))

check_operands_faults : (i : Inst) → LacksPointer i → check_operands i ≡ fault null_deref
unfolding check_operands check_get_ptr check_typed
check_operands_faults i h = ground arith

check_operands-ne-fault : (i : Inst) → ¬ LacksPointer i → (e : Fault) → check_operands i ≢ fault e
unfolding check_operands check_get_ptr check_typed
check_operands-ne-fault i h e = ground arith

Returns-cases : (r : Run (List Problem)) → ((e : Fault) → r ≢ fault e) → Returns r
Returns-cases (ok ps) h = (ps, refl)
Returns-cases (fault e) h = absurd (h e refl)

check_operands-Returns : (i : Inst) → Returns (check_operands i) ↔ (¬ LacksPointer i)
check_operands-Returns i = (
  λ (ps, e) lacks. cc (check_operands_faults i lacks),
  λ has. Returns-cases _ (check_operands-ne-fault i has),
)

type_insts-Returns : (is : List Inst) → Returns (type_insts is) ↔ All (λ i. ¬ LacksPointer i) is
unfolding type_insts
type_insts-Returns [] = (λ _. tt, λ _. ([], refl))
type_insts-Returns (i ∷ is) =
    let parts = both-Returns (check_operands i) (type_insts is) in
    let first = check_operands-Returns i in
    let rest = type_insts-Returns is in
    (λ h. (first.0 (parts.0 h).0, rest.0 (parts.0 h).1), λ h. parts.1 (first.1 h.0, rest.1 h.1))

type_blocks-Returns :
    (bs : List Block) → Returns (type_blocks bs) ↔ All (λ b. All (λ i. ¬ LacksPointer i) b.insts) bs
unfolding type_blocks
type_blocks-Returns [] = (λ _. tt, λ _. ([], refl))
type_blocks-Returns (b ∷ bs) =
    let parts = both-Returns (type_insts b.insts) (type_blocks bs) in
    let first = type_insts-Returns b.insts in
    let rest = type_blocks-Returns bs in
    (λ h. (first.0 (parts.0 h).0, rest.0 (parts.0 h).1), λ h. parts.1 (first.1 h.0, rest.1 h.1))

-- The run reads through NULL.
abbrev pub ReadsNull : Run (List Problem) → Type 0
ReadsNull r = r ≡ fault null_deref

check_operands-lacks : (i : Inst) → ReadsNull (check_operands i) → LacksPointer i
unfolding check_operands check_get_ptr check_typed
check_operands-lacks i e = ground arith

check_operands-ReadsNull : (i : Inst) → ReadsNull (check_operands i) ↔ LacksPointer i
check_operands-ReadsNull i = (check_operands-lacks i, check_operands_faults i)

-- A first part that faults by another fault than a read through NULL hides the second.
both-ReadsNull :
    (r s : Run (List Problem))
    → Returns r ⊎ ReadsNull r
    → ReadsNull (both r s) ↔ (ReadsNull r ⊎ ReadsNull s)
both-ReadsNull (ok ps) (ok qs) h = ground arith
both-ReadsNull (ok ps) (fault e) h = ground arith
both-ReadsNull (fault e) s h = ground arith

check_operands_cases : (i : Inst) → Returns (check_operands i) ⊎ ReadsNull (check_operands i)
check_operands_cases i =
    elim (Bool-cases (i.op == Op.get_ptr && (is_null i.op1 || is_null i.op2))) [
      | inl e ↦ inr (check_operands_faults i (ground (arith, e)))
      | inr e ↦ inl ((check_operands-Returns i).1 (ground (arith, e)))
    ]

both_cases :
    (r s : Run (List Problem))
    → Returns r ⊎ ReadsNull r
    → Returns s ⊎ ReadsNull s
    → Returns (both r s) ⊎ ReadsNull (both r s)
both_cases (ok ps) (ok qs) h k = inl (ps ++ qs, refl)
both_cases (ok ps) (fault e) h k = ground arith
both_cases (fault e) s h k = ground arith

type_insts_cases : (is : List Inst) → Returns (type_insts is) ⊎ ReadsNull (type_insts is)
unfolding type_insts
type_insts_cases [] = inl ([], refl)
type_insts_cases (i ∷ is) = both_cases _ _ (check_operands_cases i) (type_insts_cases is)

type_insts-ReadsNull : (is : List Inst) → ReadsNull (type_insts is) ↔ Any LacksPointer is
unfolding type_insts
type_insts-ReadsNull [] = (λ e. cc, λ h. absurd h)
type_insts-ReadsNull (i ∷ is) = ground (
  arith,
  both-ReadsNull (check_operands i) (type_insts is) (check_operands_cases i),
  check_operands-ReadsNull i,
  type_insts-ReadsNull is,
)

type_blocks-ReadsNull :
    (bs : List Block) → ReadsNull (type_blocks bs) ↔ Any (λ b. Any LacksPointer b.insts) bs
unfolding type_blocks
type_blocks-ReadsNull [] = (λ e. cc, λ h. absurd h)
type_blocks-ReadsNull (b ∷ bs) = ground (
  arith,
  both-ReadsNull (type_insts b.insts) (type_blocks bs) (type_insts_cases b.insts),
  type_insts-ReadsNull b.insts,
  type_blocks-ReadsNull bs,
)

-- `alick_check_types` returns exactly when no GET_PTR of the function lacks its base pointer or its
-- index, and reads through NULL exactly when some GET_PTR does.
pub alick_check_types-Returns :
    (f : Function)
    → (Returns (alick_check_types f) ↔ All (λ b. All (λ i. ¬ LacksPointer i) b.insts) f.blocks)
      × (ReadsNull (alick_check_types f) ↔ Any (λ b. Any LacksPointer b.insts) f.blocks)
unfolding alick_check_types
alick_check_types-Returns f = (type_blocks-Returns f.blocks, type_blocks-ReadsNull f.blocks)
