-- ===== src/Optlir/Branches/Folds.antt =====
-- src/optlir/local.c: what `fold_branches_function` makes of each instruction.
use alkyl.Prelude.{
  ℕ, ◌≡◌, ◌≢◌, refl, ◌↔◌, ◌⊎◌, inl, inr, true, ◌&&◌, Option, none, some, List, [], ◌∷◌, ◌==◌, arith,
  Both, none_left, next, Both-map, Str, Bool, false, if◌then◌else◌,
}
use alkyl.Ir.{Value, Inst, Block, Function}
use alkyl.Ir.Op
use alkyl.Ir.Names.{val_const, type_single, type_double}
use alkyl.Optlir.Reach.{first_arg, is_some}
use alkyl.Optlir.Branches.{
  get_const_for_value, is_float_type, value_text, target_label, alir_val_label, jump_to, fold_inst,
  fold_blocks, fold_branches_function,
}

-- The constant counts as true: it is not 0, and not of a floating point type.
abbrev pub IsTrue : Value → Type 0
IsTrue v = (v.type.base ≢ type_single) × (v.type.base ≢ type_double) × (v.bits ≢ 0)

-- The value has the text `n`, whatever its kind.
abbrev pub HasName : Option Value → Str → Type 0
HasName none n = ⊥
HasName (some v) n = v.str_val ≡ some n

abbrev pub FirstHasName : List (Option Value) → Str → Type 0
FirstHasName [] n = ⊥
FirstHasName (v ∷ vs) n = HasName v n

-- The value is a constant, and its branch is `n`: the second operand of the instruction for one that
-- counts as true, and the first argument for the others.
abbrev pub Chooses : Inst → Option Value → Str → Type 0
Chooses i none n = ⊥
Chooses i (some v) n =
    (v.kind ≡ val_const) × ((IsTrue v × HasName i.op2 n) ⊎ ((¬ IsTrue v) × FirstHasName i.args n))

-- The instruction is a CONDI on a constant with the branch `n`.
abbrev pub FoldsTo : Inst → Str → Type 0
FoldsTo i n = (i.op ≡ Op.condi) × Chooses i i.op1 n

-- The instruction with a JUMP to the label in its place.
abbrev pub jump_instead : Inst → Str → Inst
jump_instead i n = record i { op = Op.jump; op1 = some (alir_val_label n); op2 = none; args = [] }

-- The second instruction is the JUMP that the first folds to, or the first itself, which folds to none.
abbrev pub Folded : Inst → Inst → Type 0
Folded i j =
    ((n : Str) × FoldsTo i n × (j ≡ jump_instead i n)) ⊎ ((¬ ((n : Str) × FoldsTo i n)) × (j ≡ i))

abbrev pub FoldedBlock : Block → Block → Type 0
FoldedBlock b c = (c.id ≡ b.id) × (c.label ≡ b.label) × Both Folded b.insts c.insts

value_text_iff : (o : Option Value) (n : Str) → (value_text o ≡ some n) ↔ HasName o n
unfolding value_text
value_text_iff none n = (λ e. cc, λ h. absurd h)
value_text_iff (some v) n = (λ e. e, λ h. h)

first_text_iff :
    (vs : List (Option Value)) (n : Str) → (value_text (first_arg vs) ≡ some n) ↔ FirstHasName vs n
unfolding first_arg
first_text_iff [] n = value_text_iff none n
first_text_iff (v ∷ vs) n = value_text_iff v n

some_text : (o : Option Value) (n : Str) → value_text o ≡ some n → is_some o ≡ true
unfolding value_text is_some
some_text none n e = cc
some_text (some v) n e = refl

-- The label that is jumped to for a constant.
target_label_iff :
    (widen : ℕ → ℕ) (i : Inst) (v : Value) (n : Str) (const : v.kind ≡ val_const)
    → (target_label (get_const_for_value widen (some v)) i ≡ some n)
      ↔ ((IsTrue v × HasName i.op2 n) ⊎ ((¬ IsTrue v) × FirstHasName i.args n))
unfolding target_label get_const_for_value is_float_type
target_label_iff widen i v n const =
    ground (arith, const, value_text_iff i.op2 n, first_text_iff i.args n, some_text i.op2 n)

-- A jump to the label when there is one, where the labels are just the branches of the instruction.
Folded-jump_to :
    (i : Inst) (o : Option Str) → ((n : Str) → (o ≡ some n) ↔ FoldsTo i n) → Folded i (jump_to i o)
unfolding jump_to
Folded-jump_to i none h = inr (λ (n, folds). cc ((h n).1 folds), refl)
Folded-jump_to i (some n) h = inl (n, (h n).0 refl, refl)

is_const_iff :
    (widen : ℕ → ℕ) (v : Value)
    → ((get_const_for_value widen (some v)).is_const ≡ true) ↔ (v.kind ≡ val_const)
unfolding get_const_for_value
is_const_iff widen v = ground arith

Folds-or-stays :
    (i : Inst) (b : Bool) (o : Option Str)
    → (b ≡ true → (n : Str) → (o ≡ some n) ↔ FoldsTo i n)
    → (b ≡ false → (n : Str) → ¬ FoldsTo i n)
    → Folded i (if b then jump_to i o else i)
Folds-or-stays i true o h k = Folded-jump_to i o (h refl)
Folds-or-stays i false o h k = inr (λ (n, folds). k refl n folds, refl)

-- The labels for the condition `o`.
Chooses-iff :
    (widen : ℕ → ℕ) (i : Inst) (o : Option Value) (n : Str)
    → (get_const_for_value widen o).is_const ≡ true
    → (target_label (get_const_for_value widen o) i ≡ some n) ↔ Chooses i o n
Chooses-iff widen i none n const = unfold get_const_for_value in cc const
Chooses-iff widen i (some v) n const =
    let kind = (is_const_iff widen v).0 const in
    ground (arith, kind, target_label_iff widen i v n kind)

Chooses-is_const :
    (widen : ℕ → ℕ) (i : Inst) (o : Option Value) (n : Str)
    → Chooses i o n
    → (is_some o ≡ true) × ((get_const_for_value widen o).is_const ≡ true)
unfolding is_some
Chooses-is_const widen i none n h = absurd h
Chooses-is_const widen i (some v) n h = (refl, (is_const_iff widen v).1 h.0)

Folded-fold_inst : (widen : ℕ → ℕ) (i : Inst) → Folded i (fold_inst widen i)
unfolding fold_inst
Folded-fold_inst widen i =
    let cond = get_const_for_value widen i.op1 in
    Folds-or-stays i (i.op == Op.condi && (is_some i.op1 && cond.is_const)) (target_label cond i)
      (λ e n. ground (arith, e, Chooses-iff widen i i.op1 n))
      (λ e n folds. ground (arith, e, Chooses-is_const widen i i.op1 n folds.1, folds.0))

Both-fold_blocks : (widen : ℕ → ℕ) (bs : List Block) → Both FoldedBlock bs (fold_blocks widen bs)
unfolding fold_blocks
Both-fold_blocks widen [] = none_left
Both-fold_blocks widen (b ∷ bs) =
    next (refl, refl, Both-map (fold_inst widen) (Folded-fold_inst widen) b.insts)
      (Both-fold_blocks widen bs)

-- `fold_branches_function` keeps every block and instruction at its place and changes just the CONDI
-- instructions whose condition is a constant: with a constant that is not 0 it becomes a JUMP to the
-- label of its second operand, with any other constant, those of a floating point type among them, a
-- JUMP to the label of its first argument. One that lacks the label stays as it is.
pub fold_branches_function-Both :
    (widen : ℕ → ℕ) (f : Function)
    → Both FoldedBlock f.blocks (fold_branches_function widen f).blocks
unfolding fold_branches_function
fold_branches_function-Both widen f = Both-fold_blocks widen f.blocks
