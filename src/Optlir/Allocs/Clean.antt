-- ===== src/Optlir/Allocs/Clean.antt =====
-- `optlir_dce_allocs` of src/optlir/mem2reg.c: which instructions it clears.
use alkyl.Prelude.{
  ℕ, ◌≡◌, refl, sym, ◌≢◌, ◌↔◌, ◌⊎◌, inl, inr, Bool, true, false, ◌&&◌, Option, none, some, List, [],
  ◌∷◌, ◌==◌, arith, Both, none_left, next, Both-map, Any, Any-iff, Str, Bool-cases,
}
use alkyl.Ir.{Value, Inst, Block, Module}
use alkyl.Ir.Op
use alkyl.Ir.Names.{val_temp}
use alkyl.Optlir.UsedSet.{Has, Names, has_text, Has-collect_blocks}
use alkyl.Optlir.Allocs.{
  temp_key, args_keys, alloc_keys, used_keys, alloc_map, used_map, is_temp, dce_inst, dce_blocks,
  dce_function, optlir_dce_allocs,
}

-- The value is the temporary `t`.
abbrev pub IsTemp : ℕ → Option Value → Type 0
IsTemp t none = ⊥
IsTemp t (some v) = (v.kind ≡ val_temp) × (v.temp_id ≡ t)

-- An operand or an argument of the instruction is the temporary.
abbrev pub Reads : ℕ → Inst → Type 0
Reads t i = IsTemp t i.op1 ⊎ (IsTemp t i.op2 ⊎ Any (IsTemp t) i.args)

-- The temporary is the result of an ALLOCA.
abbrev pub IsSlot : List Block → ℕ → Type 0
IsSlot bs t = Any (λ b. Any (λ i. (i.op ≡ Op.alloca) × IsTemp t i.dest) b.insts) bs

-- Some instruction that is neither a STORE nor an ALLOCA reads the temporary.
abbrev pub IsRead : List Block → ℕ → Type 0
IsRead bs t = Any (λ b. Any (λ i. (i.op ≢ Op.store) × (i.op ≢ Op.alloca) × Reads t i) b.insts) bs

-- What becomes of an instruction of the blocks.
pub data Cleans (bs : List Block) (i : Inst) : Inst → Type 0 where
  clear_alloca :
      (t : ℕ)
      → i.op ≡ Op.alloca
      → IsTemp t i.dest
      → ¬ IsRead bs t
      → Cleans bs i (record i { op = Op.free_stack; dest = none })
  clear_store :
      (t : ℕ)
      → i.op ≡ Op.store
      → IsTemp t i.op2
      → IsSlot bs t
      → ¬ IsRead bs t
      → Cleans bs i (record i { op = Op.free_stack; op1 = none; op2 = none })
  keep :
      ((t : ℕ) → i.op ≡ Op.alloca → IsTemp t i.dest → IsRead bs t)
      → ((t : ℕ) → i.op ≡ Op.store → IsTemp t i.op2 → IsSlot bs t → IsRead bs t)
      → Cleans bs i i

-- A block keeps its number and label.
abbrev pub CleansBlock : List Block → Block → Block → Type 0
CleansBlock bs b c = (c.id ≡ b.id) × (c.label ≡ b.label) × Both (Cleans bs) b.insts c.insts

temp_key_iff : (o : Option Value) (t : ℕ) → (temp_key o ≡ some (t ∷ [])) ↔ IsTemp t o
unfolding temp_key
temp_key_iff none t = (λ e. cc, λ e. absurd e)
temp_key_iff (some v) t = ground arith

Names-args_keys :
    (t : ℕ) (vs : List (Option Value)) → Names (t ∷ []) (args_keys vs) ↔ Any (IsTemp t) vs
unfolding args_keys
Names-args_keys t [] = (λ e. e, λ e. e)
Names-args_keys t (v ∷ vs) = ground (arith, temp_key_iff v t, Names-args_keys t vs)

Names-alloc_keys :
    (t : ℕ) (i : Inst) → Names (t ∷ []) (alloc_keys i) ↔ ((i.op ≡ Op.alloca) × IsTemp t i.dest)
unfolding alloc_keys
Names-alloc_keys t i = ground (arith, temp_key_iff i.dest t)

Names-used_keys :
    (t : ℕ) (i : Inst)
    → Names (t ∷ []) (used_keys i) ↔ ((i.op ≢ Op.store) × (i.op ≢ Op.alloca) × Reads t i)
unfolding used_keys
Names-used_keys t i =
    ground (arith, temp_key_iff i.op1 t, temp_key_iff i.op2 t, Names-args_keys t i.args)

in_blocks :
    (names : Inst → List (Option Str)) (P : Inst → Type 0) (n : Str)
    (h : (i : Inst) → Names n (names i) ↔ P i) (bs : List Block)
    → Any (λ b. Any (λ i. Names n (names i)) b.insts) bs ↔ Any (λ b. Any P b.insts) bs
in_blocks names P n h bs = Any-iff (λ b. Any-iff h b.insts) bs

-- The maps have what the descriptions say.
module _ (bs : List Block) (t : ℕ) where
  Has-alloc_map : Has (alloc_map bs) (t ∷ []) ↔ IsSlot bs t
  unfolding alloc_map has_text
  Has-alloc_map = ground (
    arith,
    Has-collect_blocks (λ _. []) alloc_keys [] bs (t ∷ []),
    in_blocks alloc_keys _ (t ∷ []) (Names-alloc_keys t) bs,
  )

  Has-used_map : Has (used_map bs) (t ∷ []) ↔ IsRead bs t
  unfolding used_map has_text
  Has-used_map = ground (
    arith,
    Has-collect_blocks (λ _. []) used_keys [] bs (t ∷ []),
    in_blocks used_keys _ (t ∷ []) (Names-used_keys t) bs,
  )

temp_key-cases :
    (o : Option Value)
    → ((t : ℕ) × IsTemp t o × (temp_key o ≡ some (t ∷ [])) × (is_temp o ≡ true))
      ⊎ ((is_temp o ≡ false) × ((t : ℕ) → ¬ IsTemp t o))
unfolding temp_key is_temp
temp_key-cases none = inr (refl, λ t e. e)
temp_key-cases (some v) = elim (Bool-cases (v.kind == val_temp)) [
  | inl e ↦ inl (v.temp_id, (ground (arith, e), refl), rw e refl, e)
  | inr e ↦ inr (e, λ t h. ground (arith, e, h))
]

IsTemp-same : (o : Option Value) (t u : ℕ) → IsTemp t o → IsTemp u o → t ≡ u
IsTemp-same none t u h k = absurd h
IsTemp-same (some v) t u h k = omega (arith, h.1, k.1)

Cleans-dce_alloca :
    (bs : List Block) (i : Inst) (a : i.op == Op.alloca ≡ true)
    → Cleans bs i (dce_inst (alloc_map bs) (used_map bs) i)
unfolding dce_inst
Cleans-dce_alloca bs i a =
    let is_alloca : i.op ≡ Op.alloca = ground (arith, a) in
    let no_store : i.op ≢ Op.store = λ e. ground (arith, is_alloca, e) in
    let other : i.op == Op.store ≡ false = ground (arith, is_alloca) in
    elim (temp_key-cases i.dest) [
      | inr no_temp ↦
          rw (a, other, no_temp.0)
            (keep (λ t e d. absurd (no_temp.1 t d)) (λ t e. absurd (no_store e)))
      | inl temp ↦ elim (Bool-cases (has_text (used_map bs) (temp.0 ∷ []))) [
        | inl used ↦
            rw (a, temp.3, temp.2, used)
              (keep
                (λ t e d.
                  rw (IsTemp-same i.dest t temp.0 d temp.1) ((Has-used_map bs temp.0).0 used))
                (λ t e. absurd (no_store e)))
        | inr unused ↦
            rw (a, temp.3, temp.2, unused)
              (clear_alloca temp.0 is_alloca temp.1
                (λ r. cc (unused, (Has-used_map bs temp.0).1 r)))
      ]
    ]

Cleans-dce_store :
    (bs : List Block) (i : Inst) (a : i.op == Op.alloca ≡ false) (s : i.op == Op.store ≡ true)
    → Cleans bs i (dce_inst (alloc_map bs) (used_map bs) i)
unfolding dce_inst
Cleans-dce_store bs i a s =
    let is_store : i.op ≡ Op.store = ground (arith, s) in
    let no_alloca : i.op ≢ Op.alloca = λ e. ground (arith, is_store, e) in
    elim (temp_key-cases i.op2) [
      | inr no_temp ↦
          rw (a, s, no_temp.0)
            (keep (λ t e. absurd (no_alloca e)) (λ t e d. absurd (no_temp.1 t d)))
      | inl temp ↦ elim (Bool-cases (has_text (used_map bs) (temp.0 ∷ []))) [
        | inl used ↦
            rw (a, s, temp.3, temp.2, used, and_false (has_text (alloc_map bs) (temp.0 ∷ [])))
              (keep (λ t e. absurd (no_alloca e))
                (λ t e d slot.
                  rw (IsTemp-same i.op2 t temp.0 d temp.1) ((Has-used_map bs temp.0).0 used)))
        | inr unused ↦ elim (Bool-cases (has_text (alloc_map bs) (temp.0 ∷ []))) [
          | inl slot ↦
              rw (a, s, temp.3, temp.2, unused, slot)
                (clear_store temp.0 is_store temp.1 ((Has-alloc_map bs temp.0).0 slot)
                  (λ r. cc (unused, (Has-used_map bs temp.0).1 r)))
          | inr no_slot ↦
              rw (a, s, temp.3, temp.2, unused, no_slot)
                (keep (λ t e. absurd (no_alloca e))
                  (λ t e d slot. absurd (
                    lacks (Has-alloc_map bs temp.0) no_slot
                      (rw (sym (IsTemp-same i.op2 t temp.0 d temp.1)) slot))))
        ]
      ]
    ]
  where
    lacks : {x : Bool} {P : Type 0} → (x ≡ true) ↔ P → x ≡ false → P → ⊥
    lacks h e p = cc (e, h.1 p)

    and_false : (b : Bool) → b && false ≡ false
    and_false true = refl
    and_false false = refl

Cleans-dce_other :
    (bs : List Block) (i : Inst) (a : i.op == Op.alloca ≡ false) (s : i.op == Op.store ≡ false)
    → Cleans bs i (dce_inst (alloc_map bs) (used_map bs) i)
unfolding dce_inst
Cleans-dce_other bs i a s =
    rw (a, s) (keep (λ t e. absurd (ground (arith, a, e))) (λ t e. absurd (ground (arith, s, e))))

Cleans-dce_inst :
    (bs : List Block) (i : Inst) → Cleans bs i (dce_inst (alloc_map bs) (used_map bs) i)
Cleans-dce_inst bs i = elim (Bool-cases (i.op == Op.alloca)) [
  | inl a ↦ Cleans-dce_alloca bs i a
  | inr a ↦ elim (Bool-cases (i.op == Op.store)) [
    | inl s ↦ Cleans-dce_store bs i a s
    | inr s ↦ Cleans-dce_other bs i a s
  ]
]

Both-dce_blocks :
    (all bs : List Block) → Both (CleansBlock all) bs (dce_blocks (alloc_map all) (used_map all) bs)
unfolding dce_blocks
Both-dce_blocks all [] = none_left
Both-dce_blocks all (b ∷ bs) =
    next
      (refl, refl, Both-map (dce_inst (alloc_map all) (used_map all)) (Cleans-dce_inst all) b.insts)
      (Both-dce_blocks all bs)

-- `optlir_dce_allocs` keeps every function, block and instruction at its place, and makes FREE_STACK
-- of just two kinds of instructions: an ALLOCA of a temporary that nothing but stores and allocas of
-- the function reads, and a STORE to such a temporary that is the result of an ALLOCA.
pub optlir_dce_allocs-Both :
    (m : Module)
    → Both
        (λ f g. Both (CleansBlock f.blocks) f.blocks g.blocks)
        m.functions
        (optlir_dce_allocs m).functions
unfolding optlir_dce_allocs dce_function
optlir_dce_allocs-Both m =
    Both-map dce_function (λ f. Both-dce_blocks f.blocks f.blocks) m.functions
