-- ===== src/Binary/RoundTrip.antt =====
-- A module that is written and read back is the module that the format keeps.
use alkyl.Prelude.{
  same_text, ℕ, ◌%◌, ◌^◌, ◌<◌, ◌≡◌, Option, none, some, List, [], ◌++◌, append_assoc, append-nil,
  arith, length, map, All, All-imp, ◌==◌, ok, true, false, Bool-cases, inl, inr,
}
use alkyl.Ir.{VarType, Value, Inst, Block, Param, Function, Field, Struct, Global, Module}
use alkyl.Binary.File.{Read, Reads, Reads-list, write_list, read_list}
use alkyl.Binary.Write.{
  int_val_u64, is_number, is_text, bw_u32, bw_type, bw_payload, bw_value, bw_inst, bw_block,
  bw_param, bw_func, bw_field, bw_struct, bw_global, bw_module, alir_write_binary,
}
use alkyl.Binary.Read.{
  br_type, br_payload, br_some_value, br_value, br_inst, br_block, br_param, br_func, br_field,
  br_struct, br_global, br_module, int_count, br_file, br_found, expect, alir_read_binary,
}
use alkyl.Binary.Leb.{br_u32-bw_u32}
use alkyl.Binary.Pieces.{br_u8-bw_u8, br_u64-bw_u64, br_str-bw_str}
use alkyl.Binary.Kept.{
  FitsType, FitsSome, FitsValue, FitsInst, FitsBlock, FitsParam, FitsFunction, FitsField,
  FitsStruct, FitsGlobal, FitsModule, keep_type, keep_some, keep_value, keep_inst, keep_block,
  keep_param, keep_func, keep_field, keep_struct, keep_global, keep_module,
}

br_type-bw_type : (t : VarType) → FitsType t → Reads br_type (bw_type t) (keep_type t)
unfolding br_type bw_type keep_type
br_type-bw_type t h rest =
    simp
      (
        append_assoc,
        br_u8-bw_u8,
        br_u32-bw_u32 t.ptr_depth h.ptr_depth,
        br_str-bw_str t.class_name h.class_name,
        br_u32-bw_u32 t.array_size h.array_size,
        br_u32-bw_u32 t.array_depth h.array_depth,
        br_u32-bw_u32 t.fp_param_count h.fp_param_count,
      )
      (ground arith)

br_payload-bw_payload :
    (v : Value)
    → FitsSome v
    → Reads (br_payload v.kind (keep_type v.type) v.temp_id) (bw_payload v) (some (keep_some v))
unfolding br_payload bw_payload keep_some
br_payload-bw_payload v h rest = elim (Bool-cases (is_number v.kind)) [
  | inl n ↦ rw (n, br_u64-bw_u64 (int_val_u64 v.bits) (ground arith) rest) (ground arith)
  | inr n ↦ elim (Bool-cases (is_text v.kind)) [
    | inl t ↦ rw (n, t, br_str-bw_str v.str_val h.str_val rest) (ground arith)
    | inr t ↦ ground arith
  ]
]

br_some_value_lem :
    (v : Value)
    → FitsSome v
    → (rest : List ℕ)
    → br_some_value v.kind (bw_type v.type ++ (bw_u32 v.temp_id ++ (bw_payload v ++ rest)))
      ≡ ok (some (keep_some v), rest)
unfolding br_some_value
br_some_value_lem v h rest =
    simp (br_type-bw_type v.type h.type, br_u32-bw_u32 v.temp_id h.temp_id)
      (br_payload-bw_payload v h rest)

pub br_value-bw_value :
    (v : Option Value) → FitsValue v → Reads br_value (bw_value v) (keep_value v)
unfolding br_value bw_value keep_value
br_value-bw_value none h rest = simp br_u8-bw_u8
br_value-bw_value (some v) h rest =
    let byte : v.kind % 256 ≡ v.kind = omega (arith, h.kind) in
    let present : (v.kind == 0xff) ≡ false = ground (arith, h.kind) in
    simp (append_assoc, br_u8-bw_u8, byte, present) (br_some_value_lem v h rest)

int_count_lem : (n : ℕ) → n < 2 ^ 31 → int_count n ≡ n
int_count_lem n h = ground arith

-- A list of items that each read back, after its count.
items :
    {A : Type 0} {B : Type 0} {P : A → Type 0} (p : Read B) (w : A → List ℕ) (k : A → B)
    → ((x : A) → P x → Reads p (w x) (k x))
    → (xs : List A) → All P xs
    → Reads (read_list (length xs) p) (write_list w xs) (map k xs)
items p w k item xs h = Reads-list p w k xs (All-imp item xs h)

br_inst-bw_inst : (i : Inst) → FitsInst i → Reads br_inst (bw_inst i) (keep_inst i)
unfolding br_inst bw_inst keep_inst
br_inst-bw_inst i h rest = simp (
  append_assoc,
  br_u32-bw_u32 i.op h.op,
  br_value-bw_value i.dest h.dest,
  br_value-bw_value i.op1 h.op1,
  br_value-bw_value i.op2 h.op2,
  br_u32-bw_u32 (length i.args) (omega (arith, h.arg_count)),
  int_count_lem (length i.args) h.arg_count,
  items br_value bw_value keep_value br_value-bw_value i.args h.args,
  br_u32-bw_u32 i.line h.line,
  br_u32-bw_u32 i.col h.col,
)

br_block-bw_block : (b : Block) → FitsBlock b → Reads br_block (bw_block b) (keep_block b)
unfolding br_block bw_block keep_block
br_block-bw_block b h rest = simp (
  append_assoc,
  br_str-bw_str b.label h.label,
  br_u32-bw_u32 (length b.insts) h.count,
  items br_inst bw_inst keep_inst br_inst-bw_inst b.insts h.insts,
)

br_param-bw_param : (p : Param) → FitsParam p → Reads br_param (bw_param p) (keep_param p)
unfolding br_param bw_param keep_param
br_param-bw_param p h rest =
    simp (append_assoc, br_str-bw_str p.name h.name, br_type-bw_type p.type h.type)

br_func-bw_func : (fn : Function) → FitsFunction fn → Reads br_func (bw_func fn) (keep_func fn)
unfolding br_func bw_func keep_func
br_func-bw_func fn h rest = simp (
  append_assoc,
  h.counted,
  br_str-bw_str fn.name h.name,
  br_type-bw_type fn.ret_type h.ret_type,
  br_u8-bw_u8,
  br_str-bw_str fn.cconv h.cconv,
  br_u32-bw_u32 (length fn.params) (omega (arith, h.param_count)),
  int_count_lem (length fn.params) h.param_count,
  items br_param bw_param keep_param br_param-bw_param fn.params h.params,
  br_u32-bw_u32 (length fn.blocks) h.block_count,
  items br_block bw_block keep_block br_block-bw_block fn.blocks h.blocks,
)

br_field-bw_field : (fd : Field) → FitsField fd → Reads br_field (bw_field fd) (keep_field fd)
unfolding br_field bw_field keep_field
br_field-bw_field fd h rest = simp (
  append_assoc,
  br_str-bw_str fd.name h.name,
  br_type-bw_type fd.type h.type,
  br_u32-bw_u32 fd.index h.index,
)

br_struct-bw_struct :
    (st : Struct) → FitsStruct st → Reads br_struct (bw_struct st) (keep_struct st)
unfolding br_struct bw_struct keep_struct
br_struct-bw_struct st h rest = simp (
  append_assoc,
  br_str-bw_str st.name h.name,
  br_u32-bw_u32 st.field_count h.field_count,
  br_u32-bw_u32 (length st.fields) h.count,
  items br_field bw_field keep_field br_field-bw_field st.fields h.fields,
)

br_global-bw_global : (g : Global) → FitsGlobal g → Reads br_global (bw_global g) (keep_global g)
unfolding br_global bw_global keep_global
br_global-bw_global g h rest = simp (
  append_assoc,
  br_str-bw_str g.name h.name,
  br_type-bw_type g.type h.type,
  br_str-bw_str g.string_content h.string_content,
)

br_module-bw_module : (m : Module) → FitsModule m → Reads br_module (bw_module m) (keep_module m)
unfolding br_module bw_module keep_module
br_module-bw_module m h rest = simp (
  append_assoc,
  br_str-bw_str m.name h.name,
  br_str-bw_str m.filename h.filename,
  br_u32-bw_u32 (length m.globals) h.global_count,
  items br_global bw_global keep_global br_global-bw_global m.globals h.globals,
  br_u32-bw_u32 (length m.structs) h.struct_count,
  items br_struct bw_struct keep_struct br_struct-bw_struct m.structs h.structs,
  br_u32-bw_u32 (length m.functions) h.function_count,
  items br_func bw_func keep_func br_func-bw_func m.functions h.functions,
)

-- Where the fields of a module fit the format, reading the file that `alir_write_binary` writes for it
-- gives the module with just what the format keeps of each field.
pub alir_read_binary-alir_write_binary :
    (m : Module)
    → FitsModule m
    → alir_read_binary (alir_write_binary m true).1 ≡ ok (some (keep_module m))
unfolding alir_read_binary alir_write_binary br_file br_found expect same_text
alir_read_binary-alir_write_binary m h =
    let whole = rw append-nil at (br_module-bw_module m h []) in rw whole
