-- ===== src/Binary/Stable.antt =====
-- A module that is read from a written file is written as that file again.
use alkyl.Prelude.{
  ℕ, ◌%◌, ◌≡◌, refl, Option, none, some, List, [], ◌∷◌, arith, length-map, map, true, ok,
}
use alkyl.Ir.{VarType, Value, Inst, Block, Param, Function, Field, Struct, Global, Module}
use alkyl.Binary.File.{write_list}
use alkyl.Binary.Write.{
  bw_u8, bw_type, bw_payload, bw_value, bw_inst, bw_block, bw_param, bw_func, bw_field, bw_struct,
  bw_global, bw_module, alir_write_binary,
}
use alkyl.Binary.Read.{alir_read_binary}
use alkyl.Binary.RoundTrip.{alir_read_binary-alir_write_binary}
use alkyl.Binary.Kept.{
  FitsModule, keep_type, keep_some, keep_value, keep_inst, keep_block, keep_param, keep_func,
  keep_field, keep_struct, keep_global, keep_module,
}

write_list-map {ℓ} :
    {A : Type ℓ} (w : A → List ℕ) (k : A → A) (xs : List A)
    → ((x : A) → w (k x) ≡ w x)
    → write_list w (map k xs) ≡ write_list w xs
unfolding write_list
write_list-map w k [] h = refl
write_list-map w k (x ∷ xs) h = rw (h x, write_list-map w k xs h)

bw_type-keep_type : (t : VarType) → bw_type (keep_type t) ≡ bw_type t
unfolding bw_type keep_type
bw_type-keep_type t = refl

bw_payload-keep_some : (v : Value) → bw_payload (keep_some v) ≡ bw_payload v
unfolding bw_payload keep_some
bw_payload-keep_some v = ground arith

bw_value-keep_value : (v : Option Value) → bw_value (keep_value v) ≡ bw_value v
unfolding bw_value keep_value
bw_value-keep_value none = refl
bw_value-keep_value (some v) =
    rw (bw_payload-keep_some v) (unfold keep_some in rw (bw_type-keep_type v.type))

bw_inst-keep_inst : (i : Inst) → bw_inst (keep_inst i) ≡ bw_inst i
unfolding bw_inst keep_inst
bw_inst-keep_inst i = simp (
  bw_value-keep_value,
  length-map keep_value i.args,
  write_list-map bw_value keep_value i.args bw_value-keep_value,
)

bw_block-keep_block : (b : Block) → bw_block (keep_block b) ≡ bw_block b
unfolding bw_block keep_block
bw_block-keep_block b =
    simp (length-map keep_inst b.insts, write_list-map bw_inst keep_inst b.insts bw_inst-keep_inst)

bw_param-keep_param : (p : Param) → bw_param (keep_param p) ≡ bw_param p
unfolding bw_param keep_param
bw_param-keep_param p = rw (bw_type-keep_type p.type)

bw_u8_mod : (n : ℕ) → bw_u8 (n % 256) ≡ bw_u8 n
unfolding bw_u8
bw_u8_mod n = ground arith

bw_func-keep_func : (fn : Function) → bw_func (keep_func fn) ≡ bw_func fn
unfolding bw_func keep_func
bw_func-keep_func fn = simp (
  bw_type-keep_type fn.ret_type,
  bw_u8_mod fn.is_flux,
  bw_u8_mod fn.is_varargs,
  write_list-map bw_param keep_param fn.params bw_param-keep_param,
  length-map keep_block fn.blocks,
  write_list-map bw_block keep_block fn.blocks bw_block-keep_block,
)

bw_field-keep_field : (fd : Field) → bw_field (keep_field fd) ≡ bw_field fd
unfolding bw_field keep_field
bw_field-keep_field fd = rw (bw_type-keep_type fd.type)

bw_struct-keep_struct : (st : Struct) → bw_struct (keep_struct st) ≡ bw_struct st
unfolding bw_struct keep_struct
bw_struct-keep_struct st = simp (
  length-map keep_field st.fields,
  write_list-map bw_field keep_field st.fields bw_field-keep_field,
)

bw_global-keep_global : (g : Global) → bw_global (keep_global g) ≡ bw_global g
unfolding bw_global keep_global
bw_global-keep_global g = rw (bw_type-keep_type g.type)

-- Writing what the format keeps of a module gives the very file that writing the module gives.
alir_write_binary-keep_module :
    (m : Module) → alir_write_binary (keep_module m) true ≡ alir_write_binary m true
unfolding alir_write_binary bw_module keep_module
alir_write_binary-keep_module m = simp (
  length-map keep_global m.globals,
  length-map keep_struct m.structs,
  length-map keep_func m.functions,
  write_list-map bw_global keep_global m.globals bw_global-keep_global,
  write_list-map bw_struct keep_struct m.structs bw_struct-keep_struct,
  write_list-map bw_func keep_func m.functions bw_func-keep_func,
)

-- Where the fields of a module fit the format, the file that `alir_write_binary` writes for it is read
-- as a module for which `alir_write_binary` writes the same file again.
pub alir_write_binary-alir_read_binary :
    (m : Module) (h : FitsModule m)
    → (m1 : Module) × (alir_read_binary (alir_write_binary m true).1 ≡ ok (some m1))
      × (alir_write_binary m1 true ≡ alir_write_binary m true)
alir_write_binary-alir_read_binary m h =
    (keep_module m, alir_read_binary-alir_write_binary m h, alir_write_binary-keep_module m)
