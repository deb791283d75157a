-- ===== src/Binary/Write.antt =====
-- src/alir/binary_write.c: the bytes that each `bw_` function appends to the file.
use mathlib.Core.Logic.{dite}
use mathlib.Core.WellFounded.{Acc}
use native.Mathlib.Decide.{dec_lt}
use alkyl.Prelude.{
  ℕ, zero, suc, ◌+◌, ◌-◌, ◌/◌, ◌%◌, ◌^◌, ◌<◌, bit_and, bit_or, Bool, true, false, ◌||◌, Option,
  none, some, List, [], ◌∷◌, ◌++◌, arith, ltb, ◌==◌, if◌then◌else◌, length, take, Str, lt_wf,
}
use alkyl.Ir.{VarType, Value, Inst, Block, Param, Function, Field, Struct, Global, Module}
use alkyl.Ir.Names.{
  val_int, val_single, val_double, val_var, val_label, val_const, val_type, val_global,
}
use alkyl.Binary.File.{write_list}

-- A conversion to `uint8_t`.
unfoldable pub bw_u8 : ℕ → List ℕ
bw_u8 v = (v % 256) ∷ []

pub shift_falls : (v : ℕ) → 0 < v / 128 → v / 128 < v
shift_falls v h = omega arith

-- One round of the `do` loop: seven bits, with the top bit set if more follow.
unfoldable pub bw_u32_loop : (v : ℕ) → Acc ◌<◌ v → List ℕ
bw_u32_loop v (Acc.intro _ smaller) =
    let byte = bit_and v 0x7f in
    dite (dec_lt 0 (v / 128))
      (λ more. bit_or byte 0x80 ∷ bw_u32_loop (v / 128) (smaller _ (shift_falls v more)))
      (λ _. byte ∷ [])

-- LEB128, lowest group first. The argument is converted to `uint32_t`.
unfoldable pub bw_u32 : ℕ → List ℕ
unfolding lt_wf
bw_u32 v = bw_u32_loop (v % 2 ^ 32) (lt_wf.apply (v % 2 ^ 32))

-- The `n` lowest bytes of `v`, the lowest first, as a little-endian host stores them.
unfoldable pub little_endian : ℕ → ℕ → List ℕ
little_endian zero v = []
little_endian (suc n) v = (v % 256) ∷ little_endian n (v / 256)

unfoldable pub bw_u64 : ℕ → List ℕ
bw_u64 v = little_endian 8 v

-- NULL is the length 0, a string its length plus one and its bytes. `len` is a `uint32_t`.
unfoldable pub bw_str : Option Str → List ℕ
bw_str none = bw_u32 0
bw_str (some s) = let len = length s % 2 ^ 32 in bw_u32 (len + 1) ++ take len s

-- A `bool` as an `int`.
abbrev pub flag : Bool → ℕ
flag true = 1
flag false = 0

unfoldable pub bw_type : VarType → List ℕ
bw_type t =
    bw_u8 t.base
    ++ (bw_u32 t.ptr_depth
        ++ (bw_str t.class_name
            ++ (bw_u32 t.array_size
                ++ (bw_u32 t.array_depth
                    ++ (bw_u32 t.fp_param_count
                        ++ (bw_u8 (flag t.is_tainted) ++ bw_u8 (flag t.is_pristine)))))))

-- The kinds whose payload is written as a number, and those whose payload is written as a text.
abbrev pub is_number : ℕ → Bool
is_number k = k == val_int || k == val_single || k == val_double || k == val_const

abbrev pub is_text : ℕ → Bool
is_text k = k == val_var || k == val_label || k == val_type || k == val_global

-- `v->val.int_val` as the argument of `bw_u64`: the low 32 bits of the union, sign-extended.
abbrev pub int_val_u64 : ℕ → ℕ
int_val_u64 bits = let w = bits % 2 ^ 32 in if ltb w (2 ^ 31) then w else w + (2 ^ 64 - 2 ^ 32)

unfoldable pub bw_payload : Value → List ℕ
bw_payload v =
    if is_number v.kind
    then bw_u64 (int_val_u64 v.bits)
    else if is_text v.kind
    then bw_str v.str_val
    else []

unfoldable pub bw_value : Option Value → List ℕ
bw_value none = bw_u8 0xff
bw_value (some v) = bw_u8 v.kind ++ (bw_type v.type ++ (bw_u32 v.temp_id ++ bw_payload v))

unfoldable pub bw_inst : Inst → List ℕ
bw_inst i =
    bw_u32 i.op
    ++ (bw_value i.dest
        ++ (bw_value i.op1
            ++ (bw_value i.op2
                ++ (bw_u32 (length i.args)
                    ++ (write_list bw_value i.args ++ (bw_u32 i.line ++ bw_u32 i.col))))))

unfoldable pub bw_block : Block → List ℕ
bw_block b = bw_str b.label ++ (bw_u32 (length b.insts) ++ write_list bw_inst b.insts)

unfoldable pub bw_param : Param → List ℕ
bw_param p = bw_str p.name ++ bw_type p.type

-- The count of parameters is the field; the blocks are counted.
unfoldable pub bw_func : Function → List ℕ
bw_func fn =
    bw_str fn.name
    ++ (bw_type fn.ret_type
        ++ (bw_u8 fn.is_flux
            ++ (bw_u8 fn.is_varargs
                ++ (bw_str fn.cconv
                    ++ (bw_u32 fn.param_count
                        ++ (write_list bw_param fn.params
                            ++ (bw_u32 (length fn.blocks) ++ write_list bw_block fn.blocks)))))))

unfoldable pub bw_field : Field → List ℕ
bw_field fd = bw_str fd.name ++ (bw_type fd.type ++ bw_u32 fd.index)

unfoldable pub bw_struct : Struct → List ℕ
bw_struct st =
    bw_str st.name
    ++ (bw_u32 st.field_count ++ (bw_u32 (length st.fields) ++ write_list bw_field st.fields))

unfoldable pub bw_global : Global → List ℕ
bw_global g = bw_str g.name ++ (bw_type g.type ++ bw_str g.string_content)

abbrev pub magic2 : List ℕ
magic2 = 0xfa ∷ 0x8a ∷ 0x11 ∷ 0xa1 ∷ 0xc1 ∷ []

abbrev pub magic : List ℕ
magic = 0x2f ∷ 0x58 ∷ 0xb0 ∷ 0x4f ∷ 0x2e ∷ 0xc2 ∷ 0xa8 ∷ 0xee ∷ 0x24 ∷ []

abbrev pub version : ℕ
version = 1

-- What follows the header.
unfoldable pub bw_module : Module → List ℕ
bw_module m =
    bw_str m.name
    ++ (bw_str m.filename
        ++ (bw_u32 (length m.globals)
            ++ (write_list bw_global m.globals
                ++ (bw_u32 (length m.structs)
                    ++ (write_list bw_struct m.structs
                        ++ (bw_u32 (length m.functions) ++ write_list bw_func m.functions))))))

-- `opened` says whether `fopen` succeeded. The result is the exit code and, if the file was opened,
-- what it then holds.
unfoldable pub alir_write_binary : Module → Bool → ℕ × Option (List ℕ)
alir_write_binary m false = (1, none)
alir_write_binary m true = (0, some (magic2 ++ (magic ++ ((version ∷ []) ++ bw_module m))))
