-- ===== src/Binary/Read.antt =====
-- src/alir/binary_read.c: each `br_` function reads from the file that is left.
use alkyl.Prelude.{
  same_text, ℕ, ◌+◌, ◌-◌, ◌*◌, ◌%◌, ◌^◌, bit_and, bit_or, false, not, Option, none, some, List, [],
  ◌∷◌, ltb, leb, ◌==◌, if◌then◌else◌, length, Str, Run, ok, fault, bind, wide_shift,
}
use alkyl.Ir.{VarType, Value, Inst, Block, Param, Function, Field, Struct, Global, Module}
use alkyl.Binary.File.{Read, pure, ◌>>=◌, fread, read_list}
use alkyl.Binary.Write.{is_number, is_text, magic, magic2, version}

-- At the end of the file the byte is 0.
unfoldable pub br_u8 : Read ℕ
br_u8 [] = ok (0, [])
br_u8 (v ∷ file) = ok (v, file)

-- One round of the `while` loop. A shift of a `uint32_t` by 32 or more is undefined in C.
unfoldable pub br_u32_loop : List ℕ → ℕ → ℕ → Run (ℕ × List ℕ)
br_u32_loop [] result shift = ok (result, [])
br_u32_loop (byte ∷ file) result shift =
    let result' = bit_or result (bit_and byte 0x7f * 2 ^ shift % 2 ^ 32) in
    let more = br_u32_loop file result' (shift + 7) in
    if leb 32 shift
    then fault wide_shift
    else if bit_and byte 0x80 == 0
    then ok (result', file)
    else more

unfoldable pub br_u32 : Read ℕ
br_u32 file = br_u32_loop file 0 0

-- The number that a little-endian host sees in a run of bytes.
unfoldable pub from_little_endian : List ℕ → ℕ
from_little_endian [] = 0
from_little_endian (b ∷ bs) = b + 256 * from_little_endian bs

-- A short read gives 0, and takes what was there.
unfoldable pub br_u64 : Read ℕ
br_u64 = do v ← fread 8; pure (if length v == 8 then from_little_endian v else 0)

-- What a buffer holds as a C string: the bytes before the first null.
unfoldable pub c_string : List ℕ → Str
c_string [] = []
c_string (b ∷ bs) = if b == 0 then [] else b ∷ c_string bs

unfoldable pub br_text : ℕ → Read (Option Str)
br_text len = do buf ← fread len; pure (if length buf == len then some (c_string buf) else none)

-- The buffer is always allocated: the arena aborts the process when memory runs out.
unfoldable pub br_str : Read (Option Str)
unfolding br_text
br_str = do len ← br_u32; if len == 0 then pure none else br_text (len - 1)

unfoldable pub br_type : Read VarType
br_type = do
  base ← br_u8
  ptr_depth ← br_u32
  class_name ← br_str
  array_size ← br_u32
  array_depth ← br_u32
  fp_param_count ← br_u32
  is_tainted ← br_u8
  is_pristine ← br_u8
  pure (record {
    base = base;
    ptr_depth = ptr_depth;
    class_name = class_name;
    array_size = array_size;
    array_depth = array_depth;
    fp_param_count = fp_param_count;
    is_unsigned = false;
    is_func_ptr = false;
    fp_is_varargs = false;
    is_tainted = not (is_tainted == 0);
    is_pristine = not (is_pristine == 0);
  })

-- `v->val.int_val = br_u64 (f)` in a zeroed union: the low 32 bits of what was read.
unfoldable pub br_payload : ℕ → VarType → ℕ → Read (Option Value)
br_payload kind type temp_id =
    let value : ℕ → Option Str → Option Value = λ bits str_val.
      some
        (record { kind = kind; type = type; temp_id = temp_id; bits = bits; str_val = str_val }) in
    if is_number kind
    then br_u64 >>= (λ bits. pure (value (bits % 2 ^ 32) none))
    else if is_text kind
    then br_str >>= (λ s. pure (value 0 s))
    else pure (value 0 none)

unfoldable pub br_some_value : ℕ → Read (Option Value)
unfolding br_payload
br_some_value kind = do type ← br_type; temp_id ← br_u32; br_payload kind type temp_id

unfoldable pub br_value : Read (Option Value)
unfolding br_some_value
br_value = do kind ← br_u8; if kind == 0xff then pure none else br_some_value kind

-- A count that is stored in an `int`: it is negative, and its loop does not run, from 2 ^ 31 on.
abbrev pub int_count : ℕ → ℕ
int_count n = if ltb n (2 ^ 31) then n else 0

unfoldable pub br_inst : Read Inst
br_inst = do
  op ← br_u32
  dest ← br_value
  op1 ← br_value
  op2 ← br_value
  arg_count ← br_u32
  args ← read_list (int_count arg_count) br_value
  line ← br_u32
  col ← br_u32
  pure (record {
    op = op;
    dest = dest;
    op1 = op1;
    op2 = op2;
    args = args;
    custom_flag = 0;
    line = line;
    col = col;
  })

unfoldable pub br_block : Read Block
br_block = do
  label ← br_str
  inst_c ← br_u32
  insts ← read_list inst_c br_inst
  pure (record { id = 0; label = label; insts = insts })

unfoldable pub br_param : Read Param
br_param = do name ← br_str; type ← br_type; pure (record { name = name; type = type })

unfoldable pub br_func : Read Function
br_func = do
  name ← br_str
  ret_type ← br_type
  is_flux ← br_u8
  is_varargs ← br_u8
  cconv ← br_str
  param_count ← br_u32
  params ← read_list (int_count param_count) br_param
  block_c ← br_u32
  blocks ← read_list block_c br_block
  pure (record {
    name = name;
    ret_type = ret_type;
    params = params;
    param_count = param_count;
    blocks = blocks;
    block_count = block_c;
    is_flux = is_flux;
    is_varargs = is_varargs;
    is_extern = 0;
    is_pure = 0;
    reason = none;
    cconv = cconv;
  })

unfoldable pub br_field : Read Field
br_field = do
  name ← br_str
  type ← br_type
  index ← br_u32
  pure (record { name = name; type = type; index = index })

unfoldable pub br_struct : Read Struct
br_struct = do
  name ← br_str
  field_count ← br_u32
  fc ← br_u32
  fields ← read_list fc br_field
  pure (record { name = name; fields = fields; field_count = field_count; is_union = 0 })

unfoldable pub br_global : Read Global
br_global = do
  name ← br_str
  type ← br_type
  string_content ← br_str
  pure (record { name = name; string_content = string_content; type = type })

-- What follows the header.
unfoldable pub br_module : Read Module
br_module = do
  name ← br_str
  filename ← br_str
  g_c ← br_u32
  globals ← read_list g_c br_global
  s_c ← br_u32
  structs ← read_list s_c br_struct
  f_c ← br_u32
  functions ← read_list f_c br_func
  pure (record {
    name = name;
    globals = globals;
    functions = functions;
    structs = structs;
    enums = [];
    str_counter = 0;
    src = none;
    filename = filename;
  })

-- A test of the header: go on only if the next bytes of the file are the expected ones.
unfoldable pub expect : List ℕ → Read (Option Module) → Read (Option Module)
expect bytes k = do found ← fread (length bytes); if same_text found bytes then k else pure none

unfoldable pub br_found : Read (Option Module)
br_found = br_module >>= λ m. pure (some m)

-- The header's three tests, then the module.
unfoldable pub br_file : Read (Option Module)
unfolding br_found
br_file = expect magic2 (expect magic (expect (version ∷ []) br_found))

-- The argument is what the file holds, or `none` if `fopen` fails. The result is `none` for NULL.
unfoldable pub alir_read_binary : Option (List ℕ) → Run (Option Module)
unfolding br_file
alir_read_binary none = ok none
alir_read_binary (some file) = bind (br_file file) (λ (m, rest). ok m)
