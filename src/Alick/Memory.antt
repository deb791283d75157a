-- ===== src/Alick/Memory.antt =====
-- src/alick/memory.c: the search of one block for values that are used after FREE_STACK. The map of
-- freed keys is the list of the keys in it. The map copies its keys into the arena of the module's
-- compiler context; without an arena it keeps the address of a buffer that is local to the body of the
-- loop over the instructions, so that a later search which reads the key of the entry reads a pointer to memory that is gone.
use alkyl.Prelude.{
  ◌+◌, ◌-◌, ◌/◌, ◌%◌, ◌^◌, ltb, same_text, ℕ, zero, suc, Bool, true, false, ◌&&◌, ◌||◌, not, Option,
  none, some, List, [], ◌∷◌, ◌++◌, ◌==◌, if◌then◌else◌, length, take, Str, Run, ok, fault, bind,
  dangling_pointer,
}
use alkyl.Ir.{Value, Inst, Block, Function}
use alkyl.Ir.Op
use alkyl.Ir.Names.{val_var, val_temp}
use alkyl.Hashmap.Hash.{hash_string}
use alkyl.Alick.Report.{Problem, report, use_after_free, double_free}
pub mod Clean
pub mod Searches
pub mod Dangling

-- The texts "%t<id>" and "@<name>" in a buffer of 64 bytes: the second keeps 62 bytes of the name.
-- The decimal number after "%t" stands for itself.
pub data Key : Type 0 where
  temp : ℕ → Key
  name : Str → Key

-- What `%s` prints for NULL.
abbrev pub null_text : Str
null_text = 40 ∷ 110 ∷ 117 ∷ 108 ∷ 108 ∷ 41 ∷ []

abbrev pub text_or_null : Option Str → Str
text_or_null none = null_text
text_or_null (some s) = s

-- `none` is the empty key.
pub get_val_key : Option Value → Option Key
get_val_key none = none
get_val_key (some v) =
    if v.kind == val_temp
    then some (temp v.temp_id)
    else if v.kind == val_var
    then some (name (take 62 (text_or_null v.str_val)))
    else none

pub same_key : Key → Key → Bool
same_key (temp m) (temp n) = m == n
same_key (temp m) (name t) = false
same_key (name s) (temp n) = false
same_key (name s) (name t) = same_text s t

pub hashmap_has : List Key → Key → Bool
hashmap_has [] k = false
hashmap_has (j ∷ freed) k = same_key j k || hashmap_has freed k

-- A key that is not empty and is in the map.
pub is_freed : List Key → Option Key → Bool
is_freed freed none = false
is_freed freed (some k) = hashmap_has freed k

pub check_args : List Key → List (Option Value) → List Problem
check_args freed [] = []
check_args freed (v ∷ vs) =
    report (is_freed freed (get_val_key v)) use_after_free ++ check_args freed vs

check_free : List Key → Inst → List Problem
check_free freed i =
    report (i.op == Op.free_stack && is_freed freed (get_val_key i.op1)) double_free

-- The reports on one instruction, given the keys freed before it.
pub check_uses : List Key → Inst → List Problem
unfolding check_free
check_uses freed i =
    report (is_freed freed (get_val_key i.op1)) use_after_free
    ++ (report (is_freed freed (get_val_key i.op2)) use_after_free
        ++ (check_args freed i.args ++ check_free freed i))

put_key : List Key → Option Key → List Key
put_key freed none = freed
put_key freed (some k) = if hashmap_has freed k then freed else k ∷ freed

-- The keys freed after one instruction.
pub track_free : List Key → Inst → List Key
unfolding put_key
track_free freed i = if i.op == Op.free_stack then put_key freed (get_val_key i.op1) else freed

-- The decimal digits of a number, of at most `fuel` of them, before a text.
unfoldable pub digits : ℕ → ℕ → Str → Str
digits zero n text = text
digits (suc fuel) n text =
    let rest = digits fuel (n / 10) ((48 + n % 10) ∷ text) in
    if ltb n 10 then (48 + n) ∷ text else rest

-- What `%d` prints for the bits of an `int`, which have at most ten digits.
unfoldable pub int_text : ℕ → Str
unfolding digits
int_text n = if ltb n (2 ^ 31) then digits 10 n [] else 45 ∷ digits 10 (2 ^ 32 - n) []

-- The text in the buffer.
unfoldable pub key_text : Key → Str
unfolding int_text
key_text (temp n) = 37 ∷ 116 ∷ int_text n
key_text (name s) = 64 ∷ s

pub same_hash : Key → Key → Bool
same_hash j k = hash_string (key_text j) == hash_string (key_text k)

-- A search for the key compares it with an entry of the map: the search reads the key of an entry
-- just when the hashes are equal.
pub has_hash : List Key → Key → Bool
unfolding same_hash
has_hash [] k = false
has_hash (j ∷ freed) k = same_hash j k || has_hash freed k

pub compares : List Key → Option Key → Bool
compares freed none = false
compares freed (some k) = has_hash freed k

pub compares_args : List Key → List (Option Value) → Bool
unfolding compares
compares_args freed [] = false
compares_args freed (v ∷ vs) = compares freed (get_val_key v) || compares_args freed vs

-- Whether the searches for an instruction read a key of the map.
pub reads_key : List Key → Inst → Bool
unfolding compares compares_args
reads_key freed i =
    compares freed (get_val_key i.op1)
    || (compares freed (get_val_key i.op2) || compares_args freed i.args)

-- The flag says whether the map has an arena.
pub memory_insts : Bool → List Key → List Inst → Run (List Problem)
unfolding reads_key
memory_insts arena freed [] = ok []
memory_insts arena freed (i ∷ is) =
    let rest = memory_insts arena (track_free freed i) is in
    if not arena && reads_key freed i
    then fault dangling_pointer
    else bind rest (λ ps. ok (check_uses freed i ++ ps))

-- The map is new for each block.
memory_blocks : Bool → List Block → Run (List Problem)
memory_blocks arena [] = ok []
memory_blocks arena (b ∷ bs) =
    bind (memory_insts arena [] b.insts) (λ ps. bind (memory_blocks arena bs) (λ qs. ok (ps ++ qs)))

-- The flag says whether the module has a compiler context with an arena.
pub alick_check_memory : Bool → Function → Run (List Problem)
unfolding memory_blocks
alick_check_memory arena f = memory_blocks arena f.blocks
