-- ===== src/Binary/Pieces.antt =====
-- Bytes, 64-bit numbers and strings read back as they were written.
use alkyl.Prelude.{
  ℕ, zero, suc, ◌+◌, ◌/◌, ◌%◌, ◌^◌, ◌<◌, ◌≡◌, refl, ap, Option, none, some, [], ◌∷◌, ◌++◌,
  append_assoc, arith, length, All, take-append, drop-append, take-length, Str, ok,
}
use alkyl.Binary.File.{Reads}
use alkyl.Binary.Write.{bw_u8, little_endian, bw_u64, bw_str}
use alkyl.Binary.Read.{br_u8, from_little_endian, br_u64, c_string, br_text, br_str}
use alkyl.Binary.Leb.{br_u32-bw_u32}
use alkyl.Binary.Kept.{IsCharacter, FitsStr}

pub br_u8-bw_u8 : (v : ℕ) → Reads br_u8 (bw_u8 v) (v % 256)
unfolding br_u8 bw_u8
br_u8-bw_u8 v rest = refl

from_little_endian-little_endian :
    (n v : ℕ) → v < 256 ^ n → from_little_endian (little_endian n v) ≡ v
unfolding from_little_endian little_endian
from_little_endian-little_endian zero v h = ground arith
from_little_endian-little_endian (suc n) v h =
    ground (arith, from_little_endian-little_endian n (v / 256))

pub br_u64-bw_u64 : (v : ℕ) → v < 2 ^ 64 → Reads br_u64 (bw_u64 v) v
unfolding br_u64 bw_u64 little_endian
br_u64-bw_u64 v h rest = ap (λ r. ok (r, rest)) (from_little_endian-little_endian 8 v (omega arith))

c_string_lem : (s : Str) → All IsCharacter s → c_string s ≡ s
unfolding c_string
c_string_lem [] h = refl
c_string_lem (b ∷ s) h = ground (arith, c_string_lem s h.1)

br_text_lem : (s : Str) → All IsCharacter s → Reads (br_text (length s)) s (some s)
unfolding br_text
br_text_lem s h rest =
    rw (take-append s rest, drop-append s rest) (ground (arith, c_string_lem s h))

pub br_str-bw_str : (s : Option Str) → FitsStr s → Reads br_str (bw_str s) s
unfolding br_str bw_str
br_str-bw_str none h rest = rw (br_u32-bw_u32 0 (omega arith) rest)
br_str-bw_str (some s) (short, chars) rest =
    let fits : length s % 2 ^ 32 ≡ length s = omega arith in
    rw (fits, take-length s, append_assoc, br_u32-bw_u32 (length s + 1) short (s ++ rest))
      (ground (arith, br_text_lem s chars rest))
