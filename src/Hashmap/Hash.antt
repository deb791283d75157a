-- ===== src/Hashmap/Hash.antt =====
-- src/common/hashmap.c: MurmurHash3 of 32 bits, and the rounding of a capacity.
use alkyl.Prelude.{
  ℕ, ◌+◌, ◌-◌, ◌*◌, ◌/◌, ◌%◌, ◌^◌, ◌<◌, bit_or, bit_xor, bit_xor-lt, [], ◌∷◌, ◌==◌, ltb,
  if◌then◌else◌, length, Str, arith,
}

-- `a * b` and `x << r | x >> (32 - r)` on uint32_t.
unfoldable pub mul32 : ℕ → ℕ → ℕ
mul32 a b = a * b % 2 ^ 32

unfoldable pub rotl32 : ℕ → ℕ → ℕ
rotl32 r x = bit_or (x * 2 ^ r % 2 ^ 32) (x / 2 ^ (32 - r))

-- What is done to a word before it is mixed in.
unfoldable pub scramble : ℕ → ℕ
unfolding mul32 rotl32
scramble k = mul32 (rotl32 15 (mul32 k 0xcc9e2d51)) 0x1b873593

unfoldable pub word_of : ℕ → ℕ → ℕ → ℕ → ℕ
word_of a b c d = bit_or (bit_or (bit_or a (b * 2 ^ 8)) (c * 2 ^ 16)) (d * 2 ^ 24)

unfoldable pub mix_word : ℕ → ℕ → ℕ
unfolding scramble
mix_word h k = (rotl32 13 (bit_xor h (scramble k)) * 5 + 0xe6546b64) % 2 ^ 32

-- The loop over words of four bytes, and the `switch` on the one to three bytes that are left.
unfoldable pub hash_words : ℕ → Str → ℕ
unfolding mix_word word_of scramble
hash_words h [] = h
hash_words h (a ∷ []) = bit_xor h (scramble a)
hash_words h (a ∷ b ∷ []) = bit_xor h (scramble (bit_xor (b * 2 ^ 8) a))
hash_words h (a ∷ b ∷ c ∷ []) = bit_xor h (scramble (bit_xor (bit_xor (c * 2 ^ 16) (b * 2 ^ 8)) a))
hash_words h (a ∷ b ∷ c ∷ d ∷ rest) = hash_words (mix_word h (word_of a b c d)) rest

-- The last lines of `murmur3_32`.
unfoldable pub finish : ℕ → ℕ
unfolding mul32
finish h =
    let h = mul32 (bit_xor h (h / 2 ^ 16)) 0x85ebca6b in
    let h = mul32 (bit_xor h (h / 2 ^ 13)) 0xc2b2ae35 in bit_xor h (h / 2 ^ 16)

unfoldable pub murmur3_32 : Str → ℕ
unfolding hash_words finish
murmur3_32 key = finish (bit_xor (hash_words 0x811c9dc5 key) (length key % 2 ^ 32))

unfoldable pub hash_string : Str → ℕ
unfolding murmur3_32
hash_string str = murmur3_32 str

-- The bytes of a buffer, as many as its length says.
unfoldable pub hash_string_n : Str → ℕ
unfolding murmur3_32
hash_string_n str = murmur3_32 str

pub hash_string-lt : (str : Str) → hash_string str < 2 ^ 32
unfolding hash_string
hash_string-lt str = bit_xor-lt 32 _ _ (omega arith) (omega arith)

unfoldable pub smear : ℕ → ℕ → ℕ
smear r n = bit_or n (n / 2 ^ r)

unfoldable pub next_pow2 : ℕ → ℕ
unfolding smear
next_pow2 n =
    if n == 0
    then 8
    else let m = (smear 16 (smear 8 (smear 4 (smear 2 (smear 1 (n - 1))))) + 1) % 2 ^ 32 in
      if ltb m 8 then 8 else m
