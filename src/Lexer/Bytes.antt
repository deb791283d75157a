-- ===== src/Lexer/Bytes.antt =====
-- The classes of bytes that the lexer asks for: <ctype.h> in the C locale, and signed `char`s.
use alkyl.Prelude.{
  ℕ, ◌+◌, ◌-◌, ◌^◌, [], ◌∷◌, Bool, false, ◌&&◌, ◌||◌, Str, ltb, leb, ◌==◌, if◌then◌else◌,
}

abbrev pub between : ℕ → ℕ → ℕ → Bool
between a b c = leb a c && leb c b

-- `isdigit`, `isspace`, `isalpha` and `tolower`.
abbrev pub is_digit : ℕ → Bool
is_digit = between b'0' b'9'

abbrev pub is_space : ℕ → Bool
is_space c = c == b' ' || between 9 13 c

abbrev pub is_alpha : ℕ → Bool
is_alpha c = between b'a' b'z' c || between b'A' b'Z' c

abbrev pub to_lower : ℕ → ℕ
to_lower c = if between b'A' b'Z' c then c + 32 else c

-- A `char` as an integer of `w` bits, in two's complement.
abbrev pub sign_extend : ℕ → ℕ → ℕ
sign_extend w c = if ltb c 128 then c else c + 2 ^ w - 256

abbrev pub is_ident_start : ℕ → Bool
is_ident_start c = is_alpha c || c == b'_' || leb 0x80 c

abbrev pub is_ident_part : ℕ → Bool
is_ident_part c = is_alpha c || is_digit c || c == b'_' || leb 0x80 c

-- Whether `peek` is the byte `c`.
abbrev pub peeks : ℕ → Str → Bool
peeks c [] = false
peeks c (d ∷ rest) = d == c

-- The text behind one byte.
abbrev pub advance : Str → Str
advance [] = []
advance (c ∷ rest) = rest

-- As `peeks` for letters of either case.
abbrev pub peeks_letter : ℕ → Str → Bool
peeks_letter c [] = false
peeks_letter c (d ∷ rest) = to_lower d == c
