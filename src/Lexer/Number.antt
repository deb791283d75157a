-- ===== src/Lexer/Number.antt =====
-- src/lexer/lexer.c: `lex_number`. Values are of `unsigned long long`, modulo 2 ^ 64.
pub mod Value
use alkyl.Prelude.{
  ℕ, ◌+◌, ◌-◌, ◌*◌, ◌%◌, ◌^◌, [], ◌∷◌, Bool, true, false, not, ◌&&◌, ◌||◌, Option, none, some, Str,
  take, length, ◌==◌, if◌then◌else◌,
}
use alkyl.Lexer.Token.{
  Token, Floats, TokenType, token_double_lit, token_long_double_lit, token_long_lit,
  token_long_long_lit, token_number, token_single_lit, token_uint_lit, token_ulong_lit,
  token_ulong_long_lit,
}
use alkyl.Lexer.Bytes.{between, is_digit, to_lower, peeks, peeks_letter, advance}

-- The value of a digit, for the three bases.
unfoldable pub decimal_digit : ℕ → Option ℕ
decimal_digit c = if is_digit c then some (c - b'0') else none

unfoldable pub hex_digit : ℕ → Option ℕ
hex_digit c =
    if is_digit c
    then some (c - b'0')
    else if between b'a' b'f' (to_lower c)
    then some (to_lower c - b'a' + 10)
    else none

unfoldable pub bin_digit : ℕ → Option ℕ
bin_digit c = if c == b'0' || c == b'1' then some (c - b'0') else none

-- A loop over digits, from the value so far: the value, and the text behind them.
unfoldable pub read_digits : (ℕ → Option ℕ) → ℕ → ℕ → Str → ℕ × Str
read_digits digit base val [] = (val, [])
read_digits digit base val (c ∷ rest) = elim (digit c) [
  | none ↦ (val, c ∷ rest)
  | some d ↦ read_digits digit base ((val * base + d) % 2 ^ 64) rest
]

pub record Suffix : Type 0 where
  pub is_u : Bool
  pub is_l : Bool
  pub is_ll : Bool

abbrev pub no_suffix : Suffix
no_suffix = record { is_u = false; is_l = false; is_ll = false }

pub data SuffixByte : Type 0 where
  letter_u letter_l other_byte : SuffixByte

unfoldable pub suffix_byte : ℕ → SuffixByte
suffix_byte c =
    if to_lower c == b'u' then letter_u else if to_lower c == b'l' then letter_l else other_byte

-- The loop over the letters behind a number; an `l` takes a second one with it.
unfoldable pub read_suffix : Suffix → Str → Suffix × Str
unfolding suffix_byte
read_suffix s [] = (s, [])
read_suffix s (c ∷ []) = elim (suffix_byte c) [
  | letter_u ↦ (record s { is_u = true }, [])
  | letter_l ↦ (record s { is_l = true }, [])
  | other_byte ↦ (s, c ∷ [])
]
read_suffix s (c ∷ d ∷ rest) = elim (suffix_byte c) [
  | letter_u ↦ read_suffix (record s { is_u = true }) (d ∷ rest)
  | letter_l ↦ elim (suffix_byte d) [
    | letter_l ↦ read_suffix (record s { is_ll = true }) rest
    | _ ↦ read_suffix (record s { is_l = true }) (d ∷ rest)
  ]
  | other_byte ↦ (s, c ∷ d ∷ rest)
]

unfoldable pub suffixed_type : Suffix → TokenType
suffixed_type s =
    if s.is_ll && s.is_u
    then token_ulong_long_lit
    else if s.is_ll
    then token_long_long_lit
    else if s.is_l && s.is_u
    then token_ulong_lit
    else if s.is_l
    then token_long_lit
    else if s.is_u
    then token_uint_lit
    else token_number

pub data PrefixMode : Type 0 where
  hex_int bin_int hex_single bin_single hex_double bin_double : PrefixMode

-- `prefix_mode` for a first digit and the text behind it.
unfoldable pub prefix_mode : ℕ → Str → Option PrefixMode
prefix_mode first rest =
    if first == b'0' && peeks_letter b'x' rest
    then some hex_int
    else if first == b'0' && peeks_letter b'b' rest
    then some bin_int
    else if first == b'1' && peeks_letter b'x' rest
    then some hex_single
    else if first == b'1' && peeks_letter b'b' rest
    then some bin_single
    else if first == b'2' && peeks_letter b'x' rest
    then some hex_double
    else if first == b'2' && peeks_letter b'b' rest
    then some bin_double
    else none

unfoldable pub prefixed_digits : PrefixMode → Str → ℕ × Str
unfolding read_digits hex_digit bin_digit
prefixed_digits hex_int = read_digits hex_digit 16 0
prefixed_digits hex_single = read_digits hex_digit 16 0
prefixed_digits hex_double = read_digits hex_digit 16 0
prefixed_digits bin_int = read_digits bin_digit 2 0
prefixed_digits bin_single = read_digits bin_digit 2 0
prefixed_digits bin_double = read_digits bin_digit 2 0

module _ {F : Floats} where
  unfoldable pub prefixed_int : Token F → ℕ → Str → Token F × Str
  unfolding read_suffix suffixed_type
  prefixed_int t val rest =
      let s = read_suffix no_suffix rest in
      (record t { long_val = val; type = suffixed_type s.0 }, s.1)

  unfoldable pub prefixed_token : PrefixMode → Token F → ℕ → Str → Token F × Str
  unfolding prefixed_int
  prefixed_token hex_int t val rest = prefixed_int t val rest
  prefixed_token bin_int t val rest = prefixed_int t val rest
  prefixed_token hex_single t val rest =
      (record t { type = token_single_lit; double_val = F.of_single_bits (val % 2 ^ 32) }, rest)
  prefixed_token bin_single t val rest =
      (record t { type = token_single_lit; double_val = F.of_single_bits (val % 2 ^ 32) }, rest)
  prefixed_token hex_double t val rest =
      (record t { type = token_double_lit; double_val = F.of_double_bits val }, rest)
  prefixed_token bin_double t val rest =
      (record t { type = token_double_lit; double_val = F.of_double_bits val }, rest)

  -- The text behind the prefix.
  unfoldable pub lex_prefixed : PrefixMode → Token F → Str → Token F × Str
  unfolding prefixed_digits prefixed_token
  lex_prefixed mode t text =
      let digits = prefixed_digits mode text in prefixed_token mode t digits.0 digits.1

  -- The letter behind a number with a point.
  unfoldable pub point_suffix : Token F → Str → Token F × Str
  point_suffix t rest =
      if peeks_letter b'l' rest
      then (record t { type = token_long_double_lit }, advance rest)
      else if peeks_letter b'f' rest
      then (record t { type = token_single_lit }, advance rest)
      else (t, rest)

  -- The number as it is spelt from `text` on, up to the digits behind the point.
  unfoldable pub lex_point : Token F → Str → Str → Token F × Str
  unfolding point_suffix read_digits decimal_digit
  lex_point t text fraction =
      let rest = (read_digits decimal_digit 10 0 fraction).1 in
      let buf = take (length text - length rest) text in
      point_suffix (record t { type = token_double_lit; double_val = F.strtod buf }) rest

  unfoldable pub lex_integer : Token F → ℕ → Str → Token F × Str
  unfolding read_suffix suffixed_type
  lex_integer t val rest =
      let s = read_suffix no_suffix rest in
      (
        record t {
          type = suffixed_type s.0;
          double_val = F.of_ulong_long val;
          int_val = val % 2 ^ 32;
          long_val = val;
        },
        s.1,
      )

  unfoldable pub lex_decimal : Token F → Str → Token F × Str
  unfolding read_digits decimal_digit lex_point lex_integer
  lex_decimal t text =
      let digits = read_digits decimal_digit 10 0 text in
      if peeks b'.' digits.1 && not (peeks b'.' (advance digits.1))
      then lex_point t text (advance digits.1)
      else lex_integer t digits.0 digits.1

  unfoldable pub lex_number : Token F → Str → Option (Token F × Str)
  unfolding prefix_mode lex_prefixed lex_decimal
  lex_number t [] = none
  lex_number t (c ∷ rest) =
      if is_digit c
      then some (elim (prefix_mode c rest) [
        | none ↦ lex_decimal t (c ∷ rest)
        | some mode ↦ lex_prefixed mode t (advance rest)
      ])
      else none
