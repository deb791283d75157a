-- ===== src/Lexer/Number/Value.antt =====
-- The value that `lex_number` gives a numeral.
use alkyl.Prelude.{
  ℕ, suc, ◌+◌, ◌*◌, ◌/◌, ◌%◌, ◌^◌, ◌<◌, List, [], ◌∷◌, ◌++◌, ◌≡◌, ◌≢◌, refl, sym, ap, ◌∙◌, Bool,
  true, false, ◌&&◌, Option, none, some, Str, length, ◌==◌, arith,
}
use native.Mathlib.Nat.{add-mul-mod_self_left, div-add-mod, pow-suc, pow-zero}
use alkyl.Lexer.Token.{Token, Floats, token_number}
use alkyl.Lexer.Bytes.{is_digit, is_ident_part, peeks, peeks_letter, to_lower}
use alkyl.Lexer.Number.{
  decimal_digit, read_digits, lex_number, lex_decimal, lex_integer, Suffix, read_suffix,
  suffix_byte, other_byte, no_suffix, prefix_mode, suffixed_type,
}

-- A numeral, and the values of its digits.
pub data IsNumeral (digit : ℕ → Option ℕ) : Str → List ℕ → Type 0 where
  no_digit : IsNumeral digit [] []
  next_digit :
      {c v : ℕ} {ds : Str} {vs : List ℕ}
      → digit c ≡ some v
      → IsNumeral digit ds vs
      → IsNumeral digit (c ∷ ds) (v ∷ vs)

-- A place is worth a power of the base.
unfoldable pub numeral_value : ℕ → List ℕ → ℕ
numeral_value base [] = 0
numeral_value base (v ∷ vs) = v * base ^ length vs + numeral_value base vs

abbrev pub NoDigit : (ℕ → Option ℕ) → Str → Type 0
NoDigit digit [] = Unit
NoDigit digit (c ∷ rest) = digit c ≡ none

mod_times : (m x p y : ℕ) → (x % m * p + y) % m ≡ (x * p + y) % m
mod_times m x p y =
    let whole : x * p + y ≡ x % m * p + y + m * (x / m * p) =
      omega (arith, ap (λ t. t * p) (div-add-mod x m)) in
    sym (ap (λ t. t % m) whole ∙ add-mul-mod_self_left (x % m * p + y) m (x / m * p))

no_more : (base val : ℕ) → val < 2 ^ 64 → (val * base ^ 0 + 0) % 2 ^ 64 ≡ val
no_more base val bound = ap (λ t. (val * t + 0) % 2 ^ 64) (pow-zero base) ∙ omega (arith, bound)

read_digits-value :
    (digit : ℕ → Option ℕ) (base : ℕ) {ds : Str} {vs : List ℕ} (h : IsNumeral digit ds vs) (val : ℕ)
    (rest : Str) (stop : NoDigit digit rest) (bound : val < 2 ^ 64)
    → read_digits digit base val (ds ++ rest)
      ≡ ((val * base ^ length vs + numeral_value base vs) % 2 ^ 64, rest)
unfolding read_digits numeral_value
read_digits-value digit base no_digit val [] stop bound =
    ap (λ n. (n, [])) (sym (no_more base val bound))
read_digits-value digit base no_digit val (c ∷ rest) stop bound =
    rw (stop, read_digits) (ap (λ n. (n, c ∷ rest)) (sym (no_more base val bound)))
read_digits-value digit base (next_digit {c} {v} {ds} {vs} e h) val rest stop bound =
    let more = (val * base + v) % 2 ^ 64 in
    let p = base ^ length vs in
    let sum : (val * base + v) * p + numeral_value base vs
        ≡ val * base ^ suc (length vs) + (v * p + numeral_value base vs) =
      omega (arith, ap (λ t. val * t) (pow-suc base (length vs))) in
    rw (e, read_digits)
      (read_digits-value digit base h more rest stop (omega arith)
        ∙ ap (λ n. (n, rest))
            (mod_times (2 ^ 64) (val * base + v) p (numeral_value base vs)
              ∙ ap (λ n. n % 2 ^ 64) sum))

-- The end of the source, or a byte that belongs to no number or word.
abbrev pub EndsNumber : Str → Type 0
EndsNumber [] = Unit
EndsNumber (c ∷ rest) = (is_ident_part c ≡ false) × (c ≢ b'.')

EndsNumber-NoDigit : (rest : Str) → EndsNumber rest → NoDigit decimal_digit rest
unfolding decimal_digit
EndsNumber-NoDigit [] h = tt
EndsNumber-NoDigit (c ∷ rest) h = ground (arith, h.0)

decimal_digit-is_digit : (c v : ℕ) → decimal_digit c ≡ some v → is_digit c ≡ true
unfolding decimal_digit
decimal_digit-is_digit c v h = ground (arith, h)

-- Neither a digit nor what ends a number is a letter.
digit-letter :
    (c v : ℕ)
    → decimal_digit c ≡ some v
    → (to_lower c == b'x' ≡ false) × (to_lower c == b'b' ≡ false)
unfolding decimal_digit
digit-letter c v h = ground (arith, h)

end-letter :
    (c : ℕ) → is_ident_part c ≡ false → (to_lower c == b'x' ≡ false) × (to_lower c == b'b' ≡ false)
end-letter c h = ground (arith, h)

end-suffix_byte : (c : ℕ) → is_ident_part c ≡ false → suffix_byte c ≡ other_byte
unfolding suffix_byte
end-suffix_byte c h =
    let u : to_lower c == b'u' ≡ false = ground (arith, h) in
    let l : to_lower c == b'l' ≡ false = ground (arith, h) in rw (u, l)

end-suffix : (s : Suffix) (rest : Str) → EndsNumber rest → read_suffix s rest ≡ (s, rest)
unfolding read_suffix
end-suffix s [] h = refl
end-suffix s (c ∷ []) h = rw (end-suffix_byte c h.0, read_suffix)
end-suffix s (c ∷ d ∷ rest) h = rw (end-suffix_byte c h.0, read_suffix)

and_false : (b : Bool) → b && false ≡ false
and_false true = refl
and_false false = refl

-- Without a letter behind the first digit there is no prefix.
no_letter-prefix_mode :
    (first : ℕ) (rest : Str)
    → peeks_letter b'x' rest ≡ false
    → peeks_letter b'b' rest ≡ false
    → prefix_mode first rest ≡ none
unfolding prefix_mode
no_letter-prefix_mode first rest x b =
    rw (x, b, and_false (first == b'0'), and_false (first == b'1'), and_false (first == b'2'))

numeral-prefix_mode :
    (first : ℕ) {ds : Str} {vs : List ℕ} (h : IsNumeral decimal_digit ds vs) (rest : Str)
    (stop : EndsNumber rest)
    → prefix_mode first (ds ++ rest) ≡ none
numeral-prefix_mode first no_digit [] stop = no_letter-prefix_mode first [] refl refl
numeral-prefix_mode first no_digit (c ∷ rest) stop =
    let (x, b) = end-letter c stop.0 in no_letter-prefix_mode first (c ∷ rest) x b
numeral-prefix_mode first (next_digit {c} {v} {ds} e h) rest stop =
    let (x, b) = digit-letter c v e in no_letter-prefix_mode first (c ∷ ds ++ rest) x b

peeks-point : (rest : Str) → EndsNumber rest → peeks b'.' rest ≡ false
peeks-point [] h = refl
peeks-point (c ∷ rest) h = ground (arith, h.1)

module _ {F : Floats} (t : Token F) where
  -- The token of a number of value `val`.
  abbrev pub number_token : ℕ → Token F
  number_token val = record t {
    type = token_number;
    double_val = F.of_ulong_long val;
    int_val = val % 2 ^ 32;
    long_val = val;
  }

  lex_decimal-numeral :
      {ds : Str} {vs : List ℕ} (h : IsNumeral decimal_digit ds vs) (rest : Str)
      (stop : EndsNumber rest)
      → lex_decimal t (ds ++ rest) ≡ (number_token (numeral_value 10 vs % 2 ^ 64), rest)
  unfolding lex_decimal lex_integer suffixed_type
  lex_decimal-numeral {ds} {vs} h rest stop =
      let val = numeral_value 10 vs % 2 ^ 64 in
      let digits : read_digits decimal_digit 10 0 (ds ++ rest) ≡ (val, rest) =
        read_digits-value decimal_digit 10 h 0 rest (EndsNumber-NoDigit rest stop) (omega arith)
        ∙ ap (λ n. (n % 2 ^ 64, rest)) (omega arith) in
      rw (digits, peeks-point rest stop, end-suffix no_suffix rest stop)

  -- A decimal numeral, with the end of the source or a byte behind it that is no part of a number
  -- or word, is read as a number token of its value modulo 2 ^ 64, and nothing behind it is read.
  pub lex_number-numeral :
      {ds : Str} {vs : List ℕ} (h : IsNumeral decimal_digit ds vs) (some_digit : ds ≢ [])
      (rest : Str) (stop : EndsNumber rest)
      → lex_number t (ds ++ rest) ≡ some (number_token (numeral_value 10 vs % 2 ^ 64), rest)
  unfolding lex_number
  lex_number-numeral no_digit some_digit rest stop = absurd (some_digit refl)
  lex_number-numeral (next_digit {c} {v} {ds} e h) some_digit rest stop =
      let digit : is_digit c ≡ true = decimal_digit-is_digit c v e in
      rw (digit, numeral-prefix_mode c h rest stop)
        (ap some (lex_decimal-numeral (next_digit {c = c} e h) rest stop))
