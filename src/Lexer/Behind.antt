-- ===== src/Lexer/Behind.antt =====
-- What a part of the lexer leaves of a text is an end of it.
use alkyl.Prelude.{
  ℕ, ◌+◌, ◌-◌, ◌*◌, ◌%◌, ◌^◌, ◌⊎◌, ◌≤◌, ◌<◌, [], ◌∷◌, ◌++◌, ◌≡◌, refl, ap, inl, inr, true, Option,
  Str, drop, take, take-append-drop, drop-append, length, length-append, Bool-cases, Option-cases,
  arith, append_assoc,
}
use alkyl.Lexer.Token.{CommentStyle}
use alkyl.Lexer.Bytes.{advance, is_ident_part}
use alkyl.Lexer.Skip.{SkipMode, skip, skip_step}
use alkyl.Lexer.Number.{
  read_digits, Suffix, SuffixByte, read_suffix, suffix_byte, letter_u, letter_l, other_byte,
}
use alkyl.Lexer.Text.{read_string, string_byte, StringByte, closing, escaping, plain}
use alkyl.Lexer.Word.{read_word}

-- `rest` is behind some bytes of `text`; and behind at least one.
abbrev pub IsBehind : Str → Str → Type 0
IsBehind rest text = (w : Str) × (w ++ rest ≡ text)

abbrev pub IsPast : Str → Str → Type 0
IsPast rest text = (c : ℕ) × (w : Str) × (c ∷ w ++ rest ≡ text)

pub IsBehind-one : (c : ℕ) (rest text : Str) → IsBehind rest text → IsPast rest (c ∷ text)
IsBehind-one c rest text (w, e) = (c, w, ap (λ s. c ∷ s) e)

pub behind : (rest text : Str) → IsPast rest text → IsBehind rest text
behind rest text (c, w, e) = (c ∷ w, e)

pub IsBehind-more : (c : ℕ) (rest text : Str) → IsBehind rest text → IsBehind rest (c ∷ text)
IsBehind-more c rest text (w, e) = (c ∷ w, ap (λ s. c ∷ s) e)

pub IsBehind-all : (text : Str) → IsBehind text text
IsBehind-all text = ([], refl)

pub IsBehind-both : (a b c : Str) → IsBehind a b → IsBehind b c → IsBehind a c
IsBehind-both a b c (v, e) (w, f) = (w ++ v, rw (append_assoc w v a, e) f)

pub advance-IsBehind : (text : Str) → IsBehind (advance text) text
advance-IsBehind [] = IsBehind-all []
advance-IsBehind (c ∷ rest) = IsBehind-more c rest rest (IsBehind-all rest)

pub drop-IsBehind : (n : ℕ) (text : Str) → IsBehind (drop n text) text
drop-IsBehind n text = (take n text, take-append-drop n text)

pub length-IsBehind : (rest text : Str) → IsBehind rest text → length rest ≤ length text
length-IsBehind rest text (w, e) = omega (arith, ap length e, length-append w rest)

pub length-IsPast : (rest text : Str) → IsPast rest text → length rest < length text
length-IsPast rest text (c, w, e) = omega (arith, ap length e, length-append w rest)

pub drop-behind :
    (rest text : Str) → IsBehind rest text → drop (length text - length rest) text ≡ rest
drop-behind rest text (w, e) =
    let count : length text - length rest ≡ length w =
      omega (arith, ap length e, length-append w rest) in
    rw count (rw (← e) (drop-append w rest))

pub skip-IsBehind :
    (style : CommentStyle) (mode : SkipMode) (text : Str) → IsBehind (skip style mode text).0 text
unfolding skip
skip-IsBehind style mode [] = IsBehind-all []
skip-IsBehind style mode (c ∷ rest) = elim (Option-cases (skip_step style mode c rest)) [
  | inl e ↦ rw (e, skip) (IsBehind-all (c ∷ rest))
  | inr (next, e) ↦ rw (e, skip) (IsBehind-more c _ rest (skip-IsBehind style next rest))
]

pub read_digits-IsBehind :
    (digit : ℕ → Option ℕ) (base val : ℕ) (text : Str)
    → IsBehind (read_digits digit base val text).1 text
unfolding read_digits
read_digits-IsBehind digit base val [] = IsBehind-all []
read_digits-IsBehind digit base val (c ∷ rest) = elim (Option-cases (digit c)) [
  | inl e ↦ rw (e, read_digits) (IsBehind-all (c ∷ rest))
  | inr (d, e) ↦
      rw (e, read_digits)
        (IsBehind-more c _ rest (read_digits-IsBehind digit base ((val * base + d) % 2 ^ 64) rest))
]

pub read_word-IsBehind : (text : Str) → IsBehind (read_word text).1 text
unfolding read_word
read_word-IsBehind [] = IsBehind-all []
read_word-IsBehind (c ∷ rest) = elim (Bool-cases (is_ident_part c)) [
  | inl e ↦ rw (e, read_word) (IsBehind-more c _ rest (read_word-IsBehind rest))
  | inr e ↦ rw (e, read_word) (IsBehind-all (c ∷ rest))
]

StringByte-cases : (b : StringByte) → (b ≡ closing) ⊎ (b ≡ escaping) ⊎ (b ≡ plain)
StringByte-cases closing = inl refl
StringByte-cases escaping = inr (inl refl)
StringByte-cases plain = inr (inr refl)

pub read_string-IsBehind : (text : Str) → IsBehind (read_string text).1 text
unfolding read_string
read_string-IsBehind [] = IsBehind-all []
read_string-IsBehind (c ∷ []) = elim (StringByte-cases (string_byte c)) [
  | inl e ↦ rw (e, read_string) (IsBehind-more c [] [] (IsBehind-all []))
  | inr (inl e) ↦ rw (e, read_string) (IsBehind-more c [] [] (IsBehind-all []))
  | inr (inr e) ↦ rw (e, read_string) (IsBehind-more c [] [] (IsBehind-all []))
]
read_string-IsBehind (c ∷ d ∷ rest) = elim (StringByte-cases (string_byte c)) [
  | inl e ↦ rw (e, read_string) (IsBehind-more c _ _ (IsBehind-all (d ∷ rest)))
  | inr (inl e) ↦
      rw (e, read_string) (IsBehind-more c _ _ (IsBehind-more d _ rest (read_string-IsBehind rest)))
  | inr (inr e) ↦ rw (e, read_string) (IsBehind-more c _ _ (read_string-IsBehind (d ∷ rest)))
]

SuffixByte-cases : (b : SuffixByte) → (b ≡ letter_u) ⊎ (b ≡ letter_l) ⊎ (b ≡ other_byte)
SuffixByte-cases letter_u = inl refl
SuffixByte-cases letter_l = inr (inl refl)
SuffixByte-cases other_byte = inr (inr refl)

pub read_suffix-IsBehind : (s : Suffix) (text : Str) → IsBehind (read_suffix s text).1 text
unfolding read_suffix
read_suffix-IsBehind s [] = IsBehind-all []
read_suffix-IsBehind s (c ∷ []) = elim (SuffixByte-cases (suffix_byte c)) [
  | inl e ↦ rw (e, read_suffix) (IsBehind-more c [] [] (IsBehind-all []))
  | inr (inl e) ↦ rw (e, read_suffix) (IsBehind-more c [] [] (IsBehind-all []))
  | inr (inr e) ↦ rw (e, read_suffix) (IsBehind-all (c ∷ []))
]
read_suffix-IsBehind s (c ∷ d ∷ rest) = elim (SuffixByte-cases (suffix_byte c)) [
  | inl e ↦
      rw (e, read_suffix)
        (IsBehind-more c _ _ (read_suffix-IsBehind (record s { is_u = true }) (d ∷ rest)))
  | inr (inl e) ↦
      rw (e, read_suffix)
        (IsBehind-more c _ _ (elim (SuffixByte-cases (suffix_byte d)) [
          | inl f ↦ rw (f, read_suffix) (read_suffix-IsBehind (record s { is_l = true }) (d ∷ rest))
          | inr (inl f) ↦
              rw (f, read_suffix)
                (IsBehind-more d _ _ (read_suffix-IsBehind (record s { is_ll = true }) rest))
          | inr (inr f) ↦
              rw (f, read_suffix) (read_suffix-IsBehind (record s { is_l = true }) (d ∷ rest))
        ]))
  | inr (inr e) ↦ rw (e, read_suffix) (IsBehind-all (c ∷ d ∷ rest))
]
