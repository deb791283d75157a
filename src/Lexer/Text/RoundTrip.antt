-- ===== src/Lexer/Text/RoundTrip.antt =====
-- A string literal that `sb_append_escaped` has written is read back.
use alkyl.Prelude.{
  ℕ, [], ◌∷◌, ◌++◌, ◌≡◌, ◌≢◌, refl, sym, ap, ◌∙◌, inl, inr, false, some, Str, All, ◌==◌, Bool-cases,
  arith, append_assoc,
}
use alkyl.Lexer.Text.{
  escaped, plain, string_byte, read_string, until_zero, consume_string_content, escape,
  sb_append_escaped,
}

-- The bytes of a string that are read, and what is left, with a byte before them.
abbrev before : ℕ → Str × Str → Str × Str
before c r = (c ∷ r.0, r.1)

read_string-plain :
    (c : ℕ) (text : Str)
    → string_byte c ≡ plain
    → read_string (c ∷ text) ≡ before c (read_string text)
unfolding read_string
read_string-plain c [] e = rw (e, read_string)
read_string-plain c (d ∷ text) e = rw (e, read_string)

read_string-escape :
    (d : ℕ) (text : Str) → read_string (b'\\' ∷ d ∷ text) ≡ before (escaped d) (read_string text)
unfolding read_string string_byte
read_string-escape d text = refl

-- One byte, as it is written.
escape-read : (c : ℕ) (text : Str) → read_string (escape c ++ text) ≡ before c (read_string text)
unfolding escape escaped string_byte
escape-read c text = elim (Bool-cases (c == b'\n')) [
  | inl e ↦ rw e (written b'n' b'\n' refl (ground (arith, e)))
  | inr e ↦ elim (Bool-cases (c == b'\t')) [
    | inl f ↦ rw (e, f) (written b't' b'\t' refl (ground (arith, f)))
    | inr f ↦ elim (Bool-cases (c == b'\r')) [
      | inl g ↦ rw (e, f, g) (written b'r' b'\r' refl (ground (arith, g)))
      | inr g ↦ elim (Bool-cases (c == b'\\')) [
        | inl h ↦ rw (e, f, g, h) (written b'\\' b'\\' refl (ground (arith, h)))
        | inr h ↦ elim (Bool-cases (c == b'"')) [
          | inl i ↦ rw (e, f, g, h, i) (written b'"' b'"' refl (ground (arith, i)))
          | inr i ↦ rw (e, f, g, h, i) (read_string-plain c text (by_itself h i))
        ]
      ]
    ]
  ]
]
  where
    written :
        (d v : ℕ)
        → escaped d ≡ v
        → c ≡ v
        → read_string (b'\\' ∷ d ∷ text) ≡ before c (read_string text)
    written d v e f = read_string-escape d text ∙ ap (λ x. before x (read_string text)) (e ∙ sym f)

    by_itself : c == b'\\' ≡ false → c == b'"' ≡ false → string_byte c ≡ plain
    by_itself h i = rw (h, i)

until_zero-all : (s : Str) → All (λ c. c ≢ 0) s → until_zero s ≡ s
unfolding until_zero
until_zero-all [] h = refl
until_zero-all (c ∷ s) h = elim (Bool-cases (c == 0)) [
  | inl e ↦ absurd (h.0 (ground (arith, e)))
  | inr e ↦ rw e (ap (λ t. c ∷ t) (until_zero-all s h.1))
]

read_string-escaped :
    (s rest : Str) → read_string (sb_append_escaped (some s) ++ b'"' ∷ rest) ≡ (s, rest)
unfolding sb_append_escaped read_string string_byte
read_string-escaped [] [] = refl
read_string-escaped [] (d ∷ rest) = refl
read_string-escaped (c ∷ s) rest =
    let more = sb_append_escaped (some s) in
    ap read_string (append_assoc (escape c) more (b'"' ∷ rest))
    ∙ escape-read c (more ++ b'"' ∷ rest)
    ∙ ap (before c) (read_string-escaped s rest)

-- A string without a zero byte that is written with its escapes, and with a quote behind it, is
-- read back as the content of a literal, and the text behind the quote is left.
pub consume_string_content-escaped :
    (s rest : Str)
    → All (λ c. c ≢ 0) s
    → consume_string_content (sb_append_escaped (some s) ++ b'"' ∷ rest) ≡ (s, rest)
unfolding consume_string_content
consume_string_content-escaped s rest h =
    ap (λ r. (until_zero r.0, r.1)) (read_string-escaped s rest)
    ∙ ap (λ x. (x, rest)) (until_zero-all s h)
