-- ===== src/Lexer/Skip/Blanks.antt =====
-- White space and comments as a grammar, and that `skip_whitespace_and_comments` skips just these.
use alkyl.Prelude.{
  ℕ, zero, suc, ◌≤◌, [], ◌∷◌, ◌++◌, ◌≡◌, ◌≢◌, refl, sym, ap, ◌∙◌, ◌⊎◌, inl, inr, Bool, true, false,
  ◌&&◌, ◌||◌, Str, All, length, length-append, ◌==◌, Bool-cases, arith, codes,
}
use alkyl.Lexer.Token.{CommentStyle, comment_slash, comment_hash}
use alkyl.Lexer.Bytes.{is_space, peeks}
use alkyl.Lexer.Skip.{
  in_code, in_line, in_block, opens_line, skip_step, is_unclosed, skip,
  skip_whitespace_and_comments,
}

-- Whether a text holds the end of a block comment.
unfoldable pub has_close : Str → Bool
has_close [] = false
has_close (c ∷ text) = c == b'*' && peeks b'/' text || has_close text

-- A comment up to the end of its line.
abbrev pub IsLineComment : CommentStyle → Str → Type 0
IsLineComment comment_slash w = (body : Str) × (w ≡ codes "//" ++ body) × All (λ c. c ≢ b'\n') body
IsLineComment comment_hash w = (body : Str) × (w ≡ codes "#" ++ body) × All (λ c. c ≢ b'\n') body

-- A comment without its end, which does not hold it sooner.
abbrev pub IsBlockComment : Str → Type 0
IsBlockComment body = has_close (body ++ b'*' ∷ []) ≡ false

-- Whether a text begins with white space or the start of a comment.
abbrev pub starts_blank : CommentStyle → Str → Bool
starts_blank style [] = false
starts_blank comment_slash (c ∷ rest) =
    is_space c || c == b'/' && (peeks b'/' rest || peeks b'*' rest)
starts_blank comment_hash (c ∷ rest) = is_space c || c == b'#' || c == b'/' && peeks b'*' rest

-- `Skips style text rest unclosed`: `text` is white space and comments, and then `rest`; or it ends
-- in a comment, and the flag says that this is a block comment that is not closed.
pub data Skips (style : CommentStyle) : Str → Str → Bool → Type 0 where
  skips_nothing : {text : Str} → starts_blank style text ≡ false → Skips style text text false
  skips_space :
      {c : ℕ} {text rest : Str} {unclosed : Bool}
      → is_space c ≡ true
      → Skips style text rest unclosed
      → Skips style (c ∷ text) rest unclosed
  skips_line :
      (w : Str) {text rest : Str} {unclosed : Bool}
      → IsLineComment style w
      → Skips style text rest unclosed
      → Skips style (w ++ b'\n' ∷ text) rest unclosed
  ends_in_line : (w : Str) → IsLineComment style w → Skips style w [] false
  skips_block :
      (body : Str) {text rest : Str} {unclosed : Bool}
      → IsBlockComment body
      → Skips style text rest unclosed
      → Skips style (codes "/*" ++ body ++ codes "*/" ++ text) rest unclosed
  ends_in_block : (body : Str) → has_close body ≡ false → Skips style (codes "/*" ++ body) [] true

-- The rest of a line: there is a next one, or it is the last.
skip-line :
    (style : CommentStyle) (text : Str)
    → (All (λ c. c ≢ b'\n') text × (skip style in_line text ≡ ([], false)))
      ⊎ ((body : Str) × (next : Str) × (text ≡ body ++ b'\n' ∷ next)
          × All (λ c. c ≢ b'\n') body
          × (skip style in_line text ≡ skip style in_code next))
unfolding skip skip_step
skip-line style [] = inl (tt, refl)
skip-line style (c ∷ text) = elim (Bool-cases (c == b'\n')) [
  | inl e ↦ inr ([], text, ap (λ d. d ∷ text) (ground (arith, e)), tt, rw (e, skip))
  | inr e ↦
      let apart : c ≢ b'\n' = (λ q. ground (arith, e, q)) in
      elim (skip-line style text) [
        | inl (all, same) ↦ inl ((apart, all), rw (e, skip) same)
        | inr (body, next, split, all, same) ↦
            inr (c ∷ body, next, ap (λ s. c ∷ s) split, (apart, all), rw (e, skip) same)
      ]
]

peeks-close :
    (body next : Str) → peeks b'/' (body ++ b'*' ∷ []) ≡ peeks b'/' (body ++ codes "*/" ++ next)
peeks-close [] next = refl
peeks-close (c ∷ body) next = refl

-- The rest of a block comment: it is closed, or not.
skip-block :
    (style : CommentStyle) (text : Str)
    → ((has_close text ≡ false) × (skip style in_block text ≡ ([], true)))
      ⊎ ((body : Str) × (next : Str) × (text ≡ body ++ codes "*/" ++ next)
          × IsBlockComment body
          × (skip style in_block text ≡ skip style in_code next))
unfolding skip skip_step is_unclosed has_close
skip-block style [] = inl (refl, refl)
skip-block style (c ∷ []) = elim (Bool-cases (c == b'*')) [
  | inl e ↦ inl (rw e, rw (e, skip))
  | inr e ↦ inl (rw e, rw (e, skip))
]
skip-block style (c ∷ d ∷ text) = elim (Bool-cases (c == b'*' && d == b'/')) [
  | inl e ↦
      let star : c ≡ b'*' = ground (arith, e) in
      let slash : d ≡ b'/' = ground (arith, e) in
      inr ([], text, rw (star, slash), refl, rw (e, skip))
  | inr e ↦ elim (skip-block style (d ∷ text)) [
    | inl (left, same) ↦ inl (rw e left, rw (e, skip) same)
    | inr (body, next, split, whole, same) ↦
        let slash : peeks b'/' (body ++ b'*' ∷ []) ≡ (d == b'/') =
          peeks-close body next ∙ ap (peeks b'/') (sym split) in
        inr (c ∷ body, next, ap (λ s. c ∷ s) split, rw (slash, e) whole, rw (e, skip) same)
  ]
]

-- Where a line comment opens.
opens_line-IsLineComment :
    (style : CommentStyle) (c : ℕ) (body : Str) (h : opens_line style c body ≡ true)
    → All (λ c. c ≢ b'\n') body
    → IsLineComment style (c ∷ body)
unfolding opens_line
opens_line-IsLineComment comment_slash c [] h all = absurd (ground (arith, h))
opens_line-IsLineComment comment_slash c (d ∷ body) h all = (
  body,
  (let first : c ≡ b'/' = ground (arith, h) in
      let second : d ≡ b'/' = ground (arith, h) in rw (first, second)),
  all.1,
)
opens_line-IsLineComment comment_hash c body h all =
    (body, ap (λ d. d ∷ body) (ground (arith, h)), all)

opens_line-next :
    (style : CommentStyle) (c : ℕ) (body next : Str)
    → opens_line style c (body ++ b'\n' ∷ next) ≡ opens_line style c body
unfolding opens_line
opens_line-next comment_slash c [] next = refl
opens_line-next comment_slash c (d ∷ body) next = refl
opens_line-next comment_hash c body next = refl

starts_blank-nothing :
    (style : CommentStyle) (c : ℕ) (rest : Str)
    → is_space c ≡ false
    → opens_line style c rest ≡ false
    → c == b'/' && peeks b'*' rest ≡ false
    → starts_blank style (c ∷ rest) ≡ false
unfolding opens_line
starts_blank-nothing comment_slash c rest e f g = ground (arith, e, f, g)
starts_blank-nothing comment_hash c rest e f g = ground (arith, e, f, g)

module _ (style : CommentStyle) where
  abbrev Skipped : Str → Type 0
  Skipped text = let r = skip style in_code text in Skips style text r.0 r.1

  in_code-line :
      (c : ℕ) (rest : Str)
      → is_space c ≡ false
      → opens_line style c rest ≡ true
      → skip style in_code (c ∷ rest) ≡ skip style in_line rest
  unfolding skip skip_step
  in_code-line c rest e f = rw (e, f, skip)

  in_code-block :
      (c d : ℕ) (rest : Str)
      → is_space c ≡ false
      → opens_line style c (d ∷ rest) ≡ false
      → c == b'/' && d == b'*' ≡ true
      → skip style in_code (c ∷ d ∷ rest) ≡ skip style in_block rest
  unfolding skip skip_step
  in_code-block c d rest e f g = rw (e, f, g, skip)

  -- A line comment, from what holds of shorter texts.
  line-Skipped :
      (c : ℕ) (rest : Str) (shorter : (text : Str) → length text ≤ length rest → Skipped text)
      → is_space c ≡ false
      → opens_line style c rest ≡ true
      → Skipped (c ∷ rest)
  line-Skipped c rest shorter e f = elim (skip-line style rest) [
    | inl (all, same) ↦
        rw (in_code-line c rest e f ∙ same)
          (ends_in_line (c ∷ rest) (opens_line-IsLineComment style c rest f all))
    | inr (body, next, split, all, same) ↦
        let opens =
          sym (opens_line-next style c body next) ∙ ap (opens_line style c) (sym split) ∙ f in
        rw (in_code-line c rest e f ∙ same, split)
          (skips_line (c ∷ body) (opens_line-IsLineComment style c body opens all)
            (shorter next (omega (arith, ap length split, length-append body (b'\n' ∷ next)))))
  ]

  -- A block comment, behind its opening.
  block-Skipped :
      (c : ℕ) (rest : Str) (shorter : (text : Str) → length text ≤ length rest → Skipped text)
      → is_space c ≡ false
      → opens_line style c rest ≡ false
      → c == b'/' && peeks b'*' rest ≡ true
      → Skipped (c ∷ rest)
  block-Skipped c [] shorter e f g = absurd (ground (arith, g))
  block-Skipped c (d ∷ rest) shorter e f g =
      let first : c ≡ b'/' = ground (arith, g) in
      let second : d ≡ b'*' = ground (arith, g) in
      elim (skip-block style rest) [
        | inl (left, same) ↦
            rw (in_code-block c d rest e f g ∙ same, first, second) (ends_in_block rest left)
        | inr (body, next, split, whole, same) ↦
            rw (in_code-block c d rest e f g ∙ same, first, second, split)
              (skips_block body whole (
                shorter next (
                  omega (
                    arith,
                    ap length split,
                    length-append (body ++ codes "*/") next,
                    length-append body (codes "*/"),
                  ))))
      ]

  skip-Skipped : (n : ℕ) (text : Str) → length text ≤ n → Skipped text
  unfolding skip skip_step is_unclosed
  skip-Skipped n [] h = skips_nothing refl
  skip-Skipped zero (c ∷ rest) h = absurd (omega (arith, h))
  skip-Skipped (suc n) (c ∷ rest) h =
      let shorter : (text : Str) → length text ≤ length rest → Skipped text =
        (λ text l. skip-Skipped n text (omega (arith, l, h))) in
      elim (Bool-cases (is_space c)) [
        | inl e ↦ rw (e, skip) (skips_space e (skip-Skipped n rest (omega (arith, h))))
        | inr e ↦ elim (Bool-cases (opens_line style c rest)) [
          | inl f ↦ line-Skipped c rest shorter e f
          | inr f ↦ elim (Bool-cases (c == b'/' && peeks b'*' rest)) [
            | inl g ↦ block-Skipped c rest shorter e f g
            | inr g ↦ rw (e, f, g, skip) (skips_nothing (starts_blank-nothing style c rest e f g))
          ]
        ]
      ]

-- What is skipped is white space and whole comments, up to a byte that begins neither, or up to
-- the end of the source, where a comment may be open; just an open block comment is reported.
pub skip_whitespace_and_comments-Skips :
    (style : CommentStyle) (text : Str)
    → (let r = skip_whitespace_and_comments style text in Skips style text r.0 r.1)
unfolding skip_whitespace_and_comments
skip_whitespace_and_comments-Skips style text = skip-Skipped style (length text) text (omega arith)
