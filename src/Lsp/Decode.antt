-- ===== src/Lsp/Decode.antt =====
-- The entries of semantic tokens give back the places of the tokens.
use alkyl.Prelude.{
  ℕ, ◌+◌, ◌%◌, ◌^◌, ◌<◌, List, [], ◌∷◌, ◌≡◌, refl, ap, inl, inr, false, none, some, All, ◌==◌,
  if◌then◌else◌, Bool-cases, Option-cases, arith,
}
use alkyl.Lexer.Token.{Token, Floats, token_eof}
use alkyl.Lsp.{
  Last, semantic_type, next_last, int_sub, entries, semantic_tokens, generate_semantic_tokens,
}

-- A token that is highlighted: its line, column, length and kind.
pub record Mark : Type 0 where
  pub line : ℕ
  pub col : ℕ
  pub length : ℕ
  pub kind : ℕ

-- How a client reads the entries, behind a token at `line` and `col`: a line and a column are
-- relative to the last token's, and the column just where the line is the same.
unfoldable pub marks_from : ℕ → ℕ → List ℕ → List Mark
marks_from line col (dl ∷ ds ∷ length ∷ kind ∷ modifiers ∷ more) =
    let new_line = (line + dl) % 2 ^ 32 in
    let new_col = if dl == 0 then (col + ds) % 2 ^ 32 else (1 + ds) % 2 ^ 32 in
    record { line = new_line; col = new_col; length = length; kind = kind }
    ∷ marks_from new_line new_col more
marks_from line col _ = []

module _ {F : Floats} where
  abbrev mark_of : Token F → ℕ → Mark
  mark_of t kind = record { line = t.line; col = t.col; length = t.length; kind = kind }

  -- The tokens that are highlighted, in their order.
  unfoldable pub highlighted : Last → List (Token F) → List Mark
  highlighted last [] = []
  highlighted last (t ∷ ts) = elim (semantic_type last t) [
    | none ↦ highlighted (next_last last t) ts
    | some kind ↦ mark_of t kind ∷ highlighted (next_last last t) ts
  ]

  -- Lines and columns are `int`s.
  abbrev pub HasPlace : Token F → Type 0
  HasPlace t = (t.line < 2 ^ 32) × (t.col < 2 ^ 32)

  semantic_tokens-marks :
      (last : Last) (line col : ℕ) (ts : List (Token F)) (hl : line < 2 ^ 32) (hc : col < 2 ^ 32)
      (h : All HasPlace ts)
      → marks_from line col (semantic_tokens last line col ts) ≡ highlighted last ts
  unfolding marks_from semantic_tokens entries int_sub highlighted
  semantic_tokens-marks last line col [] hl hc h = refl
  semantic_tokens-marks last line col (t ∷ ts) hl hc h =
      elim (Option-cases (semantic_type last t)) [
        | inl e ↦
            rw (e, semantic_tokens, highlighted)
              (semantic_tokens-marks (next_last last t) line col ts hl hc h.1)
        | inr (kind, e) ↦
            let dl = int_sub t.line line in
            let lines : (line + dl) % 2 ^ 32 ≡ t.line = omega (arith, hl, h.0.0) in
            let rest = semantic_tokens-marks (next_last last t) t.line t.col ts h.0.0 h.0.1 h.1 in
            elim (Bool-cases (dl == 0)) [
              | inl f ↦
                  let cols : (col + int_sub t.col col) % 2 ^ 32 ≡ t.col =
                    omega (arith, hc, h.0.1) in
                  rw (e, semantic_tokens, highlighted, f, lines, cols)
                    (ap (λ r. mark_of t kind ∷ r) rest)
              | inr f ↦
                  let cols : (1 + int_sub t.col 1) % 2 ^ 32 ≡ t.col = omega (arith, h.0.1) in
                  rw (e, semantic_tokens, highlighted, f, lines, cols)
                    (ap (λ r. mark_of t kind ∷ r) rest)
            ]
      ]

  -- A client that reads the entries gets back the lines, columns, lengths and kinds of the tokens
  -- that are highlighted, in their order.
  pub generate_semantic_tokens-marks :
      (ts : List (Token F)) (h : All HasPlace ts)
      → marks_from 1 1 (generate_semantic_tokens ts)
        ≡ highlighted (record { last_type = token_eof; last_was_type_keyword = false }) ts
  unfolding generate_semantic_tokens
  generate_semantic_tokens-marks ts h = semantic_tokens-marks _ 1 1 ts (omega arith) (omega arith) h
