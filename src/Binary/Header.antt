-- ===== src/Binary/Header.antt =====
-- Which files `alir_read_binary` refuses.
use alkyl.Prelude.{
  ℕ, ◌≡◌, ◌≢◌, refl, ap, sym, ◌∙◌, ◌↔◌, ◌⊎◌, inl, inr, Option, none, some, List, [], ◌∷◌, ◌++◌,
  length, take, drop, take-append, drop-append, take-append-drop, same_text, same_text_iff, ok,
  bind, Run-cases, Bool-cases,
}
use alkyl.Ir.{Module}
use alkyl.Binary.File.{Read}
use alkyl.Binary.Write.{magic, magic2, version}
use alkyl.Binary.Read.{br_module, expect, br_found, br_file, alir_read_binary}

-- The file begins with the two magic numbers and the version.
abbrev pub HasHeader : List ℕ → Type 0
HasHeader file = (rest : List ℕ) × (file ≡ magic2 ++ (magic ++ ((version ∷ []) ++ rest)))

expect-append :
    (bytes rest : List ℕ) (k : Read (Option Module)) → expect bytes k (bytes ++ rest) ≡ k rest
unfolding expect
expect-append bytes rest k =
    rw (take-append bytes rest, drop-append bytes rest, (same_text_iff bytes bytes).1 refl)

expect-cases :
    (bytes file : List ℕ) (k : Read (Option Module))
    → ((rest : List ℕ) × (file ≡ bytes ++ rest))
      ⊎ ((rest : List ℕ) × (expect bytes k file ≡ ok (none, rest)))
unfolding expect
expect-cases bytes file k = elim (Bool-cases (same_text (take (length bytes) file) bytes)) [
  | inr other ↦ inr (drop (length bytes) file, rw other)
  | inl same ↦ inl (
    drop (length bytes) file,
    sym (take-append-drop (length bytes) file)
        ∙ ap (λ t. t ++ drop (length bytes) file) ((same_text_iff _ bytes).0 same),
  )
]

br_file-HasHeader :
    (file : List ℕ) → HasHeader file ⊎ ((rest : List ℕ) × (br_file file ≡ ok (none, rest)))
unfolding br_file
br_file-HasHeader file =
    elim (expect-cases magic2 file (expect magic (expect (version ∷ []) br_found))) [
      | inr refused ↦ inr refused
      | inl (a, first) ↦ elim (expect-cases magic a (expect (version ∷ []) br_found)) [
        | inr (rest, e) ↦ inr (rest, ap (λ f. br_file f) first ∙ (expect-append magic2 a _ ∙ e))
        | inl (b, second) ↦ elim (expect-cases (version ∷ []) b br_found) [
          | inr (rest, e) ↦ inr (
            rest,
            ap (λ f. br_file f) (first ∙ ap (λ f. magic2 ++ f) second)
                ∙ (expect-append magic2 (magic ++ b) _ ∙ (expect-append magic b _ ∙ e)),
          )
          | inl (c, third) ↦ inl (c, rw (first, second, third))
        ]
      ]
    ]

br_file-append :
    (rest : List ℕ) → br_file (magic2 ++ (magic ++ ((version ∷ []) ++ rest))) ≡ br_found rest
unfolding br_file
br_file-append rest =
    expect-append magic2 (magic ++ ((version ∷ []) ++ rest)) _
    ∙ (expect-append magic ((version ∷ []) ++ rest) _ ∙ expect-append (version ∷ []) rest br_found)

br_found-ne-none : (rest : List ℕ) → bind (br_found rest) (λ (m, file). ok m) ≢ ok none
unfolding br_found
br_found-ne-none rest e = elim (Run-cases (br_module rest)) [
  | inl (a, run) ↦ cc (rw run at e)
  | inr (a, run) ↦ cc (rw run at e)
]

-- `alir_read_binary` returns NULL on a file exactly when the file does not begin with the two magic
-- numbers and the version.
pub alir_read_binary-eq-none :
    (file : List ℕ) → (alir_read_binary (some file) ≡ ok none) ↔ (¬ HasHeader file)
unfolding alir_read_binary
alir_read_binary-eq-none file = (
  λ e (rest, h). br_found-ne-none rest (rw (h, br_file-append rest) at e),
  λ h. elim (br_file-HasHeader file) [ inl has ↦ absurd (h has) | inr (rest, e) ↦ rw e ],
)
