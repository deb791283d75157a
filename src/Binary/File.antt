-- ===== src/Binary/File.antt =====
-- The reader's `FILE *`: the bytes that have not been read yet. A short `fread` takes what is left.
use alkyl.Prelude.{
  ℕ, zero, suc, ◌≡◌, refl, List, [], ◌∷◌, ◌++◌, append_assoc, map, Run, ok, bind, length, All, take,
  drop,
}

abbrev pub Read {ℓ} : Type ℓ → Type ℓ
Read A = List ℕ → Run (A × List ℕ)

abbrev pub pure {ℓ} : {A : Type ℓ} → A → Read A
pure a file = ok (a, file)

infixl 5 ◌>>=◌
abbrev pub ◌>>=◌ {ℓ κ} : {A : Type ℓ} {B : Type κ} → Read A → (A → Read B) → Read B
◌>>=◌ m f file = bind (m file) (λ (a, rest). f a rest)

-- `fread (buf, 1, n, file)`: the bytes that it stores
abbrev pub fread : ℕ → Read (List ℕ)
fread n file = ok (take n file, drop n file)

-- `for (j = 0; j < n; j++)` around a read, collecting what is read
unfoldable pub read_list {ℓ} : {A : Type ℓ} → ℕ → Read A → Read (List A)
read_list zero p = pure []
read_list (suc n) p = do x ← p; xs ← read_list n p; pure (x ∷ xs)

-- The bytes of a loop that writes each element of a list.
unfoldable pub write_list {ℓ} : {A : Type ℓ} → (A → List ℕ) → List A → List ℕ
write_list w [] = []
write_list w (x ∷ xs) = w x ++ write_list w xs

-- `p` reads `a` off `bytes` and leaves what follows them.
abbrev pub Reads {ℓ} : {A : Type ℓ} → Read A → List ℕ → A → Type ℓ
Reads p bytes a = (rest : List ℕ) → p (bytes ++ rest) ≡ ok (a, rest)

pub Reads-list {ℓ κ} :
    {A : Type ℓ} {B : Type κ} (p : Read B) (w : A → List ℕ) (k : A → B) (xs : List A)
    → All (λ x. Reads p (w x) (k x)) xs
    → Reads (read_list (length xs) p) (write_list w xs) (map k xs)
unfolding read_list write_list
Reads-list p w k [] h rest = refl
Reads-list p w k (x ∷ xs) h rest =
    rw (append_assoc, h.0 (write_list w xs ++ rest), Reads-list p w k xs h.1 rest)
