-- ===== src/Examples/InternerRuns.antt =====
-- src/common/intern.c on a table that has not been initialised: "x" stands at the addresses 1 to 5.
use alkyl.Prelude.{
  ℕ, ◌≡◌, ◌≢◌, ◌↔◌, refl, Option, none, some, [], ◌∷◌, Str, ok, leb, if◌then◌else◌, arith,
}
use alkyl.Hashmap.Map.{HashMap}
use alkyl.Interner.{intern_string, intern_string_len}
use alkyl.Interner.Canonical.{
  IsFresh, Interned, none-IsInterner, intern_string-Interned, intern_string-intern_string_len,
}

abbrev memory : ℕ → Str
memory a = if leb a 5 then 120 ∷ [] else 121 ∷ []

abbrev one : ℕ
one = 1

live : one ≢ 0
live e = omega (arith, e)

copies-IsFresh : IsFresh memory (120 ∷ []) 2 3
copies-IsFresh = (λ e. omega (arith, e), refl, (λ e. omega (arith, e), refl))

intern_string-Interned_example :
    (k : ℕ) × (after : Option HashMap) × (intern_string memory none 1 2 3 ≡ some (k, after))
    × Interned memory none (memory 1) k after
intern_string-Interned_example =
    intern_string-Interned memory none (none-IsInterner memory) (omega arith) 1 live 2 3
      copies-IsFresh

intern_string-intern_string_len_example :
    (k : ℕ) × (after : Option HashMap) × (k1 : ℕ) × (after1 : Option HashMap) × (intern_string
        memory none 1 2 3
      ≡ some (k, after))
    × (intern_string_len memory after 1 (120 ∷ []) 2 3 ≡ some (ok (k1, after1)))
    × ((k ≡ k1) ↔ (memory 1 ≡ 120 ∷ []))
intern_string-intern_string_len_example =
    intern_string-intern_string_len memory none 1 2 3 1 2 3 (120 ∷ []) (none-IsInterner memory)
      (omega arith) live live copies-IsFresh copies-IsFresh
