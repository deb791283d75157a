-- ===== src/Prelude/Filters.antt =====
-- Lists of which just the elements with a property are kept.
use Prim.Native.Nat.{ℕ, suc, ◌+◌, ◌<◌, ◌≤◌}
use mathlib.Core.Path.{◌≡◌}
use mathlib.Core.Logic.{◌↔◌, inl, inr}
use mathlib.Core.Bool.{Bool, true}
use mathlib.Core.List.{List, [], ◌∷◌, map}
use native.Mathlib.Omega.{arith}
use alkyl.Prelude.Tests.{Bool-cases}
use alkyl.Prelude.Lists.{Any, keep_if, length}

-- `Sieve P xs ys`: `ys` are the elements of `xs` that satisfy `P`, in their order.
pub data Sieve {ℓ} {A : Type ℓ} (P : A → Type 0) : List A → List A → Type ℓ where
  done : Sieve P [] []
  kept : {x : A} {xs ys : List A} → P x → Sieve P xs ys → Sieve P (x ∷ xs) (x ∷ ys)
  removed : {x : A} {xs ys : List A} → ¬ P x → Sieve P xs ys → Sieve P (x ∷ xs) ys

pub keep_if-Sieve {ℓ} :
    {A : Type ℓ} {P : A → Type 0} (test : A → Bool) (h : (x : A) → (test x ≡ true) ↔ P x)
    (xs : List A)
    → Sieve P xs (keep_if test xs)
keep_if-Sieve test h [] = done
keep_if-Sieve test h (x ∷ xs) = elim (Bool-cases (test x)) [
  | inl e ↦ rw e (kept ((h x).0 e) (keep_if-Sieve test h xs))
  | inr e ↦ rw e (removed (λ p. ground (arith, (h x).1 p, e)) (keep_if-Sieve test h xs))
]

pub Any-iff {ℓ} :
    {A : Type ℓ} {P Q : A → Type 0} (h : (x : A) → P x ↔ Q x) (xs : List A) → Any P xs ↔ Any Q xs
Any-iff h [] = (λ e. e, λ e. e)
Any-iff h (x ∷ xs) = ground (arith, h x, Any-iff h xs)

-- As `Sieve`, for a property of positions; the first element of `xs` is at the given one.
pub data SieveFrom {ℓ} {A : Type ℓ} (P : ℕ → Type 0) : ℕ → List A → List A → Type ℓ where
  done : {k : ℕ} → SieveFrom P k [] []
  kept :
      {k : ℕ} {x : A} {xs ys : List A}
      → P k
      → SieveFrom P (suc k) xs ys
      → SieveFrom P k (x ∷ xs) (x ∷ ys)
  removed :
      {k : ℕ} {x : A} {xs ys : List A}
      → ¬ P k
      → SieveFrom P (suc k) xs ys
      → SieveFrom P k (x ∷ xs) ys

pub SieveFrom-length {ℓ} :
    {A : Type ℓ} {P : ℕ → Type 0} {k : ℕ} {xs ys : List A} (h : SieveFrom P k xs ys)
    → length ys ≤ length xs
SieveFrom-length (SieveFrom.done) = omega arith
SieveFrom-length (SieveFrom.kept p h) = omega (arith, SieveFrom-length h)
SieveFrom-length (SieveFrom.removed p h) = omega (arith, SieveFrom-length h)

pub SieveFrom-all {ℓ} :
    {A : Type ℓ} {P : ℕ → Type 0} (k : ℕ) (xs : List A) (h : (j : ℕ) → j < k + length xs → P j)
    → SieveFrom P k xs xs
SieveFrom-all k [] h = SieveFrom.done
SieveFrom-all k (x ∷ xs) h =
    SieveFrom.kept (h k (omega arith)) (SieveFrom-all (suc k) xs (λ j l. h j (omega (arith, l))))

-- Two lists of one length whose elements at the same positions are related.
pub data Both {ℓ} {A : Type ℓ} (R : A → A → Type 0) : List A → List A → Type ℓ where
  none_left : Both R [] []
  next : {x y : A} {xs ys : List A} → R x y → Both R xs ys → Both R (x ∷ xs) (y ∷ ys)

pub Both-map {ℓ} :
    {A : Type ℓ} {R : A → A → Type 0} (f : A → A) (h : (x : A) → R x (f x)) (xs : List A)
    → Both R xs (map f xs)
Both-map f h [] = none_left
Both-map f h (x ∷ xs) = next (h x) (Both-map f h xs)
