-- ===== src/Lexer/Symbol/Longest.antt =====
-- The longest of a list of spellings that a text begins with, and what `lex_symbol` finds.
use alkyl.Prelude.{
  ℕ, ◌≤◌, List, [], ◌∷◌, ◌++◌, ◌≡◌, ◌≢◌, refl, ap, inl, inr, Option, none, some, Str, Any, All,
  All-imp, length, codes, ◌==◌, if◌then◌else◌, Bool-cases, arith,
}
use alkyl.Lexer.Token.{TokenType}
use alkyl.Lexer.Symbol.{Scan, emit, on, on_equals, first_case}

abbrev pub Spelling : Type 0
Spelling = Str × TokenType

abbrev pub Begins : Str → Str → Type 0
Begins text w = (rest : Str) × (w ++ rest ≡ text)

-- `t` is spelt as the text begins, up to `rest`, and no spelling that the text begins with is longer.
pub record IsLongest (table : List Spelling) (text : Str) (r : TokenType × Str) : Type 0 where
  pub spelling : Str
  pub spelt : Any (λ e. e ≡ (spelling, r.0)) table
  pub joined : spelling ++ r.1 ≡ text
  pub most : All (λ e. Begins text e.0 → length e.0 ≤ length spelling) table

abbrev pub Finds : List Spelling → Str → Option (TokenType × Str) → Type 0
Finds table text none = All (λ e. ¬ Begins text e.0) table
Finds table text (some r) = IsLongest table text r

-- The spellings that begin with a byte, without it; and the others.
abbrev pub tails : ℕ → List Spelling → List Spelling
tails c [] = []
tails c (([], t) ∷ table) = tails c table
tails c ((d ∷ w, t) ∷ table) = let rest = tails c table in if d == c then (w, t) ∷ rest else rest

abbrev pub others : ℕ → List Spelling → List Spelling
others c [] = []
others c (([], t) ∷ table) = ([], t) ∷ others c table
others c ((d ∷ w, t) ∷ table) =
    let rest = others c table in if d == c then rest else (d ∷ w, t) ∷ rest

module _ (c : ℕ) (P : Spelling → Type 0) where
  All-others :
      (h : (w : Str) (t : TokenType) → P (c ∷ w, t)) (table : List Spelling)
      → All P (others c table)
      → All P table
  All-others h [] a = tt
  All-others h (([], t) ∷ table) a = (a.0, All-others h table a.1)
  All-others h ((d ∷ w, t) ∷ table) a = elim (Bool-cases (d == c)) [
    | inl e ↦
        let same : d ≡ c = ground (arith, e) in (rw same (h w t), All-others h table (rw e at a))
    | inr e ↦ let a = rw e at a in (a.0, All-others h table a.1)
  ]

  All-tails :
      (h : (t : TokenType) → P ([], t))
      (g : (d : ℕ) (w : Str) (t : TokenType) → d ≢ c → P (d ∷ w, t)) (table : List Spelling)
      → All (λ e. P (c ∷ e.0, e.1)) (tails c table)
      → All P table
  All-tails h g [] a = tt
  All-tails h g (([], t) ∷ table) a = (h t, All-tails h g table a)
  All-tails h g ((d ∷ w, t) ∷ table) a = elim (Bool-cases (d == c)) [
    | inl e ↦
        let same : d ≡ c = ground (arith, e) in
        let a = rw e at a in (rw same a.0, All-tails h g table a.1)
    | inr e ↦ (g d w t (ground (arith, e)), All-tails h g table (rw e at a))
  ]

Any-others :
    (c : ℕ) (x : Spelling) (table : List Spelling)
    → Any (λ e. e ≡ x) (others c table)
    → Any (λ e. e ≡ x) table
Any-others c x [] a = a
Any-others c x (([], t) ∷ table) (inl e) = inl e
Any-others c x (([], t) ∷ table) (inr a) = inr (Any-others c x table a)
Any-others c x ((d ∷ w, t) ∷ table) a = elim (Bool-cases (d == c)) [
  | inl e ↦ inr (Any-others c x table (rw e at a))
  | inr e ↦ elim (rw e at a) [ inl q ↦ inl q | inr q ↦ inr (Any-others c x table q) ]
]

Any-tails :
    (c : ℕ) (w : Str) (t : TokenType) (table : List Spelling)
    → Any (λ e. e ≡ (w, t)) (tails c table)
    → Any (λ e. e ≡ (c ∷ w, t)) table
Any-tails c w t [] a = a
Any-tails c w t (([], u) ∷ table) a = inr (Any-tails c w t table a)
Any-tails c w t ((d ∷ v, u) ∷ table) a = elim (Bool-cases (d == c)) [
  | inl e ↦ elim (rw e at a) [
    | inl q ↦ inl (ground (arith, e, ap (λ p. p.0) q, ap (λ p. p.1) q))
    | inr q ↦ inr (Any-tails c w t table q)
  ]
  | inr e ↦ inr (Any-tails c w t table (rw e at a))
]

pub Begins-tail : (c d : ℕ) (w text : Str) → Begins (c ∷ text) (d ∷ w) → (d ≡ c) × Begins text w
Begins-tail c d w text (rest, e) = (ground (arith, e), (rest, ground (arith, e)))

pub not-Begins : (d : ℕ) (w : Str) → ¬ Begins [] (d ∷ w)
not-Begins d w (rest, e) = cc

pub emit-IsLongest : (t : TokenType) (text : Str) → IsLongest (([], t) ∷ []) text (emit t text)
unfolding emit
emit-IsLongest t text = record {
  spelling = [];
  spelt = inl refl;
  joined = refl;
  most = ((λ _. omega arith), tt);
}

-- A byte that is read, and a byte that is not.
module _ (c : ℕ) (table : List Spelling) where
  pub read-IsLongest :
      (text : Str) (r : TokenType × Str)
      → IsLongest (tails c table) text r
      → IsLongest table (c ∷ text) r
  read-IsLongest text r l = record {
    spelling = c ∷ l.spelling;
    spelt = Any-tails c l.spelling r.0 table l.spelt;
    joined = ap (λ s. c ∷ s) l.joined;
    most =
        All-tails c (λ e. Begins (c ∷ text) e.0 → length e.0 ≤ length (c ∷ l.spelling))
          (λ t b. omega arith) (λ d v t apart b. absurd (apart (Begins-tail c d v text b).0)) table
          (All-imp (λ e h b. omega (arith, h (Begins-tail c c e.0 text b).1)) (tails c table)
            l.most);
  }

  pub skip-IsLongest :
      (text : Str) (r : TokenType × Str) (h : (w : Str) → ¬ Begins text (c ∷ w))
      → IsLongest (others c table) text r
      → IsLongest table text r
  skip-IsLongest text r h l = record {
    spelling = l.spelling;
    spelt = Any-others c (l.spelling, r.0) table l.spelt;
    joined = l.joined;
    most =
        All-others c (λ e. Begins text e.0 → length e.0 ≤ length l.spelling)
          (λ v t b. absurd (h v b)) table l.most;
  }

  pub on-IsLongest :
      (then_next otherwise : Scan)
      → ((text : Str) → IsLongest (tails c table) text (then_next text))
      → ((text : Str) → IsLongest (others c table) text (otherwise text))
      → (text : Str) → IsLongest table text (on c then_next otherwise text)
  unfolding on
  on-IsLongest then_next otherwise f g [] = skip-IsLongest [] (otherwise []) (not-Begins c) (g [])
  on-IsLongest then_next otherwise f g (d ∷ rest) = elim (Bool-cases (d == c)) [
    | inl e ↦
        let same : d ≡ c = ground (arith, e) in
        rw e (rw same (read-IsLongest rest (then_next rest) (f rest)))
    | inr e ↦ rw e (
        skip-IsLongest (d ∷ rest) (otherwise (d ∷ rest))
          (λ w b. ground (arith, e, (Begins-tail d c w rest b).0)) (g (d ∷ rest)))
  ]

-- A scan for the spellings that begin with each first byte, and no others left over.
infixr 5 ◌▹◌
pub data Covers : List Spelling → List (ℕ × Scan) → Type 0 where
  covered : Covers [] []
  ◌▹◌ :
      {c : ℕ} {scan : Scan} {table : List Spelling} {cases : List (ℕ × Scan)}
      → ((text : Str) → IsLongest (tails c table) text (scan text))
      → Covers (others c table) cases
      → Covers table ((c, scan) ∷ cases)

Finds-others :
    (c : ℕ) (table : List Spelling) (text : Str) (r : Option (TokenType × Str))
    (h : (w : Str) → ¬ Begins text (c ∷ w))
    → Finds (others c table) text r
    → Finds table text r
Finds-others c table text none h f = All-others c (λ e. ¬ Begins text e.0) (λ w t. h w) table f
Finds-others c table text (some r) h f = skip-IsLongest c table text r h f

first_case-end : (cases : List (ℕ × Scan)) → first_case cases [] ≡ none
unfolding first_case
first_case-end [] = refl
first_case-end (k ∷ cases) = refl

pub first_case-Finds :
    {table : List Spelling} {cases : List (ℕ × Scan)} (h : Covers table cases) (text : Str)
    → Finds table text (first_case cases text)
unfolding first_case
first_case-Finds covered text = tt
first_case-Finds (◌▹◌ {c} {scan} {table} {cases} f h) [] =
    Finds-others c table [] none (not-Begins c)
      (rw (first_case-end cases) at (first_case-Finds h []))
first_case-Finds (◌▹◌ {c} {scan} {table} {cases} f h) (d ∷ rest) = elim (Bool-cases (d == c)) [
  | inl e ↦
      let same : d ≡ c = ground (arith, e) in
      rw e (rw same (read-IsLongest c table rest (scan rest) (f rest)))
  | inr e ↦ rw e (
      Finds-others c table (d ∷ rest) (first_case cases (d ∷ rest))
        (λ w b. ground (arith, e, (Begins-tail d c w rest b).0)) (first_case-Finds h (d ∷ rest)))
]

pub on_equals-IsLongest :
    (long short : TokenType) (text : Str)
    → IsLongest ((codes "=", long) ∷ ([], short) ∷ []) text (on_equals long short text)
unfolding on_equals
on_equals-IsLongest long short =
    on-IsLongest b'=' _ (emit long) (emit short) (emit-IsLongest long) (emit-IsLongest short)
