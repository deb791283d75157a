-- ===== src/Lexer/Keywords/Lookup.antt =====
-- The hash table of keywords finds what a search of the list finds.
use alkyl.Prelude.{
  ℕ, zero, suc, ◌+◌, ◌%◌, ◌<◌, List, [], ◌∷◌, map, ◌≡◌, refl, sym, ap, ◌∙◌, ◌⊎◌, inl, inr, Bool,
  true, false, ◌&&◌, Option, none, some, Str, same_text, same_text_iff, Bool-cases, Option-cases,
  arith,
}
use alkyl.Lexer.Keywords.{
  KeywordDef, keywords, Slots, slot, free_slot, add_keywords, init_kw_hash, hash_str, hash_from,
  lookup_keyword, find_keyword, kw_hash_size,
}

-- The first keyword of a list that is spelt like the word.
unfoldable pub find_word : List KeywordDef → Str → Option KeywordDef
find_word [] word = none
find_word (k ∷ ks) word = elim (same_text k.0 word) [ true ↦ some k | false ↦ find_word ks word ]

-- Whether an empty slot is met from `h` on.
unfoldable ends : ℕ → Slots → ℕ → Bool
ends zero slots h = false
ends (suc n) slots h = elim (slot slots h) [
  | none ↦ true
  | some k ↦ ends n slots ((h + 1) % kw_hash_size)
]

unfoldable all_below : ℕ → (ℕ → Bool) → Bool
all_below zero test = true
all_below (suc n) test = test n && all_below n test

all_below-lt : (n : ℕ) (test : ℕ → Bool) (j : ℕ) → all_below n test ≡ true → j < n → test j ≡ true
unfolding all_below
all_below-lt zero test j h l = absurd (omega (arith, l))
all_below-lt (suc n) test j h l = elim (Bool-cases (test j)) [
  | inl e ↦ e
  | inr e ↦ ground (arith, h, l, e, all_below-lt n test j, ap test)
]

abbrev or_none : Option Slots → Slots
or_none none = []
or_none (some slots) = slots

abbrev pub kw_hash : Slots
kw_hash = or_none init_kw_hash

abbrev again : Option KeywordDef → Option KeywordDef
again none = none
again (some k) = find_word keywords k.0

init_kw_hash-some : init_kw_hash ≡ some kw_hash
unfolding init_kw_hash add_keywords free_slot hash_str hash_from
init_kw_hash-some = refl

kw_hash-ends : all_below kw_hash_size (ends kw_hash_size kw_hash) ≡ true
unfolding init_kw_hash add_keywords free_slot hash_str hash_from ends all_below
kw_hash-ends = refl

kw_hash-again : map again kw_hash ≡ kw_hash
unfolding init_kw_hash add_keywords free_slot hash_str hash_from find_word same_text
kw_hash-again = refl

keywords-lookup : map (λ k. lookup_keyword kw_hash k.0) keywords ≡ map (λ k. some (some k)) keywords
unfolding init_kw_hash add_keywords free_slot hash_str hash_from lookup_keyword find_keyword
    same_text
keywords-lookup = refl

slot-again : (slots : Slots) (h : ℕ) → slot (map again slots) h ≡ again (slot slots h)
slot-again [] h = refl
slot-again (e ∷ slots) zero = refl
slot-again (e ∷ slots) (suc h) = slot-again slots h

-- Where the slots hold keywords as the list has them, one that is found is in the list.
module _ (slots : Slots) (h_again : map again slots ≡ slots) (word : Str) where
  find_keyword-found :
      (n h : ℕ)
      → ends n slots h ≡ true
      → (find_keyword n slots h word ≡ some none)
        ⊎ ((k : KeywordDef) × (find_keyword n slots h word ≡ some (some k))
            × (find_word keywords word ≡ some k))
  unfolding find_keyword ends
  find_keyword-found zero h e = absurd (cc)
  find_keyword-found (suc n) h e = elim (Option-cases (slot slots h)) [
    | inl empty ↦ rw (empty, find_keyword) (inl refl)
    | inr (k, full) ↦ elim (Bool-cases (same_text k.0 word)) [
      | inl same ↦
          let listed : find_word keywords k.0 ≡ some k =
            sym (slot-again slots h ∙ ap again full) ∙ ap (λ s. slot s h) h_again ∙ full in
          rw (full, same, find_keyword)
            (inr
              (k, refl, ap (find_word keywords) (sym ((same_text_iff k.0 word).0 same)) ∙ listed))
      | inr other ↦
          rw (full, other, find_keyword)
            (find_keyword-found n ((h + 1) % kw_hash_size) (rw (full, ends) at e))
    ]
  ]

-- What two functions agree on for each keyword, they agree on for the one that is found.
find_word-agrees :
    {A : Type 0} (f g : KeywordDef → A) (ks : List KeywordDef) (word : Str) (k : KeywordDef)
    → map f ks ≡ map g ks
    → find_word ks word ≡ some k
    → (k.0 ≡ word) × (f k ≡ g k)
unfolding find_word
find_word-agrees f g [] word k e h = absurd (cc)
find_word-agrees f g (l ∷ ks) word k e h = elim (Bool-cases (same_text l.0 word)) [
  | inl same ↦
      let found : l ≡ k = (let some_l = rw (same, find_word) at h in cc) in
      rw (← found) ((same_text_iff l.0 word).0 same, cc)
  | inr other ↦ find_word-agrees f g ks word k (cc) (rw (other, find_word) at h)
]

lookup_keyword-kw_hash : (word : Str) → lookup_keyword kw_hash word ≡ some (find_word keywords word)
unfolding lookup_keyword
lookup_keyword-kw_hash word =
    let start = hash_str word % kw_hash_size in
    let stops =
      all_below-lt kw_hash_size (ends kw_hash_size kw_hash) start kw_hash-ends (omega arith) in
    elim (find_keyword-found kw_hash kw_hash-again word kw_hash_size start stops) [
      | inl absent ↦ elim (Option-cases (find_word keywords word)) [
        | inl e ↦ rw e absent
        | inr (k, e) ↦
            let (same, there) =
              find_word-agrees (λ k. lookup_keyword kw_hash k.0) (λ k. some (some k)) keywords word
                k keywords-lookup e in
            absurd (let here_too = rw same at there in cc)
      ]
      | inr (k, found, listed) ↦ rw listed found
    ]

-- The table is built, and looking a word up in it gives what a search of the list of keywords
-- gives.
pub lookup_keyword-find_word :
    (word : Str)
    → (init_kw_hash ≡ some kw_hash) × (lookup_keyword kw_hash word ≡ some (find_word keywords word))
lookup_keyword-find_word word = (init_kw_hash-some, lookup_keyword-kw_hash word)
