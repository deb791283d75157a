-- ===== src/Hashmap/Removed.antt =====
-- src/common/hashmap.c: what the entries of a map say of a key when some of them have been removed.
use alkyl.Prelude.{
  ℕ, zero, suc, ◌≡◌, ◌≢◌, refl, sym, ◌∙◌, not, ◌&&◌, ◌==◌, some, List, [], ◌∷◌, set, get_elem?, Str,
  same_text, same_text_iff, if◌then◌else◌, arith,
}
use alkyl.Hashmap.Map.{DictEntry}
use alkyl.Hashmap.Ops.{removed_entry}
use alkyl.Hashmap.Layout.{value_for}

module _ (text_of : ℕ → Str) where
  -- The value that the entries which have not been removed give a text, 0 where none has it.
  pub live_for : Str → List DictEntry → ℕ
  live_for q [] = 0
  live_for q (e ∷ es) =
      if not (e.key == 0) && same_text (text_of e.key) q then e.value else live_for q es

  -- No two of them have keys of one text.
  abbrev pub Apart : List DictEntry → Type 0
  Apart es =
      (i j : ℕ) (e f : DictEntry)
      → get_elem? es i ≡ some e
      → get_elem? es j ≡ some f
      → e.key ≢ 0
      → text_of e.key ≡ text_of f.key
      → f.key ≢ 0
      → i ≡ j

  Apart-tail : (x : DictEntry) (es : List DictEntry) → Apart (x ∷ es) → Apart es
  Apart-tail x es h i j e f a b c d g = ground (arith, h (suc i) (suc j) e f a b c d g)

  -- The first entry's text is not that of a later one.
  first-Apart :
      (x : DictEntry) (es : List DictEntry) (idx : ℕ) (e : DictEntry)
      → Apart (x ∷ es)
      → get_elem? es idx ≡ some e
      → x.key ≢ 0
      → e.key ≢ 0
      → text_of x.key ≢ text_of e.key
  first-Apart x es idx e h f live alive same =
      let twice = h 0 (suc idx) x e refl f live same alive in omega (arith, twice)

  pub live_for-hit :
      (es : List DictEntry) (idx : ℕ) (e : DictEntry) (q : Str)
      → Apart es
      → get_elem? es idx ≡ some e
      → e.key ≢ 0
      → text_of e.key ≡ q
      → live_for q es ≡ e.value
  unfolding live_for
  live_for-hit [] idx e q h f alive same = cc
  live_for-hit (x ∷ es) zero e q h f alive same =
      let x_is_e : x ≡ e = cc in
      rw x_is_e (ground (arith, alive, same_text_iff (text_of e.key) q, same))
  live_for-hit (x ∷ es) (suc idx) e q h f alive same =
      let rest = live_for-hit es idx e q (Apart-tail x es h) f alive same in
      ground (arith, rest, alive, first-Apart x es idx e h f, same, same_text_iff (text_of x.key) q)

  pub live_for-miss :
      (es : List DictEntry) (q : Str)
      → ((i : ℕ) (e : DictEntry) → get_elem? es i ≡ some e → e.key ≢ 0 → text_of e.key ≢ q)
      → live_for q es ≡ 0
  unfolding live_for
  live_for-miss [] q h = refl
  live_for-miss (x ∷ es) q h = ground (
    arith,
    h 0 x refl,
    same_text_iff (text_of x.key) q,
    live_for-miss es q (λ i e f. h (suc i) e f),
  )

  pub live_for-set :
      (es : List DictEntry) (idx : ℕ) (e : DictEntry) (q : Str)
      → Apart es
      → get_elem? es idx ≡ some e
      → e.key ≢ 0
      → live_for q (set es idx removed_entry)
        ≡ (if same_text (text_of e.key) q then 0 else live_for q es)
  unfolding live_for removed_entry
  live_for-set [] idx e q h f alive = cc
  live_for-set (x ∷ es) zero e q h f alive =
      let x_is_e : x ≡ e = cc in
      let others : text_of e.key ≡ q → live_for q es ≡ 0 = (λ same.
        live_for-miss es q (λ i d g live s.
          first-Apart x es i d h g (rw x_is_e alive) live (rw x_is_e (same ∙ sym s)))) in
      rw x_is_e (ground (arith, alive, others, same_text_iff (text_of e.key) q))
  live_for-set (x ∷ es) (suc idx) e q h f alive =
      let rest = live_for-set es idx e q (Apart-tail x es h) f alive in
      ground (
        arith,
        rest,
        alive,
        first-Apart x es idx e h f,
        same_text_iff (text_of x.key) q,
        same_text_iff (text_of e.key) q,
      )

  -- In a map without removed entries these are all.
  pub live_for-value_for :
      (es : List DictEntry) (q : Str)
      → ((i : ℕ) (e : DictEntry) → get_elem? es i ≡ some e → e.key ≢ 0)
      → live_for q es ≡ value_for text_of q es
  unfolding live_for value_for
  live_for-value_for [] q h = refl
  live_for-value_for (x ∷ es) q h =
      ground (arith, h 0 x refl, live_for-value_for es q (λ i e f. h (suc i) e f))
