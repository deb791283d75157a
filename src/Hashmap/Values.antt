-- ===== src/Hashmap/Values.antt =====
-- src/common/hashmap.c: what the entries say of a key, before and after one of them is written.
use alkyl.Prelude.{
  ℕ, zero, suc, ◌≡◌, ◌≢◌, refl, sym, ap, ◌∙◌, some, List, [], ◌∷◌, ◌++◌, length, get_elem?, Str,
  same_text, same_text_iff, if◌then◌else◌, Bool-cases, inl, inr, arith,
}
use alkyl.Hashmap.Map.{DictEntry, write_value, write_entry}
use alkyl.Hashmap.Layout.{IsDistinct, value_for}

pub write_entry-length :
    (es : List DictEntry) (e : DictEntry) → write_entry es (length es) e ≡ es ++ e ∷ []
unfolding write_entry
write_entry-length [] e = refl
write_entry-length (x ∷ es) e = ap (λ t. x ∷ t) (write_entry-length es e)

pub length-write_value : (es : List DictEntry) (i v : ℕ) → length (write_value es i v) ≡ length es
unfolding write_value
length-write_value [] i v = refl
length-write_value (x ∷ es) zero v = refl
length-write_value (x ∷ es) (suc i) v = ap suc (length-write_value es i v)

-- A written value changes neither hashes nor keys.
pub get_elem?-write_value :
    (es : List DictEntry) (i v j : ℕ) (e : DictEntry)
    → get_elem? (write_value es i v) j ≡ some e
    → (f : DictEntry) × (get_elem? es j ≡ some f) × (e.hash ≡ f.hash) × (e.key ≡ f.key)
unfolding write_value
get_elem?-write_value [] i v j e h = cc
get_elem?-write_value (x ∷ es) zero v zero e h =
    let same : record x { value = v } ≡ e = cc in
    (x, refl, ap (λ (d : DictEntry). d.hash) (sym same), ap (λ (d : DictEntry). d.key) (sym same))
get_elem?-write_value (x ∷ es) zero v (suc j) e h = (e, h, refl, refl)
get_elem?-write_value (x ∷ es) (suc i) v zero e h = (e, h, refl, refl)
get_elem?-write_value (x ∷ es) (suc i) v (suc j) e h = get_elem?-write_value es i v j e h

module _ (text_of : ℕ → Str) where
  IsDistinct-tail :
      (x : DictEntry) (es : List DictEntry) → IsDistinct text_of (x ∷ es) → IsDistinct text_of es
  IsDistinct-tail x es h i j e f a b c = ground (arith, h (suc i) (suc j) e f a b c)

  pub value_for-hit :
      (es : List DictEntry) (idx : ℕ) (e : DictEntry) (q : Str)
      → IsDistinct text_of es
      → get_elem? es idx ≡ some e
      → text_of e.key ≡ q
      → value_for text_of q es ≡ e.value
  unfolding value_for
  value_for-hit [] idx e q h f same = cc
  value_for-hit (x ∷ es) zero e q h f same =
      let x_is_e : x ≡ e = cc in rw (x_is_e, (same_text_iff (text_of e.key) q).1 same) refl
  value_for-hit (x ∷ es) (suc idx) e q h f same = elim (Bool-cases (same_text (text_of x.key) q)) [
    | inl a ↦
        let twice : 0 ≡ suc idx =
          h 0 (suc idx) x e refl f ((same_text_iff (text_of x.key) q).0 a ∙ sym same) in
        absurd (omega (arith, twice))
    | inr a ↦ rw a (value_for-hit es idx e q (IsDistinct-tail x es h) f same)
  ]

  pub value_for-miss :
      (es : List DictEntry) (q : Str)
      → ((idx : ℕ) (e : DictEntry) → get_elem? es idx ≡ some e → text_of e.key ≢ q)
      → value_for text_of q es ≡ 0
  unfolding value_for
  value_for-miss [] q h = refl
  value_for-miss (x ∷ es) q h = elim (Bool-cases (same_text (text_of x.key) q)) [
    | inl a ↦ absurd (h 0 x refl ((same_text_iff (text_of x.key) q).0 a))
    | inr a ↦ rw a (value_for-miss es q (λ idx e f. h (suc idx) e f))
  ]

  pub value_for-append :
      (es : List DictEntry) (e : DictEntry) (q : Str)
      → ((idx : ℕ) (f : DictEntry) → get_elem? es idx ≡ some f → text_of f.key ≢ text_of e.key)
      → value_for text_of q (es ++ e ∷ [])
        ≡ (if same_text (text_of e.key) q then e.value else value_for text_of q es)
  unfolding value_for
  value_for-append [] e q h = refl
  value_for-append (x ∷ es) e q h =
      let rest = value_for-append es e q (λ idx f g. h (suc idx) f g) in
      ground
        (arith, rest, h 0 x refl, same_text_iff (text_of x.key) q, same_text_iff (text_of e.key) q)

  pub value_for-write_value :
      (es : List DictEntry) (idx : ℕ) (e : DictEntry) (v : ℕ) (q : Str)
      → IsDistinct text_of es
      → get_elem? es idx ≡ some e
      → value_for text_of q (write_value es idx v)
        ≡ (if same_text (text_of e.key) q then v else value_for text_of q es)
  unfolding value_for write_value
  value_for-write_value [] idx e v q h f = cc
  value_for-write_value (x ∷ es) zero e v q h f =
      let x_is_e : x ≡ e = cc in rw x_is_e (ground arith)
  value_for-write_value (x ∷ es) (suc idx) e v q h f =
      let rest = value_for-write_value es idx e v q (IsDistinct-tail x es h) f in
      let twice : text_of x.key ≡ text_of e.key → 0 ≡ suc idx = h 0 (suc idx) x e refl f in
      ground (arith, rest, twice, same_text_iff (text_of x.key) q, same_text_iff (text_of e.key) q)
