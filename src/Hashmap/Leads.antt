-- ===== src/Hashmap/Leads.antt =====
-- src/common/hashmap.c: the slots that a search passes before it stops.
use alkyl.Prelude.{
  ℕ, zero, suc, ◌/◌, ◌^◌, ◌≡◌, ◌≢◌, refl, ◌∙◌, Bool, true, false, Bool-cases, Option, none, some,
  List, get_elem?, set, get_elem?-set_ne, inl, inr,
}
use alkyl.Hashmap.Probe.{Found, entry_at, empty_at, lost, next_slot, look, probe}

-- From slot `i`, with perturbation `p`, a search comes to slot `t` over slots that all hold an index.
pub data Leads (mask : ℕ) (indices : List (Option ℕ)) (t : ℕ) : ℕ → ℕ → Type 0 where
  here : (p : ℕ) → Leads mask indices t t p
  over :
      (i p idx : ℕ)
      → get_elem? indices i ≡ some (some idx)
      → Leads mask indices t (next_slot mask i p) (p / 2 ^ 5)
      → Leads mask indices t i p

-- Slot `t` holds `idx`, and a search that starts at slot `i` comes to it.
abbrev pub Reads : ℕ → List (Option ℕ) → ℕ → ℕ → ℕ → Type 0
Reads mask indices i p idx =
    (t : ℕ) × Leads mask indices t i p × (get_elem? indices t ≡ some (some idx))

-- What a search that ends says of the table.
abbrev pub Ends : (ℕ → Bool) → ℕ → List (Option ℕ) → ℕ → ℕ → Found → Type 0
Ends matches mask indices i p (entry_at idx) = (matches idx ≡ true) × Reads mask indices i p idx
Ends matches mask indices i p (empty_at s) =
    (get_elem? indices s ≡ some none)
    × Leads mask indices s i p
    × ((idx : ℕ) → Reads mask indices i p idx → matches idx ≡ false)
Ends matches mask indices i p lost = Unit

module _ (matches : ℕ → Bool) (mask : ℕ) (indices : List (Option ℕ)) where
  -- At an empty slot nothing is read.
  Reads-empty :
      (i p idx : ℕ)
      → get_elem? indices i ≡ some none
      → Reads mask indices i p idx
      → matches idx ≡ false
  Reads-empty i p idx e (t, here _, f) = cc
  Reads-empty i p idx e (t, over _ _ jdx g l, f) = cc

  Reads-over :
      (i p jdx idx : ℕ)
      → get_elem? indices i ≡ some (some jdx)
      → matches jdx ≡ false
      → ((idx : ℕ) → Reads mask indices (next_slot mask i p) (p / 2 ^ 5) idx → matches idx ≡ false)
      → Reads mask indices i p idx
      → matches idx ≡ false
  Reads-over i p jdx idx e miss rest (t, here _, f) = cc
  Reads-over i p jdx idx e miss rest (t, over _ _ kdx g l, f) = rest idx (t, l, f)

  Ends-over :
      (i p jdx : ℕ) (r : Found)
      → get_elem? indices i ≡ some (some jdx)
      → matches jdx ≡ false
      → Ends matches mask indices (next_slot mask i p) (p / 2 ^ 5) r
      → Ends matches mask indices i p r
  Ends-over i p jdx (entry_at idx) e miss (hit, (t, l, f)) = (hit, (t, over i p jdx e l, f))
  Ends-over i p jdx (empty_at s) e miss (f, l, rest) =
      (f, over i p jdx e l, λ idx. Reads-over i p jdx idx e miss rest)
  Ends-over i p jdx lost e miss h = tt

  Ends-look :
      (i p : ℕ) (o : Option (Option ℕ)) (r : Found)
      → get_elem? indices i ≡ o
      → Ends matches mask indices (next_slot mask i p) (p / 2 ^ 5) r
      → Ends matches mask indices i p (look matches i o r)
  unfolding look
  Ends-look i p none r e h = tt
  Ends-look i p (some none) r e h = (e, here p, λ idx. Reads-empty i p idx e)
  Ends-look i p (some (some jdx)) r e h = elim (Bool-cases (matches jdx)) [
    | inl hit ↦ rw hit (hit, (i, here p, e))
    | inr miss ↦ rw miss (Ends-over i p jdx r e miss h)
  ]

  pub Ends-probe :
      (fuel i p : ℕ) → Ends matches mask indices i p (probe matches mask fuel indices i p)
  unfolding probe
  Ends-probe zero i p = tt
  Ends-probe (suc fuel) i p =
      Ends-look i p (get_elem? indices i) _ refl (Ends-probe fuel (next_slot mask i p) (p / 2 ^ 5))

module _ (mask : ℕ) (indices : List (Option ℕ)) (s new : ℕ)
    (empty : get_elem? indices s ≡ some none) where
  -- A slot that holds an index holds it still when an empty slot has been filled.
  pub get_elem?-fill :
      (i idx : ℕ)
      → get_elem? indices i ≡ some (some idx)
      → get_elem? (set indices s (some new)) i ≡ some (some idx)
  get_elem?-fill i idx e =
      let apart : s ≢ i = (λ q. let h = rw q at empty in cc) in
      get_elem?-set_ne indices s i (some new) apart ∙ e

  pub Leads-fill :
      (t i p : ℕ) → Leads mask indices t i p → Leads mask (set indices s (some new)) t i p
  Leads-fill t i p (here _) = here p
  Leads-fill t i p (over _ _ idx e l) =
      over i p idx (get_elem?-fill i idx e) (Leads-fill t (next_slot mask i p) (p / 2 ^ 5) l)

  pub Reads-fill :
      (i p idx : ℕ) → Reads mask indices i p idx → Reads mask (set indices s (some new)) i p idx
  Reads-fill i p idx (t, l, e) = (t, Leads-fill t i p l, get_elem?-fill t idx e)
