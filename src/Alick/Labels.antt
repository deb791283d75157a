-- ===== src/Alick/Labels.antt =====
-- `streq_lit` of include/common/common.h, and equality of texts.
use alkyl.Prelude.{
  same_text, same_text_iff, ◌≡◌, refl, ◌↔◌, Bool, true, false, Option, none, some, Str, arith,
}

-- Two strings, either of which may be NULL.
unfoldable pub streq_lit : Option Str → Option Str → Bool
streq_lit none none = true
streq_lit none (some t) = false
streq_lit (some s) none = false
streq_lit (some s) (some t) = same_text s t

pub streq_lit_iff : (s t : Option Str) → (streq_lit s t ≡ true) ↔ (s ≡ t)
unfolding streq_lit
streq_lit_iff none none = (λ _. refl, λ _. refl)
streq_lit_iff none (some t) = (λ e. cc, λ e. cc)
streq_lit_iff (some s) none = (λ e. cc, λ e. cc)
streq_lit_iff (some s) (some t) = ground (arith, same_text_iff s t)
