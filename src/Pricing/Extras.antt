-- ===== src/Pricing/Extras.antt =====
-- backend/src/utils/pricing/normalizeExtras.js: the extras that a customer selected.
pub mod Selection
use rent_a_car_v.Base.{
  ◌≡◌, refl, inl, inr, Bool, true, false, not, ◌&&◌, ◌||◌, List, [], ◌∷◌, any, keep, All, arith,
  if◌then◌else◌, Bool-cases,
}
use rent_a_car_v.Text.{Text, codes, same_text}
use rent_a_car_v.Text.Decimal.{same_text_eq, same_text_refl}

abbrev pub includes : List Text → Text → Bool
includes l s = any (λ x. same_text x s) l

abbrev pub is_truthy : Text → Bool
is_truthy [] = false
is_truthy (c ∷ s) = true

-- `[...new Set(list)]`: the first of equal codes is kept.
unfoldable pub unique : List Text → List Text
unique [] = []
unique (x ∷ xs) = x ∷ keep (λ y. not (same_text x y)) (unique xs)

unfoldable pub normalize_selected_extras : List Text → List Text
unfolding unique
normalize_selected_extras extras =
    let codes' = unique (keep is_truthy extras) in
    if includes codes' (codes "insurance_full") && includes codes' (codes "insurance_basic")
    then keep (λ c. not (same_text c (codes "insurance_basic"))) codes'
    else codes'
