-- ===== src/Pricing/Extras/Selection.antt =====
-- Which extras are priced: each selected one once, and never two insurances for the same risk.
use rent_a_car_v.Base.{◌≡◌, false, List, [], ◌∷◌, keep}
use rent_a_car_v.Text.{Text, codes}
use rent_a_car_v.Pricing.Extras.{includes, is_truthy, unique}

-- No two entries are equal.
abbrev pub NoRepeats : List Text → Type 0
NoRepeats [] = Unit
NoRepeats (x ∷ xs) = (includes xs x ≡ false) × NoRepeats xs

abbrev pub full : Text
full = codes "insurance_full"

abbrev pub basic : Text
basic = codes "insurance_basic"

selected : List Text → List Text
selected extras = unique (keep is_truthy extras)
