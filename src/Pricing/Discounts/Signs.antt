-- ===== src/Pricing/Discounts/Signs.antt =====
-- The signs of the lines of discount rules.
use rent_a_car_v.Base.Int.{pos, ◌≤ℤ◌}
use rent_a_car_v.Pricing.Config.{Config, Line, discount_line, surcharge}

-- A discount does not raise the price, and a surcharge does not lower it.
abbrev pub IsSigned : Line → Type 0
IsSigned l = elim l.kind [
  | discount_line ↦ l.amount ≤ℤ pos 0
  | surcharge ↦ pos 0 ≤ℤ l.amount
  | other ↦ ⊥
]
