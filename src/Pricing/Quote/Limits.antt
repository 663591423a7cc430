-- ===== src/Pricing/Quote/Limits.antt =====
-- When a quote is given.
use rent_a_car_v.Base.{
  ℕ, zero, suc, ◌+◌, ◌/◌, ◌≤◌, ◌≡◌, refl, inl, inr, List, [], ◌==◌, ok, arith, length, Bool-cases,
  ap,
}
use rent_a_car_v.Text.{Text}
use rent_a_car_v.Dates.Civil.{ms_per_day}
use rent_a_car_v.Dates.RentalDays.{exceeds_rental_day_limit, max_rental_days}
use rent_a_car_v.Pricing.Config.{Config}
use rent_a_car_v.Pricing.Surcharges.{Surcharges, list_charge_dates, days_from}
use rent_a_car_v.Pricing.Quote.{Quote}

length-days_from : (day n : ℕ) → length (days_from day n) ≡ n
unfolding days_from
length-days_from day zero = refl
length-days_from day (suc n) = ap suc (length-days_from (day + 1) n)

-- A window of at most 366 days has one charge date for each charged day.
pub length-list_charge_dates :
    (start days : ℕ)
    → days ≤ max_rental_days
    → (dates : List ℕ) × (list_charge_dates start days ≡ ok dates) × (length dates ≡ days)
unfolding list_charge_dates exceeds_rental_day_limit
length-list_charge_dates start days h = elim (Bool-cases (days == 0)) [
  | inl z ↦ ([], ground arith, ground arith)
  | inr z ↦ (
    days_from (start / ms_per_day) days,
    ground arith,
    length-days_from (start / ms_per_day) days,
  )
]
