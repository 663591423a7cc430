-- ===== src/Pricing/Discounts.antt =====
-- backend/src/utils/pricing/discountPricing.js: discounts for long rentals and early bookings, and
-- the surcharge for last-minute bookings.
pub mod Signs
use rent_a_car_v.Base.{ℕ, Bool, ◌&&◌, none, some, List, [], ◌∷◌, ◌++◌, find, if◌then◌else◌}
use rent_a_car_v.Base.Int.{ℤ, pos, ◌-ℤ◌, leb_ℤ, abs, neg}
use rent_a_car_v.Dates.Civil.{ms_per_day}
use rent_a_car_v.Pricing.Double.{floor_div, hundredths}
use rent_a_car_v.Pricing.Money.{AdjType, fixed, percent, apply_adj, round2}
use rent_a_car_v.Pricing.Config.{
  Config, DiscountRule, DiscountKind, long_rental, early_booking, last_minute, same_kind, Line,
  LineType, discount, surcharge, discount_line, line, is_zero,
}

-- Whole days from the booking to the pickup, rounded down; negative if the pickup is past.
unfoldable pub days_until_pickup : ℕ → ℕ → ℤ
unfolding floor_div ◌-ℤ◌
days_until_pickup start booked_at = floor_div (pos start -ℤ pos booked_at) ms_per_day

unfoldable pub applies : DiscountKind → ℤ → ℕ → ℤ → Bool
applies long_rental threshold rental_days lead = leb_ℤ threshold (pos rental_days)
applies early_booking threshold rental_days lead = leb_ℤ threshold lead
applies last_minute threshold rental_days lead = leb_ℤ lead threshold && leb_ℤ (pos 0) lead

-- `rule.adjType === 'fixed' ? 'fixed' : 'percent'`.
abbrev pub fixed_or_percent : AdjType → AdjType
fixed_or_percent fixed = fixed
fixed_or_percent _ = percent

abbrev pub signed_amount : DiscountKind → ℤ → ℤ
signed_amount last_minute a = pos (abs a)
signed_amount _ a = neg (abs a)

abbrev pub type_of : DiscountKind → LineType
type_of last_minute = surcharge
type_of _ = discount_line

abbrev pub discount_amount : DiscountKind → DiscountRule → ℤ → ℤ
discount_amount kind rule subtotal =
    signed_amount kind
      (apply_adj (hundredths subtotal) (fixed_or_percent rule.adj_type) rule.adj_value 1)

-- At most one line of each kind, from its first active rule.
unfoldable pub kind_lines : DiscountKind → Config → ℤ → ℕ → ℤ → List Line
kind_lines kind cfg subtotal rental_days lead =
    elim (find (λ (r : DiscountRule). same_kind r.kind kind && r.active) cfg.discount_rules) [
      | none ↦ []
      | some rule ↦
          let amount = discount_amount kind rule subtotal in
          if applies kind rule.threshold rental_days lead
          then (if is_zero amount
              then []
              else line (discount kind) (round2 (hundredths amount)) (type_of kind) ∷ [])
          else []
    ]

unfoldable pub apply_discount_lines : Config → ℤ → ℕ → ℕ → ℕ → List Line
unfolding kind_lines days_until_pickup
apply_discount_lines cfg subtotal rental_days start booked_at =
    let lead = days_until_pickup start booked_at in
    kind_lines long_rental cfg subtotal rental_days lead
    ++ (kind_lines early_booking cfg subtotal rental_days lead
        ++ kind_lines last_minute cfg subtotal rental_days lead)
