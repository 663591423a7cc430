-- ===== src/Pricing/Quote.antt =====
-- backend/src/utils/pricing/calculateRentalPrice.js and priceBreakdownBuilder.js: the quote.
pub mod Limits
use rent_a_car_v.Base.{
  ℕ, ◌*◌, Bool, true, false, Option, none, some, List, [], ◌∷◌, ◌++◌, ◌==◌, if◌then◌else◌, Result,
  ok, err,
}
use rent_a_car_v.Base.Int.{ℤ, pos, ◌+ℤ◌}
use rent_a_car_v.Text.{Text}
use rent_a_car_v.Dates.RentalDays.{DateError, compute_rental_days_safe}
use rent_a_car_v.Pricing.Double.{Double, hundredths, whole, plus, times}
use rent_a_car_v.Pricing.Money.{round2}
use rent_a_car_v.Pricing.Config.{
  Config, CarPrices, compute_day_price, resolve_deposit, Line, LineCode, LineType, base_rental,
  base, line,
}
use rent_a_car_v.Pricing.Extras.{normalize_selected_extras}
use rent_a_car_v.Pricing.Surcharges.{Surcharges, apply_seasonal_and_weekend_adjustments}
use rent_a_car_v.Pricing.Fees.{Delivery, apply_delivery_and_extras_lines, apply_late_and_fuel_lines}
use rent_a_car_v.Pricing.Discounts.{apply_discount_lines}

unfoldable pub build_base_rental_line : ℕ → ℕ → Line
build_base_rental_line day_price rental_days =
    line base_rental (round2 (times (hundredths (pos day_price)) (whole rental_days))) base

pub record Options : Type 0 where
  pub extras : List Text
  pub hotel_delivery : Bool
  pub late_return : Bool
  pub fuel_fee : Bool
  pub booked_at : ℕ

-- The result; the snapshot repeats these fields and the options.
pub record Quote : Type 0 where
  pub rental_days : ℕ
  pub day_price : ℕ
  pub delivery_price : ℤ
  pub return_price : ℤ
  pub lines : List Line
  pub total_price : ℤ
  pub deposit : ℤ
  pub selected_extras : List Text

abbrev pub empty_price_result : Quote
empty_price_result = record {
  rental_days = 0;
  day_price = 0;
  delivery_price = pos 0;
  return_price = pos 0;
  lines = [];
  total_price = pos 0;
  deposit = pos 0;
  selected_extras = [];
}

-- The sum of the amounts of the lines, from the left.
unfoldable pub sum_lines : Double → List Line → Double
sum_lines sum [] = sum
sum_lines sum (l ∷ ls) = sum_lines (plus sum (hundredths l.amount)) ls

unfoldable pub total_of : List Line → ℤ
unfolding sum_lines
total_of lines = round2 (sum_lines (whole 0) lines)

-- The lines of a quote in their order, from the surcharges of its charge days on.
unfoldable pub quote_lines :
    Config → ℕ → ℕ → ℕ → Text → Text → Options → List Text → Surcharges → List Line
quote_lines cfg start day_price rental_days pickup_location return_location o codes s =
    let base_line = build_base_rental_line day_price rental_days in
    let subtotal = round2 (
      plus (plus (hundredths base_line.amount) (hundredths s.seasonal_amount))
        (hundredths s.weekend_amount)) in
    let d =
      apply_delivery_and_extras_lines cfg pickup_location return_location o.hotel_delivery
        rental_days codes in
    base_line
    ∷ (s.lines
        ++ (d.lines
            ++ (apply_discount_lines cfg subtotal rental_days start o.booked_at
                ++ apply_late_and_fuel_lines cfg o.late_return o.fuel_fee rental_days)))

-- `start` and `end` are `none` where they are no valid dates.
unfoldable pub compute_price :
    Option CarPrices → Option ℕ → Option ℕ → Text → Text → Options → Config → Result DateError Quote
compute_price car start end pickup_location return_location o cfg =
    let rental_days = compute_rental_days_safe start end in
    let day_price = compute_day_price car rental_days in
    let codes = normalize_selected_extras o.extras in
    let from : ℕ = elim start [ none ↦ 0 | some t ↦ t ] in
    if rental_days == 0
    then ok empty_price_result
    else elim (apply_seasonal_and_weekend_adjustments cfg from rental_days day_price) [
      | err e ↦ err e
      | ok s ↦
          let lines =
            quote_lines cfg from day_price rental_days pickup_location return_location o codes s in
          let d =
            apply_delivery_and_extras_lines cfg pickup_location return_location o.hotel_delivery
              rental_days codes in
          ok (record {
            rental_days = rental_days;
            day_price = day_price;
            delivery_price = d.delivery_price;
            return_price = d.return_price;
            lines = lines;
            total_price = total_of lines;
            deposit = resolve_deposit cfg;
            selected_extras = codes;
          })
    ]
