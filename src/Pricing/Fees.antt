-- ===== src/Pricing/Fees.antt =====
-- backend/src/utils/pricing/deliveryExtrasPricing.js: delivery, extras, late return and fuel.
use rent_a_car_v.Base.{ℕ, Bool, ◌&&◌, Option, none, some, List, [], ◌∷◌, ◌++◌, find, if◌then◌else◌}
use rent_a_car_v.Base.Int.{ℤ, pos}
use rent_a_car_v.Text.{Text, same_text}
use rent_a_car_v.Pricing.Double.{hundredths, whole, times}
use rent_a_car_v.Pricing.Money.{round2}
use rent_a_car_v.Pricing.Config.{
  Config, DeliveryFee, GlobalFee, Extra, FeeKey, hotel_delivery, late_return, fuel, same_key, Line,
  delivery_pickup, delivery_return, fee, extra, fee_line, addon, line_unless_zero,
  default_delivery_fees,
}

abbrev look_up : Text → List DeliveryFee → Option DeliveryFee
look_up l fees = find (λ (f : DeliveryFee). same_text f.location l) fees

-- The configured fee of a location, else the fallback of the source, else nothing. No location has
-- the empty text.
unfoldable pub fee_from_config : Config → Text → ℤ
fee_from_config cfg [] = pos 0
fee_from_config cfg (c ∷ l) = elim (look_up (c ∷ l) cfg.delivery_fees) [
  | some f ↦ f.fee
  | none ↦ elim (look_up (c ∷ l) default_delivery_fees) [ some f ↦ f.fee | none ↦ pos 0 ]
]

unfoldable pub global_fee : Config → FeeKey → Option GlobalFee
global_fee cfg k = find (λ (f : GlobalFee). same_key f.key k && f.active) cfg.global_fees

-- `mode === 'per_day' ? round2(amount * rentalDays) : round2(amount)`.
unfoldable pub scaled_amount : Bool → ℤ → ℕ → ℤ
scaled_amount per_day amount rental_days =
    if per_day
    then round2 (times (hundredths amount) (whole rental_days))
    else round2 (hundredths amount)

unfoldable pub global_fee_lines : Bool → Config → FeeKey → ℕ → List Line
unfolding scaled_amount global_fee
global_fee_lines wanted cfg k rental_days =
    if wanted
    then (elim (global_fee cfg k) [
      | none ↦ []
      | some f ↦ line_unless_zero (fee k) (scaled_amount f.per_day f.amount rental_days) fee_line
    ])
    else []

unfoldable pub extra_lines : List Extra → ℕ → List Text → List Line
unfolding scaled_amount
extra_lines catalog rental_days [] = []
extra_lines catalog rental_days (c ∷ cs) =
    (elim (find (λ (e : Extra). same_text e.code c && e.active) catalog) [
      | none ↦ []
      | some e ↦
          line_unless_zero (extra e.code) (scaled_amount e.per_day e.amount rental_days) addon
    ])
    ++ extra_lines catalog rental_days cs

pub record Delivery : Type 0 where
  pub delivery_price : ℤ
  pub return_price : ℤ
  pub lines : List Line

unfoldable pub apply_delivery_and_extras_lines :
    Config → Text → Text → Bool → ℕ → List Text → Delivery
apply_delivery_and_extras_lines cfg pickup_location return_location hotel rental_days codes =
    let delivery = fee_from_config cfg pickup_location in
    let back = fee_from_config cfg return_location in
    record {
      delivery_price = delivery;
      return_price = back;
      lines =
          line_unless_zero delivery_pickup delivery fee_line
          ++ (line_unless_zero delivery_return back fee_line
              ++ (global_fee_lines hotel cfg hotel_delivery rental_days
                  ++ extra_lines cfg.extras rental_days codes));
    }

unfoldable pub apply_late_and_fuel_lines : Config → Bool → Bool → ℕ → List Line
apply_late_and_fuel_lines cfg late fuel_fee rental_days =
    global_fee_lines late cfg late_return rental_days
    ++ global_fee_lines fuel_fee cfg fuel rental_days
