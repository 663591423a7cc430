-- ===== src/Pricing/Examples.antt =====
-- The theorems on prices at concrete quotes, and tests.
use rent_a_car_v.Base.{◌≡◌, refl, true, false, List, [], ◌∷◌}
use rent_a_car_v.Base.Int.{pos, negsuc, ◌+ℤ◌, ◌*ℤ◌}
use rent_a_car_v.Text.{Text, codes, same_text}
use rent_a_car_v.Pricing.Double.{nearest, hundredths, plus, times, over, math_round}
use rent_a_car_v.Pricing.Money.{round2, apply_adj, percent}
use rent_a_car_v.Pricing.Config.{
  CarPrices, Config, default_config, long_rental, line, discount, discount_line,
}
use rent_a_car_v.Pricing.Discounts.{apply_discount_lines, applies}
use rent_a_car_v.Pricing.Extras.{normalize_selected_extras}
use rent_a_car_v.Pricing.Quote.{Options, Quote}

-- 10.075 is read as a number below it, and 10% of 21.35 comes out below 2.135.
tie_down : round2 (nearest (pos 10_075) 1000) ≡ pos 1007
unfolding round2 times plus math_round nearest ◌+ℤ◌ ◌*ℤ◌
tie_down = refl

half_down : apply_adj (hundredths (pos 2135)) percent (pos 1000) 1 ≡ pos 213
unfolding apply_adj round2 times over plus math_round nearest ◌+ℤ◌ ◌*ℤ◌
half_down = refl

abbrev wanted : List Text
wanted = codes "gps" ∷ codes "insurance_basic" ∷ codes "gps" ∷ codes "insurance_full" ∷ []

normalized : normalize_selected_extras wanted ≡ codes "gps" ∷ codes "insurance_full" ∷ []
unfolding normalize_selected_extras same_text
normalized = refl

abbrev car : CarPrices
car = record { tier_1_3 = 5000; tier_7_31 = 4000; tier_31_plus = 3000; price = 5500 }

abbrev plain : Options
plain = record {
  extras = [];
  hotel_delivery = false;
  late_return = true;
  fuel_fee = false;
  booked_at = 0;
}

abbrev discounted : Config
discounted = record default_config {
  discount_rules =
      record {
        kind = long_rental;
        threshold = pos 3;
        adj_type = percent;
        adj_value = pos 1000;
        active = true;
      }
      ∷ [];
}

ten_percent_off :
    apply_discount_lines discounted (pos 20_000) 5 0 0
    ≡ line (discount long_rental) (negsuc 1999) discount_line ∷ []
unfolding apply_discount_lines apply_adj round2 applies times over plus math_round nearest ◌+ℤ◌ ◌*ℤ◌
ten_percent_off = refl
