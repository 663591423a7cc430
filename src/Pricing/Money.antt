-- ===== src/Pricing/Money.antt =====
-- backend/src/utils/pricing/pricingMath.js: rounding to cents, and adjustments.
use rent_a_car_v.Base.{ℕ}
use rent_a_car_v.Base.Int.{ℤ}
use rent_a_car_v.Pricing.Double.{Double, hundredths, whole, plus, times, over, epsilon, math_round}

-- In cents. `toFixed(2)` of a number of cents over 100, read again, is that number.
unfoldable pub round2 : Double → ℤ
round2 x = math_round (times (plus x epsilon) (whole 100))

pub data AdjType : Type 0 where
  fixed_per_day fixed percent : AdjType

-- `value` is cents for the fixed kinds and hundredths of a percent for `percent`.
unfoldable pub apply_adj : Double → AdjType → ℤ → ℕ → ℤ
unfolding round2
apply_adj base fixed_per_day value days = round2 (times (hundredths value) (whole days))
apply_adj base fixed value days = round2 (hundredths value)
apply_adj base percent value days = round2 (over (times base (hundredths value)) 100)
