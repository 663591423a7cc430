-- ===== src/Dates/RentalDays.antt =====
-- The charged days of a rental: backend/src/utils/date/calculateRentalDays.js and
-- backend/src/utils/date/rentalLimits.js. Instants are milliseconds since 1970; `none` is a value
-- that is no valid `Date`.
use rent_a_car_v.Base.{
  ℕ, ◌+◌, ◌-◌, ◌*◌, ◌/◌, ◌≤◌, ◌<◌, ◌≡◌, Bool, Option, some, max, ltb, leb, if◌then◌else◌, Result,
  ok, err, arith,
}
use rent_a_car_v.Dates.Civil.{ms_per_day}

-- `Math.ceil(n / MS_PER_DAY)` for a difference that is not negative.
abbrev ceil_days : ℕ → ℕ
ceil_days n = (n + 86_399_999) / 86_400_000

pub data DateError : Type 0 where
  invalid_dates rental_period_too_long : DateError

-- A difference that is negative or zero rounds up to at most 0, so that one day is charged.
unfoldable pub compute_rental_days : Option ℕ → Option ℕ → Result DateError ℕ
compute_rental_days (some start) (some end) = ok (max 1 (ceil_days (end - start)))
compute_rental_days _ _ = err invalid_dates

unfoldable pub compute_rental_days_safe : Option ℕ → Option ℕ → ℕ
compute_rental_days_safe (some start) (some end) =
    if leb end start then 0 else max 1 (ceil_days (end - start))
compute_rental_days_safe _ _ = 0

abbrev pub max_rental_days : ℕ
max_rental_days = 366

unfoldable pub exceeds_rental_day_limit : ℕ → Bool
exceeds_rental_day_limit days = ltb max_rental_days days

-- The charged days are the least number of whole days that covers the rental: a rental of positive
-- length is charged `d` days exactly when it is longer than `d - 1` days and not longer than `d`.
pub rental_days_cover :
    (start end : ℕ)
    → start < end
    → let d = compute_rental_days_safe (some start) (some end) in
      (1 ≤ d) × (end ≤ start + d * ms_per_day) × (start + (d - 1) * ms_per_day < end)
unfolding compute_rental_days_safe
rental_days_cover start end h = ground arith

-- Both ways to count agree on a rental of positive length.
pub compute_rental_days-safe :
    (start end : ℕ)
    → start < end
    → compute_rental_days (some start) (some end)
      ≡ ok (compute_rental_days_safe (some start) (some end))
unfolding compute_rental_days compute_rental_days_safe
compute_rental_days-safe start end h = ground arith
