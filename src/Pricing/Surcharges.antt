-- ===== src/Pricing/Surcharges.antt =====
-- backend/src/utils/pricing/seasonalWeekendAdjustments.js: surcharges by charge day.
use rent_a_car_v.Base.{
  ℕ, zero, suc, ◌+◌, ◌*◌, ◌/◌, Bool, ◌&&◌, ◌||◌, not, Option, none, some, List, [], ◌∷◌, ◌++◌, find,
  any, count, leb, ◌==◌, if◌then◌else◌, Result, ok, err,
}
use rent_a_car_v.Base.Int.{ℤ, pos}
use rent_a_car_v.Dates.Civil.{civil_of_days, weekday, ms_per_day}
use rent_a_car_v.Dates.RentalDays.{DateError, rental_period_too_long, exceeds_rental_day_limit}
use rent_a_car_v.Pricing.Double.{hundredths, whole, plus, times}
use rent_a_car_v.Pricing.Money.{AdjType, fixed_per_day, percent, apply_adj, round2}
use rent_a_car_v.Pricing.Config.{
  Season, WeekendRule, Config, Line, season, weekend, surcharge, line, is_zero,
}

abbrev pub md_key : ℕ → ℕ → ℕ
md_key month day = month * 100 + day

-- The window of a season by packed keys; it wraps over the year's end where the start is later.
unfoldable pub key_in_season : ℕ → ℕ → ℕ → Bool
key_in_season cur start end =
    if leb start end then leb start cur && leb cur end else leb start cur || leb cur end

-- A charge date is a day since 1970.
unfoldable pub date_in_season : ℕ → Season → Bool
unfolding key_in_season
date_in_season day s =
    let c = civil_of_days day in
    key_in_season (md_key c.month c.day) (md_key s.start_month s.start_day)
      (md_key s.end_month s.end_day)

unfoldable pub days_from : ℕ → ℕ → List ℕ
days_from day zero = []
days_from day (suc n) = day ∷ days_from (day + 1) n

-- One date for each charged day, from the UTC day of `start` on.
unfoldable pub list_charge_dates : ℕ → ℕ → Result DateError (List ℕ)
list_charge_dates start rental_days =
    if rental_days == 0
    then ok []
    else if exceeds_rental_day_limit rental_days
    then err rental_period_too_long
    else ok (days_from (start / ms_per_day) rental_days)

-- The amount of a rule that applies to `n` charge days.
unfoldable pub rule_amount : AdjType → ℤ → ℕ → ℕ → ℤ
rule_amount fixed_per_day value day_price n = apply_adj (whole 0) fixed_per_day value n
rule_amount _ value day_price n =
    apply_adj (times (hundredths (pos day_price)) (whole n)) percent value 1

abbrev pub season_days : List ℕ → Season → ℕ
season_days dates s = count (λ d. date_in_season d s) dates

-- The loop over the active seasons: the rounded sum so far, and the lines of the others.
unfoldable pub season_lines : List ℕ → ℕ → ℤ → List Season → ℤ × List Line
season_lines dates day_price sum [] = (sum, [])
season_lines dates day_price sum (s ∷ rest) =
    let n = season_days dates s in
    let amount = rule_amount s.adj_type s.adj_value day_price n in
    let charged = s.active && (not (n == 0) && not (is_zero amount)) in
    let (total, lines) =
      season_lines dates day_price
        (if charged then round2 (plus (hundredths sum) (hundredths amount)) else sum) rest in
    (total, if charged then line (season s.id) amount surcharge ∷ lines else lines)

abbrev pub weekend_days : List ℕ → WeekendRule → ℕ
weekend_days dates r = count (λ d. any (λ w. w == weekday d) r.weekdays) dates

unfoldable pub weekend_amount : List ℕ → ℕ → Option WeekendRule → ℤ
weekend_amount dates day_price none = pos 0
weekend_amount dates day_price (some r) =
    if weekend_days dates r == 0
    then pos 0
    else rule_amount r.adj_type r.adj_value day_price (weekend_days dates r)

unfoldable pub weekend_lines : ℤ → Option WeekendRule → List Line
weekend_lines amount none = []
weekend_lines amount (some r) =
    if is_zero amount then [] else line (weekend r.id) amount surcharge ∷ []

pub record Surcharges : Type 0 where
  pub seasonal_amount : ℤ
  pub weekend_amount : ℤ
  pub lines : List Line

unfoldable pub apply_seasonal_and_weekend_adjustments :
    Config → ℕ → ℕ → ℕ → Result DateError Surcharges
apply_seasonal_and_weekend_adjustments cfg start rental_days day_price =
    elim (list_charge_dates start rental_days) [
      | err e ↦ err e
      | ok dates ↦
          let (seasonal, lines) = season_lines dates day_price (pos 0) cfg.seasons in
          let rule = find (λ (r : WeekendRule). r.active) cfg.weekend_rules in
          let weekend = weekend_amount dates day_price rule in
          ok (record {
            seasonal_amount = seasonal;
            weekend_amount = weekend;
            lines = lines ++ weekend_lines weekend rule;
          })
    ]
