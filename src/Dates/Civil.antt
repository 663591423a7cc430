-- ===== src/Dates/Civil.antt =====
-- The calendar that the language's `Date` keeps in UTC, from 1970 on: days since 1 January 1970, and
-- the parts that `getUTCMonth`, `getUTCDate` and `getUTCDay` read from them.
use rent_a_car_v.Base.{ℕ, ◌+◌, ◌-◌, ◌*◌, ◌/◌, ◌%◌, ltb, if◌then◌else◌}

abbrev pub ms_per_day : ℕ
ms_per_day = 86_400_000

pub record CivilDate : Type 0 where
  pub year : ℕ
  pub month : ℕ
  pub day : ℕ

-- Years are counted from March 0000, in eras of 400 years.
unfoldable pub civil_of_days : ℕ → CivilDate
civil_of_days n =
    let z = n + 719_468 in
    let era = z / 146_097 in
    let doe = z % 146_097 in
    let yoe = (doe - doe / 1460 + doe / 36_524 - doe / 146_096) / 365 in
    let doy = doe - (365 * yoe + yoe / 4 - yoe / 100) in
    let mp = (5 * doy + 2) / 153 in
    let month = if ltb mp 10 then mp + 3 else mp - 9 in
    record {
      year = yoe + era * 400 + (if ltb month 3 then 1 else 0);
      month = month;
      day = doy - (153 * mp + 2) / 5 + 1;
    }

-- `getUTCDay()`: 0 is Sunday; 1 January 1970 was a Thursday.
unfoldable pub weekday : ℕ → ℕ
weekday n = (n + 4) % 7
