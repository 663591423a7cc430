-- ===== src/Dates/Examples.antt =====
-- The theorems on charged days at concrete rentals, and tests of the calendar.
use rent_a_car_v.Base.{◌+◌, ◌-◌, ◌*◌, ◌≡◌, refl, ◌≤◌, ◌<◌, some, arith}
use rent_a_car_v.Dates.Civil.{civil_of_days, weekday, ms_per_day}
use rent_a_car_v.Dates.RentalDays.{compute_rental_days_safe, rental_days_cover}

leap_day : civil_of_days 11_016 ≡ record { year = 2000; month = 2; day = 29 }
unfolding civil_of_days
leap_day = refl

summer : civil_of_days 19_905 ≡ record { year = 2024; month = 7; day = 1 }
unfolding civil_of_days
summer = refl

monday : weekday 19_905 ≡ 1
unfolding weekday
monday = refl

-- Two days and one millisecond.
rental_days_cover_example :
    let d = compute_rental_days_safe (some 1000) (some 172_801_001) in
    (1 ≤ d) × (172_801_001 ≤ 1000 + d * ms_per_day) × (1000 + (d - 1) * ms_per_day < 172_801_001)
rental_days_cover_example = rental_days_cover 1000 172_801_001 (ground arith)
