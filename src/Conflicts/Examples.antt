-- ===== src/Conflicts/Examples.antt =====
-- The theorems on conflicts at a concrete schedule, and tests.
use rent_a_car_v.Base.{
  ◌≡◌, ◌≢◌, All, refl, true, false, none, some, [], ◌∷◌, any, ok, is_some, arith,
}
use rent_a_car_v.Lifecycle.{is_hold_status, confirmed}
use rent_a_car_v.Database.{available, in_maintenance, damaged, inactive}
use rent_a_car_v.StatusChange.Examples.{booking}
use rent_a_car_v.Bookings.Ranges.{new_block}
use rent_a_car_v.Conflicts.{
  ScheduledCar, Schedule, Plan, conflict, cleaning_buffer, warn, find_car,
  check_reservation_range_conflicts, assert_writable, car_conflicts, status_conflicts,
  hold_conflicts, find_overlapping_hold, find_open_physical_rental, block_conflicts,
  sequence_conflicts, next_pickup, expiry_conflicts, damage_conflicts,
}
use rent_a_car_v.Conflicts.Writable.{
  IsOther, HoldsAt, IsOut, BlocksAt, writable_is_free, unforced_is_clear,
}
use rent_a_car_v.Conflicts.Sequence.{is_after_next, never_after_next_pickup}

abbrev car : ScheduledCar
car = record {
  id = 3;
  status = available;
  insurance_expiry = some 9_000_000;
  technical_inspection_expiry = none;
  is_deleted = false;
}

-- One confirmed booking of the car, from 1000 to 5000, and its block.
abbrev schedule : Schedule
schedule = record {
  cars = car ∷ [];
  reservations = booking confirmed ∷ [];
  blocks = new_block 1 3 1000 5000 ∷ [];
  unresolved_damage = [];
  now = 100;
}

abbrev plan : Plan
plan = record {
  car_id = 3;
  start = 100;
  end = 900;
  exclude_reservation_id = none;
  exclude_block_id = none;
}

-- The next pickup is 100 ms after the return.
checked : check_reservation_range_conflicts schedule plan ≡ conflict cleaning_buffer warn true ∷ []
unfolding check_reservation_range_conflicts car_conflicts status_conflicts hold_conflicts
    find_overlapping_hold find_open_physical_rental block_conflicts sequence_conflicts next_pickup
    expiry_conflicts damage_conflicts is_hold_status
checked = refl

written :
    assert_writable (check_reservation_range_conflicts schedule plan) false false
    ≡ ok (conflict cleaning_buffer warn true ∷ [], false)
unfolding assert_writable
written = rw checked refl

writable_is_free_example :
    (is_some (find_car schedule plan) ≡ true)
    × All (λ r. IsOther plan r × HoldsAt 100 500 r → ⊥) schedule.reservations
    × All (λ r. IsOther plan r × IsOut r → ⊥) schedule.reservations
writable_is_free_example =
    writable_is_free schedule plan false false (conflict cleaning_buffer warn true ∷ [], false) 500
      (λ e. ground arith) (ground arith) (ground arith) written

unforced_is_clear_example :
    All (λ b. BlocksAt plan 500 b → ⊥) schedule.blocks
    × (car.status ≢ in_maintenance)
    × (car.status ≢ damaged)
    × (car.status ≢ inactive)
unforced_is_clear_example =
    unforced_is_clear schedule plan car false false (conflict cleaning_buffer warn true ∷ [], false)
      500 refl refl (ground arith) (ground arith) written

never_after_next_pickup_example :
    any is_after_next (check_reservation_range_conflicts schedule plan) ≡ false
never_after_next_pickup_example = never_after_next_pickup schedule plan
