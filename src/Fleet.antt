-- ===== src/Fleet.antt =====
-- The status of a car follows its reservations: backend/src/services/carFleetSyncService.js, and
-- backend/src/services/sql/car/carFleetSql.js.
use rent_a_car_v.Base.{
  ℕ, Bool, not, ◌&&◌, Option, none, some, List, [], ◌∷◌, find, count, update_where, ◌==◌,
  if◌then◌else◌,
}
use rent_a_car_v.Lifecycle.{
  Status, confirmed, car_prepared, picked_up, active_rental, returned, completed, cancelled,
  no_show, expired, same, includes,
}
use rent_a_car_v.Database.{
  Database, Car, CarStatus, Reservation, available, reserved, rented, needs_cleaning,
  needs_inspection, in_maintenance, damaged, inactive,
}

abbrev pub car_rank : CarStatus → ℕ
car_rank available = 0
car_rank reserved = 1
car_rank rented = 2
car_rank needs_cleaning = 3
car_rank needs_inspection = 4
car_rank in_maintenance = 5
car_rank damaged = 6
car_rank inactive = 7

abbrev pub is_car : CarStatus → CarStatus → Bool
is_car a b = car_rank a == car_rank b

unfoldable pub find_car_status_for_update : ℕ → List Car → Option Car
find_car_status_for_update car_id cars = find (λ (c : Car). c.id == car_id) cars

abbrev pub with_status : CarStatus → Car → Car
with_status s c = record c { status = s; availability = is_car s available }

unfoldable pub update_car_status : ℕ → CarStatus → List Car → List Car
update_car_status car_id s cars =
    update_where (λ (c : Car). c.id == car_id && not c.is_deleted) (with_status s) cars

abbrev pub occupies : ℕ → ℕ → Reservation → Bool
occupies car_id except r =
    r.car_id == car_id
    && (includes (confirmed ∷ car_prepared ∷ picked_up ∷ active_rental ∷ []) r.status
        && not (r.id == except))

unfoldable pub count_active_fleet_reservations : ℕ → ℕ → List Reservation → ℕ
count_active_fleet_reservations car_id except reservations =
    count (occupies car_id except) reservations

-- The status that a car in status `current` takes when a reservation of it turns to `new`, and
-- `none` where it keeps its own; `others` counts the other reservations that occupy the car.
unfoldable pub next_car_status : CarStatus → Status → ℕ → Option CarStatus
next_car_status current new others =
    if includes (picked_up ∷ active_rental ∷ []) new
    then if is_car current rented then none else some rented
    else if same new returned
    then if is_car current needs_cleaning then none else some needs_cleaning
    else if includes (confirmed ∷ car_prepared ∷ []) new
    then if is_car current available then some reserved else none
    else if includes (cancelled ∷ no_show ∷ expired ∷ completed ∷ []) new
    then if is_car current reserved then if others == 0 then some available else none else none
    else none

-- `reservation` is the changed row, and stands in the table already.
unfoldable pub sync_car_status_from_reservation : Reservation → Status → Database → Database
unfolding find_car_status_for_update next_car_status
sync_car_status_from_reservation r new db = elim (find_car_status_for_update r.car_id db.cars) [
  | none ↦ db
  | some car ↦
      if r.car_id == 0
      then db
      else if car.is_deleted
      then db
      else elim (next_car_status car.status new
          (count_active_fleet_reservations r.car_id r.id db.reservations)) [
            | none ↦ db
            | some s ↦ record db { cars = update_car_status r.car_id s db.cars }
          ]
]
