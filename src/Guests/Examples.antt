-- ===== src/Guests/Examples.antt =====
-- The theorems on guests' reservations at concrete tables, and tests.
use rent_a_car_v.Base.{Result, err, ok, ◌≡◌}
use rent_a_car_v.Lifecycle.{is_hold_status}
use rent_a_car_v.Base.{ℕ, ◌+◌, ◌≤◌, refl, none, some, [], ◌∷◌, arith}
use rent_a_car_v.Text.{codes}
use rent_a_car_v.Lifecycle.{processing_payment, pending_payment, is_valid_status, can_transition}
use rent_a_car_v.Refund.Ledger.Runs.{empty}
use rent_a_car_v.Database.{Database, Reservation}
use rent_a_car_v.Bookings.Ranges.{apart}
use rent_a_car_v.StatusChange.Recorded.{IsRecorded}
use rent_a_car_v.StatusChange.Examples.{booking, step_row, reserved_car}
use rent_a_car_v.Finalization.{Surroundings, paid_up}
use rent_a_car_v.Holds.Exclusive.{exclusive}
use rent_a_car_v.Finalization.{find_active_by_session_id}
use rent_a_car_v.Holds.{expire_stale_holds_for_session, expire_stale_holds_for_car, expire_rows}
use rent_a_car_v.Holds.Create.{
  HoldRequest, HoldError, CreateResult, created, new_hold,
  create_pending_reservation_with_availability_check, check_session, check_range, insert_hold,
  find_overlapping_hold, car_has_open_physical_rental, find_booked_date_overlap,
}
use rent_a_car_v.Guests.Recorded.{create_pending_reservation-Sound}
use rent_a_car_v.Guests.{
  create_pending_reservation, record_initial_status, Remote, session_complete,
  clean_up_abandoned_reservations,
}
use rent_a_car_v.Guests.Kept.{Sound, clean_up_abandoned_reservations-Sound}

abbrev overdue : Reservation
overdue = record (booking processing_payment) { hold_expires_at = 900; paid_amount_cents = none }

abbrev tables : Database
tables = record {
  reservations = overdue ∷ [];
  history = step_row pending_payment processing_payment ∷ [];
  cars = reserved_car ∷ [];
  blocks = [];
  orders = [];
  refunds = empty;
}

-- The session was paid.
abbrev remote : Remote
remote i = some (record {
  checkout = record {
    session = record { id = i; amount_total = some 9000; currency = codes "eur" };
    payment_status = some paid_up;
  };
  status = session_complete;
})

abbrev at_950 : ℕ → Surroundings
at_950 i = record { now = 950; block_id = 20; order_id = 30 }

tables-IsRecorded : IsRecorded tables
unfolding can_transition is_valid_status
tables-IsRecorded = record {
  current = λ i r f. ground arith;
  known = λ i r f. ground arith;
  allowed = (refl, tt);
}

tables-Sound : Sound tables
unfolding exclusive apart
tables-Sound = ((refl, refl), tables-IsRecorded, refl)

clean_up_abandoned_reservations-Sound_example :
    let (tally, db) = clean_up_abandoned_reservations [] (λ rs. rs) remote at_950 950 tables in
    Sound db × (tally.expired + tally.finalized + tally.kept ≤ tally.checked)
clean_up_abandoned_reservations-Sound_example =
    clean_up_abandoned_reservations-Sound [] (λ rs. rs) remote at_950 950 tables tables-Sound

-- Another session asks for the car after the overdue hold.
abbrev request : HoldRequest
request = record {
  car_id = 3;
  session_id = 12;
  start_date = 5000;
  end_date = 9000;
  total_price = 8000;
  now = 950;
  looked_up_at = 951;
  written_at = 952;
  read_again_at = 953;
}

abbrev attempt : Result HoldError (CreateResult × Database)
attempt = create_pending_reservation (some 2) 8 none request tables

abbrev tables_of : Result HoldError (CreateResult × Database) → Database
tables_of (ok (_, db)) = db
tables_of (err e) = tables

made_hold : attempt ≡ ok (created (new_hold 8 request), tables_of attempt)
unfolding create_pending_reservation record_initial_status
    create_pending_reservation_with_availability_check check_session check_range insert_hold
    rent_a_car_v.Holds.Create.create_pending_reservation expire_stale_holds_for_session
    expire_stale_holds_for_car expire_rows find_active_by_session_id find_overlapping_hold
    car_has_open_physical_rental find_booked_date_overlap is_hold_status
made_hold = refl

create_pending_reservation-Sound_example : Sound (tables_of attempt)
create_pending_reservation-Sound_example =
    create_pending_reservation-Sound (some 2) 8 none request tables (tables_of attempt)
      (created (new_hold 8 request)) tables-Sound refl made_hold
