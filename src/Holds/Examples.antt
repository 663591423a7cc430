-- ===== src/Holds/Examples.antt =====
-- The theorems on expired holds at a concrete database, and tests.
use rent_a_car_v.Base.{ok, ◌≤◌, count, none, ◌≡◌, refl, true, some, [], ◌∷◌, arith}
use rent_a_car_v.Lifecycle.{
  Status, pending_payment, processing_payment, expired, is_hold_status, can_transition,
  is_valid_status,
}
use rent_a_car_v.Refund.Ledger.Runs.{empty}
use rent_a_car_v.Database.{Database, find_by_id_for_update}
use rent_a_car_v.StatusChange.Recorded.{IsRecorded}
use rent_a_car_v.StatusChange.Examples.{booking, step_row}
use rent_a_car_v.Holds.{of_car, run_expiry, expire_stale_holds_for_car, expire_rows}
use rent_a_car_v.Finalization.{find_active_by_session_id}
use rent_a_car_v.Holds.{expire_stale_holds_for_session}
use rent_a_car_v.Holds.Create.{
  HoldRequest, CreateResult, after_violation, created, overlapping, new_hold,
  create_pending_reservation, check_range, check_session, insert_hold, find_overlapping_hold,
  car_has_open_physical_rental, find_booked_date_overlap,
  create_pending_reservation_with_availability_check,
}
use rent_a_car_v.Holds.Rehold.{
  reheld, moved, rehold_row, update_hold_for_rehold, move_hold, rehold_locked, rehold_peeked,
  rehold_pending_reservation_with_availability_check,
}
use rent_a_car_v.Holds.Exclusive.{holds_at, holds_of}
use rent_a_car_v.Holds.Steps.{Steps, here, and_then, creates, reholds, held_once}
use rent_a_car_v.Holds.Attempt.{Tells, attempt_outcome}
use rent_a_car_v.Holds.Recorded.{distinct_ids, run_expiry-IsRecorded}

abbrev database : Status → Status → Database
database old new = record {
  reservations = booking new ∷ [];
  history = step_row old new ∷ [];
  cars = [];
  blocks = [];
  orders = [];
  refunds = empty;
}

expired_hold :
    (run_expiry (of_car 3) 100 (database pending_payment processing_payment)).reservations
    ≡ record (booking expired) { hold_expires_at = 100 } ∷ []
unfolding run_expiry expire_stale_holds_for_car expire_rows is_hold_status
expired_hold = refl

hold-IsRecorded : IsRecorded (database pending_payment processing_payment)
unfolding can_transition is_valid_status
hold-IsRecorded = record {
  current = λ i r f. ground arith;
  known = λ i r f. ground arith;
  allowed = (refl, tt);
}

run_expiry-IsRecorded_example :
    (distinct_ids
        (run_expiry (of_car 3) 100 (database pending_payment processing_payment)).reservations
      ≡ true)
    × IsRecorded (run_expiry (of_car 3) 100 (database pending_payment processing_payment))
run_expiry-IsRecorded_example =
    run_expiry-IsRecorded (of_car 3) 100 (database pending_payment processing_payment) refl
      hold-IsRecorded

abbrev request : HoldRequest
request = record {
  car_id = 3;
  session_id = 11;
  start_date = 1000;
  end_date = 5000;
  total_price = 9000;
  now = 100;
  looked_up_at = 101;
  written_at = 102;
  read_again_at = 103;
}

abbrev no_rows : Database
no_rows = record {
  reservations = [];
  history = [];
  cars = [];
  blocks = [];
  orders = [];
  refunds = empty;
}

abbrev one_hold : Database
one_hold = record no_rows { reservations = new_hold 7 request ∷ [] }

-- The same range for another session.
abbrev second : HoldRequest
second = record request {
  session_id = 12;
  now = 200;
  looked_up_at = 201;
  written_at = 202;
  read_again_at = 203;
}

abbrev later : HoldRequest
later = record request {
  start_date = 5000;
  end_date = 9000;
  now = 300;
  looked_up_at = 301;
  written_at = 302;
  read_again_at = 303;
}

abbrev moved_hold : Database
moved_hold = record one_hold {
  reservations = moved later (new_hold 7 request) ∷ [];
  history = rehold_row 7 ∷ [];
}

created_first :
    create_pending_reservation_with_availability_check 7 none request no_rows
    ≡ ok (created (new_hold 7 request), one_hold)
unfolding create_pending_reservation_with_availability_check check_session check_range insert_hold
    create_pending_reservation expire_stale_holds_for_session expire_stale_holds_for_car expire_rows
    find_active_by_session_id find_overlapping_hold car_has_open_physical_rental
    find_booked_date_overlap is_hold_status
created_first = refl

overlaps_first :
    create_pending_reservation_with_availability_check 8 none second one_hold
    ≡ ok (overlapping (some (new_hold 7 request)), one_hold)
unfolding create_pending_reservation_with_availability_check check_session check_range insert_hold
    create_pending_reservation expire_stale_holds_for_session expire_stale_holds_for_car expire_rows
    find_active_by_session_id find_overlapping_hold car_has_open_physical_rental
    find_booked_date_overlap is_hold_status
overlaps_first = refl

moved_first :
    rehold_pending_reservation_with_availability_check later one_hold
    ≡ ok (reheld (moved later (new_hold 7 request)), moved_hold)
unfolding rehold_pending_reservation_with_availability_check rehold_peeked rehold_locked move_hold
    update_hold_for_rehold find_by_id_for_update expire_stale_holds_for_session
    expire_stale_holds_for_car expire_rows find_active_by_session_id find_overlapping_hold
    car_has_open_physical_rental find_booked_date_overlap is_hold_status
moved_first = refl

-- The session's hold of another car ends while the locks are waited for.
abbrev lapsing : Database
lapsing = record no_rows {
  reservations = record (new_hold 7 request) { car_id = 4; hold_expires_at = 101 } ∷ [];
}

overlaps_nothing :
    create_pending_reservation_with_availability_check 8 none request lapsing
    ≡ ok (overlapping none, lapsing)
unfolding create_pending_reservation_with_availability_check check_session check_range insert_hold
    create_pending_reservation expire_stale_holds_for_session expire_stale_holds_for_car expire_rows
    find_active_by_session_id find_overlapping_hold car_has_open_physical_rental
    find_booked_date_overlap is_hold_status after_violation
overlaps_nothing = refl

attempt_outcome_example :
    (result : CreateResult) × (db' : Database) × (create_pending_reservation_with_availability_check
        8 none second one_hold
      ≡ ok (result, db'))
    × Tells 8 second one_hold result db'
attempt_outcome_example =
    attempt_outcome 8 second one_hold (λ e. ground arith) (λ e. ground arith) (ground arith)
      (ground arith) (ground arith)

abbrev run : Steps no_rows moved_hold
run =
    and_then
      (and_then
        (and_then here (creates 7 none request (created (new_hold 7 request)) refl created_first))
        (creates 8 none second (overlapping (some (new_hold 7 request))) refl overlaps_first))
      (reholds later (reheld (moved later (new_hold 7 request))) moved_first)

held_once_example :
    (count (holds_at 3 6000) moved_hold.reservations ≤ 1)
    × (count (holds_of 11) moved_hold.reservations ≤ 1)
held_once_example = held_once no_rows moved_hold 3 6000 11 refl run
