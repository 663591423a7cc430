-- ===== src/Holds/Rehold.antt =====
-- Moving the hold of a session to another car or other dates:
-- backend/src/services/sql/reservation/reservationHoldRehold.js.
use rent_a_car_v.Base.{
  ℕ, ◌+◌, Bool, false, not, ◌&&◌, Option, none, some, List, [], ◌∷◌, ◌++◌, keep, find, update_where,
  ◌==◌, if◌then◌else◌, Result, ok, err, guard, ◌>>◌,
}
use rent_a_car_v.Lifecycle.{pending_payment, processing_payment, same}
use rent_a_car_v.Database.{Database, Reservation, HistoryRow, find_by_id_for_update}
use rent_a_car_v.Finalization.{find_active_by_session_id}
use rent_a_car_v.Holds.{expire_stale_holds_for_car, expire_stale_holds_for_session}
use rent_a_car_v.Holds.Create.{
  HoldRequest, HoldError, invalid_car, invalid_session, hold_overlap_violation,
  session_hold_violation, hold_window_ms, check_constraints, find_overlapping_hold,
  car_has_open_physical_rental, find_booked_date_overlap,
}

pub data ReholdReason : Type 0 where
  not_found rehold_not_allowed hold_overlap booked_overlap create_conflict : ReholdReason

-- The row that was moved, or why none was.
pub data ReholdResult : Type 0 where
  reheld : Reservation → ReholdResult
  refused : ReholdReason → ReholdResult

abbrev pub ReholdRun : Type 0
ReholdRun = Result HoldError (ReholdResult × Database)

abbrev pub moved : HoldRequest → Reservation → Reservation
moved h r = record r {
  car_id = h.car_id;
  pickup_date = h.start_date;
  return_date = h.end_date;
  total_price = h.total_price;
  hold_expires_at = h.written_at + hold_window_ms;
}

abbrev pub is_pending_row : ℕ → Reservation → Bool
is_pending_row id r = r.id == id && same r.status pending_payment

abbrev pub others : ℕ → List Reservation → List Reservation
others id rows = keep (λ (r : Reservation). not (r.id == id)) rows

-- `none` where no row was updated.
unfoldable pub update_hold_for_rehold :
    ℕ → HoldRequest → List Reservation → Result HoldError (Option Reservation × List Reservation)
update_hold_for_rehold id h rows = elim (find (is_pending_row id) rows) [
  | none ↦ ok (none, rows)
  | some r ↦ do
    check_constraints (moved h r) (others id rows)
    ok (some (moved h r), update_where (is_pending_row id) (moved h) rows)
]

abbrev pub rehold_row : ℕ → HistoryRow
rehold_row id = record {
  reservation_id = id;
  old_status = some pending_payment;
  new_status = pending_payment;
  changed_by_user_id = none;
  changed_by_system = false;
}

abbrev pub refusal : Option Reservation → ReholdResult
refusal none = refused not_found
refusal (some r) =
    if same r.status processing_payment then refused rehold_not_allowed else refused not_found

-- An error rolls back to the savepoint.
abbrev pub after_update :
    ℕ → Database → Result HoldError (Option Reservation × List Reservation) → ReholdRun
after_update id db (ok (some r, rows)) =
    ok (reheld r, record db { reservations = rows; history = db.history ++ (rehold_row r.id ∷ []) })
after_update id db (ok (none, rows)) = ok (refusal (find_by_id_for_update id db), db)
after_update id db (err hold_overlap_violation) = ok (refused create_conflict, db)
after_update id db (err session_hold_violation) = ok (refused create_conflict, db)
after_update id db (err e) = err e

-- The stale holds of both cars are expired.
unfoldable pub move_hold : HoldRequest → Reservation → Database → ReholdRun
move_hold h locked db = elim (find_overlapping_hold none (some locked.id) h db) [
  | some r ↦ ok (refused hold_overlap, db)
  | none ↦
      if car_has_open_physical_rental h.car_id db
      then ok (refused booked_overlap, db)
      else if find_booked_date_overlap h.car_id h.start_date h.end_date db
      then ok (refused booked_overlap, db)
      else after_update locked.id db (update_hold_for_rehold locked.id h db.reservations)
]

unfoldable pub rehold_locked : HoldRequest → Option Reservation → Database → ReholdRun
rehold_locked h none db = ok (refused not_found, db)
rehold_locked h (some locked) db =
    if not (locked.session_id == h.session_id)
    then ok (refused not_found, db)
    else if not (same locked.status pending_payment)
    then ok (refused rehold_not_allowed, db)
    else move_hold h locked (
        expire_stale_holds_for_car h.car_id h.now
          (expire_stale_holds_for_car locked.car_id h.now db))

-- `peeked` is what was read before the stale holds of the session were expired.
unfoldable pub rehold_peeked : HoldRequest → Option Reservation → Database → ReholdRun
rehold_peeked h none db =
    ok (refused not_found, expire_stale_holds_for_session (some h.session_id) h.now db)
rehold_peeked h (some peeked) db =
    if same peeked.status processing_payment
    then ok (refused rehold_not_allowed, db)
    else (let expired = expire_stale_holds_for_session (some h.session_id) h.now db in
        if not (same peeked.status pending_payment)
        then ok (refused rehold_not_allowed, expired)
        else rehold_locked h (find_by_id_for_update peeked.id expired) expired)

unfoldable pub rehold_pending_reservation_with_availability_check :
    HoldRequest → Database → ReholdRun
rehold_pending_reservation_with_availability_check h db = do
  guard (not (h.car_id == 0)) invalid_car
  guard (not (h.session_id == 0)) invalid_session
  rehold_peeked h (find_active_by_session_id h.session_id h.looked_up_at db) db
