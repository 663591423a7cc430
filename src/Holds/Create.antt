-- ===== src/Holds/Create.antt =====
-- Creating a hold: backend/src/services/sql/reservation/reservationHoldCreate.js, under the constraints of
-- backend/sql/schema/011_reservations_active_holds_exclusion.sql and
-- backend/sql/schema/031_reservations_one_active_hold_per_session.sql. The advisory locks make the
-- transaction one step. The id of the new row is an argument; prices but the total, and contact data,
-- are left out.
use rent_a_car_v.Base.{
  ℕ, ◌+◌, Bool, false, not, ◌&&◌, ◌||◌, Option, none, some, List, [], ◌∷◌, ◌++◌, any, find, ltb,
  ◌==◌, if◌then◌else◌, Result, ok, err, guard, ◌>>◌,
}
use rent_a_car_v.Lifecycle.{pending_payment, is_hold_status}
use rent_a_car_v.Database.{Database, Reservation, Block}
use rent_a_car_v.Bookings.Ranges.{clashes, taken, open_physical}
use rent_a_car_v.Finalization.{find_active_by_session_id}
use rent_a_car_v.Holds.{expire_stale_holds_for_car, expire_stale_holds_for_session}

-- 35 minutes.
abbrev pub hold_window_ms : ℕ
hold_window_ms = 2_100_000

-- Ids of 0 are missing ones. The clock is read at four moments: `now` before the locks are waited for,
-- then when the session's hold is looked up, when a hold is written, and when the session's hold is
-- looked up again after a violation.
pub record HoldRequest : Type 0 where
  pub car_id : ℕ
  pub session_id : ℕ
  pub start_date : ℕ
  pub end_date : ℕ
  pub total_price : ℕ
  pub now : ℕ
  pub looked_up_at : ℕ
  pub written_at : ℕ
  pub read_again_at : ℕ

pub data HoldError : Type 0 where
  invalid_car invalid_session invalid_range : HoldError
  hold_overlap_violation session_hold_violation : HoldError

abbrev pub period : Reservation → Block
period r = record {
  id = r.id;
  car_id = r.car_id;
  start_date = r.pickup_date;
  end_date = r.return_date;
}

-- Two rows that `no_overlapping_active_reservation_holds` does not let stand beside each other.
abbrev pub holds_overlap : Reservation → Reservation → Bool
holds_overlap a b =
    is_hold_status a.status && (is_hold_status b.status && clashes (period a) (period b))

-- Two rows that `idx_reservations_one_active_hold_per_session` does not let stand beside each other.
abbrev pub holds_share_session : Reservation → Reservation → Bool
holds_share_session a b =
    is_hold_status a.status && (is_hold_status b.status && a.session_id == b.session_id)

abbrev pub new_hold : ℕ → HoldRequest → Reservation
new_hold id h = record {
  id = id;
  car_id = h.car_id;
  session_id = h.session_id;
  status = pending_payment;
  pickup_date = h.start_date;
  return_date = h.end_date;
  total_price = h.total_price;
  hold_expires_at = h.written_at + hold_window_ms;
  stripe_session_id = none;
  stripe_payment_intent_id = none;
  paid_amount_cents = none;
}

-- A range that ends before it starts is an error of `tstzrange`. The exclusion constraint is the older
-- one, so it is checked first.
abbrev pub check_constraints : Reservation → List Reservation → Result HoldError (Unit {0})
check_constraints r rows = do
  guard (not (ltb r.return_date r.pickup_date)) invalid_range
  guard (not (any (holds_overlap r) rows)) hold_overlap_violation
  guard (not (any (holds_share_session r) rows)) session_hold_violation

unfoldable pub create_pending_reservation :
    ℕ → HoldRequest → List Reservation → Result HoldError (List Reservation)
create_pending_reservation id h rows = do
  guard (not (h.car_id == 0)) invalid_car
  check_constraints (new_hold id h) rows
  ok (rows ++ (new_hold id h ∷ []))

-- `excludeSessionId`.
abbrev pub excludes : Option ℕ → ℕ → Bool
excludes none i = false
excludes (some j) i = i == j

-- What `findOverlappingHold` selects for a request, less the holds of an excluded session and an
-- excluded reservation.
abbrev pub holds_range : Option ℕ → Option ℕ → HoldRequest → Reservation → Bool
holds_range exclude_session_id exclude_reservation_id h r =
    r.car_id == h.car_id
    && (is_hold_status r.status
        && (ltb h.now r.hold_expires_at
            && (ltb r.pickup_date h.end_date
                && (ltb h.start_date r.return_date
                    && not (
                        excludes exclude_session_id r.session_id
                        || excludes exclude_reservation_id r.id)))))

unfoldable pub find_overlapping_hold :
    Option ℕ → Option ℕ → HoldRequest → Database → Option Reservation
find_overlapping_hold exclude_session_id exclude_reservation_id h db =
    if h.car_id == 0
    then none
    else find (holds_range exclude_session_id exclude_reservation_id h) db.reservations

-- `findOpenPhysicalRental`, of which only the presence is read.
unfoldable pub car_has_open_physical_rental : ℕ → Database → Bool
car_has_open_physical_rental car_id db =
    any (λ (r : Reservation). r.car_id == car_id && open_physical r.status) db.reservations

unfoldable pub find_booked_date_overlap : ℕ → ℕ → ℕ → Database → Bool
find_booked_date_overlap car_id start end db = taken car_id start end db.blocks

-- `overlapping none` is a conflict of which only the car is known.
pub data CreateResult : Type 0 where
  created existing_active : Reservation → CreateResult
  overlapping : Option Reservation → CreateResult
  booked_overlap : CreateResult

-- The insertion failed and was rolled back to its savepoint.
unfoldable pub after_violation :
    Option ℕ → HoldRequest → Database → HoldError → Result HoldError (CreateResult × Database)
after_violation exclude_session_id h db hold_overlap_violation =
    ok (overlapping (find_overlapping_hold exclude_session_id none h db), db)
after_violation exclude_session_id h db session_hold_violation =
    elim (find_active_by_session_id h.session_id h.read_again_at db) [
      | some r ↦ ok (existing_active r, db)
      | none ↦ ok (overlapping (find_overlapping_hold exclude_session_id none h db), db)
    ]
after_violation exclude_session_id h db e = err e

unfoldable pub insert_hold :
    ℕ → Option ℕ → HoldRequest → Database → Result HoldError (CreateResult × Database)
insert_hold id exclude_session_id h db = elim (create_pending_reservation id h db.reservations) [
  | ok rows ↦ ok (created (new_hold id h), record db { reservations = rows })
  | err e ↦ after_violation exclude_session_id h db e
]

-- The session has no active hold, and the stale holds of the car are expired.
unfoldable pub check_range :
    ℕ → Option ℕ → HoldRequest → Database → Result HoldError (CreateResult × Database)
check_range id exclude_session_id h db = elim (find_overlapping_hold exclude_session_id none h db) [
  | some r ↦ ok (overlapping (some r), db)
  | none ↦
      if car_has_open_physical_rental h.car_id db
      then ok (booked_overlap, db)
      else if find_booked_date_overlap h.car_id h.start_date h.end_date db
      then ok (booked_overlap, db)
      else insert_hold id exclude_session_id h db
]

unfoldable pub check_session :
    ℕ → Option ℕ → HoldRequest → Database → Result HoldError (CreateResult × Database)
check_session id exclude_session_id h db =
    elim (find_active_by_session_id h.session_id h.looked_up_at db) [
      | some r ↦ ok (existing_active r, db)
      | none ↦ check_range id exclude_session_id h (expire_stale_holds_for_car h.car_id h.now db)
    ]

unfoldable pub create_pending_reservation_with_availability_check :
    ℕ → Option ℕ → HoldRequest → Database → Result HoldError (CreateResult × Database)
create_pending_reservation_with_availability_check id exclude_session_id h db = do
  guard (not (h.car_id == 0)) invalid_car
  guard (not (h.session_id == 0)) invalid_session
  check_session id exclude_session_id h
      (expire_stale_holds_for_session (some h.session_id) h.now db)
