-- ===== src/Holds.antt =====
-- Holds that ran out: backend/src/services/sql/reservation/reservationHoldExpiry.js. Each function is
-- one statement that expires the rows it selects and writes a history row for each.
pub mod Recorded
pub mod Gone
pub mod Create
pub mod Timing
pub mod Rehold
pub mod Replace
pub mod Allowed
pub mod Created
pub mod Moves
pub mod Steps
pub mod Outcome
pub mod Cleaned
pub mod Attempt
pub mod Exclusive
mod Examples
use rent_a_car_v.Base.{
  ℕ, Bool, true, false, not, ◌&&◌, ◌||◌, Option, none, some, List, [], ◌∷◌, ◌++◌, keep, any, map,
  update_where, leb, ◌==◌, if◌then◌else◌, is_some,
}
use rent_a_car_v.Lifecycle.{Status, processing_payment, expired, same, is_hold_status}
use rent_a_car_v.Database.{Database, Reservation, HistoryRow}

abbrev pub expired_row : ℕ → Reservation → Reservation
expired_row now r = record r { status = expired; hold_expires_at = now }

abbrev pub expiry_history : Reservation → HistoryRow
expiry_history r = record {
  reservation_id = r.id;
  old_status = some r.status;
  new_status = expired;
  changed_by_user_id = none;
  changed_by_system = true;
}

-- `WITH to_expire ..., updated ... INSERT INTO reservation_status_history`.
unfoldable pub expire_rows : (Reservation → Bool) → ℕ → Database → Database
expire_rows selected now db = record db {
  reservations = update_where selected (expired_row now) db.reservations;
  history = db.history ++ map expiry_history (keep selected db.reservations);
}

-- `status = ANY($3) AND hold_expires_at <= $2`.
abbrev pub stale : ℕ → Reservation → Bool
stale now r = is_hold_status r.status && leb r.hold_expires_at now

-- A car id of 0 is no id.
unfoldable pub expire_stale_holds_for_car : ℕ → ℕ → Database → Database
expire_stale_holds_for_car car_id now db =
    if car_id == 0 then db else expire_rows (λ r. r.car_id == car_id && stale now r) now db

-- `none` is an empty session id.
unfoldable pub expire_stale_holds_for_session : Option ℕ → ℕ → Database → Database
expire_stale_holds_for_session none now db = db
expire_stale_holds_for_session (some session_id) now db =
    expire_rows (λ r. r.session_id == session_id && stale now r) now db

-- The Boolean says whether a row was expired.
unfoldable pub mark_reservation_expired : ℕ → ℕ → Database → Bool × Database
mark_reservation_expired reservation_id now db =
    let selected : Reservation → Bool =
      λ r. r.id == reservation_id && same r.status processing_payment in
    (any selected db.reservations, expire_rows selected now db)

abbrev pub is_empty : List ℕ → Bool
is_empty [] = true
is_empty (x ∷ xs) = false

-- The session column is never null.
abbrev pub abandoned : List ℕ → ℕ → Reservation → Bool
abandoned active_session_ids now r =
    is_hold_status r.status
    && (not (same r.status processing_payment && is_some r.stripe_session_id)
        && (leb r.hold_expires_at now
            || (not (is_empty active_session_ids)
                && not (any (λ s. s == r.session_id) active_session_ids))))

-- The ids of the expired reservations, and the tables.
unfoldable pub mark_abandoned_reservations : List ℕ → ℕ → Database → List ℕ × Database
mark_abandoned_reservations active_session_ids now db = (
  map (λ (r : Reservation). r.id) (keep (abandoned active_session_ids now) db.reservations),
  expire_rows (abandoned active_session_ids now) now db,
)

-- The four statements as one: which one runs, and with what.
pub data Expiry : Type 0 where
  of_car : ℕ → Expiry
  of_session : Option ℕ → Expiry
  of_reservation : ℕ → Expiry
  of_abandoned : List ℕ → Expiry

unfoldable pub run_expiry : Expiry → ℕ → Database → Database
run_expiry (of_car car_id) now db = expire_stale_holds_for_car car_id now db
run_expiry (of_session session_id) now db = expire_stale_holds_for_session session_id now db
run_expiry (of_reservation reservation_id) now db =
    (mark_reservation_expired reservation_id now db).1
run_expiry (of_abandoned active_session_ids) now db =
    (mark_abandoned_reservations active_session_ids now db).1
