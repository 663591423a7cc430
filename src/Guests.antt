-- ===== src/Guests.antt =====
-- What guests do with their reservation, and the job that cleans up after them:
-- backend/src/services/reservationService.js, with `recordInitialStatus` of
-- backend/src/services/reservation/reservationStatusService.js. The provider's answer on a session is a
-- parameter; `none` is a call that fails. Logs, metrics and live events are left out.
pub mod Checkout
pub mod Kept
pub mod Recorded
mod Examples
use rent_a_car_v.Base.{
  ℕ, ◌+◌, suc, Bool, true, false, not, ◌&&◌, ◌||◌, Option, none, some, List, [], ◌∷◌, ◌++◌, keep,
  leb, length, ◌==◌, if◌then◌else◌, Result, ok, err, ◌>>=◌, is_some,
}
use rent_a_car_v.Lifecycle.{Status, cancelled, expired, pending_payment, processing_payment, same}
use rent_a_car_v.Database.{Database, Reservation, HistoryRow}
use rent_a_car_v.StatusChange.{Change, ChangeError, ActorType, ReservationPatch, change_status}
use rent_a_car_v.Payments.{no_patch}
use rent_a_car_v.Finalization.{
  Retrieve, Options, CheckoutSession, FinalizeError, Outcome, Reason, finalized, already_confirmed,
  Surroundings, is_stripe_session_paid, find_active_by_session_id,
}
use rent_a_car_v.Finalization.Complete.{system_change}
use rent_a_car_v.Finalization.Core.{finalize_reservation_by_stripe_session_id}
use rent_a_car_v.Holds.{mark_abandoned_reservations}
use rent_a_car_v.Holds.Create.{
  HoldRequest, HoldError, CreateResult, created, hold_window_ms, find_overlapping_hold,
  car_has_open_physical_rental, find_booked_date_overlap,
  create_pending_reservation_with_availability_check,
}

abbrev pub customer_change : ℕ → Status → Option ℕ → ReservationPatch → Change
customer_change i s user_id p = record {
  reservation_id = i;
  new_status = s;
  actor = ActorType.customer;
  user_id = user_id;
  patch = some p;
}

abbrev pub ends_hold : ℕ → ReservationPatch
ends_hold now = record no_patch { hold_expires_at = some now }

abbrev pub cancelled_by :
    Result ChangeError (Bool × Database) → Result ChangeError (Bool × Database)
cancelled_by (ok (_, db)) = ok (true, db)
cancelled_by (err e) = err e

-- The Boolean is `cancelled`.
unfoldable pub release_active_reservation_for_session :
    ℕ → Option ℕ → ℕ → Database → Result ChangeError (Bool × Database)
release_active_reservation_for_session session_id user_id now db =
    elim (find_active_by_session_id session_id now db) [
      | none ↦ ok (false, db)
      | some r ↦
          cancelled_by (change_status (customer_change r.id cancelled user_id (ends_hold now)) db)
    ]

abbrev pub extend_reservation_hold : ℕ → Reservation → Reservation
extend_reservation_hold now r = record r { hold_expires_at = now + hold_window_ms }

pub record Availability : Type 0 where
  pub overlapping_reservation : Option Reservation
  pub open_physical_rental : Bool
  pub booked_overlap : Bool

unfoldable pub check_car_availability_for_range : HoldRequest → Database → Availability
check_car_availability_for_range h db = record {
  overlapping_reservation = find_overlapping_hold none none h db;
  open_physical_rental = car_has_open_physical_rental h.car_id db;
  booked_overlap = find_booked_date_overlap h.car_id h.start_date h.end_date db;
}

abbrev pub initial_row : ℕ → Option ℕ → HistoryRow
initial_row i user_id = record {
  reservation_id = i;
  old_status = none;
  new_status = pending_payment;
  changed_by_user_id = user_id;
  changed_by_system = false;
}

unfoldable pub record_initial_status : ℕ → Option ℕ → Database → Database
record_initial_status i user_id db = record db {
  history = db.history ++ (initial_row i user_id ∷ []);
}

abbrev pub recorded : Option ℕ → CreateResult × Database → CreateResult × Database
recorded user_id (created r, db) = (created r, record_initial_status r.id user_id db)
recorded user_id (result, db) = (result, db)

abbrev pub when_ok :
    Option ℕ
    → Result HoldError (CreateResult × Database)
    → Result HoldError (CreateResult × Database)
when_ok user_id (ok p) = ok (recorded user_id p)
when_ok user_id (err e) = err e

-- The hold is committed first; its history row is a statement of its own.
unfoldable pub create_pending_reservation :
    Option ℕ → ℕ → Option ℕ → HoldRequest → Database → Result HoldError (CreateResult × Database)
create_pending_reservation user_id id exclude_session_id h db =
    when_ok user_id (create_pending_reservation_with_availability_check id exclude_session_id h db)

pub data SessionStatus : Type 0 where
  session_open session_expired session_complete : SessionStatus

pub record RemoteSession : Type 0 where
  pub checkout : CheckoutSession
  pub status : SessionStatus

abbrev pub Remote : Type 0
Remote = ℕ → Option RemoteSession

abbrev pub checkout_of : Option RemoteSession → Option CheckoutSession
checkout_of none = none
checkout_of (some s) = some s.checkout

abbrev pub retrieve_by : Remote → Retrieve
retrieve_by remote i = checkout_of (remote i)

unfoldable pub reconcile_options : Reservation → RemoteSession → Options
reconcile_options r session = record {
  require_active_status = false;
  reservation_id = some r.id;
  car_id = some r.car_id;
  session_id = some r.session_id;
  stripe_checkout_session = none;
  payment_status = session.checkout.payment_status;
  amount_total = session.checkout.session.amount_total;
  currency = session.checkout.session.currency;
  payment_intent = none;
  is_session_paid = none;
  is_paid_webhook = false;
}

unfoldable pub is_candidate : ℕ → Reservation → Bool
is_candidate now r =
    same r.status processing_payment && (is_some r.stripe_session_id && leb r.hold_expires_at now)

pub record Tally : Type 0 where
  pub checked : ℕ
  pub expired : ℕ
  pub finalized : ℕ
  pub kept : ℕ

abbrev pub settles : Reason → Bool
settles finalized = true
settles already_confirmed = true
settles _ = false

abbrev pub is_settled : Result FinalizeError Outcome → Bool
is_settled (ok o) = settles o.reason
is_settled (err e) = false

abbrev pub count_finalized : Result FinalizeError Outcome × Database → Tally → Tally × Database
count_finalized (result, db) t =
    (if is_settled result then record t { finalized = suc t.finalized } else t, db)

-- Errors are caught: those of the graph quietly, the others with a log entry.
abbrev pub count_expired :
    Database → Result ChangeError (Bool × Database) → Tally → Tally × Database
count_expired db (ok (_, db')) t = (record t { expired = suc t.expired }, db')
count_expired db (err e) t = (t, db)

unfoldable pub reconcile_unpaid :
    ℕ → Reservation → SessionStatus → Tally → Database → Tally × Database
reconcile_unpaid now r session_open t db = (record t { kept = suc t.kept }, db)
reconcile_unpaid now r session_expired t db =
    count_expired db (change_status (system_change r.id expired (some (ends_hold now))) db) t
reconcile_unpaid now r session_complete t db = (t, db)

unfoldable pub reconcile_session :
    Remote → Surroundings → ℕ → Reservation → Option ℕ → Tally → Database → Tally × Database
reconcile_session remote s now r none t db = (t, db)
reconcile_session remote s now r (some stripe_session_id) t db = elim (remote stripe_session_id) [
  | none ↦ (t, db)
  | some session ↦
      if is_stripe_session_paid session.checkout.payment_status
      then count_finalized
          (finalize_reservation_by_stripe_session_id (retrieve_by remote) s stripe_session_id
            (reconcile_options r session) db)
          t
      else reconcile_unpaid now r session.status t db
]

-- The rows are those that were read at the start.
unfoldable pub reconcile_each :
    Remote → (ℕ → Surroundings) → ℕ → List Reservation → Tally → Database → Tally × Database
reconcile_each remote at now [] t db = (t, db)
reconcile_each remote at now (r ∷ rs) t db =
    let (t', db') = reconcile_session remote (at r.id) now r r.stripe_session_id t db in
    reconcile_each remote at now rs t' db'

-- `by_update` stands for `ORDER BY updated_at`, a column that is left out; `at` gives the time and the
-- new ids that the run for a reservation takes.
unfoldable pub reconcile_processing_stripe_reservations :
    (List Reservation → List Reservation)
    → Remote
    → (ℕ → Surroundings)
    → ℕ
    → Database
    → Tally × Database
reconcile_processing_stripe_reservations by_update remote at now db =
    let candidates = by_update (keep (is_candidate now) db.reservations) in
    reconcile_each remote at now candidates
      (record { checked = length candidates; expired = 0; finalized = 0; kept = 0 }) db

unfoldable pub clean_up_abandoned_reservations :
    List ℕ
    → (List Reservation → List Reservation)
    → Remote
    → (ℕ → Surroundings)
    → ℕ
    → Database
    → Tally × Database
clean_up_abandoned_reservations active_session_ids by_update remote at now db =
    let (ids, db') = mark_abandoned_reservations active_session_ids now db in
    reconcile_processing_stripe_reservations by_update remote at now db'
