-- ===== src/StatusChange.antt =====
-- backend/src/services/reservation/reservationStatusService.js, the one way by which services change
-- the status of a reservation, with `applyStatusChange` of
-- backend/src/services/sql/reservation/reservationLifecycleRepository.js, the history row of
-- backend/src/services/sql/reservationStatusHistorySqlService.js and `softDeleteOrderForReservation`
-- of backend/src/services/admin/order/orderReservationSync.js.
pub mod Inversion
pub mod Recorded
pub mod Guarded
pub mod Quiet
pub mod Examples
use rent_a_car_v.Base.{
  ℕ, zero, suc, Bool, true, false, not, ◌&&◌, ◌||◌, Option, none, some, List, [], ◌∷◌, ◌++◌, find,
  keep, any, update_where, ltb, ◌==◌, if◌then◌else◌, is_some, Result, ok, err, guard, ◌>>=◌, ◌>>◌,
}
use rent_a_car_v.Lifecycle.{
  Status, cancelled, no_show, refunded, same, assert_transition, TransitionError,
}
use rent_a_car_v.Refund.Policy.{is_allowed_during_pending_refund}
use rent_a_car_v.Refund.Ledger.{Ledger, RefundOperation, find_active_by_reservation_id, is_pending}
use rent_a_car_v.Database.{
  Database, Reservation, HistoryRow, Order, OrderStatus, find_by_id_for_update,
}
use rent_a_car_v.Bookings.{resolve_stored_date_range, remove_range}
use rent_a_car_v.Fleet.{sync_car_status_from_reservation}

pub data ChangeError : Type 0 where
  missing_argument not_found refund_in_progress stripe_session_taken : ChangeError
  transition : TransitionError → ChangeError

-- The patch of a change: a field is `none` where the source's object has no such property (or, for
-- the price, a null). A paid amount that is not positive is 0.
pub record ReservationPatch : Type 0 where
  pub hold_expires_at : Option ℕ
  pub stripe_session_id : Option (Option ℕ)
  pub stripe_payment_intent_id : Option (Option ℕ)
  pub paid_amount_cents : Option ℕ
  pub total_price : Option ℕ

pub data ActorType : Type 0 where
  admin customer system : ActorType

pub record Change : Type 0 where
  pub reservation_id : ℕ
  pub new_status : Status
  pub actor : ActorType
  pub user_id : Option ℕ
  pub patch : Option ReservationPatch

abbrev or_else {ℓ} : {A : Type ℓ} → Option A → A → A
or_else none a = a
or_else (some b) a = b

-- `CASE WHEN $22 AND paid_amount_cents IS NULL THEN $23`: the amount is written once.
abbrev pub paid_once : Option ℕ → Option ℕ → Option ℕ
paid_once (some n) none = if ltb 0 n then some n else none
paid_once new old = old

unfoldable pub patch_reservation : ReservationPatch → Reservation → Reservation
patch_reservation p r = record r {
  hold_expires_at = or_else p.hold_expires_at r.hold_expires_at;
  stripe_session_id = or_else p.stripe_session_id r.stripe_session_id;
  stripe_payment_intent_id = or_else p.stripe_payment_intent_id r.stripe_payment_intent_id;
  paid_amount_cents = paid_once p.paid_amount_cents r.paid_amount_cents;
  total_price = or_else p.total_price r.total_price;
}

abbrev pub patched : Option ReservationPatch → Reservation → Reservation
patched none r = r
patched (some p) r = patch_reservation p r

unfoldable pub apply_status_change : Status → Option ReservationPatch → Reservation → Reservation
apply_status_change new p r = record (patched p r) { status = new }

abbrev pub same_session : Option ℕ → Option ℕ → Bool
same_session (some a) (some b) = a == b
same_session _ _ = false

-- The unique index on the provider's session refuses the row.
abbrev pub session_taken : Reservation → List Reservation → Bool
session_taken r rows =
    any (λ s. not (s.id == r.id) && same_session s.stripe_session_id r.stripe_session_id) rows

abbrev pub is_customer_or_admin : ActorType → Bool
is_customer_or_admin system = false
is_customer_or_admin _ = true

abbrev pub history_row : Change → Status → HistoryRow
history_row c old = record {
  reservation_id = c.reservation_id;
  old_status = some old;
  new_status = c.new_status;
  changed_by_user_id = c.user_id;
  changed_by_system = not (is_customer_or_admin c.actor);
}

abbrev same_id : Option ℕ → ℕ → Bool
same_id none i = false
same_id (some j) i = j == i

unfoldable pub soft_delete_order_for_reservation : ℕ → List Order → List Order
soft_delete_order_for_reservation i orders =
    elim (find (λ (o : Order). same_id o.reservation_id i && not o.is_deleted) orders) [
      | none ↦ orders
      | some found ↦
          update_where (λ (o : Order). o.id == found.id)
            (λ (o : Order). record o { is_deleted = true; status = OrderStatus.cancelled }) orders
    ]

-- A change into one of these statuses gives the dates free.
unfoldable pub releases : Status → Status → Bool
releases old new =
    same new cancelled && not (same old cancelled)
    || (same new no_show && not (same old no_show) || same new refunded && not (same old refunded))

unfoldable pub release_dates : Reservation → Status → Database → Database
release_dates r new db =
    let (start, end) = resolve_stored_date_range r.car_id r.pickup_date r.return_date db.blocks in
    record db {
      blocks = if r.car_id == 0 then db.blocks else remove_range r.car_id start end db.blocks;
      orders =
          if same new cancelled || same new refunded
          then soft_delete_order_for_reservation r.id db.orders
          else db.orders;
    }

-- What is written once the change is allowed: the row and its history, then the car's status, then
-- the calendar and the order.
abbrev pub write_rows : Change → Reservation → Database → Database
write_rows c r db = record db {
  reservations =
      update_where (λ (s : Reservation). s.id == c.reservation_id)
        (apply_status_change c.new_status c.patch) db.reservations;
  history = db.history ++ (history_row c r.status ∷ []);
}

abbrev pub write_car : Change → Reservation → Database → Database
write_car c r db =
    sync_car_status_from_reservation (apply_status_change c.new_status c.patch r) c.new_status
      (write_rows c r db)

unfoldable pub write_change : Change → Reservation → Database → Database
write_change c r db =
    if releases r.status c.new_status
    then release_dates (apply_status_change c.new_status c.patch r) c.new_status (write_car c r db)
    else write_car c r db

unfoldable pub refund_blocks : Change → Reservation → Database → Bool
refund_blocks c r db = elim (find_active_by_reservation_id c.reservation_id db.refunds) [
  | none ↦ false
  | some op ↦
      not (same r.status c.new_status)
      && (is_pending op.status && not (is_allowed_during_pending_refund c.new_status))
]

abbrev pub lift : Result TransitionError (Unit {0}) → Result ChangeError (Unit {0})
lift (ok u) = ok u
lift (err e) = err (transition e)

unfoldable pub perform : Change → Reservation → Database → Result ChangeError (Bool × Database)
perform c r db =
    if same r.status c.new_status && not (is_some c.patch)
    then ok (false, db)
    else if session_taken (apply_status_change c.new_status c.patch r) db.reservations
    then err stripe_session_taken
    else ok (true, write_change c r db)

-- What follows once the row is locked.
unfoldable pub change_locked :
    Change → Reservation → Database → Result ChangeError (Bool × Database)
change_locked c r db = do
  guard (not (refund_blocks c r db)) refund_in_progress
  lift (assert_transition (some r.status) c.new_status)
  perform c r db

-- The result says whether anything was changed.
unfoldable pub change_status_core : Change → Database → Result ChangeError (Bool × Database)
change_status_core c db = elim (find_by_id_for_update c.reservation_id db) [
  | none ↦ err not_found
  | some r ↦ change_locked c r db
]

-- One transaction: an error leaves the tables as they were.
unfoldable pub change_status : Change → Database → Result ChangeError (Bool × Database)
unfolding change_status_core
change_status c db = if c.reservation_id == 0 then err missing_argument else change_status_core c db
