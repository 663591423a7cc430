-- ===== src/Finalization/Complete.antt =====
-- The booking itself: backend/src/services/bookingFinalization/paidReservationFinalizationService.js
-- with `createOrderFromReservation` of backend/src/services/sql/order/orderWrite.js. Failures that
-- were reported for the session are marked as resolved elsewhere; logs and metrics are left out.
use rent_a_car_v.Base.{
  ℕ, Bool, true, false, ◌&&◌, Option, none, some, List, [], ◌∷◌, ◌++◌, any, leb, if◌then◌else◌,
  Result, ok, err, ◌>>=◌,
}
use rent_a_car_v.Lifecycle.{Status, paid, confirmed, is_hold_status}
use rent_a_car_v.Database.{Database, Reservation, Order, OrderStatus, Block}
use rent_a_car_v.Bookings.Ranges.{CalendarError, add_range}
use rent_a_car_v.StatusChange.{
  Change, ChangeError, ReservationPatch, ActorType, change_status, not_found, same_session,
}
use rent_a_car_v.Payments.{paid_amount_patch}
use rent_a_car_v.Finalization.{
  FinalizeError, order_exists, change, calendar, Surroundings, find_by_id,
}

unfoldable pub is_hold_expired : Reservation → ℕ → Bool
is_hold_expired r now = is_hold_status r.status && leb r.hold_expires_at now

abbrev pub first_of : Option ℕ → Option ℕ → Option ℕ
first_of none b = b
first_of (some a) b = some a

abbrev pub system_change : ℕ → Status → Option ReservationPatch → Change
system_change i s p = record {
  reservation_id = i;
  new_status = s;
  actor = ActorType.system;
  user_id = none;
  patch = p;
}

-- `...(x ? { field: x } : {})`.
abbrev pub if_given : Option ℕ → Option (Option ℕ)
if_given none = none
if_given (some i) = some (some i)

unfoldable pub payment_patch : ℕ → ℕ → Option ℕ → Option ℕ → ReservationPatch
payment_patch stripe_session_id now intent cents = record (paid_amount_patch cents) {
  stripe_session_id = some (some stripe_session_id);
  hold_expires_at = some now;
  stripe_payment_intent_id = if_given intent;
}

abbrev pub lift_change : Result ChangeError (Bool × Database) → Result FinalizeError Database
lift_change (ok (_, db)) = ok db
lift_change (err e) = err (change e)

abbrev pub lift_calendar : Result CalendarError (List Block) → Result FinalizeError (List Block)
lift_calendar (ok bs) = ok bs
lift_calendar (err e) = err (calendar e)

abbrev pub new_order : ℕ → Reservation → ℕ → ℕ → Order
new_order id r car_id stripe_session_id = record {
  id = id;
  reservation_id = some r.id;
  car_id = car_id;
  pickup_date = r.pickup_date;
  return_date = r.return_date;
  stripe_session_id = some stripe_session_id;
  status = OrderStatus.active;
  is_deleted = false;
}

-- The unique index on the reservation counts the deleted orders too.
unfoldable pub create_order_from_reservation :
    ℕ → Reservation → ℕ → ℕ → List Order → Result FinalizeError (List Order)
create_order_from_reservation id r car_id stripe_session_id orders =
    if any (λ (o : Order). same_session o.reservation_id (some r.id)) orders
    then err order_exists
    else ok (orders ++ (new_order id r car_id stripe_session_id ∷ []))

-- What follows once the reservation is paid: `r` is its row, `car_id` the car that the caller knew.
unfoldable pub book_paid :
    Surroundings → Reservation → ℕ → ℕ → Database → Result FinalizeError Database
book_paid s r car_id stripe_session_id db = do
  blocks ←
      lift_calendar (
        add_range true s.block_id s.now db.reservations car_id r.pickup_date r.return_date
          db.blocks)
  orders ← create_order_from_reservation s.order_id r car_id stripe_session_id db.orders
  lift_change (
      change_status (system_change r.id confirmed none)
        (record db { blocks = blocks; orders = orders }))

abbrev pub book_found :
    Surroundings → Option Reservation → ℕ → ℕ → Database → Result FinalizeError Database
book_found s none car_id stripe_session_id db = err (change not_found)
book_found s (some r) car_id stripe_session_id db = book_paid s r car_id stripe_session_id db

unfoldable pub complete_reservation_finalization :
    Surroundings → Reservation → ℕ → Option ℕ → Option ℕ → Database → Result FinalizeError Database
complete_reservation_finalization s r stripe_session_id intent cents db = do
  let patch =
      payment_patch stripe_session_id s.now (first_of intent r.stripe_payment_intent_id) cents
  marked ← lift_change (change_status (system_change r.id paid (some patch)) db)
  book_found s (find_by_id r.id marked) r.car_id stripe_session_id marked
