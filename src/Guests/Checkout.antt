-- ===== src/Guests/Checkout.antt =====
-- The reservation of a checkout: backend/src/services/payment/checkout/checkoutReservationService.js, and
-- what undoes it: backend/src/services/payment/checkout/checkoutCompensationService.js. The pages that are
-- answered are the constructors of the result.
use rent_a_car_v.Base.{
  ℕ, ◌+◌, Bool, true, false, not, ◌&&◌, ◌||◌, Option, none, some, ◌==◌, if◌then◌else◌, Result, ok,
  err,
}
use rent_a_car_v.Lifecycle.{pending_payment, cancelled, invalid_status_transition}
use rent_a_car_v.Database.{Database, Reservation}
use rent_a_car_v.StatusChange.{ChangeError, ReservationPatch, change_status, not_found, transition}
use rent_a_car_v.Payments.{no_patch}
use rent_a_car_v.Finalization.{find_active_by_session_id, find_by_id}
use rent_a_car_v.Finalization.Complete.{system_change}
use rent_a_car_v.Holds.Create.{
  HoldRequest, HoldError, CreateResult, created, existing_active, overlapping, booked_overlap,
  hold_window_ms,
}
use rent_a_car_v.Guests.{
  check_car_availability_for_range, create_pending_reservation, customer_change, ends_hold,
}

-- `proceeds` has the reservation, and whether this step created it.
pub data CheckoutResult : Type 0 where
  proceeds : Reservation → Bool → CheckoutResult
  reserved_in_period booked_in_period : CheckoutResult
  has_active_reservation : Reservation → CheckoutResult

pub data CheckoutError : Type 0 where
  hold : HoldError → CheckoutError
  status_change : ChangeError → CheckoutError

abbrev pub CheckoutRun : Type 0
CheckoutRun = Result CheckoutError (CheckoutResult × Database)

abbrev pub asks_same : HoldRequest → Reservation → Bool
asks_same h r =
    (r.car_id == h.car_id) && ((r.pickup_date == h.start_date) && (r.return_date == h.end_date))

abbrev pub prepare_patch : ℕ → HoldRequest → ReservationPatch
prepare_patch extended_at h = record no_patch {
  hold_expires_at = some (extended_at + hold_window_ms);
  total_price = some h.total_price;
}

abbrev pub refreshed : Reservation → Option Reservation → Reservation
refreshed r none = r
refreshed r (some s) = s

abbrev pub after_refresh : Reservation → Result ChangeError (Bool × Database) → CheckoutRun
after_refresh r (ok (_, db)) = ok (proceeds (refreshed r (find_by_id r.id db)) false, db)
after_refresh r (err e) = err (status_change e)

-- The session had a hold already.
unfoldable pub resume_hold : Option ℕ → ℕ → HoldRequest → Reservation → Database → CheckoutRun
resume_hold user_id extended_at h r db =
    let availability = check_car_availability_for_range h db in
    if not (asks_same h r)
    then ok (has_active_reservation r, db)
    else if availability.booked_overlap || availability.open_physical_rental
    then ok (booked_in_period, db)
    else after_refresh r (
        change_status (customer_change r.id pending_payment user_id (prepare_patch extended_at h))
          db)

abbrev pub after_create :
    Option ℕ → ℕ → HoldRequest → Result HoldError (CreateResult × Database) → CheckoutRun
after_create user_id extended_at h (ok (created r, db)) = ok (proceeds r true, db)
after_create user_id extended_at h (ok (existing_active r, db)) =
    resume_hold user_id extended_at h r db
after_create user_id extended_at h (ok (overlapping r, db)) = ok (reserved_in_period, db)
after_create user_id extended_at h (ok (booked_overlap, db)) = ok (booked_in_period, db)
after_create user_id extended_at h (err e) = err (hold e)

-- `peeked_at` is when the session's hold is looked up, and `extended_at` when a hold is extended.
unfoldable pub resolve_checkout_reservation :
    Option ℕ → ℕ → ℕ → ℕ → HoldRequest → Database → CheckoutRun
resolve_checkout_reservation user_id id peeked_at extended_at h db =
    elim (find_active_by_session_id h.session_id peeked_at db) [
      | some r ↦ resume_hold user_id extended_at h r db
      | none ↦ after_create user_id extended_at h (create_pending_reservation user_id id none h db)
    ]

abbrev pub best_effort :
    Database → Result ChangeError (Bool × Database) → Result ChangeError Database
best_effort db (ok (_, db')) = ok db'
best_effort db (err not_found) = ok db
best_effort db (err (transition (invalid_status_transition from to))) = ok db
best_effort db (err e) = err e

unfoldable pub compensate_reservation_after_stripe_failure :
    Option Reservation → Bool → ℕ → Database → Result ChangeError Database
compensate_reservation_after_stripe_failure none created_now now db = ok db
compensate_reservation_after_stripe_failure (some r) false now db = ok db
compensate_reservation_after_stripe_failure (some r) true now db =
    best_effort db (change_status (system_change r.id cancelled (some (ends_hold now))) db)
