-- ===== src/Finalization/Core.antt =====
-- `finalizeReservationCore` of backend/src/services/bookingFinalization/finalizeReservationCore.js, with
-- `finalizeReservationByStripeSessionId` of backend/src/services/bookingFinalizationService.js. Logs are
-- left out.
use rent_a_car_v.Base.{ℕ, not, ◌&&◌, Option, none, some, ◌==◌, if◌then◌else◌, Result, ok, err}
use rent_a_car_v.Lifecycle.{cancelled, same, is_hold_status, is_ops_lifecycle_status}
use rent_a_car_v.Database.{Database, Reservation}
use rent_a_car_v.Payments.{paid_snapshot_from_finalization_context}
use rent_a_car_v.Finalization.{
  Retrieve, Options, PaymentStatus, FinalizeError, missing_session, state_corrupted,
  is_stripe_session_paid, resolve_reservation_for_stripe_session, resolve_stripe_payment_status,
  find_order_by_reservation_id, find_order_by_stripe_session_id, Outcome, not_found,
  already_confirmed, hold_expired, paid_after_cancel, status_not_active, payment_not_paid,
  Surroundings,
}
use rent_a_car_v.Finalization.Complete.{first_of, is_hold_expired}
use rent_a_car_v.Finalization.Review.{
  Finalized, outcome, Checked, passed, rejected, validate_stripe_session_for_finalization,
  mark_paid_reservation_conflict, finalize_paid_expired_hold, handle_finalization_overlap, attempt,
  booked,
}

-- The last step: an attempt under a savepoint.
unfoldable pub book_active_hold :
    Surroundings
    → Reservation
    → ℕ
    → Options
    → Option ℕ
    → Option PaymentStatus
    → Database
    → Finalized
book_active_hold s r stripe_session_id o cents status db =
    elim (attempt s r stripe_session_id o cents db) [
      | ok db' ↦ ok (booked s r db')
      | err e ↦ handle_finalization_overlap e r stripe_session_id o cents status db
    ]

-- From the hold's expiry on: the session fits and its payment status is known.
unfoldable pub decide_by_status :
    Retrieve
    → Surroundings
    → Reservation
    → ℕ
    → Options
    → Option ℕ
    → Option PaymentStatus
    → Database
    → Finalized
decide_by_status retrieve s r stripe_session_id o cents status db =
    let paid = is_stripe_session_paid status in
    let inactive = o.require_active_status && not (is_hold_status r.status) in
    if is_hold_expired r s.now
    then (if not paid
        then ok (outcome r none hold_expired, db)
        else finalize_paid_expired_hold retrieve s r stripe_session_id o cents db)
    else if inactive && paid
    then (if same r.status cancelled
        then mark_paid_reservation_conflict r stripe_session_id paid_after_cancel
            (first_of o.payment_intent r.stripe_payment_intent_id) cents db
        else finalize_paid_expired_hold retrieve s r stripe_session_id o cents db)
    else if inactive
    then ok (outcome r none status_not_active, db)
    else if not paid
    then ok (outcome r none payment_not_paid, db)
    else book_active_hold s r stripe_session_id o cents status db

unfoldable pub decide :
    Retrieve → Surroundings → Reservation → ℕ → Options → Checked → Database → Finalized
decide retrieve s r stripe_session_id o (rejected result) db = result
decide retrieve s r stripe_session_id o (passed c) db =
    elim (resolve_stripe_payment_status retrieve stripe_session_id o) [
      | err e ↦ err e
      | ok status ↦
          decide_by_status retrieve s r stripe_session_id o
            (paid_snapshot_from_finalization_context o.amount_total (some c.session)) status db
    ]

-- The reservation is found, and no order names the session.
unfoldable pub finalize_without_order :
    Retrieve → Surroundings → Reservation → ℕ → Options → Database → Finalized
finalize_without_order retrieve s r stripe_session_id o db =
    elim (find_order_by_reservation_id r.id db) [
      | some order ↦
          if is_ops_lifecycle_status r.status
          then ok (outcome r (some order.id) already_confirmed, db)
          else err state_corrupted
      | none ↦
          if is_ops_lifecycle_status r.status
          then err state_corrupted
          else decide retrieve s r stripe_session_id o
              (validate_stripe_session_for_finalization retrieve r stripe_session_id o db) db
    ]

unfoldable pub finalize_found :
    Retrieve → Surroundings → Option Reservation → ℕ → Options → Database → Finalized
finalize_found retrieve s none stripe_session_id o db =
    ok (record { reservation = none; order = none; reason = not_found }, db)
finalize_found retrieve s (some r) stripe_session_id o db =
    elim (find_order_by_stripe_session_id stripe_session_id db) [
      | some order ↦ ok (outcome r (some order.id) already_confirmed, db)
      | none ↦ finalize_without_order retrieve s r stripe_session_id o db
    ]

-- The session 0 is one that was not provided.
unfoldable pub finalize_reservation_core :
    Retrieve → Surroundings → ℕ → Options → Database → Finalized
finalize_reservation_core retrieve s stripe_session_id o db =
    if stripe_session_id == 0
    then err missing_session
    else finalize_found retrieve s
        (resolve_reservation_for_stripe_session stripe_session_id o s.now db) stripe_session_id o db

-- In a transaction of its own: an error leaves the tables as they were. The error, or the outcome.
unfoldable pub finalize_reservation_by_stripe_session_id :
    Retrieve → Surroundings → ℕ → Options → Database → Result FinalizeError Outcome × Database
finalize_reservation_by_stripe_session_id retrieve s stripe_session_id o db =
    elim (finalize_reservation_core retrieve s stripe_session_id o db) [
      | ok (result, db') ↦ (ok result, db')
      | err e ↦ (err e, db)
    ]
