-- ===== src/Finalization/Review.antt =====
-- Paid money that cannot be booked goes to manual review:
-- backend/src/services/bookingFinalization/paidConflictManualReviewService.js, the checks of
-- stripeSessionResolutionService.js and the recovery of concurrentFinalizationRecoveryService.js.
-- Reports to operators are left out.
use rent_a_car_v.Base.{
  ℕ, Bool, true, not, ◌||◌, Option, none, some, ◌==◌, if◌then◌else◌, Result, ok, err,
}
use rent_a_car_v.Lifecycle.{manual_review, is_ops_lifecycle_status, invalid_status_transition}
use rent_a_car_v.Database.{Database, Reservation}
use rent_a_car_v.StatusChange.{ChangeError, ReservationPatch, change_status, transition}
use rent_a_car_v.Payments.{
  paid_amount_patch, paid_snapshot_from_stripe_session, validate_stripe_payment_details,
  validate_active_stripe_session_link, Link, positive,
}
use rent_a_car_v.Finalization.{
  Retrieve, Options, CheckoutSession, PaymentStatus, FinalizeError, change, booking_overlaps,
  is_unique_violation, is_overlap, is_stripe_session_paid, resolve_stripe_checkout_session_details,
  resolve_stripe_payment_status, find_by_id, find_by_stripe_session_id,
  find_order_by_reservation_id, find_order_by_stripe_session_id, Outcome, Reason, already_confirmed,
  overlap_after_payment, stale_stripe_session, finalized, payment_problem, Surroundings,
}
use rent_a_car_v.Finalization.Complete.{
  first_of, if_given, system_change, complete_reservation_finalization,
}

abbrev pub Finalized : Type 0
Finalized = Result FinalizeError (Outcome × Database)

abbrev pub outcome : Reservation → Option ℕ → Reason → Outcome
outcome r order reason = record { reservation = some r.id; order = order; reason = reason }

abbrev pub keeps_session : Reservation → ℕ → Bool
keeps_session r stripe_session_id = elim r.stripe_session_id [
  | none ↦ true
  | some active ↦ active == stripe_session_id
]

unfoldable pub review_patch : Reservation → ℕ → Option ℕ → Option ℕ → ReservationPatch
review_patch r stripe_session_id intent cents = record (paid_amount_patch cents) {
  stripe_session_id =
      if keeps_session r stripe_session_id then some (some stripe_session_id) else none;
  stripe_payment_intent_id = if_given intent;
}

-- Only a step that the graph lacks is caught.
abbrev pub reviewed : Outcome → Database → Result ChangeError (Bool × Database) → Finalized
reviewed o db (ok (_, db')) = ok (o, db')
reviewed o db (err (transition (invalid_status_transition from to))) = ok (o, db)
reviewed o db (err e) = err (change e)

unfoldable pub mark_paid_reservation_conflict :
    Reservation → ℕ → Reason → Option ℕ → Option ℕ → Database → Finalized
mark_paid_reservation_conflict r stripe_session_id reason intent cents db =
    reviewed (outcome r none reason) db (
      change_status
        (system_change r.id manual_review (some (review_patch r stripe_session_id intent cents)))
        db)

unfoldable pub reject_stripe_finalization :
    Reservation → ℕ → Reason → Option ℕ → Option PaymentStatus → Database → Finalized
reject_stripe_finalization r stripe_session_id reason cents status db =
    if is_stripe_session_paid status
    then mark_paid_reservation_conflict r stripe_session_id reason none cents db
    else ok (outcome r none reason, db)

-- The session that passed the checks, or the rejection that ends the run.
pub data Checked : Type 0 where
  passed : CheckoutSession → Checked
  rejected : Finalized → Checked

abbrev pub check_details : Reservation → ℕ → CheckoutSession → Database → Checked
check_details r stripe_session_id c db = elim (validate_stripe_payment_details c.session r) [
  | ok _ ↦ passed c
  | err problem ↦ rejected (
      reject_stripe_finalization r stripe_session_id (payment_problem problem)
        (paid_snapshot_from_stripe_session (some c.session)) c.payment_status db)
]

unfoldable pub validate_stripe_session_for_finalization :
    Retrieve → Reservation → ℕ → Options → Database → Checked
validate_stripe_session_for_finalization retrieve r stripe_session_id o db =
    elim (validate_active_stripe_session_link r stripe_session_id) [
      | Link.stale_stripe_session active incoming ↦
          elim (resolve_stripe_payment_status retrieve stripe_session_id o) [
            | err e ↦ rejected (err e)
            | ok status ↦ rejected (
                reject_stripe_finalization r stripe_session_id stale_stripe_session
                  (positive o.amount_total) status db)
          ]
      | other ↦ elim (resolve_stripe_checkout_session_details retrieve stripe_session_id o) [
        | err e ↦ rejected (err e)
        | ok c ↦ check_details r stripe_session_id c db
      ]
    ]

abbrev or_else : Option Reservation → Option Reservation → Option Reservation
or_else none b = b
or_else (some a) b = some a

-- `none` where nothing says that the booking was made meanwhile.
unfoldable pub resolve_concurrent_finalization_result : Reservation → ℕ → Database → Option Outcome
resolve_concurrent_finalization_result r stripe_session_id db =
    elim (find_order_by_stripe_session_id stripe_session_id db) [
      | some o ↦ some (outcome r (some o.id) already_confirmed)
      | none ↦ elim (find_order_by_reservation_id r.id db) [
        | some o ↦ some (outcome r (some o.id) already_confirmed)
        | none ↦
            elim (or_else (find_by_stripe_session_id stripe_session_id db) (find_by_id r.id db)) [
              | none ↦ none
              | some latest ↦
                  if is_ops_lifecycle_status latest.status
                  then some (outcome latest none already_confirmed)
                  else none
            ]
      ]
    ]

-- The database is as it was before the attempt: its savepoint was rolled back. In one transaction the
-- second look after a unique violation sees what the first one saw.
unfoldable pub handle_finalization_overlap :
    FinalizeError
    → Reservation
    → ℕ
    → Options
    → Option ℕ
    → Option PaymentStatus
    → Database
    → Finalized
handle_finalization_overlap e r stripe_session_id o cents status db =
    elim (resolve_concurrent_finalization_result r stripe_session_id db) [
      | some found ↦ ok (found, db)
      | none ↦
          if is_unique_violation e
          then err e
          else if not (is_overlap e)
          then err e
          else if not (
              o.is_paid_webhook
              || (is_stripe_session_paid status || is_stripe_session_paid o.payment_status))
          then err booking_overlaps
          else mark_paid_reservation_conflict r stripe_session_id overlap_after_payment
              (first_of o.payment_intent r.stripe_payment_intent_id) cents db
    ]

abbrev pub attempt :
    Surroundings → Reservation → ℕ → Options → Option ℕ → Database → Result FinalizeError Database
attempt s r stripe_session_id o cents db =
    complete_reservation_finalization s r stripe_session_id
      (first_of o.payment_intent r.stripe_payment_intent_id) cents db

abbrev pub booked : Surroundings → Reservation → Database → Outcome × Database
booked s r db = (outcome r (some s.order_id) finalized, db)

-- An attempt under a savepoint; the status is asked for again where it fails.
unfoldable pub finalize_paid_expired_hold :
    Retrieve → Surroundings → Reservation → ℕ → Options → Option ℕ → Database → Finalized
finalize_paid_expired_hold retrieve s r stripe_session_id o cents db =
    elim (attempt s r stripe_session_id o cents db) [
      | ok db' ↦ ok (booked s r db')
      | err e ↦ elim (resolve_stripe_payment_status retrieve stripe_session_id o) [
        | err e' ↦ err e'
        | ok status ↦ handle_finalization_overlap e r stripe_session_id o cents status db
      ]
    ]
