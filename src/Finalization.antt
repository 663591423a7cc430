-- ===== src/Finalization.antt =====
-- Finalizing a paid booking: backend/src/services/bookingFinalization. This file: the session and the
-- reservation that it belongs to (stripeSessionResolutionService.js), with the reads of
-- backend/src/services/sql/order/orderQuery.js and
-- backend/src/services/sql/reservation/reservationReadRepository.js. The call of the payment provider,
-- `stripe.checkout.sessions.retrieve`, is a parameter; `none` is a call that fails.
pub mod Complete
pub mod Review
pub mod Core
pub mod Webhook
pub mod Inversion
pub mod Earlier
pub mod Ending
pub mod Cases
pub mod Booked
pub mod Reviewed
pub mod Results
pub mod Kept
pub mod Again
pub mod Deliveries
pub mod PaidEvents
pub mod Reconcile
pub mod DryRun
mod Examples
use rent_a_car_v.Base.{
  ℕ, Bool, true, false, not, ◌&&◌, ◌||◌, Option, none, some, List, [], ◌∷◌, find, ltb, ◌==◌,
  if◌then◌else◌, Result, ok, err,
}
use rent_a_car_v.Text.{Text}
use rent_a_car_v.Lifecycle.{is_hold_status}
use rent_a_car_v.Database.{Database, Reservation, Order}
use rent_a_car_v.StatusChange.{ChangeError, stripe_session_taken, same_session}
use rent_a_car_v.Bookings.Ranges.{CalendarError, overlap}
use rent_a_car_v.Payments.{StripeSession, PaymentProblem}

-- `payment_status` of a session: `paid`, or something else.
pub data PaymentStatus : Type 0 where
  paid_up not_paid : PaymentStatus

-- `isStripeSessionPaid`; `none` is a status that is missing.
abbrev pub is_stripe_session_paid : Option PaymentStatus → Bool
is_stripe_session_paid (some paid_up) = true
is_stripe_session_paid _ = false

pub record CheckoutSession : Type 0 where
  pub session : StripeSession
  pub payment_status : Option PaymentStatus

abbrev pub Retrieve : Type 0
Retrieve = ℕ → Option CheckoutSession

-- What a caller knows of the session: the ids of its metadata, and a copy of its fields.
pub record Options : Type 0 where
  pub require_active_status : Bool
  pub reservation_id : Option ℕ
  pub car_id : Option ℕ
  pub session_id : Option ℕ
  pub stripe_checkout_session : Option CheckoutSession
  pub payment_status : Option PaymentStatus
  pub amount_total : Option ℕ
  pub currency : Text
  pub payment_intent : Option ℕ
  pub is_session_paid : Option Bool
  pub is_paid_webhook : Bool

pub data FinalizeError : Type 0 where
  missing_session provider_failed state_corrupted order_exists booking_overlaps : FinalizeError
  change : ChangeError → FinalizeError
  calendar : CalendarError → FinalizeError

-- `isUniqueViolation`.
abbrev pub is_unique_violation : FinalizeError → Bool
is_unique_violation order_exists = true
is_unique_violation (change stripe_session_taken) = true
is_unique_violation _ = false

-- `err.code === 'OVERLAP'`.
abbrev pub is_overlap : FinalizeError → Bool
is_overlap (calendar overlap) = true
is_overlap _ = false

abbrev pub has_text : Text → Bool
has_text [] = false
has_text (c ∷ s) = true

abbrev pub retrieved : Option CheckoutSession → Result FinalizeError CheckoutSession
retrieved none = err provider_failed
retrieved (some s) = ok s

-- The copy that the options make up, if amount, currency and status are known.
abbrev pub copied : ℕ → Options → Option CheckoutSession
copied stripe_session_id o = elim o.amount_total [
  | none ↦ none
  | some cents ↦ elim o.payment_status [
    | none ↦ none
    | some status ↦
        if has_text o.currency
        then some (record {
          session = record {
            id = stripe_session_id;
            amount_total = some cents;
            currency = o.currency;
          };
          payment_status = some status;
        })
        else none
  ]
]

unfoldable pub resolve_stripe_checkout_session_details :
    Retrieve → ℕ → Options → Result FinalizeError CheckoutSession
resolve_stripe_checkout_session_details retrieve stripe_session_id o =
    elim o.stripe_checkout_session [
      | some s ↦ ok s
      | none ↦ elim (copied stripe_session_id o) [
        | some s ↦ ok s
        | none ↦ retrieved (retrieve stripe_session_id)
      ]
    ]

abbrev pub status_of : Option CheckoutSession → Result FinalizeError (Option PaymentStatus)
status_of none = err provider_failed
status_of (some s) = ok s.payment_status

unfoldable pub resolve_stripe_payment_status :
    Retrieve → ℕ → Options → Result FinalizeError (Option PaymentStatus)
resolve_stripe_payment_status retrieve stripe_session_id o = elim o.payment_status [
  | some s ↦ ok (some s)
  | none ↦ elim o.is_session_paid [
    | some true ↦ ok (some paid_up)
    | some false ↦ ok (some not_paid)
    | none ↦ status_of (retrieve stripe_session_id)
  ]
]

abbrev fits : Option ℕ → ℕ → Bool
fits none i = true
fits (some j) i = i == j

unfoldable pub reservation_matches_metadata : Reservation → Options → Bool
reservation_matches_metadata r o =
    fits o.reservation_id r.id && (fits o.car_id r.car_id && fits o.session_id r.session_id)

unfoldable pub find_by_stripe_session_id : ℕ → Database → Option Reservation
find_by_stripe_session_id stripe_session_id db =
    find (λ (r : Reservation). same_session r.stripe_session_id (some stripe_session_id))
      db.reservations

unfoldable pub find_by_id : ℕ → Database → Option Reservation
find_by_id i db = find (λ (r : Reservation). r.id == i) db.reservations

-- The last row that fits: `ORDER BY created_at DESC LIMIT 1`.
abbrev pub find_last : (Reservation → Bool) → List Reservation → Option Reservation
find_last p [] = none
find_last p (r ∷ rs) = elim (find_last p rs) [
  | some s ↦ some s
  | none ↦ if p r then some r else none
]

unfoldable pub find_active_by_session_id : ℕ → ℕ → Database → Option Reservation
find_active_by_session_id session_id now db =
    find_last
      (λ (r : Reservation).
        r.session_id == session_id && (is_hold_status r.status && ltb now r.hold_expires_at))
      db.reservations

abbrev when_matching : Options → Option Reservation → Option Reservation
when_matching o none = none
when_matching o (some r) = if reservation_matches_metadata r o then some r else none

abbrev look_up : (ℕ → Option Reservation) → Option ℕ → Option Reservation
look_up f none = none
look_up f (some i) = f i

abbrev or_else : Option Reservation → Option Reservation → Option Reservation
or_else none b = b
or_else (some a) b = some a

-- By the linked session, else by the metadata.
unfoldable pub resolve_reservation_for_stripe_session :
    ℕ → Options → ℕ → Database → Option Reservation
resolve_reservation_for_stripe_session stripe_session_id o now db =
    or_else (find_by_stripe_session_id stripe_session_id db) (
      or_else (when_matching o (look_up (λ i. find_by_id i db) o.reservation_id)) (
        when_matching o
          (look_up (λ session_id. find_active_by_session_id session_id now db) o.session_id)))

abbrev pub of_reservation : ℕ → Order → Bool
of_reservation i o = same_session o.reservation_id (some i) && not o.is_deleted

unfoldable pub find_order_by_reservation_id : ℕ → Database → Option Order
find_order_by_reservation_id i db = find (of_reservation i) db.orders

abbrev pub of_session : ℕ → Order → Bool
of_session s o = same_session o.stripe_session_id (some s) && not o.is_deleted

unfoldable pub find_order_by_stripe_session_id : ℕ → Database → Option Order
find_order_by_stripe_session_id s db = find (of_session s) db.orders

-- Why a finalization ended as it did. `finalized` of the source's result is true with the reason
-- `finalized` only, and `found` is false with the reason `not_found` only.
pub data Reason : Type 0 where
  not_found already_confirmed hold_expired status_not_active payment_not_paid : Reason
  stale_stripe_session paid_after_cancel overlap_after_payment finalized : Reason
  duplicate_event : Reason
  payment_problem : PaymentProblem → Reason

-- The ids of the reservation and of the order that the result carries.
pub record Outcome : Type 0 where
  pub reservation : Option ℕ
  pub order : Option ℕ
  pub reason : Reason

-- What a run takes from its surroundings: the time, and the ids that the sequences give.
pub record Surroundings : Type 0 where
  pub now : ℕ
  pub block_id : ℕ
  pub order_id : ℕ
