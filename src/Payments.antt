-- ===== src/Payments.antt =====
-- Checks of a paid checkout session against its reservation, and what is stored of the payment:
-- backend/src/services/payment/stripeSessionValidation.js, with `persistPaidAmountIfNeeded` and
-- `persistPaymentIntentIfNeeded` of backend/src/services/payment/refund/refundLedgerService.js.
-- The expected amount is the total price in cents. The currency that is stored is left out.
pub mod Amount
mod Examples
use rent_a_car_v.Base.{
  ℕ, Bool, true, false, not, ◌&&◌, Option, none, some, List, [], ◌∷◌, find, update_where, ltb, ◌==◌,
  if◌then◌else◌, Result, ok, err,
}
use rent_a_car_v.Text.{Text, codes, same_text}
use rent_a_car_v.Lifecycle.{Status, is_hold_status}
use rent_a_car_v.Database.{Reservation}
use rent_a_car_v.StatusChange.{ReservationPatch, apply_status_change, same_session}

-- `amount_total` is `none` where it is missing; a missing currency is the empty text.
pub record StripeSession : Type 0 where
  pub id : ℕ
  pub amount_total : Option ℕ
  pub currency : Text

unfoldable pub can_link_new_stripe_session : Reservation → Bool
can_link_new_stripe_session r = is_hold_status r.status

pub data Link : Type 0 where
  orphan_recovery linked : Link
  stale_stripe_session : ℕ → ℕ → Link

unfoldable pub validate_active_stripe_session_link : Reservation → ℕ → Link
validate_active_stripe_session_link r incoming = elim r.stripe_session_id [
  | none ↦ orphan_recovery
  | some active ↦ if active == incoming then linked else stale_stripe_session active incoming
]

unfoldable pub get_expected_stripe_amount_cents : Reservation → ℕ
get_expected_stripe_amount_cents r = r.total_price

pub data PaymentProblem : Type 0 where
  stripe_amount_mismatch stripe_currency_mismatch : PaymentProblem

abbrev pub is_amount : Option ℕ → ℕ → Bool
is_amount none n = false
is_amount (some m) n = m == n

unfoldable pub validate_stripe_payment_details :
    StripeSession → Reservation → Result PaymentProblem (Unit {0})
unfolding get_expected_stripe_amount_cents
validate_stripe_payment_details s r =
    if not (is_amount s.amount_total (get_expected_stripe_amount_cents r))
    then err stripe_amount_mismatch
    else if not (same_text (codes "eur") s.currency)
    then err stripe_currency_mismatch
    else ok tt

-- A positive amount.
abbrev pub positive : Option ℕ → Option ℕ
positive none = none
positive (some n) = if ltb 0 n then some n else none

unfoldable pub paid_snapshot_from_stripe_session : Option StripeSession → Option ℕ
paid_snapshot_from_stripe_session none = none
paid_snapshot_from_stripe_session (some s) = positive s.amount_total

abbrev pub amount_of : Option StripeSession → Option ℕ
amount_of none = none
amount_of (some s) = s.amount_total

-- The first argument is the amount that the context carries. A session without an amount gives way
-- to it.
unfoldable pub paid_snapshot_from_finalization_context : Option ℕ → Option StripeSession → Option ℕ
unfolding paid_snapshot_from_stripe_session
paid_snapshot_from_finalization_context context session = elim (amount_of session) [
  | some n ↦ paid_snapshot_from_stripe_session session
  | none ↦ positive context
]

-- The patch with nothing in it.
abbrev pub no_patch : ReservationPatch
no_patch = record {
  hold_expires_at = none;
  stripe_session_id = none;
  stripe_payment_intent_id = none;
  paid_amount_cents = none;
  total_price = none;
}

unfoldable pub paid_amount_patch : Option ℕ → ReservationPatch
paid_amount_patch cents = record no_patch { paid_amount_cents = positive cents }

-- `applyStatusChange` with the status of the reservation that the caller holds.
abbrev pub patch_rows : Reservation → ReservationPatch → List Reservation → List Reservation
patch_rows r p rows =
    update_where (λ (s : Reservation). s.id == r.id) (apply_status_change r.status (some p)) rows

abbrev pub is_paid : Option ℕ → Bool
is_paid none = false
is_paid (some n) = ltb 0 n

unfoldable pub persist_paid_amount_if_needed :
    Reservation → Option ℕ → List Reservation → List Reservation
persist_paid_amount_if_needed r cents rows =
    if is_paid r.paid_amount_cents
    then rows
    else if not (is_paid cents)
    then rows
    else patch_rows r (record no_patch { paid_amount_cents = cents }) rows

unfoldable pub persist_payment_intent_if_needed :
    Reservation → ℕ → List Reservation → List Reservation
persist_payment_intent_if_needed r intent rows =
    if same_session r.stripe_payment_intent_id (some intent)
    then rows
    else patch_rows r (record no_patch { stripe_payment_intent_id = some (some intent) }) rows
