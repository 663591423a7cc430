-- ===== src/Finalization/Reconcile.antt =====
-- Looking after sessions whose webhook was missed:
-- backend/src/services/payment/reconcileStripeSessionsService.js. The provider's answer is a parameter;
-- `none` is a call that fails. The marks on reported payment failures are left out.
use rent_a_car_v.Base.{
  ℕ, zero, suc, Bool, true, false, not, ◌&&◌, Option, none, some, List, [], ◌∷◌, length, keep,
  if◌then◌else◌, Result, ok, err, is_some,
}
use rent_a_car_v.Lifecycle.{processing_payment, same}
use rent_a_car_v.Database.{Database, Reservation}
use rent_a_car_v.Finalization.{
  Options, CheckoutSession, FinalizeError, Outcome, Reason, finalized, already_confirmed,
  Surroundings, is_stripe_session_paid, find_order_by_stripe_session_id,
}
use rent_a_car_v.Finalization.Core.{finalize_reservation_by_stripe_session_id}

-- `reservation_id` is that of the metadata, or else `client_reference_id`.
pub record SessionReport : Type 0 where
  pub checkout : CheckoutSession
  pub reservation_id : Option ℕ
  pub car_id : Option ℕ
  pub session_id : Option ℕ

abbrev pub Reports : Type 0
Reports = ℕ → Option SessionReport

abbrev pub checkout_of : Option SessionReport → Option CheckoutSession
checkout_of none = none
checkout_of (some s) = some s.checkout

pub data Action : Type 0 where
  skipped already_there would_finalize : Action
  ended : Reason → Action

abbrev pub given_or : Option ℕ → ℕ → Option ℕ
given_or none i = some i
given_or (some j) i = some j

unfoldable pub report_options : Reservation → SessionReport → Options
report_options r s = record {
  require_active_status = false;
  reservation_id = given_or s.reservation_id r.id;
  car_id = given_or s.car_id r.car_id;
  session_id = given_or s.session_id r.session_id;
  stripe_checkout_session = none;
  payment_status = s.checkout.payment_status;
  amount_total = s.checkout.session.amount_total;
  currency = s.checkout.session.currency;
  payment_intent = none;
  is_session_paid = none;
  is_paid_webhook = false;
}

abbrev pub action_of :
    Result FinalizeError Outcome × Database → Result FinalizeError Action × Database
action_of (ok o, db) = (ok (ended o.reason), db)
action_of (err e, db) = (err e, db)

unfoldable pub reconcile_paid :
    Reports
    → Surroundings
    → Bool
    → Reservation
    → ℕ
    → SessionReport
    → Database
    → Result FinalizeError Action × Database
reconcile_paid reports s dry_run r stripe_session_id report db =
    if not (is_stripe_session_paid report.checkout.payment_status)
    then (ok skipped, db)
    else if dry_run
    then (ok would_finalize, db)
    else action_of (
        finalize_reservation_by_stripe_session_id (λ i. checkout_of (reports i)) s stripe_session_id
          (report_options r report) db)

unfoldable pub reconcile_linked :
    Reports
    → Surroundings
    → Bool
    → Reservation
    → ℕ
    → Database
    → Result FinalizeError Action × Database
reconcile_linked reports s dry_run r stripe_session_id db =
    elim (find_order_by_stripe_session_id stripe_session_id db) [
      | some order ↦ (ok already_there, db)
      | none ↦ elim (reports stripe_session_id) [
        | none ↦ (ok skipped, db)
        | some report ↦ reconcile_paid reports s dry_run r stripe_session_id report db
      ]
    ]

unfoldable pub reconcile_one_session :
    Reports → Surroundings → Bool → Reservation → Database → Result FinalizeError Action × Database
reconcile_one_session reports s dry_run r db = elim r.stripe_session_id [
  | none ↦ (ok skipped, db)
  | some stripe_session_id ↦ reconcile_linked reports s dry_run r stripe_session_id db
]

abbrev pub is_ready : Action → Bool
is_ready already_there = true
is_ready would_finalize = true
is_ready (ended finalized) = true
is_ready (ended already_confirmed) = true
is_ready _ = false

pub record Batch : Type 0 where
  pub processed : ℕ
  pub finalized_or_ready : ℕ
  pub skipped_rows : ℕ

abbrev pub count_action : Action → Batch → Batch
count_action a b =
    if is_ready a
    then record b { finalized_or_ready = suc b.finalized_or_ready }
    else record b { skipped_rows = suc b.skipped_rows }

-- An error is not caught: it ends the batch, and what was committed before it stays.
abbrev pub go_on :
    (Batch → Database → Result FinalizeError Batch × Database)
    → Batch
    → Result FinalizeError Action × Database
    → Result FinalizeError Batch × Database
go_on rest b (err e, db) = (err e, db)
go_on rest b (ok a, db) = rest (count_action a b) db

unfoldable pub reconcile_all :
    Reports
    → (ℕ → Surroundings)
    → Bool
    → List Reservation
    → Batch
    → Database
    → Result FinalizeError Batch × Database
reconcile_all reports at dry_run [] b db = (ok b, db)
reconcile_all reports at dry_run (r ∷ rs) b db =
    go_on (reconcile_all reports at dry_run rs) b
      (reconcile_one_session reports (at r.id) dry_run r db)

abbrev pub take : ℕ → List Reservation → List Reservation
take zero rs = []
take (suc n) [] = []
take (suc n) (r ∷ rs) = r ∷ take n rs

unfoldable pub has_session : Reservation → Bool
has_session r = same r.status processing_payment && is_some r.stripe_session_id

-- `by_update` stands for `ORDER BY updated_at`, a column that is left out.
unfoldable pub reconcile_stripe_sessions :
    (List Reservation → List Reservation)
    → Reports
    → (ℕ → Surroundings)
    → Bool
    → ℕ
    → Database
    → Result FinalizeError Batch × Database
reconcile_stripe_sessions by_update reports at dry_run limit db =
    let candidates = take limit (by_update (keep has_session db.reservations)) in
    reconcile_all reports at dry_run candidates
      (record { processed = length candidates; finalized_or_ready = 0; skipped_rows = 0 }) db
