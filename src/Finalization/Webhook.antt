-- ===== src/Finalization/Webhook.antt =====
-- The webhook of the payment provider: `processStripeWebhookEvent` of
-- backend/src/services/bookingFinalization/webhookEventProcessingService.js, with `insertProcessedEvent`
-- of backend/src/services/sql/processedStripeEventSqlService.js and `insertPaymentEvent` of
-- backend/src/services/sql/paymentEventSqlService.js and the index of
-- backend/sql/schema/015_payment_events.sql. Emails are left out.
use rent_a_car_v.Base.{
  ℕ, Bool, true, false, ◌||◌, Option, none, some, List, [], ◌∷◌, ◌++◌, any, ◌==◌, if◌then◌else◌,
  Result, ok, err,
}
use rent_a_car_v.Text.{Text}
use rent_a_car_v.Database.{Database}
use rent_a_car_v.Finalization.{
  Retrieve, Options, PaymentStatus, FinalizeError, is_stripe_session_paid, Outcome, Reason,
  finalized, already_confirmed, overlap_after_payment, paid_after_cancel, stale_stripe_session,
  duplicate_event, payment_problem, Surroundings,
}
use rent_a_car_v.Finalization.Core.{finalize_reservation_core}

-- `status` of a row of `payment_events` that the webhook writes.
pub data EventStatus : Type 0 where
  event_finalized event_already_confirmed event_manual_review : EventStatus

pub record PaymentEvent : Type 0 where
  pub event_id : ℕ
  pub stripe_session_id : ℕ
  pub reservation_id : Option ℕ
  pub status : EventStatus

pub record Store : Type 0 where
  pub database : Database
  pub processed_events : List ℕ
  pub payment_events : List PaymentEvent

-- What the event carries; the ids of event and session are 0 where they are missing.
pub record StripeEvent : Type 0 where
  pub event_id : ℕ
  pub stripe_session_id : ℕ
  pub reservation_id : Option ℕ
  pub car_id : Option ℕ
  pub session_id : Option ℕ
  pub payment_status : Option PaymentStatus
  pub amount_total : Option ℕ
  pub currency : Text
  pub payment_intent : Option ℕ

pub data WebhookError : Type 0 where
  payload_incomplete event_recorded : WebhookError
  finalization : FinalizeError → WebhookError

abbrev pub is_processed : ℕ → List ℕ → Bool
is_processed event_id events = any (λ e. e == event_id) events

-- `ON CONFLICT (event_id) DO NOTHING`: whether a row was inserted, and the table.
unfoldable pub insert_processed_event : ℕ → List ℕ → Bool × List ℕ
insert_processed_event event_id events =
    if is_processed event_id events then (false, events) else (true, events ++ (event_id ∷ []))

unfoldable pub webhook_options : StripeEvent → Options
webhook_options e = record {
  require_active_status = true;
  reservation_id = e.reservation_id;
  car_id = e.car_id;
  session_id = e.session_id;
  stripe_checkout_session = none;
  payment_status = e.payment_status;
  amount_total = e.amount_total;
  currency = e.currency;
  payment_intent = e.payment_intent;
  is_session_paid = none;
  is_paid_webhook = is_stripe_session_paid e.payment_status;
}

-- The status of the row that is written for an outcome, if one is.
unfoldable pub event_status : Reason → Option EventStatus
event_status finalized = some event_finalized
event_status already_confirmed = some event_already_confirmed
event_status overlap_after_payment = some event_manual_review
event_status paid_after_cancel = some event_manual_review
event_status stale_stripe_session = some event_manual_review
event_status (payment_problem problem) = some event_manual_review
event_status _ = none

abbrev pub event_row : StripeEvent → Outcome → EventStatus → PaymentEvent
event_row e result status = record {
  event_id = e.event_id;
  stripe_session_id = e.stripe_session_id;
  reservation_id = result.reservation;
  status = status;
}

-- The unique index on the event refuses a second row. An outcome without a status writes none.
unfoldable pub insert_payment_event :
    StripeEvent → Outcome → List PaymentEvent → Result WebhookError (List PaymentEvent)
insert_payment_event e result events = elim (event_status result.reason) [
  | none ↦ ok events
  | some status ↦
      if any (λ (r : PaymentEvent). r.event_id == e.event_id) events
      then err event_recorded
      else ok (events ++ (event_row e result status ∷ []))
]

abbrev pub duplicate : Outcome
duplicate = record { reservation = none; order = none; reason = duplicate_event }

-- The first delivery of an event, in a transaction: an error leaves the store as it was, so that the
-- event counts as new when it is delivered again.
unfoldable pub process_new_event :
    Retrieve → Surroundings → StripeEvent → List ℕ → Store → Result WebhookError Outcome × Store
process_new_event retrieve s e events st =
    elim (finalize_reservation_core retrieve s e.stripe_session_id (webhook_options e)
      st.database) [
        | err x ↦ (err (finalization x), st)
        | ok (result, db) ↦ elim (insert_payment_event e result st.payment_events) [
          | err x ↦ (err x, st)
          | ok rows ↦ (
            ok result,
            record { database = db; processed_events = events; payment_events = rows },
          )
        ]
      ]

abbrev pub process_inserted :
    Retrieve
    → Surroundings
    → StripeEvent
    → Bool × List ℕ
    → Store
    → Result WebhookError Outcome × Store
process_inserted retrieve s e (false, events) st = (ok duplicate, st)
process_inserted retrieve s e (true, events) st = process_new_event retrieve s e events st

-- The reasons of the source's last test are all there are, so its `ConflictError` is never thrown.
unfoldable pub process_stripe_webhook_event :
    Retrieve → Surroundings → StripeEvent → Store → Result WebhookError Outcome × Store
process_stripe_webhook_event retrieve s e st =
    if (e.event_id == 0) || (e.stripe_session_id == 0)
    then (err payload_incomplete, st)
    else process_inserted retrieve s e (insert_processed_event e.event_id st.processed_events) st
