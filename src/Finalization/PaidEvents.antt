-- ===== src/Finalization/PaidEvents.antt =====
-- What the first delivery of a paid event does.
use rent_a_car_v.Base.{ℕ, ◌≡◌, ◌⊎◌, refl, inl, inr, true, false, some, [], ◌∷◌, ◌++◌, arith, ok}
use rent_a_car_v.Finalization.{
  Retrieve, Surroundings, Outcome, not_found, paid_up, CheckoutSession,
  resolve_stripe_payment_status, resolve_stripe_checkout_session_details, has_text,
}
use rent_a_car_v.Finalization.Webhook.{
  Store, StripeEvent, EventStatus, event_finalized, event_already_confirmed, event_manual_review,
  event_status, webhook_options, insert_payment_event, is_processed, event_row,
  process_stripe_webhook_event,
}
use rent_a_car_v.Finalization.Results.{Accounted, paid_is_settled}
use rent_a_car_v.Finalization.Deliveries.{delivery_inversion}

-- The status that the row of an event carries for the way in which its finalization ended.
abbrev pub HasRow : StripeEvent → Outcome → Store → Store → Type 0
HasRow e result st st' =
    (status : EventStatus) × (event_status result.reason ≡ some status)
    × (st'.payment_events ≡ st.payment_events ++ (event_row e result status ∷ []))

recorded_row :
    (e : StripeEvent) (result : Outcome) (status : EventStatus) (st st' : Store)
    → event_status result.reason ≡ some status
    → insert_payment_event e result st.payment_events ≡ ok st'.payment_events
    → HasRow e result st st'
unfolding insert_payment_event
recorded_row e result status st st' h rows = (status, h, ground arith)

settled_status :
    (retrieve : Retrieve) (s : Surroundings) (e : StripeEvent) (st st' : Store) (result : Outcome)
    → insert_payment_event e result st.payment_events ≡ ok st'.payment_events
    → Accounted retrieve s e.stripe_session_id (webhook_options e) st.database result st'.database
    → (result.reason ≡ not_found) ⊎ HasRow e result st st'
unfolding event_status
settled_status retrieve s e st st' result rows (inl (n, _)) = inl n
settled_status retrieve s e st st' result rows (inr (inl (r, _, a, _, _))) =
    inr (recorded_row e result event_already_confirmed st st' (rw a refl) rows)
settled_status retrieve s e st st' result rows (inr (inr (r, _, inl (f, _)))) =
    inr (recorded_row e result event_finalized st st' (rw f refl) rows)
settled_status retrieve s e st st' result rows (inr (inr (r, _, inr (m, _)))) =
    inr (recorded_row e result event_manual_review st st' m rows)

told_status :
    (retrieve : Retrieve) (e : StripeEvent)
    → e.payment_status ≡ some paid_up
    → resolve_stripe_payment_status retrieve e.stripe_session_id (webhook_options e)
      ≡ ok (some paid_up)
unfolding resolve_stripe_payment_status webhook_options
told_status retrieve e p = rw p refl

told_details :
    (retrieve : Retrieve) (e : StripeEvent) (cents : ℕ)
    → e.payment_status ≡ some paid_up
    → e.amount_total ≡ some cents
    → has_text e.currency ≡ true
    → (c : CheckoutSession) × (resolve_stripe_checkout_session_details retrieve e.stripe_session_id
          (webhook_options e)
        ≡ ok c)
      × (c.payment_status ≡ some paid_up)
unfolding resolve_stripe_checkout_session_details webhook_options
told_details retrieve e cents p a t = (
  record {
    session = record { id = e.stripe_session_id; amount_total = some cents; currency = e.currency };
    payment_status = some paid_up;
  },
  ground arith,
  refl,
)

-- The first delivery of an event that says that its session is paid, with its amount and currency: if it
-- does not fail, no reservation was found, or a row of `payment_events` says what became of the money,
-- and the tables agree with it: the reservation is booked; or nothing changed because it was booked
-- before, so that the session has an order, or the reservation is past its booking and has an order, or
-- it is still to be booked while another row of the session or with its id is past its booking; or it
-- is in manual review unless the graph has no step there.
pub paid_event_is_settled :
    (retrieve : Retrieve) (s : Surroundings) (e : StripeEvent) (cents : ℕ) (st st' : Store)
    (result : Outcome)
    → e.payment_status ≡ some paid_up
    → e.amount_total ≡ some cents
    → has_text e.currency ≡ true
    → is_processed e.event_id st.processed_events ≡ false
    → process_stripe_webhook_event retrieve s e st ≡ (ok result, st')
    → ((result.reason ≡ not_found) ⊎ HasRow e result st st')
      × Accounted retrieve s e.stripe_session_id (webhook_options e) st.database result st'.database
paid_event_is_settled retrieve s e cents st st' result p a t n h =
    elim ((delivery_inversion retrieve s e st st' result h).1) [
      | inl (y, _, _) ↦ absurd (ground arith)
      | inr (_, run, _, rows) ↦
          let (c, told, paid) = told_details retrieve e cents p a t in
          let settled =
            paid_is_settled retrieve s e.stripe_session_id (webhook_options e) st.database
              st'.database result (some paid_up) c (told_status retrieve e p) told refl
              (rw paid refl) run in
          (settled_status retrieve s e st st' result rows settled, settled)
    ]
