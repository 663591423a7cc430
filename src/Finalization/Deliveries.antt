-- ===== src/Finalization/Deliveries.antt =====
-- Events that the payment provider delivers, once or several times.
use rent_a_car_v.Base.{
  ℕ, ◌≡◌, ◌≢◌, ◌≤◌, ◌⊎◌, refl, inl, inr, true, false, ◌||◌, List, [], ◌∷◌, ◌++◌, count, arith,
  Bool-cases, Result-cases, ok, err, ◌==◌, suc, sym, Option-cases, Result, if◌then◌else◌,
}
use rent_a_car_v.Finalization.{Retrieve, Surroundings, Outcome}
use rent_a_car_v.Finalization.Core.{finalize_reservation_core}
use rent_a_car_v.Finalization.Webhook.{
  WebhookError, Store, StripeEvent, PaymentEvent, event_status, webhook_options,
  insert_payment_event, insert_processed_event, is_processed, duplicate, event_row,
  process_new_event, process_stripe_webhook_event,
}

is_processed-append : (i : ℕ) (events : List ℕ) → is_processed i (events ++ (i ∷ [])) ≡ true
is_processed-append i [] = ground arith
is_processed-append i (e ∷ es) = ground (arith, is_processed-append i es)

-- A delivery that does not fail was one of an event that is processed already, or it marked the event
-- and ran the finalization.
pub delivery_inversion :
    (retrieve : Retrieve) (s : Surroundings) (e : StripeEvent) (st st' : Store) (result : Outcome)
    → process_stripe_webhook_event retrieve s e st ≡ (ok result, st')
    → ((e.event_id == 0) || (e.stripe_session_id == 0) ≡ false)
      × (((is_processed e.event_id st.processed_events ≡ true) × (result ≡ duplicate) × (st' ≡ st))
          ⊎ ((is_processed e.event_id st.processed_events ≡ false)
              × (finalize_reservation_core retrieve s e.stripe_session_id
                    (webhook_options e)
                    st.database
                  ≡ ok (result, st'.database))
              × (st'.processed_events ≡ st.processed_events ++ (e.event_id ∷ []))
              × (insert_payment_event e result st.payment_events ≡ ok st'.payment_events)))
unfolding process_stripe_webhook_event insert_processed_event process_new_event
delivery_inversion retrieve s e st st' result h =
    elim (Bool-cases ((e.event_id == 0) || (e.stripe_session_id == 0))) [
      | inl y ↦ absurd (ground arith)
      | inr given ↦ elim (Bool-cases (is_processed e.event_id st.processed_events)) [
        | inl y ↦ (given, inl (y, ground arith, ground arith))
        | inr n ↦
            elim (Result-cases (
              finalize_reservation_core retrieve s e.stripe_session_id (webhook_options e)
                st.database)) [
                  | inr (x, f) ↦ absurd (ground arith)
                  | inl ((o, db), f) ↦
                      elim (Result-cases (insert_payment_event e o st.payment_events)) [
                        | inr (x, g) ↦ absurd (ground arith)
                        | inl (rows, g) ↦ (given, inr (n, ground arith, ground arith, ground arith))
                      ]
                ]
      ]
    ]

duplicate_delivery :
    (retrieve : Retrieve) (s : Surroundings) (e : StripeEvent) (st : Store)
    → (e.event_id == 0) || (e.stripe_session_id == 0) ≡ false
    → is_processed e.event_id st.processed_events ≡ true
    → process_stripe_webhook_event retrieve s e st ≡ (ok duplicate, st)
unfolding process_stripe_webhook_event insert_processed_event
duplicate_delivery retrieve s e st g h = ground arith

-- An event that was delivered without an error and is delivered again, at whatever time and with
-- whatever contents under the same id, changes nothing in the store, if the two ids are given.
pub redelivery_changes_nothing :
    (retrieve retrieve' : Retrieve) (s s' : Surroundings) (e e' : StripeEvent) (st st' : Store)
    (result : Outcome)
    → e'.event_id ≡ e.event_id
    → e'.stripe_session_id ≢ 0
    → process_stripe_webhook_event retrieve s e st ≡ (ok result, st')
    → process_stripe_webhook_event retrieve' s' e' st' ≡ (ok duplicate, st')
redelivery_changes_nothing retrieve retrieve' s s' e e' st st' result i n h =
    let (given, how) = delivery_inversion retrieve s e st st' result h in
    duplicate_delivery retrieve' s' e' st' (ground arith) (elim how [
      | inl (y, _, same) ↦ rw (i, same) y
      | inr (_, _, marked, _) ↦ rw (i, marked) (is_processed-append e.event_id st.processed_events)
    ])

-- Deliveries one after the other, those that fail included.
abbrev pub deliver : Retrieve → List (Surroundings × StripeEvent) → Store → Store
deliver retrieve [] st = st
deliver retrieve ((s, e) ∷ es) st =
    deliver retrieve es ((process_stripe_webhook_event retrieve s e st).1)

abbrev pub rows_of : ℕ → List PaymentEvent → ℕ
rows_of i rows = count (λ (r : PaymentEvent). r.event_id == i) rows

-- At most one row of `payment_events` for the event, and none as long as it is not processed.
abbrev IsOnce : ℕ → Store → Type 0
IsOnce i st =
    (rows_of i st.payment_events ≤ 1)
    × ((is_processed i st.processed_events ≡ true) ⊎ (rows_of i st.payment_events ≡ 0))

rows_of-append :
    (i : ℕ) (rows : List PaymentEvent) (r : PaymentEvent)
    → rows_of i (rows ++ (r ∷ []))
      ≡ (if r.event_id == i then suc (rows_of i rows) else rows_of i rows)
rows_of-append i [] r = refl
rows_of-append i (x ∷ xs) r = ground (arith, rows_of-append i xs r)

insert_payment_event-rows_of :
    (i : ℕ) (e : StripeEvent) (result : Outcome) (rows rows' : List PaymentEvent)
    → insert_payment_event e result rows ≡ ok rows'
    → (rows_of i rows' ≡ rows_of i rows)
      ⊎ ((e.event_id ≡ i) × (rows_of i rows' ≡ suc (rows_of i rows)))
unfolding insert_payment_event
insert_payment_event-rows_of i e result rows rows' h =
    elim (Option-cases (event_status result.reason)) [
      | inl n ↦ inl (ground arith)
      | inr (status, n) ↦ ground (arith, rows_of-append i rows (event_row e result status))
    ]

is_processed-append_one :
    (i j : ℕ) (events : List ℕ)
    → is_processed i events ≡ true
    → is_processed i (events ++ (j ∷ [])) ≡ true
is_processed-append_one i j [] h = absurd (ground arith)
is_processed-append_one i j (e ∷ es) h = ground (arith, is_processed-append_one i j es)

delivery-IsOnce :
    (retrieve : Retrieve) (s : Surroundings) (e : StripeEvent) (i : ℕ) (st st' : Store)
    (result : Outcome)
    → IsOnce i st
    → process_stripe_webhook_event retrieve s e st ≡ (ok result, st')
    → IsOnce i st'
delivery-IsOnce retrieve s e i st st' result (most, how) h =
    elim ((delivery_inversion retrieve s e st st' result h).1) [
      | inl (_, _, same) ↦ rw same (most, how)
      | inr (n, _, marked, rows) ↦
          elim (insert_payment_event-rows_of i e result st.payment_events st'.payment_events rows) [
            | inl same ↦ (
              rw same most,
              elim how [
                | inl y ↦
                    inl (rw marked (is_processed-append_one i e.event_id st.processed_events y))
                | inr z ↦ inr (rw same z)
              ],
            )
            | inr (named, more) ↦
                let zero_rows : rows_of i st.payment_events ≡ 0 = elim how [
                  | inl y ↦ absurd (ground arith)
                  | inr z ↦ z
                ] in
                (
                  ground arith,
                  inl (rw (marked, sym named) (is_processed-append e.event_id st.processed_events)),
                )
          ]
    ]

failed_delivery :
    (retrieve : Retrieve) (s : Surroundings) (e : StripeEvent) (st st' : Store) (x : WebhookError)
    → process_stripe_webhook_event retrieve s e st ≡ (err x, st')
    → st' ≡ st
unfolding process_stripe_webhook_event insert_processed_event process_new_event
failed_delivery retrieve s e st st' x h =
    elim (Bool-cases ((e.event_id == 0) || (e.stripe_session_id == 0))) [
      | inl y ↦ ground arith
      | inr given ↦ elim (Bool-cases (is_processed e.event_id st.processed_events)) [
        | inl y ↦ absurd (ground arith)
        | inr n ↦
            elim (Result-cases (
              finalize_reservation_core retrieve s e.stripe_session_id (webhook_options e)
                st.database)) [
                  | inr (y, f) ↦ ground arith
                  | inl ((o, db), f) ↦
                      elim (Result-cases (insert_payment_event e o st.payment_events)) [
                        | inr (y, g) ↦ ground arith
                        | inl (rows, g) ↦ absurd (ground arith)
                      ]
                ]
      ]
    ]

step-IsOnce :
    (retrieve : Retrieve) (s : Surroundings) (e : StripeEvent) (i : ℕ) (st : Store)
    (p : Result WebhookError Outcome × Store)
    → process_stripe_webhook_event retrieve s e st ≡ p
    → IsOnce i st
    → IsOnce i p.1
step-IsOnce retrieve s e i st (ok result, st') h o =
    delivery-IsOnce retrieve s e i st st' result o h
step-IsOnce retrieve s e i st (err x, st') h o = rw (failed_delivery retrieve s e st st' x h) o

deliver-IsOnce :
    (retrieve : Retrieve) (i : ℕ) (es : List (Surroundings × StripeEvent)) (st : Store)
    → IsOnce i st
    → IsOnce i (deliver retrieve es st)
deliver-IsOnce retrieve i [] st o = o
deliver-IsOnce retrieve i ((s, e) ∷ es) st o =
    deliver-IsOnce retrieve i es ((process_stripe_webhook_event retrieve s e st).1)
      (step-IsOnce retrieve s e i st (process_stripe_webhook_event retrieve s e st) refl o)

-- Whatever events are delivered, in whatever order and how often, and whether or not some deliveries
-- fail: an event has at most one row in `payment_events`, if there were no rows at the start.
pub recorded_once :
    (retrieve : Retrieve) (i : ℕ) (es : List (Surroundings × StripeEvent)) (st : Store)
    → st.payment_events ≡ []
    → rows_of i (deliver retrieve es st).payment_events ≤ 1
recorded_once retrieve i es st n =
    (deliver-IsOnce retrieve i es st (rw n (ground arith), inr (rw n refl))).0
