-- ===== src/Finalization/Examples.antt =====
-- The theorems on finalization at a concrete reservation, and tests.
use rent_a_car_v.Base.{ℕ, ◌≡◌, ◌≤◌, ◌⊎◌, refl, true, none, some, [], ◌∷◌, arith, ok, err, Result}
use rent_a_car_v.Text.{codes, same_text}
use rent_a_car_v.Lifecycle.{
  processing_payment, pending_payment, can_transition, assert_transition, is_valid_status,
  is_hold_status, is_ops_lifecycle_status,
}
use rent_a_car_v.Refund.Ledger.{find_active_by_reservation_id}
use rent_a_car_v.Database.{Database, Reservation, find_by_id_for_update}
use rent_a_car_v.Bookings.Ranges.{
  apart, add_range, purge_expired, extend_open_physical_rental_blocks,
  clamp_closed_physical_rental_blocks, clamp_end, delete_expired, open_rental, assert_no_overlap,
  insert_date_block,
}
use rent_a_car_v.Fleet.{sync_car_status_from_reservation}
use rent_a_car_v.StatusChange.{
  change_status, change_status_core, change_locked, refund_blocks, perform, apply_status_change,
  patch_reservation, write_change, releases,
}
use rent_a_car_v.StatusChange.Recorded.{IsRecorded}
use rent_a_car_v.StatusChange.Examples.{booking, step_row, reserved_car}
use rent_a_car_v.Payments.{
  paid_amount_patch, validate_active_stripe_session_link, validate_stripe_payment_details,
  get_expected_stripe_amount_cents,
}
use rent_a_car_v.Finalization.{
  Retrieve, Outcome, PaymentStatus, Surroundings, CheckoutSession, FinalizeError, paid_up, not_paid,
  not_found, already_confirmed, finalized, payment_not_paid,
  resolve_stripe_checkout_session_details, resolve_stripe_payment_status, find_by_stripe_session_id,
  find_by_id, resolve_reservation_for_stripe_session, find_order_by_reservation_id,
  find_order_by_stripe_session_id,
}
use rent_a_car_v.Finalization.Complete.{
  is_hold_expired, payment_patch, create_order_from_reservation, book_paid,
  complete_reservation_finalization,
}
use rent_a_car_v.Finalization.Review.{outcome, validate_stripe_session_for_finalization}
use rent_a_car_v.Finalization.Core.{
  book_active_hold, decide_by_status, decide, finalize_without_order, finalize_found,
  finalize_reservation_core,
}
use rent_a_car_v.Finalization.Webhook.{
  Store, StripeEvent, event_status, webhook_options, insert_processed_event, insert_payment_event,
  process_new_event, process_stripe_webhook_event, WebhookError, duplicate,
}
use rent_a_car_v.Finalization.Ending.{Says}
use rent_a_car_v.Lifecycle.{invalid_status_transition, paid}
use rent_a_car_v.StatusChange.{transition}
use rent_a_car_v.Finalization.{change}
use rent_a_car_v.Finalization.Webhook.{finalization}
use rent_a_car_v.Finalization.Review.{
  handle_finalization_overlap, resolve_concurrent_finalization_result,
}
use rent_a_car_v.Finalization.Booked.{IsBooked}
use rent_a_car_v.Finalization.Results.{Accounted, finalize_reservation_core-IsBooked}
use rent_a_car_v.Finalization.Kept.{finalize_reservation_core-IsRecorded}
use rent_a_car_v.Finalization.Again.{finalized_again}
use rent_a_car_v.Finalization.Reconcile.{Reports}
use rent_a_car_v.Finalization.PaidEvents.{HasRow, paid_event_is_settled}
use rent_a_car_v.Finalization.Deliveries.{
  recorded_once, redelivery_changes_nothing, deliver, rows_of,
}

-- A hold that waits for its payment, up to the instant 900.
abbrev hold : Reservation
hold = record (booking processing_payment) { hold_expires_at = 900; paid_amount_cents = none }

abbrev before : Database
before = record {
  reservations = hold ∷ [];
  history = step_row pending_payment processing_payment ∷ [];
  cars = reserved_car ∷ [];
  blocks = [];
  orders = [];
  refunds = record { next_id = 1; ops = [] };
}

abbrev unreachable : Retrieve
unreachable _ = none

abbrev at_800 : Surroundings
at_800 = record { now = 800; block_id = 20; order_id = 30 }

abbrev event : PaymentStatus → StripeEvent
event status = record {
  event_id = 40;
  stripe_session_id = 5;
  reservation_id = some 7;
  car_id = some 3;
  session_id = some 11;
  payment_status = some status;
  amount_total = some 9000;
  currency = codes "eur";
  payment_intent = some 70;
}

abbrev store : Store
store = record { database = before; processed_events = []; payment_events = [] }

abbrev run : PaymentStatus → Result WebhookError Outcome × Store
run status = process_stripe_webhook_event unreachable at_800 (event status) store

abbrev booked : Outcome
booked = record { reservation = some 7; order = some 30; reason = finalized }

abbrev declined : Outcome
declined = record { reservation = some 7; order = none; reason = payment_not_paid }

paid_run : run paid_up ≡ (ok booked, (run paid_up).1)
unfolding process_stripe_webhook_event insert_processed_event insert_payment_event event_status
    process_new_event webhook_options finalize_reservation_core finalize_found
    finalize_without_order decide decide_by_status book_active_hold resolve_stripe_payment_status
    resolve_stripe_checkout_session_details resolve_reservation_for_stripe_session
    find_by_stripe_session_id find_by_id find_order_by_stripe_session_id
    find_order_by_reservation_id validate_stripe_session_for_finalization
    validate_active_stripe_session_link validate_stripe_payment_details
    get_expected_stripe_amount_cents same_text is_hold_expired is_hold_status
    is_ops_lifecycle_status complete_reservation_finalization book_paid
    create_order_from_reservation payment_patch paid_amount_patch change_status change_status_core
    change_locked refund_blocks find_active_by_reservation_id perform apply_status_change
    patch_reservation write_change releases assert_transition can_transition find_by_id_for_update
    add_range purge_expired extend_open_physical_rental_blocks clamp_closed_physical_rental_blocks
    clamp_end delete_expired open_rental assert_no_overlap insert_date_block apart
    sync_car_status_from_reservation
paid_run = refl

paid_event_is_settled_example :
    ((finalized ≡ not_found) ⊎ HasRow (event paid_up) booked store (run paid_up).1)
    × Accounted unreachable at_800 5
        (webhook_options (event paid_up))
        before
        booked
        (run paid_up).1.database
paid_event_is_settled_example =
    paid_event_is_settled unreachable at_800 (event paid_up) 9000 store (run paid_up).1 booked refl
      refl refl refl paid_run

redelivery_changes_nothing_example :
    process_stripe_webhook_event unreachable at_800 (event not_paid) (run paid_up).1
    ≡ (ok duplicate, (run paid_up).1)
redelivery_changes_nothing_example =
    redelivery_changes_nothing unreachable unreachable at_800 at_800 (event paid_up)
      (event not_paid) store (run paid_up).1 booked refl (λ e. ground arith) paid_run

recorded_once_example :
    rows_of 40
      (deliver unreachable
        ((at_800, event paid_up) ∷ (at_800, event not_paid) ∷ (at_800, event paid_up) ∷ [])
        store).payment_events
    ≤ 1
recorded_once_example =
    recorded_once unreachable 40
      ((at_800, event paid_up) ∷ (at_800, event not_paid) ∷ (at_800, event paid_up) ∷ []) store refl

abbrev core : PaymentStatus → Result FinalizeError (Outcome × Database)
core status = finalize_reservation_core unreachable at_800 5 (webhook_options (event status)) before

abbrev tables_of : Result FinalizeError (Outcome × Database) → Database
tables_of (ok (_, db)) = db
tables_of (err e) = before

abbrev after : Database
after = tables_of (core paid_up)

paid_core : core paid_up ≡ ok (booked, after)
unfolding webhook_options finalize_reservation_core finalize_found finalize_without_order decide
    decide_by_status book_active_hold resolve_stripe_payment_status
    resolve_stripe_checkout_session_details resolve_reservation_for_stripe_session
    find_by_stripe_session_id find_by_id find_order_by_stripe_session_id
    find_order_by_reservation_id validate_stripe_session_for_finalization
    validate_active_stripe_session_link validate_stripe_payment_details
    get_expected_stripe_amount_cents same_text is_hold_expired is_hold_status
    is_ops_lifecycle_status complete_reservation_finalization book_paid
    create_order_from_reservation payment_patch paid_amount_patch change_status change_status_core
    change_locked refund_blocks find_active_by_reservation_id perform apply_status_change
    patch_reservation write_change releases assert_transition can_transition find_by_id_for_update
    add_range purge_expired extend_open_physical_rental_blocks clamp_closed_physical_rental_blocks
    clamp_end delete_expired open_rental assert_no_overlap insert_date_block apart
    sync_car_status_from_reservation
paid_core = refl

finalize_reservation_core-IsBooked_example :
    (r : Reservation) × (resolve_reservation_for_stripe_session 5
        (webhook_options (event paid_up))
        800
        before
      ≡ some r)
    × (booked ≡ outcome r (some 30) finalized)
    × Says unreachable at_800 5 (webhook_options (event paid_up)) true
    × IsBooked at_800 r.id r.car_id 5 before after
finalize_reservation_core-IsBooked_example =
    finalize_reservation_core-IsBooked unreachable at_800 5 (webhook_options (event paid_up)) before
      after booked paid_core refl

finalized_again_example :
    (i : ℕ) × (finalize_reservation_core unreachable at_800 5
        (webhook_options (event not_paid))
        after
      ≡ ok (record { reservation = some i; order = some 30; reason = already_confirmed }, after))
finalized_again_example =
    finalized_again unreachable unreachable at_800 at_800 5 (webhook_options (event paid_up))
      (webhook_options (event not_paid)) before after booked paid_core refl

abbrev ignored : Database
ignored = tables_of (core not_paid)

abbrev told : CheckoutSession
told = record {
  session = record { id = 5; amount_total = some 9000; currency = codes "eur" };
  payment_status = some not_paid;
}

before-IsRecorded : IsRecorded before
unfolding can_transition is_valid_status
before-IsRecorded = record {
  current = λ i r f. ground arith;
  known = λ i r f. ground arith;
  allowed = (refl, tt);
}

apart_before : apart before.blocks ≡ true
unfolding apart
apart_before = refl

finalize_reservation_core-IsRecorded_example : IsRecorded after × (apart after.blocks ≡ true)
finalize_reservation_core-IsRecorded_example =
    finalize_reservation_core-IsRecorded unreachable at_800 5 (webhook_options (event paid_up))
      before after booked before-IsRecorded apart_before paid_core

-- A paid session of a reservation that went back to pending_payment.
abbrev resumed : Store
resumed = record store {
  database = record before { reservations = record hold { status = pending_payment } ∷ [] };
}

pending_cannot_be_paid : process_stripe_webhook_event unreachable at_800 (event paid_up) resumed ≡ (
  err (finalization (change (transition (invalid_status_transition (some pending_payment) paid)))),
  resumed,
)
unfolding process_stripe_webhook_event insert_processed_event insert_payment_event event_status
    process_new_event webhook_options finalize_reservation_core finalize_found
    finalize_without_order decide decide_by_status book_active_hold resolve_stripe_payment_status
    resolve_stripe_checkout_session_details resolve_reservation_for_stripe_session
    find_by_stripe_session_id find_by_id find_order_by_stripe_session_id
    find_order_by_reservation_id validate_stripe_session_for_finalization
    validate_active_stripe_session_link validate_stripe_payment_details
    get_expected_stripe_amount_cents same_text is_hold_expired is_hold_status
    is_ops_lifecycle_status complete_reservation_finalization book_paid
    create_order_from_reservation payment_patch paid_amount_patch change_status change_status_core
    change_locked refund_blocks find_active_by_reservation_id perform apply_status_change
    patch_reservation write_change releases assert_transition can_transition find_by_id_for_update
    add_range purge_expired extend_open_physical_rental_blocks clamp_closed_physical_rental_blocks
    clamp_end delete_expired open_rental assert_no_overlap insert_date_block apart
    sync_car_status_from_reservation handle_finalization_overlap
    resolve_concurrent_finalization_result
pending_cannot_be_paid = refl

-- The webhook of the paid session 5 was missed.
abbrev reports : Reports
reports i = some (record {
  checkout = record {
    session = record { id = i; amount_total = some 9000; currency = codes "eur" };
    payment_status = some paid_up;
  };
  reservation_id = some 7;
  car_id = some 3;
  session_id = some 11;
})
