-- ===== src/Refund/Apply/Examples.antt =====
-- The theorem on applied refunds at a concrete booking.
use rent_a_car_v.Base.{◌≡◌, refl, true, none, some, [], ◌∷◌, ok, arith}
use rent_a_car_v.Text.{codes, same_text}
use rent_a_car_v.Refund.Ledger.{
  Ledger, succeeded, find_active_by_reservation_id, update_refund_operation, should_guard_succeeded,
  apply_patch,
}
use rent_a_car_v.Refund.Ledger.Runs.{has_succeeded}
use rent_a_car_v.Refund.Apply.{
  StripeRefund, refunded_too, apply_succeeded_refund, apply_operation, apply_to_reservation,
  after_change,
}
use rent_a_car_v.Refund.Apply.Outcome.{apply_records_success}
use rent_a_car_v.Database.{find_by_id_for_update}
use rent_a_car_v.StatusChange.{ActorType}
use rent_a_car_v.StatusChange.Examples.{
  with_ledger, after_refund, open_ledger, refund_open, refunding,
}

abbrev paid_back : StripeRefund
paid_back = record { id = 500; status = codes "succeeded" }

abbrev closed_ledger : Ledger
closed_ledger = record {
  next_id = 2;
  ops =
      record refund_open {
        refund_id = some 500;
        status = succeeded;
        raw_status = some (codes "succeeded");
      }
      ∷ [];
}

applied :
    apply_succeeded_refund none 7 ActorType.system none (some paid_back) (with_ledger open_ledger)
    ≡ ok (refunded_too, after_refund closed_ledger)
unfolding apply_succeeded_refund apply_operation apply_to_reservation after_change
    find_active_by_reservation_id update_refund_operation should_guard_succeeded apply_patch
    same_text find_by_id_for_update
applied = ground (arith, refunding closed_ledger)

refund_is_active : find_active_by_reservation_id 7 open_ledger ≡ some refund_open
unfolding find_active_by_reservation_id
refund_is_active = refl

apply_records_success_example : has_succeeded 1 closed_ledger.ops ≡ true
apply_records_success_example =
    apply_records_success none 7 ActorType.system none (some paid_back) refund_open
      (with_ledger open_ledger) (after_refund closed_ledger) refunded_too refund_is_active applied
