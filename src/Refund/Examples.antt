-- ===== src/Refund/Examples.antt =====
-- The theorems on refunds at concrete operations, and tests.
use rent_a_car_v.Base.{
  ◌≤◌, ◌≡◌, ◌≢◌, refl, ◌⊎◌, true, false, none, some, [], ◌∷◌, count, arith, ok, err,
}
use rent_a_car_v.Text.{Text, codes, same_text}
use rent_a_car_v.Refund.Policy.{build_idempotency_key, parse_attempt_from_idempotency_key}
use rent_a_car_v.Refund.Policy.Keys.{parse-build_key}
use rent_a_car_v.Refund.Ledger.{
  RefundOperation, Ledger, Patch, pending, succeeded, failed, new_operation,
  insert_refund_operation, update_refund_operation, active_for, find_active_by_reservation_id,
  find_by_idempotency_key, is_active, should_guard_succeeded, apply_patch,
}
use rent_a_car_v.Refund.Ledger.Runs.{
  Run, here, and_then, insert, update, empty, has_succeeded, one_active_operation,
  succeeded_is_final,
}
use rent_a_car_v.Refund.Operations.{
  Request, create_pending_operation, out_of_fuel, transaction_aborted,
}
use rent_a_car_v.Refund.Operations.Reuse.{
  create_pending_terminates, create_pending_reuses, create_pending_aborts,
}

parse-build_key_example : parse_attempt_from_idempotency_key (build_idempotency_key 42 13) ≡ 13
parse-build_key_example = parse-build_key 42 13

abbrev first_key : Text
first_key = codes "refund:reservation:7:full"

abbrev first : RefundOperation
first = new_operation 7 none 70 9000 pending first_key 1

abbrev one_row : Ledger
one_row = record { next_id = 2; ops = first ∷ [] }

inserted : insert_refund_operation 7 none 70 9000 pending first_key empty ≡ ok (first, one_row)
unfolding insert_refund_operation
inserted = refl

abbrev success : Patch
success = record {
  refund_id = some (some 500);
  status = some succeeded;
  failure_code = some none;
  raw_status = some (some (codes "succeeded"));
  order_id = none;
}

abbrev failure : Patch
failure = record {
  refund_id = none;
  status = some failed;
  failure_code = some (some (codes "refund_failed"));
  raw_status = some (some (codes "failed"));
  order_id = none;
}

abbrev first_succeeded : RefundOperation
first_succeeded = record first {
  refund_id = some 500;
  status = succeeded;
  failure_code = none;
  raw_status = some (codes "succeeded");
}

abbrev succeeded_row : Ledger
succeeded_row = record { next_id = 2; ops = first_succeeded ∷ [] }

updated : update_refund_operation 1 success one_row ≡ ok (some first_succeeded, succeeded_row)
unfolding update_refund_operation should_guard_succeeded same_text apply_patch
updated = refl

first-Run : Run empty one_row
first-Run = and_then here (insert 7 none 70 9000 pending first_key first inserted)

one_active_operation_example : count (active_for 7) one_row.ops ≤ 1
one_active_operation_example = one_active_operation one_row 7 first-Run

late_failure : update_refund_operation 1 failure succeeded_row ≡ ok (none, succeeded_row)
unfolding update_refund_operation should_guard_succeeded
late_failure = refl

late-Run : Run succeeded_row succeeded_row
late-Run = and_then here (update 1 failure none late_failure)

succeeded_is_final_example : has_succeeded 1 succeeded_row.ops ≡ true
succeeded_is_final_example = succeeded_is_final 1 late-Run refl

abbrev request : Request
request = record {
  reservation_id = 7;
  order_id = none;
  payment_intent_id = 70;
  amount_cents = 9000;
}

first_active : find_active_by_reservation_id 7 one_row ≡ some first
unfolding find_active_by_reservation_id
first_active = refl

create_pending_terminates_example :
    create_pending_operation 5 false request 1 one_row ≢ err out_of_fuel
create_pending_terminates_example =
    create_pending_terminates 5 false request 1 one_row (ground arith) (ground arith)

create_pending_reuses_example :
    (op : RefundOperation) × (create_pending_operation 5 false request 1 one_row ≡ ok (op, one_row))
    × ((op ≡ first)
        ⊎ ((find_by_idempotency_key (build_idempotency_key 7 1) one_row ≡ some op)
            × (is_active op.status ≡ true)))
create_pending_reuses_example =
    create_pending_reuses 4 request 1 one_row first first_active (λ e. ground arith)

create_pending_aborts_example :
    create_pending_operation 5 true request 1 one_row ≡ err transaction_aborted
create_pending_aborts_example =
    create_pending_aborts 4 request 1 one_row first first_active (λ e. ground arith)
