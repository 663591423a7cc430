-- ===== src/Refund/Operations.antt =====
-- backend/src/services/payment/refund/refundLedgerService.js: creating a refund operation with an
-- idempotency key, and marking it failed or pending again.
pub mod Reuse
use rent_a_car_v.Base.{
  ℕ, zero, suc, ◌+◌, Bool, true, false, not, ◌&&◌, ◌||◌, Option, none, some, List, [], ◌∷◌, ltb,
  if◌then◌else◌, Result, ok, err,
}
use rent_a_car_v.Text.{Text, codes}
use rent_a_car_v.Refund.Policy.{build_idempotency_key, StripeError}
use rent_a_car_v.Refund.Ledger.{
  RefundOperation, Ledger, Patch, OpStatus, pending, succeeded, failed, is_failed, is_active,
  DbError, unique_violation, check_violation, insert_refund_operation, find_by_id,
  find_by_idempotency_key, find_active_by_reservation_id, update_refund_operation,
}

unfoldable pub resolve_updated_refund_operation :
    RefundOperation → Option RefundOperation → Ledger → RefundOperation
resolve_updated_refund_operation op (some updated) l = updated
resolve_updated_refund_operation op none l = elim (find_by_id op.id l) [
  | some found ↦ found
  | none ↦ op
]

-- `a || b` on texts.
abbrev pub or_text : Text → Text → Text
or_text [] t = t
or_text (c ∷ s) t = c ∷ s

abbrev update_and_resolve :
    RefundOperation → Patch → Ledger → Result DbError (RefundOperation × Ledger)
update_and_resolve op p l = elim (update_refund_operation op.id p l) [
  | err e ↦ err e
  | ok (updated, l') ↦ ok (resolve_updated_refund_operation op updated l', l')
]

abbrev pub failed_patch : StripeError → Patch
failed_patch e = record {
  refund_id = none;
  status = some failed;
  failure_code = some (some (or_text e.code (or_text e.error_type (codes "refund_failed"))));
  raw_status = some (some (codes "failed"));
  order_id = none;
}

unfoldable pub mark_refund_failed :
    RefundOperation → StripeError → Ledger → Result DbError (RefundOperation × Ledger)
mark_refund_failed op e l = update_and_resolve op (failed_patch e) l

-- `stripe_refund_id` is `none` where it is undefined, `some none` where it is null.
abbrev pub pending_patch : Option (Option ℕ) → Text → Patch
pending_patch stripe_refund_id raw = record {
  refund_id = stripe_refund_id;
  status = some pending;
  failure_code = some none;
  raw_status = some (some (or_text raw (codes "pending")));
  order_id = none;
}

unfoldable pub resurrect_pending :
    RefundOperation → Option (Option ℕ) → Text → Ledger → Result DbError (RefundOperation × Ledger)
resurrect_pending op stripe_refund_id raw l =
    update_and_resolve op (pending_patch stripe_refund_id raw) l

-- What the operation is created for.
pub record Request : Type 0 where
  pub reservation_id : ℕ
  pub order_id : Option ℕ
  pub payment_intent_id : ℕ
  pub amount_cents : ℕ

-- `transaction_aborted`: a statement after a failed one, in a transaction with no savepoint.
-- `out_of_fuel` is not of the source: the model's recursion on `attempt` ran out.
pub data PendingError : Type 0 where
  db : DbError → PendingError
  transaction_aborted out_of_fuel : PendingError

abbrev pub Created : Type 0
Created = Result PendingError (RefundOperation × Ledger)

abbrev pub insert_pending : Request → ℕ → Ledger → Result DbError (RefundOperation × Ledger)
insert_pending r attempt l =
    insert_refund_operation r.reservation_id r.order_id r.payment_intent_id r.amount_cents pending
      (build_idempotency_key r.reservation_id attempt) l

-- What follows a unique violation: the row with the key if it is pending or succeeded, else the
-- active row of the reservation, else the next attempt, else the violation itself.
unfoldable pub next_attempt : Bool → Option RefundOperation → ℕ → Ledger → Created → Created
next_attempt may_retry (some op) attempt l retry = ok (op, l)
next_attempt may_retry none attempt l retry =
    if ltb attempt 5 && may_retry then retry else err (db unique_violation)

unfoldable pub after_conflict :
    Option RefundOperation → Option RefundOperation → ℕ → Ledger → Created → Created
unfolding next_attempt
after_conflict none active attempt l retry = next_attempt true active attempt l retry
after_conflict (some op) active attempt l retry =
    if is_active op.status
    then ok (op, l)
    else next_attempt (is_failed op.status) active attempt l retry

-- `aborts` says whether a failed statement makes the later ones of the connection fail, as a
-- transaction of the database does; with no client each statement stands alone.
unfoldable pub create_pending_operation : ℕ → Bool → Request → ℕ → Ledger → Created
unfolding after_conflict
create_pending_operation zero aborts r attempt l = err out_of_fuel
create_pending_operation (suc fuel) aborts r attempt l =
    let retry = create_pending_operation fuel aborts r (attempt + 1) l in
    elim (insert_pending r attempt l) [
      | ok created ↦ ok created
      | err check_violation ↦ err (db check_violation)
      | err unique_violation ↦
          if aborts
          then err transaction_aborted
          else after_conflict
              (find_by_idempotency_key (build_idempotency_key r.reservation_id attempt) l)
              (find_active_by_reservation_id r.reservation_id l) attempt l retry
    ]
