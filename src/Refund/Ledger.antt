-- ===== src/Refund/Ledger.antt =====
-- The table of refund operations: backend/src/services/sql/refundOperationSqlService.js with the
-- constraints of backend/sql/schema/032_refund_operations.sql. The rows stand in the order of their
-- ids. The columns for the currency, the requester, the reason, the failure message and the times
-- are left out: no statement here tests them.
pub mod Invariant
pub mod Runs
use rent_a_car_v.Base.{
  ℕ, suc, Bool, true, false, not, ◌&&◌, ◌||◌, Option, none, some, List, [], ◌∷◌, ◌++◌, any, find,
  keep, ltb, ◌==◌, if◌then◌else◌, update_where, Result, ok, err,
}
use rent_a_car_v.Text.{Text, codes, same_text}

pub data OpStatus : Type 0 where
  pending succeeded failed : OpStatus

abbrev pub is_pending : OpStatus → Bool
is_pending pending = true
is_pending _ = false

abbrev pub is_succeeded : OpStatus → Bool
is_succeeded succeeded = true
is_succeeded _ = false

abbrev pub is_failed : OpStatus → Bool
is_failed failed = true
is_failed _ = false

-- `status IN ('pending', 'succeeded')`.
abbrev pub is_active : OpStatus → Bool
is_active failed = false
is_active _ = true

pub record RefundOperation : Type 0 where
  pub id : ℕ
  pub reservation_id : ℕ
  pub order_id : Option ℕ
  pub payment_intent_id : ℕ
  pub refund_id : Option ℕ
  pub amount_cents : ℕ
  pub status : OpStatus
  pub key : Text
  pub failure_code : Option Text
  pub raw_status : Option Text

pub record Ledger : Type 0 where
  pub next_id : ℕ
  pub ops : List RefundOperation

-- A unique index or a check refuses the row.
pub data DbError : Type 0 where
  unique_violation check_violation : DbError

abbrev same_option : Option ℕ → Option ℕ → Bool
same_option (some a) (some b) = a == b
same_option _ _ = false

-- Two rows that the unique indexes do not let stand beside each other: one key, one active
-- operation for a reservation, one refund of the provider.
unfoldable pub clash : RefundOperation → RefundOperation → Bool
clash a b =
    a.id == b.id
    || (same_text a.key b.key
        || (a.reservation_id == b.reservation_id && (is_active a.status && is_active b.status)
            || same_option a.refund_id b.refund_id))

-- The row of an INSERT, with the defaults of the source: no refund id, no raw status.
abbrev pub new_operation : ℕ → Option ℕ → ℕ → ℕ → OpStatus → Text → ℕ → RefundOperation
new_operation reservation_id order_id payment_intent_id amount_cents status key id = record {
  id = id;
  reservation_id = reservation_id;
  order_id = order_id;
  payment_intent_id = payment_intent_id;
  refund_id = none;
  amount_cents = amount_cents;
  status = status;
  key = key;
  failure_code = none;
  raw_status = none;
}

abbrev pub add_row : Ledger → RefundOperation → Ledger
add_row l op = record { next_id = suc l.next_id; ops = l.ops ++ (op ∷ []) }

abbrev pub insert_row : RefundOperation → Ledger → Result DbError (RefundOperation × Ledger)
insert_row op l =
    if op.amount_cents == 0
    then err check_violation
    else if any (clash op) l.ops
    then err unique_violation
    else ok (op, add_row l op)

unfoldable pub insert_refund_operation :
    ℕ → Option ℕ → ℕ → ℕ → OpStatus → Text → Ledger → Result DbError (RefundOperation × Ledger)
insert_refund_operation reservation_id order_id payment_intent_id amount_cents status key l =
    insert_row
      (new_operation reservation_id order_id payment_intent_id amount_cents status key l.next_id) l

-- The last row that fits: `ORDER BY id DESC LIMIT 1`.
abbrev pub find_last : (RefundOperation → Bool) → List RefundOperation → Option RefundOperation
find_last p [] = none
find_last p (x ∷ xs) = elim (find_last p xs) [
  | some y ↦ some y
  | none ↦ if p x then some x else none
]

unfoldable pub find_by_id : ℕ → Ledger → Option RefundOperation
find_by_id i l = find (λ op. op.id == i) l.ops

unfoldable pub find_by_idempotency_key : Text → Ledger → Option RefundOperation
find_by_idempotency_key key l = find (λ op. same_text op.key key) l.ops

abbrev pub active_for : ℕ → RefundOperation → Bool
active_for reservation_id op = op.reservation_id == reservation_id && is_active op.status

unfoldable pub find_active_by_reservation_id : ℕ → Ledger → Option RefundOperation
find_active_by_reservation_id reservation_id l = find_last (active_for reservation_id) l.ops

unfoldable pub find_by_stripe_refund_id : Option ℕ → Ledger → Option RefundOperation
find_by_stripe_refund_id none l = none
find_by_stripe_refund_id (some refund) l = find (λ op. same_option op.refund_id (some refund)) l.ops

unfoldable pub find_latest_by_reservation_id : ℕ → Ledger → Option RefundOperation
find_latest_by_reservation_id reservation_id l =
    find_last (λ op. op.reservation_id == reservation_id) l.ops

-- A patch: a field is `none` where the source's object has no such property.
pub record Patch : Type 0 where
  pub refund_id : Option (Option ℕ)
  pub status : Option OpStatus
  pub failure_code : Option (Option Text)
  pub raw_status : Option (Option Text)
  pub order_id : Option (Option ℕ)

abbrev or_else {ℓ} : {A : Type ℓ} → Option A → A → A
or_else none a = a
or_else (some b) a = b

unfoldable pub apply_patch : Patch → RefundOperation → RefundOperation
apply_patch p op = record op {
  refund_id = or_else p.refund_id op.refund_id;
  status = or_else p.status op.status;
  failure_code = or_else p.failure_code op.failure_code;
  raw_status = or_else p.raw_status op.raw_status;
  order_id = or_else p.order_id op.order_id;
}

abbrev regressing_status : Option OpStatus → Bool
regressing_status (some pending) = true
regressing_status (some failed) = true
regressing_status _ = false

regressing_raw : Option (Option Text) → Bool
regressing_raw (some (some s)) =
    same_text (codes "pending") s
    || (same_text (codes "failed") s || same_text (codes "canceled") s)
regressing_raw _ = false

unfoldable pub should_guard_succeeded : Patch → Bool
unfolding regressing_raw
should_guard_succeeded p =
    if regressing_status p.status then true else if regressing_raw p.raw_status then true else false

-- `WHERE id = $1`, and `AND status <> 'succeeded'` where the patch wants the guard.
abbrev pub selects : ℕ → Bool → RefundOperation → Bool
selects i guarded op = op.id == i && not (guarded && is_succeeded op.status)

abbrev pub patch_row : ℕ → Patch → Ledger → Ledger
patch_row i p l = record l {
  ops = update_where (selects i (should_guard_succeeded p)) (apply_patch p) l.ops;
}

-- UPDATE ... RETURNING *: the changed row, or `none`. The unique indexes hold of the new row
-- against all others, or the statement fails.
unfoldable pub update_refund_operation :
    ℕ → Patch → Ledger → Result DbError (Option RefundOperation × Ledger)
update_refund_operation i p l = elim (find (selects i (should_guard_succeeded p)) l.ops) [
  | none ↦ ok (none, l)
  | some op ↦
      if any (clash (apply_patch p op)) (keep (λ o. not (o.id == i)) l.ops)
      then err unique_violation
      else ok (some (apply_patch p op), patch_row i p l)
]
