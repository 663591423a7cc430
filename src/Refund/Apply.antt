-- ===== src/Refund/Apply.antt =====
-- backend/src/services/payment/refund/applyRefundService.js: a refund that succeeded at the provider
-- is written into the ledger, and the reservation follows it if the transition graph lets it.
pub mod Writes
pub mod Outcome
mod Examples
use rent_a_car_v.Base.{
  ℕ, Bool, true, false, Option, none, some, List, [], ◌∷◌, find, ◌==◌, if◌then◌else◌, Result, ok,
  err,
}
use rent_a_car_v.Text.{Text, codes}
use rent_a_car_v.Lifecycle.{
  Status, manual_review, refunded, same, can_transition, TransitionError, invalid_status_transition,
}
use rent_a_car_v.Refund.Ledger.{
  RefundOperation, Ledger, Patch, DbError, OpStatus, is_succeeded, find_active_by_reservation_id,
  find_by_id, update_refund_operation, succeeded,
}
use rent_a_car_v.Refund.Operations.{or_text}
use rent_a_car_v.Database.{Database, Reservation, find_by_id_for_update}
use rent_a_car_v.StatusChange.{Change, ChangeError, change_status, transition, ActorType}

-- The provider's refund: its id, and its status (an empty text if it has none).
pub record StripeRefund : Type 0 where
  pub id : ℕ
  pub status : Text

pub data ApplyError : Type 0 where
  refund_not_found reservation_not_found : ApplyError
  db_error : DbError → ApplyError
  change_error : ChangeError → ApplyError

-- `applied`, `domainApplied`, `needsReview` of the source's result.
pub data Applied : Type 0 where
  already refunded_too needs_review : Applied

abbrev pub id_or : Option StripeRefund → Option ℕ → Option ℕ
id_or none i = i
id_or (some s) i = some s.id

abbrev pub raw_or : Option StripeRefund → Text
raw_or none = codes "succeeded"
raw_or (some s) = or_text s.status (codes "succeeded")

abbrev pub succeeded_patch : Option StripeRefund → RefundOperation → Patch
succeeded_patch s op = record {
  refund_id = some (id_or s op.refund_id);
  status = some succeeded;
  failure_code = some none;
  raw_status = some (some (raw_or s));
  order_id = none;
}

abbrev pub domain_failed_patch : Patch
domain_failed_patch = record {
  refund_id = none;
  status = none;
  failure_code = some (some (codes "DOMAIN_TRANSITION_FAILED"));
  raw_status = none;
  order_id = none;
}

abbrev pub Outcome : Type 0
Outcome = Result ApplyError (Applied × Database)

abbrev pub change_to : ℕ → ActorType → Option ℕ → Status → Change
change_to reservation_id actor user s = record {
  reservation_id = reservation_id;
  new_status = s;
  actor = actor;
  user_id = user;
  patch = none;
}

abbrev pub with_refunds : Database → Ledger → Database
with_refunds db l = record db { refunds = l }

-- The second try, whose errors are only logged.
unfoldable pub try_review : ℕ → ActorType → Option ℕ → Option Status → Database → Database
try_review reservation_id actor user from db =
    if can_transition from manual_review
    then elim (change_status (change_to reservation_id actor user manual_review) db) [
      | ok (_, db') ↦ db'
      | err _ ↦ db
    ]
    else db

-- The provider has paid back, and the graph has no step to `refunded`: the operation is marked, and
-- the reservation goes to manual review where the graph lets it.
unfoldable pub flag_for_review : ℕ → ℕ → ActorType → Option ℕ → Option Status → Database → Outcome
flag_for_review reservation_id op_id actor user from db =
    elim (update_refund_operation op_id domain_failed_patch db.refunds) [
      | err e ↦ err (db_error e)
      | ok (_, l) ↦ ok (needs_review, try_review reservation_id actor user from (with_refunds db l))
    ]

-- The `try` around the change to `refunded`: only a step that the graph lacks is caught.
unfoldable pub after_change :
    ℕ → ℕ → ActorType → Option ℕ → Database → Result ChangeError (Bool × Database) → Outcome
after_change reservation_id op_id actor user db (ok (_, db')) = ok (refunded_too, db')
after_change reservation_id op_id actor user db (err e) = elim e [
  | transition (invalid_status_transition from to) ↦
      flag_for_review reservation_id op_id actor user from db
  | other ↦ err (change_error other)
]

-- The reservation, once the ledger says that the refund succeeded.
unfoldable pub apply_to_reservation : ℕ → ℕ → ActorType → Option ℕ → Database → Outcome
apply_to_reservation reservation_id op_id actor user db =
    elim (find_by_id_for_update reservation_id db) [
      | none ↦ err reservation_not_found
      | some r ↦
          if same r.status refunded
          then ok (refunded_too, db)
          else after_change reservation_id op_id actor user db
              (change_status (change_to reservation_id actor user refunded) db)
    ]

-- No row was updated: the operation succeeded meanwhile, or it is not there.
abbrev pub reread : Option RefundOperation → Database → Outcome
reread none db = err refund_not_found
reread (some op) db = if is_succeeded op.status then ok (already, db) else err refund_not_found

unfoldable pub apply_operation :
    ℕ → ActorType → Option ℕ → Option StripeRefund → RefundOperation → Database → Outcome
apply_operation reservation_id actor user s op db =
    if is_succeeded op.status
    then ok (already, db)
    else elim (update_refund_operation op.id (succeeded_patch s op) db.refunds) [
      | err e ↦ err (db_error e)
      | ok (none, l) ↦ reread (find_by_id op.id l) (with_refunds db l)
      | ok (some updated, l) ↦
          apply_to_reservation reservation_id updated.id actor user (with_refunds db l)
    ]

-- The latest active operation of the reservation goes before the caller's own copy. An error rolls
-- the transaction back.
unfoldable pub apply_succeeded_refund :
    Option RefundOperation → ℕ → ActorType → Option ℕ → Option StripeRefund → Database → Outcome
apply_succeeded_refund given reservation_id actor user s db =
    elim (find_active_by_reservation_id reservation_id db.refunds) [
      | some op ↦ apply_operation reservation_id actor user s op db
      | none ↦ elim given [
        | none ↦ err refund_not_found
        | some op ↦ apply_operation reservation_id actor user s op db
      ]
    ]
