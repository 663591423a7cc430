-- ===== src/Refund/Apply/Outcome.antt =====
-- What a succeeded refund leaves behind in the ledger and in the reservation.
use rent_a_car_v.Base.{
  ℕ, ◌≡◌, refl, inl, inr, Bool, true, false, ◌&&◌, Option, none, some, find, arith, ◌==◌,
  Bool-cases, Option-cases, Result, ok, err,
}
use rent_a_car_v.Lifecycle.{Status, same, refunded, invalid_status_transition}
use rent_a_car_v.Refund.Ledger.{
  RefundOperation, Ledger, is_succeeded, find_by_id, find_active_by_reservation_id, active_for,
  update_refund_operation,
}
use rent_a_car_v.Refund.Ledger.Runs.{has_succeeded, Statement-has_succeeded, update}
use rent_a_car_v.Database.{Database, find_by_id_for_update}
use rent_a_car_v.StatusChange.{ChangeError, change_status, ActorType, transition}
use rent_a_car_v.Refund.Apply.{
  StripeRefund, Applied, succeeded_patch, domain_failed_patch, change_to, with_refunds, try_review,
  flag_for_review, apply_to_reservation, after_change, apply_operation, apply_succeeded_refund,
  reread,
}
use rent_a_car_v.Refund.Apply.Writes.{
  change_status_refunds, result_cases, find-any, find_last-any, try_review_refunds, update_succeeds,
}

flagged_refunds :
    (j reservation_id op_id : ℕ) (actor : ActorType) (user : Option ℕ) (from : Option Status)
    (db db' : Database) (res : Applied)
    → flag_for_review reservation_id op_id actor user from db ≡ ok (res, db')
    → has_succeeded j db.refunds.ops ≡ true
    → has_succeeded j db'.refunds.ops ≡ true
unfolding flag_for_review
flagged_refunds j i op_id actor user from db db' res e h =
    elim (result_cases (update_refund_operation op_id domain_failed_patch db.refunds)) [
      | inr (x, u) ↦ absurd (ground arith)
      | inl ((r, l), u) ↦
          let kept : has_succeeded j l.ops ≡ true =
            Statement-has_succeeded j (update op_id domain_failed_patch r u) h in
          let here : db' ≡ try_review i actor user from (with_refunds db l) = ground arith in
          rw (here, try_review_refunds i actor user from (with_refunds db l)) kept
    ]

after_change_refunds :
    (j reservation_id op_id : ℕ) (actor : ActorType) (user : Option ℕ) (db db' : Database)
    (res : Applied) (r : Result ChangeError (Bool × Database))
    → change_status (change_to reservation_id actor user refunded) db ≡ r
    → after_change reservation_id op_id actor user db r ≡ ok (res, db')
    → has_succeeded j db.refunds.ops ≡ true
    → has_succeeded j db'.refunds.ops ≡ true
unfolding after_change
after_change_refunds j i op_id actor user db db' res (ok (b, db'')) c e h =
    let same_db : db' ≡ db'' = ground arith in
    rw (same_db, change_status_refunds (change_to i actor user refunded) db db'' b c) h
after_change_refunds j i op_id actor user db db' res
      (err (transition (invalid_status_transition from to))) c e h =
    flagged_refunds j i op_id actor user from db db' res e h
after_change_refunds j i op_id actor user db db' res (err _) c e h = cc

applied_refunds :
    (j reservation_id op_id : ℕ) (actor : ActorType) (user : Option ℕ) (db db' : Database)
    (res : Applied)
    → apply_to_reservation reservation_id op_id actor user db ≡ ok (res, db')
    → has_succeeded j db.refunds.ops ≡ true
    → has_succeeded j db'.refunds.ops ≡ true
unfolding apply_to_reservation
applied_refunds j i op_id actor user db db' res e h =
    let c = change_to i actor user refunded in
    elim (Option-cases (find_by_id_for_update i db)) [
      | inl f ↦ absurd (ground arith)
      | inr (r, f) ↦ elim (Bool-cases (same r.status refunded)) [
        | inl t ↦ let same_db : db' ≡ db = ground arith in rw same_db h
        | inr t ↦
            after_change_refunds j i op_id actor user db db' res (change_status c db) refl
              (ground arith) h
      ]
    ]

reread_refunds :
    (i : ℕ) (l : Ledger) (db db' : Database) (res : Applied)
    → reread (find_by_id i l) (with_refunds db l) ≡ ok (res, db')
    → has_succeeded i db'.refunds.ops ≡ true
unfolding find_by_id
reread_refunds i l db db' res e =
    elim (Option-cases (find (λ (o : RefundOperation). o.id == i) l.ops)) [
      | inl f ↦ absurd (ground arith)
      | inr (o, f) ↦ elim (Bool-cases (is_succeeded o.status)) [
        | inr n ↦ absurd (ground arith)
        | inl y ↦
            let same_l : db'.refunds ≡ l = ground arith in
            rw same_l (
              find-any (λ o. o.id == i) (λ o. o.id == i && is_succeeded o.status) l.ops o f
                (λ k. rw (k, y)))
      ]
    ]

already_succeeded :
    (reservation_id : ℕ) (actor : ActorType) (user : Option ℕ) (s : Option StripeRefund)
    (op : RefundOperation) (db db' : Database) (res : Applied)
    → find_active_by_reservation_id reservation_id db.refunds ≡ some op
    → apply_operation reservation_id actor user s op db ≡ ok (res, db')
    → is_succeeded op.status ≡ true
    → has_succeeded op.id db'.refunds.ops ≡ true
unfolding apply_operation find_active_by_reservation_id
already_succeeded i actor user s op db db' res f e y =
    let same_db : db' ≡ db = ground arith in
    rw same_db (
      find_last-any (active_for i) (λ o. o.id == op.id && is_succeeded o.status) db.refunds.ops op f
        (rw y (ground arith)))

operation_refunds :
    (reservation_id : ℕ) (actor : ActorType) (user : Option ℕ) (s : Option StripeRefund)
    (op : RefundOperation) (db db' : Database) (res : Applied)
    → apply_operation reservation_id actor user s op db ≡ ok (res, db')
    → is_succeeded op.status ≡ false
    → has_succeeded op.id db'.refunds.ops ≡ true
unfolding apply_operation
operation_refunds i actor user s op db db' res e n =
    let p = succeeded_patch s op in
    elim (result_cases (update_refund_operation op.id p db.refunds)) [
      | inr (x, u) ↦ absurd (ground arith)
      | inl ((none, l), u) ↦ reread_refunds op.id l db db' res (ground arith)
      | inl ((some o, l), u) ↦
          let (done, o_id) = update_succeeds op.id p db.refunds l o refl u in
          applied_refunds op.id i o.id actor user (with_refunds db l) db' res (ground arith) done
    ]

-- When the refund of a reservation that has an active operation is applied without an error, the
-- ledger says afterwards that this operation succeeded, on every way through the code: also where it
-- had succeeded before, and where the reservation could not follow.
pub apply_records_success :
    (given : Option RefundOperation) (reservation_id : ℕ) (actor : ActorType) (user : Option ℕ)
    (s : Option StripeRefund) (op : RefundOperation) (db db' : Database) (res : Applied)
    → find_active_by_reservation_id reservation_id db.refunds ≡ some op
    → apply_succeeded_refund given reservation_id actor user s db ≡ ok (res, db')
    → has_succeeded op.id db'.refunds.ops ≡ true
unfolding apply_succeeded_refund
apply_records_success given i actor user s op db db' res f e =
    let e' : apply_operation i actor user s op db ≡ ok (res, db') = ground arith in
    elim (Bool-cases (is_succeeded op.status)) [
      | inr n ↦ operation_refunds i actor user s op db db' res e' n
      | inl y ↦ already_succeeded i actor user s op db db' res f e' y
    ]
