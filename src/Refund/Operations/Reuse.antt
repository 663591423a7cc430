-- ===== src/Refund/Operations/Reuse.antt =====
-- Creating a refund operation never starts a second refund of a reservation.
use rent_a_car_v.Base.{
  ℕ, zero, suc, ◌+◌, ◌<◌, ◌≡◌, ◌≢◌, refl, ◌⊎◌, inl, inr, Bool, true, false, some, List, [], ◌∷◌,
  any, arith, Bool-cases, Option-cases, ok, err,
}
use rent_a_car_v.Refund.Policy.{build_idempotency_key}
use rent_a_car_v.Refund.Ledger.{
  RefundOperation, Ledger, pending, is_active, unique_violation, clash, insert_refund_operation,
  find_last, active_for, new_operation, find_active_by_reservation_id, find_by_idempotency_key,
}
use rent_a_car_v.Refund.Operations.{
  Request, transaction_aborted, out_of_fuel, create_pending_operation, insert_pending,
}

-- The recursion ends: with fuel for the attempts that are left it never runs out.
pub create_pending_terminates :
    (fuel : ℕ) (aborts : Bool) (r : Request) (attempt : ℕ) (l : Ledger)
    → 5 < fuel + attempt
    → 0 < fuel
    → create_pending_operation fuel aborts r attempt l ≢ err out_of_fuel
unfolding create_pending_operation
create_pending_terminates zero aborts r attempt l h k e = absurd (omega arith)
create_pending_terminates (suc fuel) aborts r attempt l h k e =
    ground (arith, create_pending_terminates fuel aborts r (attempt + 1) l)

find_last_active :
    (i : ℕ) (xs : List RefundOperation) (a : RefundOperation)
    → find_last (active_for i) xs ≡ some a
    → any (active_for i) xs ≡ true
find_last_active i [] a e = cc
find_last_active i (x ∷ xs) a e = ground (arith, find_last_active i xs a)

clash_pending :
    (r : Request) (attempt id : ℕ) (y : RefundOperation)
    → active_for r.reservation_id y ≡ true
    → clash
        (new_operation r.reservation_id r.order_id r.payment_intent_id r.amount_cents pending
          (build_idempotency_key r.reservation_id attempt)
          id)
        y
      ≡ true
unfolding clash
clash_pending r attempt id y h = ground arith

any_of_mono :
    (p q : RefundOperation → Bool) (xs : List RefundOperation)
    → ((y : RefundOperation) → p y ≡ true → q y ≡ true)
    → any p xs ≡ true
    → any q xs ≡ true
any_of_mono p q [] h e = e
any_of_mono p q (x ∷ xs) h e = ground (arith, h x, any_of_mono p q xs h)

conflict_of_active :
    (r : Request) (attempt : ℕ) (l : Ledger) (a : RefundOperation)
    → find_active_by_reservation_id r.reservation_id l ≡ some a
    → r.amount_cents ≢ 0
    → insert_pending r attempt l ≡ err unique_violation
unfolding insert_refund_operation find_active_by_reservation_id
conflict_of_active r attempt l a e ne =
    let new =
      new_operation r.reservation_id r.order_id r.payment_intent_id r.amount_cents pending
        (build_idempotency_key r.reservation_id attempt) l.next_id in
    let c : any (clash new) l.ops ≡ true =
      any_of_mono (active_for r.reservation_id) (clash new) l.ops
        (clash_pending r attempt l.next_id) (find_last_active r.reservation_id l.ops a e) in
    rw c (ground arith)

-- While a reservation has a pending or succeeded refund operation, creating another gives back an
-- active operation that is in the table already, and writes nothing: the operation with the
-- attempt's key if that one is active, and else the active one of the reservation. (The statements
-- stand alone, outside a transaction.)
pub create_pending_reuses :
    (fuel : ℕ) (r : Request) (attempt : ℕ) (l : Ledger) (a : RefundOperation)
    → find_active_by_reservation_id r.reservation_id l ≡ some a
    → r.amount_cents ≢ 0
    → (op : RefundOperation) × (create_pending_operation (suc fuel) false r attempt l ≡ ok (op, l))
      × ((op ≡ a)
          ⊎ ((find_by_idempotency_key (build_idempotency_key r.reservation_id attempt) l ≡ some op)
              × (is_active op.status ≡ true)))
unfolding create_pending_operation
create_pending_reuses fuel r attempt l a e ne =
    let key = build_idempotency_key r.reservation_id attempt in
    let c = conflict_of_active r attempt l a e ne in
    elim (Option-cases (find_by_idempotency_key key l)) [
      | inl f ↦ (a, ground arith, inl refl)
      | inr (op, f) ↦ elim (Bool-cases (is_active op.status)) [
        | inl act ↦ (op, ground arith, inr (f, act))
        | inr act ↦ (a, ground arith, inl refl)
      ]
    ]

-- Inside a transaction the same call fails, since the statement that reports the conflict aborts
-- the transaction before the existing operation is looked up.
pub create_pending_aborts :
    (fuel : ℕ) (r : Request) (attempt : ℕ) (l : Ledger) (a : RefundOperation)
    → find_active_by_reservation_id r.reservation_id l ≡ some a
    → r.amount_cents ≢ 0
    → create_pending_operation (suc fuel) true r attempt l ≡ err transaction_aborted
unfolding create_pending_operation
create_pending_aborts fuel r attempt l a e ne =
    ground (arith, conflict_of_active r attempt l a e ne)
