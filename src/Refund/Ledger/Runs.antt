-- ===== src/Refund/Ledger/Runs.antt =====
-- What holds of the table of refund operations over every sequence of statements.
use rent_a_car_v.Base.{
  ℕ, ◌≤◌, ◌≡◌, refl, inl, inr, Bool, true, false, ◌&&◌, Option, List, [], ◌∷◌, ◌++◌, any, count,
  update_where, arith, ◌==◌, Bool-cases, ok,
}
use rent_a_car_v.Text.{Text}
use rent_a_car_v.Refund.Ledger.{
  RefundOperation, Ledger, Patch, OpStatus, is_succeeded, clash, insert_refund_operation,
  update_refund_operation, apply_patch, selects, should_guard_succeeded, active_for, new_operation,
}
use rent_a_car_v.Refund.Ledger.Invariant.{
  NoClash, IsLedger, insert_refund_operation-IsLedger, update_refund_operation-IsLedger,
  insert_row_inversion, update_inversion,
}

pub data Statement : Ledger → Ledger → Type 0 where
  insert :
      (reservation_id : ℕ) (order_id : Option ℕ) (payment_intent_id amount_cents : ℕ)
      (status : OpStatus) (key : Text) {l l' : Ledger} (op : RefundOperation)
      → insert_refund_operation reservation_id order_id payment_intent_id amount_cents status key l
        ≡ ok (op, l')
      → Statement l l'
  update :
      (i : ℕ) (p : Patch) {l l' : Ledger} (r : Option RefundOperation)
      → update_refund_operation i p l ≡ ok (r, l')
      → Statement l l'

pub data Run (l : Ledger) : Ledger → Type 0 where
  here : Run l l
  and_then : {m n : Ledger} → Run l m → Statement m n → Run l n

pub Run-IsLedger : {l l' : Ledger} → IsLedger l → Run l l' → IsLedger l'
Run-IsLedger h here = h
Run-IsLedger h (and_then {m = m} {n = n} r (insert ri o pi a st key op e)) =
    insert_refund_operation-IsLedger ri o pi a st key m n op (Run-IsLedger h r) e
Run-IsLedger h (and_then {m = m} {n = n} r (update i p u e)) =
    update_refund_operation-IsLedger i p m n u (Run-IsLedger h r) e

clash_active :
    (x y : RefundOperation) (reservation_id : ℕ)
    → clash x y ≡ false
    → active_for reservation_id x ≡ true
    → active_for reservation_id y ≡ false
unfolding clash
clash_active x y reservation_id h a = ground arith

count_active_zero :
    (x : RefundOperation) (xs : List RefundOperation) (reservation_id : ℕ)
    → any (clash x) xs ≡ false
    → active_for reservation_id x ≡ true
    → count (active_for reservation_id) xs ≡ 0
count_active_zero x [] i h a = refl
count_active_zero x (y ∷ ys) i h a = ground (arith, clash_active x y i, count_active_zero x ys i)

NoClash-count_active :
    (xs : List RefundOperation) (reservation_id : ℕ)
    → NoClash xs
    → count (active_for reservation_id) xs ≤ 1
NoClash-count_active [] i h = omega arith
NoClash-count_active (x ∷ xs) i (hx, hs) =
    ground (arith, count_active_zero x xs i, NoClash-count_active xs i hs)

abbrev pub empty : Ledger
empty = record { next_id = 1; ops = [] }

-- Whatever statements ran from the empty table on, a reservation has at most one refund operation
-- that is pending or succeeded.
pub one_active_operation :
    (l : Ledger) (reservation_id : ℕ) → Run empty l → count (active_for reservation_id) l.ops ≤ 1
one_active_operation l i r =
    NoClash-count_active l.ops i (Run-IsLedger (record { apart = tt; below = tt }) r).apart

row_keeps_succeeded :
    (i : ℕ) (p : Patch) (x : RefundOperation)
    → is_succeeded x.status ≡ true
    → selects i (should_guard_succeeded p) x ≡ true
    → is_succeeded (apply_patch p x).status ≡ true
unfolding should_guard_succeeded apply_patch
row_keeps_succeeded i p x h s = ground arith

apply_patch_id : (p : Patch) (x : RefundOperation) → (apply_patch p x).id ≡ x.id
unfolding apply_patch
apply_patch_id p x = refl

-- The row with id `j` is there and succeeded.
abbrev pub has_succeeded : ℕ → List RefundOperation → Bool
has_succeeded j l = any (λ op. op.id == j && is_succeeded op.status) l

patch_keeps_succeeded :
    (i j : ℕ) (p : Patch) (xs : List RefundOperation)
    → has_succeeded j xs ≡ true
    → has_succeeded j (update_where (selects i (should_guard_succeeded p)) (apply_patch p) xs)
      ≡ true
patch_keeps_succeeded i j p [] h = h
patch_keeps_succeeded i j p (x ∷ xs) h =
    elim (Bool-cases (selects i (should_guard_succeeded p) x)) [
      | inl s ↦ rw s (
          ground
            (arith, row_keeps_succeeded i p x, apply_patch_id p x, patch_keeps_succeeded i j p xs))
      | inr s ↦ rw s (ground (arith, patch_keeps_succeeded i j p xs))
    ]

append_keeps_succeeded :
    (j : ℕ) (xs : List RefundOperation) (y : RefundOperation)
    → has_succeeded j xs ≡ true
    → has_succeeded j (xs ++ (y ∷ [])) ≡ true
append_keeps_succeeded j [] y h = cc
append_keeps_succeeded j (x ∷ xs) y h = ground (arith, append_keeps_succeeded j xs y)

pub Statement-has_succeeded :
    {l l' : Ledger} (j : ℕ)
    → Statement l l'
    → has_succeeded j l.ops ≡ true
    → has_succeeded j l'.ops ≡ true
unfolding insert_refund_operation
Statement-has_succeeded {l} {l'} j (insert ri o pi a st key op e) h =
    let new = new_operation ri o pi a st key l.next_id in
    rw (insert_row_inversion new l l' op e).2 (append_keeps_succeeded j l.ops new h)
Statement-has_succeeded {l} {l'} j (update i p r e) h = elim (update_inversion i p l l' r e) [
  | inl (_, same) ↦ rw same h
  | inr (op, _, _, _, same) ↦ rw same (patch_keeps_succeeded i j p l.ops h)
]

-- A refund that succeeded stays succeeded: no statement of the code deletes its row or takes it
-- back to `pending` or `failed`, whatever patch an UPDATE carries.
pub succeeded_is_final :
    {l l' : Ledger} (j : ℕ)
    → Run l l'
    → has_succeeded j l.ops ≡ true
    → has_succeeded j l'.ops ≡ true
succeeded_is_final j here h = h
succeeded_is_final j (and_then r s) h = Statement-has_succeeded j s (succeeded_is_final j r h)
