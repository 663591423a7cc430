-- ===== src/Refund/Apply/Writes.antt =====
-- What the steps of an applied refund do to the ledger.
use rent_a_car_v.Base.{
  ℕ, ◌≡◌, refl, ◌∙◌, ap, ◌⊎◌, inl, inr, Bool, true, Option, some, List, [], ◌∷◌, find, any,
  update_where, arith, Bool-cases, Option-cases, Result, ok, err,
}
use rent_a_car_v.Lifecycle.{Status, manual_review}
use rent_a_car_v.Refund.Ledger.{
  RefundOperation, Ledger, Patch, succeeded, selects, apply_patch, should_guard_succeeded,
  find_last, update_refund_operation,
}
use rent_a_car_v.Refund.Ledger.Runs.{has_succeeded}
use rent_a_car_v.Refund.Ledger.Invariant.{update_inversion}
use rent_a_car_v.Database.{Database, Reservation}
use rent_a_car_v.Fleet.{sync_car_status_from_reservation}
use rent_a_car_v.StatusChange.{
  Change, change_status, write_change, write_rows, write_car, release_dates, releases,
  apply_status_change, ActorType,
}
use rent_a_car_v.StatusChange.Recorded.{change_status_inversion}
use rent_a_car_v.Refund.Apply.{change_to, try_review}

sync_refunds :
    (r : Reservation) (s : Status) (db : Database)
    → (sync_car_status_from_reservation r s db).refunds ≡ db.refunds
unfolding sync_car_status_from_reservation
sync_refunds r s db = ground arith

release_refunds :
    (r : Reservation) (s : Status) (db : Database) → (release_dates r s db).refunds ≡ db.refunds
unfolding release_dates
release_refunds r s db = refl

write_change_refunds :
    (c : Change) (r : Reservation) (db : Database) → (write_change c r db).refunds ≡ db.refunds
unfolding write_change
write_change_refunds c r db =
    let updated = apply_status_change c.new_status c.patch r in
    let kept = sync_refunds updated c.new_status (write_rows c r db) in
    elim (Bool-cases (releases r.status c.new_status)) [
      | inl e ↦ rw e (release_refunds updated c.new_status (write_car c r db) ∙ kept)
      | inr e ↦ rw e kept
    ]

pub change_status_refunds :
    (c : Change) (db db' : Database) (changed : Bool)
    → change_status c db ≡ ok (changed, db')
    → db'.refunds ≡ db.refunds
change_status_refunds c db db' changed e =
    let (r, _, _, _, effect) = change_status_inversion c db db' changed e in
    elim effect [
      | inl (_, same_db) ↦ ap (λ (d : Database). d.refunds) same_db
      | inr (_, same_db) ↦ rw same_db (write_change_refunds c r db)
    ]

pub result_cases {ℓ κ} :
    {E : Type κ} {A : Type ℓ} (r : Result E A) → ((a : A) × (r ≡ ok a)) ⊎ ((e : E) × (r ≡ err e))
result_cases (ok a) = inl (a, refl)
result_cases (err e) = inr (e, refl)

pub find-any :
    (p q : RefundOperation → Bool) (xs : List RefundOperation) (a : RefundOperation)
    → find p xs ≡ some a
    → (p a ≡ true → q a ≡ true)
    → any q xs ≡ true
find-any p q [] a e h = cc
find-any p q (x ∷ xs) a e h = elim (Bool-cases (p x)) [
  | inl t ↦
      let same : x ≡ a = ground arith in let qx : q x ≡ true = rw same (h (rw same at t)) in rw qx
  | inr t ↦ ground (arith, find-any p q xs a)
]

pub find_last-any :
    (p q : RefundOperation → Bool) (xs : List RefundOperation) (a : RefundOperation)
    → find_last p xs ≡ some a
    → q a ≡ true
    → any q xs ≡ true
find_last-any p q [] a e h = cc
find_last-any p q (x ∷ xs) a e h = elim (Option-cases (find_last p xs)) [
  | inl n ↦ let same : x ≡ a = ground arith in let qx : q x ≡ true = rw same h in rw qx
  | inr (y, n) ↦
      let same : y ≡ a = ground arith in ground (arith, find_last-any p q xs a (rw same at n) h)
]

patch_succeeds :
    (i : ℕ) (g : Bool) (p : Patch) (xs : List RefundOperation) (o : RefundOperation)
    → p.status ≡ some succeeded
    → find (selects i g) xs ≡ some o
    → has_succeeded i (update_where (selects i g) (apply_patch p) xs) ≡ true
unfolding apply_patch
patch_succeeds i g p [] o s e = cc
patch_succeeds i g p (x ∷ xs) o s e = elim (Bool-cases (selects i g x)) [
  | inl t ↦ ground arith
  | inr t ↦ ground (arith, patch_succeeds i g p xs o s)
]

patched_id :
    (i : ℕ) (g : Bool) (p : Patch) (o : RefundOperation) (xs : List RefundOperation)
    → find (selects i g) xs ≡ some o
    → (apply_patch p o).id ≡ i
unfolding apply_patch
patched_id i g p o [] e = cc
patched_id i g p o (x ∷ xs) e = ground (arith, patched_id i g p o xs)

pub try_review_refunds :
    (reservation_id : ℕ) (actor : ActorType) (user : Option ℕ) (from : Option Status)
    (db : Database)
    → (try_review reservation_id actor user from db).refunds ≡ db.refunds
unfolding try_review
try_review_refunds i actor user from db =
    let c = change_to i actor user manual_review in
    elim (result_cases (change_status c db)) [
      | inl ((b, db'), e) ↦ ground (arith, change_status_refunds c db db' b e)
      | inr (x, e) ↦ ground arith
    ]

pub update_succeeds :
    (i : ℕ) (p : Patch) (l l' : Ledger) (u : RefundOperation)
    → p.status ≡ some succeeded
    → update_refund_operation i p l ≡ ok (some u, l')
    → (has_succeeded i l'.ops ≡ true) × (u.id ≡ i)
update_succeeds i p l l' u s e = elim (update_inversion i p l l' (some u) e) [
  | inl (n, _) ↦ cc
  | inr (op, f, _, given, same_row) ↦ (
    rw same_row (patch_succeeds i (should_guard_succeeded p) p l.ops op s f),
    let u_is : u ≡ apply_patch p op = ground arith in
        rw u_is (patched_id i (should_guard_succeeded p) p op l.ops f),
  )
]
