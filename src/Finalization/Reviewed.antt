-- ===== src/Finalization/Reviewed.antt =====
-- What sending a paid reservation to manual review leaves.
use rent_a_car_v.Base.{
  ℕ, ◌≡◌, ◌⊎◌, refl, inl, inr, Bool, false, Option, some, none, find, arith, Bool-cases,
  Option-cases, Result, ok, err,
}
use rent_a_car_v.Lifecycle.{
  Status, manual_review, can_transition, assert_transition, same, TransitionError,
  invalid_status_transition,
}
use rent_a_car_v.Database.{Database, Reservation, find_by_id_for_update}
use rent_a_car_v.StatusChange.{
  Change, ChangeError, transition, missing_argument, not_found, refund_in_progress,
  stripe_session_taken, apply_status_change, change_status, change_status_core, change_locked,
  perform,
}
use rent_a_car_v.StatusChange.Inversion.{has_id}
use rent_a_car_v.StatusChange.Quiet.{patched_row}
use rent_a_car_v.Finalization.{Outcome, Reason}
use rent_a_car_v.Finalization.Complete.{system_change}
use rent_a_car_v.Finalization.Review.{
  outcome, review_patch, reviewed, mark_paid_reservation_conflict,
}

assert-cases :
    (from to : Status)
    → (assert_transition (some from) to ≡ ok tt)
      ⊎ ((e : TransitionError) × (assert_transition (some from) to ≡ err e)
          × (can_transition (some from) to ≡ false))
unfolding assert_transition
assert-cases from to = elim (Bool-cases (can_transition (some from) to)) [
  | inl y ↦ inl (ground arith)
  | inr n ↦ elim (Bool-cases (same from to)) [
    | inl y ↦ inl (ground arith)
    | inr m ↦ inr (invalid_status_transition (some from) to, ground arith, n)
  ]
]

-- A step that is refused as one that the graph lacks is one.
refused_step :
    (c : Change) (db : Database) (from : Option Status) (to : Status)
    → change_status c db ≡ err (transition (invalid_status_transition from to))
    → (r : Reservation) × (find (has_id c.reservation_id) db.reservations ≡ some r)
      × (can_transition (some r.status) c.new_status ≡ false)
unfolding change_status change_status_core change_locked perform find_by_id_for_update
refused_step c db from to e = elim (Option-cases (find (has_id c.reservation_id) db.reservations)) [
  | inl f ↦ absurd (ground arith)
  | inr (r, f) ↦ elim (assert-cases r.status c.new_status) [
    | inl a ↦ absurd (ground arith)
    | inr (x, a, lacks) ↦ (r, f, lacks)
  ]
]

review_result :
    (o : Outcome) (db db' : Database) (result : Outcome) (x : Result ChangeError (Bool × Database))
    → reviewed o db x ≡ ok (result, db')
    → (result ≡ o)
      × (((b : Bool) × (x ≡ ok (b, db')))
          ⊎ ((db' ≡ db)
              × (from : Option Status) × (to : Status) × (x
                  ≡ err (transition (invalid_status_transition from to)))))
review_result o db db' result (ok (b, db2)) e = (ground arith, inl (b, ground arith))
review_result o db db' result (err (transition (invalid_status_transition from to))) e =
    (ground arith, inr (ground arith, from, to, refl))
review_result o db db' result (err missing_argument) e = absurd (ground arith)
review_result o db db' result (err not_found) e = absurd (ground arith)
review_result o db db' result (err refund_in_progress) e = absurd (ground arith)
review_result o db db' result (err stripe_session_taken) e = absurd (ground arith)

-- The row is in manual review, or the graph has no step there from its status, and nothing changed.
abbrev pub IsReviewed : ℕ → Database → Database → Type 0
IsReviewed i db db' =
    ((r : Reservation) × (find (has_id i) db'.reservations ≡ some r) × (r.status ≡ manual_review))
    ⊎ ((r : Reservation) × (find (has_id i) db.reservations ≡ some r)
        × (can_transition (some r.status) manual_review ≡ false)
        × (db' ≡ db))

abbrev pub review_change : Reservation → ℕ → Option ℕ → Option ℕ → Change
review_change r session intent cents =
    system_change r.id manual_review (some (review_patch r session intent cents))

pub mark_inversion :
    (r : Reservation) (session : ℕ) (reason : Reason) (intent cents : Option ℕ) (db db' : Database)
    (result : Outcome)
    → mark_paid_reservation_conflict r session reason intent cents db ≡ ok (result, db')
    → (result ≡ outcome r none reason)
      × (((b : Bool) × (change_status (review_change r session intent cents) db ≡ ok (b, db')))
          ⊎ ((db' ≡ db)
              × (from : Option Status) × (to : Status) × (change_status
                    (review_change r session intent cents)
                    db
                  ≡ err (transition (invalid_status_transition from to)))))
unfolding mark_paid_reservation_conflict
mark_inversion r session reason intent cents db db' result e =
    review_result (outcome r none reason) db db' result
      (change_status (review_change r session intent cents) db) e

pub mark_paid_reservation_conflict-IsReviewed :
    (r : Reservation) (session : ℕ) (reason : Reason) (intent cents : Option ℕ) (db db' : Database)
    (result : Outcome)
    → mark_paid_reservation_conflict r session reason intent cents db ≡ ok (result, db')
    → IsReviewed r.id db db'
unfolding apply_status_change
mark_paid_reservation_conflict-IsReviewed r session reason intent cents db db' result e =
    let c = review_change r session intent cents in
    let (_, how) = mark_inversion r session reason intent cents db db' result e in
    elim how [
      | inl (b, changed) ↦
          let (_, _, x, _, after) = patched_row c db db' b refl refl changed in
          inl (apply_status_change manual_review c.patch x, after, refl)
      | inr (same, from, to, refused) ↦
          let (x, found, lacks) = refused_step c db from to refused in inr (x, found, lacks, same)
    ]
