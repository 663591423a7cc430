-- ===== src/StatusChange/Inversion.antt =====
-- What a change of status that succeeds has found and left.
use rent_a_car_v.Base.{
  ℕ, ◌≡◌, refl, ◌∙◌, ◌⊎◌, inl, inr, Bool, true, false, not, ◌&&◌, Option, none, some, List, [], ◌∷◌,
  find, update_where, arith, ◌==◌, if◌then◌else◌, Bool-cases, Option-cases, is_some, Result, ok,
  err,
}
use rent_a_car_v.Lifecycle.{Status, same, can_transition, assert_transition, TransitionError}
use rent_a_car_v.Database.{Database, Reservation, find_by_id_for_update}
use rent_a_car_v.Fleet.{sync_car_status_from_reservation}
use rent_a_car_v.StatusChange.{
  Change, ReservationPatch, change_status, write_change, apply_status_change, patched,
  patch_reservation, write_rows, write_car, refund_blocks, release_dates, releases, perform,
  session_taken, change_locked,
}

abbrev pub has_id : ℕ → Reservation → Bool
has_id i r = r.id == i

pub find-update_where :
    (i j : ℕ) (f : Reservation → Reservation) (rows : List Reservation)
    → ((r : Reservation) → (f r).id ≡ r.id)
    → find (has_id j) (update_where (has_id i) f rows)
      ≡ (elim (find (has_id j) rows) [ none ↦ none | some r ↦ some (if i == j then f r else r) ])
find-update_where i j f [] same = refl
find-update_where i j f (r ∷ rows) same = ground (arith, same r, find-update_where i j f rows same)

sync_rows :
    (r : Reservation) (s : Status) (db : Database)
    → ((sync_car_status_from_reservation r s db).reservations ≡ db.reservations)
      × ((sync_car_status_from_reservation r s db).history ≡ db.history)
unfolding sync_car_status_from_reservation
sync_rows r s db = ground arith

release_rows :
    (r : Reservation) (s : Status) (db : Database)
    → ((release_dates r s db).reservations ≡ db.reservations)
      × ((release_dates r s db).history ≡ db.history)
unfolding release_dates
release_rows r s db = (refl, refl)

pub write_change_rows :
    (c : Change) (r : Reservation) (db : Database)
    → ((write_change c r db).reservations ≡ (write_rows c r db).reservations)
      × ((write_change c r db).history ≡ (write_rows c r db).history)
unfolding write_change
write_change_rows c r db =
    let updated = apply_status_change c.new_status c.patch r in
    elim (Bool-cases (releases r.status c.new_status)) [
      | inl e ↦ rw e (
        (release_rows updated c.new_status (write_car c r db)).0
            ∙ (sync_rows updated c.new_status (write_rows c r db)).0,
        (release_rows updated c.new_status (write_car c r db)).1
            ∙ (sync_rows updated c.new_status (write_rows c r db)).1,
      )
      | inr e ↦ rw e (sync_rows updated c.new_status (write_rows c r db))
    ]

assert-cases :
    (r : Result TransitionError (Unit {0})) → (r ≡ ok tt) ⊎ ((e : TransitionError) × (r ≡ err e))
assert-cases (ok tt) = inl refl
assert-cases (err e) = inr (e, refl)

assert_allows :
    (from to : Status)
    → assert_transition (some from) to ≡ ok tt
    → (same from to ≡ true) ⊎ (can_transition (some from) to ≡ true)
unfolding assert_transition
assert_allows from to h = ground arith

patched_id : (p : Option ReservationPatch) (r : Reservation) → (patched p r).id ≡ r.id
unfolding patch_reservation
patched_id none r = refl
patched_id (some p) r = refl

pub apply_id :
    (s : Status) (p : Option ReservationPatch) (r : Reservation)
    → (apply_status_change s p r).id ≡ r.id
unfolding apply_status_change
apply_id s p r = patched_id p r

pub apply_status :
    (s : Status) (p : Option ReservationPatch) (r : Reservation)
    → (apply_status_change s p r).status ≡ s
unfolding apply_status_change
apply_status s p r = refl

perform_inversion :
    (c : Change) (r : Reservation) (db db' : Database) (changed : Bool)
    → perform c r db ≡ ok (changed, db')
    → ((changed ≡ false) × (db' ≡ db)) ⊎ ((changed ≡ true) × (db' ≡ write_change c r db))
unfolding perform
perform_inversion c r db db' changed e =
    elim (Bool-cases (same r.status c.new_status && not (is_some c.patch))) [
      | inl s ↦ inl (ground arith)
      | inr s ↦
          elim (Bool-cases
            (session_taken (apply_status_change c.new_status c.patch r) db.reservations)) [
              | inl t ↦ absurd (ground arith)
              | inr t ↦ inr (ground arith)
            ]
    ]

locked_inversion :
    (c : Change) (r : Reservation) (db db' : Database) (changed : Bool)
    → change_locked c r db ≡ ok (changed, db')
    → (refund_blocks c r db ≡ false)
      × (assert_transition (some r.status) c.new_status ≡ ok tt)
      × (perform c r db ≡ ok (changed, db'))
unfolding change_locked
locked_inversion c r db db' changed e = elim (Bool-cases (refund_blocks c r db)) [
  | inl b ↦ absurd (ground arith)
  | inr b ↦ elim (assert-cases (assert_transition (some r.status) c.new_status)) [
    | inl a ↦ (b, a, ground arith)
    | inr (x, a) ↦ absurd (ground arith)
  ]
]

-- A successful change: the row was there, the graph allows the step, no pending refund blocks it,
-- and the tables are as they were or as `write_change` leaves them.
pub change_status_inversion :
    (c : Change) (db db' : Database) (changed : Bool)
    → change_status c db ≡ ok (changed, db')
    → (r : Reservation) × (find (has_id c.reservation_id) db.reservations ≡ some r)
      × (refund_blocks c r db ≡ false)
      × ((same r.status c.new_status ≡ true) ⊎ (can_transition (some r.status) c.new_status ≡ true))
      × (((changed ≡ false) × (db' ≡ db)) ⊎ ((changed ≡ true) × (db' ≡ write_change c r db)))
unfolding change_status find_by_id_for_update
change_status_inversion c db db' changed e =
    elim (Option-cases (find (has_id c.reservation_id) db.reservations)) [
      | inl f ↦ absurd (ground arith)
      | inr (r, f) ↦
          let (b, a, p) = locked_inversion c r db db' changed (ground arith) in
          (r, f, b, assert_allows r.status c.new_status a, perform_inversion c r db db' changed p)
    ]
