-- ===== src/Holds/Allowed.antt =====
-- What the constraints allow is kept by expiries and by changes of status.
use rent_a_car_v.Base.{
  ℕ, ◌≡◌, ◌⊎◌, refl, inl, inr, Bool, true, false, not, ◌&&◌, ◌||◌, Option, some, none, List, [],
  ◌∷◌, ◌++◌, any, arith, Bool-cases, ok,
}
use rent_a_car_v.Lifecycle.{is_hold_status, can_transition, same, Status}
use rent_a_car_v.Database.{Database, Reservation}
use rent_a_car_v.StatusChange.{
  Change, ReservationPatch, change_status, apply_status_change, patch_reservation,
}
use rent_a_car_v.StatusChange.Inversion.{
  has_id, apply_id, change_status_inversion, write_change_rows,
}
use rent_a_car_v.Holds.{expired_row, expire_rows, Expiry, run_expiry}
use rent_a_car_v.Holds.Recorded.{run_expiry-cases}
use rent_a_car_v.Holds.Replace.{replace-exclusive, found_free, any-less}
use rent_a_car_v.Holds.Recorded.{distinct_ids, distinct_ids-update_where, any-has_id}
use rent_a_car_v.Holds.Create.{holds_overlap, holds_share_session, check_constraints}
use rent_a_car_v.Holds.Exclusive.{any_append_one, collide, exclusive, Frees, update_where-exclusive}

expired_row-Frees : (now : ℕ) → Frees (expired_row now)
unfolding is_hold_status
expired_row-Frees now r = (refl, refl, refl, refl, refl)

run_expiry-exclusive :
    (x : Expiry) (now : ℕ) (db : Database)
    → exclusive db.reservations ≡ true
    → exclusive (run_expiry x now db).reservations ≡ true
unfolding expire_rows
run_expiry-exclusive x now db h = elim (run_expiry-cases x now db) [
  | inl same ↦ rw same h
  | inr (p, _, same) ↦
      rw same (update_where-exclusive p (expired_row now) (expired_row-Frees now) db.reservations h)
]

-- A change into a hold status is a change of a hold.
hold_step :
    (from to : Status)
    → (same from to ≡ true) ⊎ (can_transition (some from) to ≡ true)
    → is_hold_status to && not (is_hold_status from) ≡ false
unfolding can_transition is_hold_status
hold_step from to h = ground arith

-- The table that the constraints allow.
abbrev pub Allowed : Database → Type 0
Allowed db = (distinct_ids db.reservations ≡ true) × (exclusive db.reservations ≡ true)

collide_kept :
    (s : Status) (p : Option ReservationPatch) (r x : Reservation)
    → is_hold_status s && not (is_hold_status r.status) ≡ false
    → collide r x ≡ false
    → collide (apply_status_change s p r) x ≡ false
unfolding apply_status_change patch_reservation
collide_kept s none r x h k = ground arith
collide_kept s (some p) r x h k = ground arith

pub change_status-Allowed :
    (c : Change) (db db' : Database) (changed : Bool)
    → Allowed db
    → change_status c db ≡ ok (changed, db')
    → Allowed db'
change_status-Allowed c db db' changed (d, h) e =
    let (r, found, _, step, effect) = change_status_inversion c db db' changed e in
    let f = apply_status_change c.new_status c.patch in
    let i = c.reservation_id in
    elim effect [
      | inl (_, same) ↦ rw same (d, h)
      | inr (_, same) ↦
          let free =
            any-less (collide r) (collide (f r)) _
              (λ x. collide_kept c.new_status c.patch r x (hold_step r.status c.new_status step))
              (found_free (has_id i) i (λ x. ground arith) db.reservations r d found h) in
          rw (same, (write_change_rows c r db).0)
            (
              rw
                  (distinct_ids-update_where (has_id i) f (apply_id c.new_status c.patch)
                    db.reservations)
                  d,
              replace-exclusive (has_id i) i (λ x. ground arith) f db.reservations r d found free h,
            )
    ]

pub run_expiry-ids :
    (x : Expiry) (now i : ℕ) (db : Database)
    → any (has_id i) (run_expiry x now db).reservations ≡ any (has_id i) db.reservations
unfolding expire_rows
run_expiry-ids x now i db = elim (run_expiry-cases x now db) [
  | inl same ↦ rw same refl
  | inr (p, _, same) ↦ rw same (any-has_id p (expired_row now) (λ r. refl) i db.reservations)
]

pub run_expiry-Allowed :
    (x : Expiry) (now : ℕ) (db : Database) → Allowed db → Allowed (run_expiry x now db)
unfolding expire_rows
run_expiry-Allowed x now db (d, h) = elim (run_expiry-cases x now db) [
  | inl same ↦ rw same (d, h)
  | inr (p, _, same) ↦ rw same (
    rw (distinct_ids-update_where p (expired_row now) (λ r. refl) db.reservations) d,
    update_where-exclusive p (expired_row now) (expired_row-Frees now) db.reservations h,
  )
]

any-either :
    (q t : Reservation → Bool) (rs : List Reservation)
    → any q rs ≡ false
    → any t rs ≡ false
    → any (λ r. q r || t r) rs ≡ false
any-either q t [] h k = refl
any-either q t (r ∷ rs) h k = ground (arith, any-either q t rs)

pub checked_free :
    (r : Reservation) (rows : List Reservation)
    → check_constraints r rows ≡ ok tt
    → any (collide r) rows ≡ false
checked_free r rows h =
    any-either (holds_overlap r) (holds_share_session r) rows
      (elim (Bool-cases (any (holds_overlap r) rows)) [ inl y ↦ absurd (ground arith) | inr n ↦ n ])
      (elim (Bool-cases (any (holds_share_session r) rows)) [
        | inl y ↦ absurd (ground arith)
        | inr n ↦ n
      ])

pub distinct_ids-append_one :
    (rs : List Reservation) (r : Reservation)
    → distinct_ids rs ≡ true
    → any (has_id r.id) rs ≡ false
    → distinct_ids (rs ++ (r ∷ [])) ≡ true
distinct_ids-append_one [] r d h = refl
distinct_ids-append_one (x ∷ xs) r d h =
    ground (arith, any_append_one (has_id x.id) xs r, distinct_ids-append_one xs r)
