-- ===== src/Holds/Moves.antt =====
-- What the constraints allow is kept where a hold is moved.
use rent_a_car_v.Base.{
  ℕ, ◌≡◌, refl, inl, inr, ◌&&◌, ◌||◌, Option, some, none, List, find, update_where, ◌==◌, arith,
  Bool-cases, Option-cases, Result-cases, ok, err, Result,
}
use rent_a_car_v.Lifecycle.{same, processing_payment, pending_payment}
use rent_a_car_v.Database.{Database, Reservation, find_by_id_for_update}
use rent_a_car_v.Finalization.{find_active_by_session_id}
use rent_a_car_v.Holds.{run_expiry, of_car, of_session}
use rent_a_car_v.Holds.Recorded.{distinct_ids-update_where}
use rent_a_car_v.Holds.Create.{
  HoldRequest, HoldError, invalid_car, invalid_session, invalid_range, hold_overlap_violation,
  session_hold_violation, check_constraints, find_overlapping_hold, car_has_open_physical_rental,
  find_booked_date_overlap,
}
use rent_a_car_v.Holds.Rehold.{
  ReholdResult, moved, is_pending_row, others, update_hold_for_rehold, after_update, move_hold,
  rehold_locked, rehold_peeked, rehold_pending_reservation_with_availability_check,
}
use rent_a_car_v.Holds.Replace.{replace-exclusive}
use rent_a_car_v.Holds.Allowed.{Allowed, checked_free, run_expiry-Allowed}

module _ (h : HoldRequest) where
  update-Allowed :
      (id : ℕ) (db : Database) (r : Option Reservation) (rows : List Reservation)
      → Allowed db
      → update_hold_for_rehold id h db.reservations ≡ ok (r, rows)
      → Allowed (record db { reservations = rows })
  unfolding update_hold_for_rehold
  update-Allowed id db r rows (d, k) e =
      elim (Option-cases (find (is_pending_row id) db.reservations)) [
        | inl n ↦ let same : rows ≡ db.reservations = ground arith in rw same (d, k)
        | inr (x, n) ↦
            elim (Result-cases (check_constraints (moved h x) (others id db.reservations))) [
              | inr (y, c) ↦ absurd (ground arith)
              | inl (u, c) ↦
                  let same : rows ≡ update_where (is_pending_row id) (moved h) db.reservations =
                    ground arith in
                  rw same (
                    rw
                        (distinct_ids-update_where (is_pending_row id) (moved h) (λ s. refl)
                          db.reservations)
                        d,
                    replace-exclusive (is_pending_row id) id (λ s. ground arith) (moved h)
                        db.reservations x d n
                        (checked_free (moved h x) (others id db.reservations) c) k,
                  )
            ]
      ]

  after_update-Allowed :
      (id : ℕ) (db db' : Database) (result : ReholdResult)
      (x : Result HoldError (Option Reservation × List Reservation))
      → Allowed db
      → update_hold_for_rehold id h db.reservations ≡ x
      → after_update id db x ≡ ok (result, db')
      → Allowed db'
  after_update-Allowed id db db' result (ok (some r, rows)) a u e =
      let there : db'.reservations ≡ rows = ground arith in
      rw there (update-Allowed id db (some r) rows a u)
  after_update-Allowed id db db' result (ok (none, rows)) a u e =
      let there : db' ≡ db = ground arith in rw there a
  after_update-Allowed id db db' result (err hold_overlap_violation) a u e =
      let there : db' ≡ db = ground arith in rw there a
  after_update-Allowed id db db' result (err session_hold_violation) a u e =
      let there : db' ≡ db = ground arith in rw there a
  after_update-Allowed id db db' result (err invalid_car) a u e = absurd (ground arith)
  after_update-Allowed id db db' result (err invalid_session) a u e = absurd (ground arith)
  after_update-Allowed id db db' result (err invalid_range) a u e = absurd (ground arith)

  move_hold-Allowed :
      (locked : Reservation) (db db' : Database) (result : ReholdResult)
      → Allowed db
      → move_hold h locked db ≡ ok (result, db')
      → Allowed db'
  unfolding move_hold
  move_hold-Allowed locked db db' result a e =
      elim (Option-cases (find_overlapping_hold none (some locked.id) h db)) [
        | inr (r, n) ↦ let there : db' ≡ db = ground arith in rw there a
        | inl n ↦
            elim (Bool-cases (
              car_has_open_physical_rental h.car_id db
              || find_booked_date_overlap h.car_id h.start_date h.end_date db)) [
                | inl y ↦ let there : db' ≡ db = ground arith in rw there a
                | inr m ↦
                    after_update-Allowed locked.id db db' result
                      (update_hold_for_rehold locked.id h db.reservations) a refl (ground arith)
              ]
      ]

  rehold_locked-Allowed :
      (locked : Option Reservation) (db db' : Database) (result : ReholdResult)
      → Allowed db
      → rehold_locked h locked db ≡ ok (result, db')
      → Allowed db'
  unfolding rehold_locked run_expiry
  rehold_locked-Allowed none db db' result a e = let there : db' ≡ db = ground arith in rw there a
  rehold_locked-Allowed (some r) db db' result a e =
      let first = run_expiry (of_car r.car_id) h.now db in
      let second = run_expiry (of_car h.car_id) h.now first in
      elim (Bool-cases (r.session_id == h.session_id && same r.status pending_payment)) [
        | inr n ↦ let there : db' ≡ db = ground arith in rw there a
        | inl y ↦
            move_hold-Allowed r second db' result
              (run_expiry-Allowed (of_car h.car_id) h.now first
                (run_expiry-Allowed (of_car r.car_id) h.now db a))
              (ground arith)
      ]

  rehold_peeked-Allowed :
      (peeked : Option Reservation) (db db' : Database) (result : ReholdResult)
      → Allowed db
      → rehold_peeked h peeked db ≡ ok (result, db')
      → Allowed db'
  unfolding rehold_peeked run_expiry
  rehold_peeked-Allowed none db db' result a e =
      let x = of_session (some h.session_id) in
      let there : db' ≡ run_expiry x h.now db = ground arith in
      rw there (run_expiry-Allowed x h.now db a)
  rehold_peeked-Allowed (some r) db db' result a e =
      let x = of_session (some h.session_id) in
      let expired = run_expiry x h.now db in
      elim (Bool-cases (same r.status processing_payment)) [
        | inl y ↦ let there : db' ≡ db = ground arith in rw there a
        | inr n ↦ elim (Bool-cases (same r.status pending_payment)) [
          | inr m ↦
              let there : db' ≡ expired = ground arith in rw there (run_expiry-Allowed x h.now db a)
          | inl y ↦
              rehold_locked-Allowed (find_by_id_for_update r.id expired) expired db' result
                (run_expiry-Allowed x h.now db a) (ground arith)
        ]
      ]

  pub rehold-Allowed :
      (db db' : Database) (result : ReholdResult)
      → Allowed db
      → rehold_pending_reservation_with_availability_check h db ≡ ok (result, db')
      → Allowed db'
  unfolding rehold_pending_reservation_with_availability_check
  rehold-Allowed db db' result a e = elim (Bool-cases ((h.car_id == 0) || (h.session_id == 0))) [
    | inl y ↦ absurd (ground arith)
    | inr n ↦
        rehold_peeked-Allowed (find_active_by_session_id h.session_id h.looked_up_at db) db db'
          result a (ground arith)
  ]
