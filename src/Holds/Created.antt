-- ===== src/Holds/Created.antt =====
-- What an attempt to create a hold did: it expired holds, and then it added the new one or nothing.
use rent_a_car_v.Base.{
  ℕ, ◌≡◌, ◌⊎◌, inl, inr, Bool, true, false, ◌||◌, Option, some, none, List, [], ◌∷◌, ◌++◌, any,
  ◌==◌, arith, Bool-cases, Option-cases, Result-cases, ok,
}
use rent_a_car_v.Database.{Database, Reservation}
use rent_a_car_v.StatusChange.Inversion.{has_id}
use rent_a_car_v.Holds.{run_expiry, of_car, of_session}
use rent_a_car_v.Finalization.{find_active_by_session_id}
use rent_a_car_v.Holds.Create.{created}
use rent_a_car_v.Holds.Create.{
  HoldRequest, HoldError, invalid_car, invalid_session, invalid_range, hold_overlap_violation,
  session_hold_violation, find_overlapping_hold, car_has_open_physical_rental,
  find_booked_date_overlap, CreateResult, check_constraints, new_hold, create_pending_reservation,
  after_violation, insert_hold, check_range, check_session,
  create_pending_reservation_with_availability_check,
}
use rent_a_car_v.Holds.Exclusive.{collide, append_one-exclusive}
use rent_a_car_v.Holds.Allowed.{
  Allowed, checked_free, run_expiry-Allowed, run_expiry-ids, distinct_ids-append_one,
}

abbrev pub is_created : CreateResult → Bool
is_created (created r) = true
is_created _ = false

module _ (id : ℕ) (exclude : Option ℕ) (h : HoldRequest) where
  abbrev pub Attempted : Database → CreateResult → Database → Type 0
  Attempted db result db' =
      ((db' ≡ db) × (is_created result ≡ false))
      ⊎ ((result ≡ created (new_hold id h))
          × (any (collide (new_hold id h)) db.reservations ≡ false)
          × (db' ≡ record db { reservations = db.reservations ++ (new_hold id h ∷ []) }))

  created_rows :
      (rows rows' : List Reservation)
      → create_pending_reservation id h rows ≡ ok rows'
      → (any (collide (new_hold id h)) rows ≡ false) × (rows' ≡ rows ++ (new_hold id h ∷ []))
  unfolding create_pending_reservation
  created_rows rows rows' e = elim (Result-cases (check_constraints (new_hold id h) rows)) [
    | inr (x, c) ↦ absurd (ground arith)
    | inl (u, c) ↦ (checked_free (new_hold id h) rows c, ground arith)
  ]

  violation-Attempted :
      (x : HoldError) (db db' : Database) (result : CreateResult)
      → after_violation exclude h db x ≡ ok (result, db')
      → (db' ≡ db) × (is_created result ≡ false)
  unfolding after_violation
  violation-Attempted hold_overlap_violation db db' result e = (ground arith, ground arith)
  violation-Attempted session_hold_violation db db' result e =
      elim (Option-cases (find_active_by_session_id h.session_id h.read_again_at db)) [
        | inl n ↦ (ground arith, ground arith)
        | inr (r, n) ↦ (ground arith, ground arith)
      ]
  violation-Attempted invalid_car db db' result e = absurd (ground arith)
  violation-Attempted invalid_session db db' result e = absurd (ground arith)
  violation-Attempted invalid_range db db' result e = absurd (ground arith)

  insert-Attempted :
      (db db' : Database) (result : CreateResult)
      → insert_hold id exclude h db ≡ ok (result, db')
      → Attempted db result db'
  unfolding insert_hold
  insert-Attempted db db' result e =
      elim (Result-cases (create_pending_reservation id h db.reservations)) [
        | inr (x, c) ↦ inl (violation-Attempted x db db' result (ground arith))
        | inl (rows, c) ↦
            let (free, same) = created_rows db.reservations rows c in
            let there : db' ≡ record db { reservations = rows } = ground arith in
            inr (ground arith, free, rw same at there)
      ]

  range-Attempted :
      (db db' : Database) (result : CreateResult)
      → check_range id exclude h db ≡ ok (result, db')
      → Attempted db result db'
  unfolding check_range
  range-Attempted db db' result e = elim (Option-cases (find_overlapping_hold exclude none h db)) [
    | inr (r, n) ↦ inl (ground arith, ground arith)
    | inl n ↦
        elim (Bool-cases (
          car_has_open_physical_rental h.car_id db
          || find_booked_date_overlap h.car_id h.start_date h.end_date db)) [
            | inl y ↦ inl (ground arith, ground arith)
            | inr m ↦ insert-Attempted db db' result (ground arith)
          ]
  ]

  -- The attempt proper starts from tables in which holds are expired: those of the session, or also
  -- those of the car.
  pub create_inversion :
      (db db' : Database) (result : CreateResult)
      → create_pending_reservation_with_availability_check id exclude h db ≡ ok (result, db')
      → let db1 = run_expiry (of_session (some h.session_id)) h.now db in
        Attempted db1 result db' ⊎ Attempted (run_expiry (of_car h.car_id) h.now db1) result db'
  unfolding create_pending_reservation_with_availability_check check_session run_expiry
  create_inversion db db' result e =
      let db1 = run_expiry (of_session (some h.session_id)) h.now db in
      elim (Bool-cases ((h.car_id == 0) || (h.session_id == 0))) [
        | inl y ↦ absurd (ground arith)
        | inr n ↦ elim (Option-cases (find_active_by_session_id h.session_id h.looked_up_at db1)) [
          | inr (r, a) ↦ inl (inl (ground arith, ground arith))
          | inl a ↦
              inr
                (range-Attempted (run_expiry (of_car h.car_id) h.now db1) db' result (ground arith))
        ]
      ]

  pub Attempted-Allowed :
      (db db' : Database) (result : CreateResult)
      → Allowed db
      → any (has_id id) db.reservations ≡ false
      → Attempted db result db'
      → Allowed db'
  Attempted-Allowed db db' result a fresh (inl (same, _)) = rw same a
  Attempted-Allowed db db' result (d, k) fresh (inr (_, free, same)) = rw same (
    distinct_ids-append_one db.reservations (new_hold id h) d fresh,
    append_one-exclusive db.reservations (new_hold id h) k free,
  )

  pub create-Allowed :
      (db db' : Database) (result : CreateResult)
      → Allowed db
      → any (has_id id) db.reservations ≡ false
      → create_pending_reservation_with_availability_check id exclude h db ≡ ok (result, db')
      → Allowed db'
  create-Allowed db db' result a fresh e =
      let x = of_session (some h.session_id) in
      let y = of_car h.car_id in
      let db1 = run_expiry x h.now db in
      let a1 = run_expiry-Allowed x h.now db a in
      let fresh1 : any (has_id id) db1.reservations ≡ false =
        rw (run_expiry-ids x h.now id db) fresh in
      elim (create_inversion db db' result e) [
        | inl t ↦ Attempted-Allowed db1 db' result a1 fresh1 t
        | inr t ↦
            Attempted-Allowed (run_expiry y h.now db1) db' result
              (run_expiry-Allowed y h.now db1 a1) (rw (run_expiry-ids y h.now id db1) fresh1) t
      ]
