-- ===== src/Holds/Attempt.antt =====
-- What an attempt to create a hold gives can be read off the tables as they were.
use rent_a_car_v.Base.{
  ℕ, ◌≡◌, ◌≢◌, ◌≤◌, ◌∙◌, refl, inl, inr, Bool, true, false, some, none, List, [], ◌∷◌, ◌++◌, any,
  arith, Bool-cases, Option-cases, ok, err,
}
use rent_a_car_v.Lifecycle.{is_hold_status}
use rent_a_car_v.Database.{Database, Reservation}
use rent_a_car_v.Finalization.{find_active_by_session_id, find_last}
use rent_a_car_v.Holds.{expire_stale_holds_for_car, expire_stale_holds_for_session}
use rent_a_car_v.Holds.Create.{
  HoldRequest, CreateResult, created, existing_active, overlapping, booked_overlap, new_hold,
  session_hold_violation, holds_overlap, after_violation, holds_range, create_pending_reservation,
  find_overlapping_hold, insert_hold, check_range, check_session,
  create_pending_reservation_with_availability_check,
}
use rent_a_car_v.Holds.Outcome.{
  active_of, find_last-none, find-none, active_kept, lapses, lapsed_shares, still_none, no_overlap,
  no_session,
}
use rent_a_car_v.Holds.Cleaned.{
  of_session_stale, without_session, cleaned, is_booked, stale_of_session, cleaned_active,
  cleaned_overlapping, cleaned_open, cleaned_booked, cleaned_lapsed, cleaned_stale,
}

-- What a result says of the tables before the attempt, and of those after it.
abbrev pub Tells : ℕ → HoldRequest → Database → CreateResult → Database → Type 0
Tells id h db (existing_active r) db' =
    find_active_by_session_id h.session_id h.looked_up_at db ≡ some r
Tells id h db (overlapping (some r)) db' =
    (find_active_by_session_id h.session_id h.looked_up_at db ≡ none)
    × (find_overlapping_hold none none h db ≡ some r)
Tells id h db (overlapping none) db' =
    (find_active_by_session_id h.session_id h.looked_up_at db ≡ none)
    × (find_overlapping_hold none none h db ≡ none)
    × (is_booked h db ≡ false)
    × (any (lapses h) db.reservations ≡ true)
Tells id h db booked_overlap db' =
    (find_active_by_session_id h.session_id h.looked_up_at db ≡ none)
    × (find_overlapping_hold none none h db ≡ none)
    × (is_booked h db ≡ true)
Tells id h db (created r) db' =
    (find_active_by_session_id h.session_id h.looked_up_at db ≡ none)
    × (find_overlapping_hold none none h db ≡ none)
    × (is_booked h db ≡ false)
    × (any (lapses h) db.reservations ≡ false)
    × (r ≡ new_hold id h)
    × (find_active_by_session_id h.session_id h.written_at db' ≡ some r)

module _ (h : HoldRequest) where
  module _ (id : ℕ) (db : Database) (ne : h.car_id ≢ 0) (range : h.start_date ≤ h.end_date)
      (forth : h.now ≤ h.looked_up_at)
      (a : find_active_by_session_id h.session_id h.looked_up_at db ≡ none)
      (o : find_overlapping_hold none none h db ≡ none) where
    no_hold_overlaps : any (holds_overlap (new_hold id h)) (cleaned h db).reservations ≡ false
    unfolding find_overlapping_hold
    no_hold_overlaps =
        let rows = (cleaned h db).reservations in
        let (car_stale, _) = cleaned_stale h db in
        let free =
          find-none (holds_range none none h) rows (ground (arith, cleaned_overlapping h db)) in
        no_overlap h id rows ne car_stale free

    fits :
        any (lapses h) db.reservations ≡ false
        → create_pending_reservation id h (cleaned h db).reservations
          ≡ ok ((cleaned h db).reservations ++ (new_hold id h ∷ []))
    unfolding create_pending_reservation find_active_by_session_id
    fits l =
        let rows = (cleaned h db).reservations in
        let (_, session_stale) = cleaned_stale h db in
        let active =
          find_last-none (active_of h.session_id h.looked_up_at) rows
            (cleaned_active h db forth ∙ a) in
        ground (
          arith,
          no_hold_overlaps,
          no_session h id rows session_stale (cleaned_lapsed h db ∙ l) active,
        )

    collides :
        any (lapses h) db.reservations ≡ true
        → create_pending_reservation id h (cleaned h db).reservations ≡ err session_hold_violation
    unfolding create_pending_reservation
    collides l = ground (
      arith,
      no_hold_overlaps,
      lapsed_shares h id (cleaned h db).reservations (cleaned_lapsed h db ∙ l),
    )

    not_found_again :
        h.looked_up_at ≤ h.read_again_at
        → find_active_by_session_id h.session_id h.read_again_at (cleaned h db) ≡ none
    unfolding find_active_by_session_id
    not_found_again later =
        still_none h.session_id h.looked_up_at h.read_again_at (cleaned h db).reservations later
          (cleaned_active h db forth ∙ a)

find_last-append_one :
    (p : Reservation → Bool) (rs : List Reservation) (r : Reservation)
    → p r ≡ true
    → find_last p (rs ++ (r ∷ [])) ≡ some r
find_last-append_one p [] r h = ground arith
find_last-append_one p (x ∷ xs) r h = ground (arith, find_last-append_one p xs r)

new_hold_active :
    (id : ℕ) (h : HoldRequest) (db : Database) (rows : List Reservation)
    → db.reservations ≡ rows ++ (new_hold id h ∷ [])
    → find_active_by_session_id h.session_id h.written_at db ≡ some (new_hold id h)
unfolding find_active_by_session_id is_hold_status
new_hold_active id h db rows e =
    rw e (
      find_last-append_one (active_of h.session_id h.written_at) rows (new_hold id h)
        (ground arith))

module _ (id : ℕ) (h : HoldRequest) (db : Database) (ne : h.car_id ≢ 0)
    (range : h.start_date ≤ h.end_date) (forth : h.now ≤ h.looked_up_at)
    (later : h.looked_up_at ≤ h.read_again_at) where
  after_checks :
      find_active_by_session_id h.session_id h.looked_up_at db ≡ none
      → find_overlapping_hold none none h db ≡ none
      → is_booked h db ≡ false
      → (result : CreateResult) × (db' : Database) × (insert_hold id none h (cleaned h db)
          ≡ ok (result, db'))
        × Tells id h db result db'
  unfolding insert_hold after_violation
  after_checks a o b = elim (Bool-cases (any (lapses h) db.reservations)) [
    | inl l ↦ (
      overlapping none,
      cleaned h db,
      ground (
        arith,
        collides h id db ne range forth a o l,
        not_found_again h id db ne range forth a o later,
        cleaned_overlapping h db,
      ),
      (a, o, b, l),
    )
    | inr l ↦ (
      created (new_hold id h),
      record (cleaned h db) { reservations = (cleaned h db).reservations ++ (new_hold id h ∷ []) },
      ground (arith, fits h id db ne range forth a o l),
      (a, o, b, l, refl, new_hold_active id h _ (cleaned h db).reservations refl),
    )
  ]

  after_session :
      (result : CreateResult) × (db' : Database) × (check_session id none h (without_session h db)
        ≡ ok (result, db'))
      × Tells id h db result db'
  unfolding check_session check_range expire_stale_holds_for_car
  after_session =
      let active =
        active_kept (of_session_stale h) h.now (stale_of_session h) db h.session_id h.looked_up_at
          forth in
      elim (Option-cases (find_active_by_session_id h.session_id h.looked_up_at db)) [
        | inr (r, a) ↦ (existing_active r, without_session h db, ground (arith, active), a)
        | inl a ↦ elim (Option-cases (find_overlapping_hold none none h db)) [
          | inr (r, o) ↦ (
            overlapping (some r),
            cleaned h db,
            ground (arith, active, cleaned_overlapping h db),
            (a, o),
          )
          | inl o ↦ elim (Bool-cases (is_booked h db)) [
            | inl b ↦ (
              booked_overlap,
              cleaned h db,
              ground
                  (arith, active, cleaned_overlapping h db, cleaned_open h db, cleaned_booked h db),
              (a, o, b),
            )
            | inr b ↦
                let (result, db', e, tells) = after_checks a o b in
                (
                  result,
                  db',
                  ground (
                    arith,
                    active,
                    cleaned_overlapping h db,
                    cleaned_open h db,
                    cleaned_booked h db,
                  ),
                  tells,
                )
          ]
        ]
      ]

-- An attempt to create a hold, for a car, a session and a range that does not end before it starts,
-- without an excluded session, always gives a result where the clock does not go back between its
-- readings. By the tables before the attempt: the result is the hold of the session that is not over
-- when it is looked up, if there is one; else a hold of the car that is not over at the start of the
-- attempt and overlaps the range, if there is one; else an overlap with a booking, exactly if the car is
-- out or a block overlaps the range; else an overlap with no hold, exactly if a hold of the session ended
-- between the start of the attempt and the lookup; else the new hold, which is the active hold of the
-- session when it is written.
pub attempt_outcome :
    (id : ℕ) (h : HoldRequest) (db : Database)
    → h.car_id ≢ 0
    → h.session_id ≢ 0
    → h.start_date ≤ h.end_date
    → h.now ≤ h.looked_up_at
    → h.looked_up_at ≤ h.read_again_at
    → (result : CreateResult) × (db' : Database)
      × (create_pending_reservation_with_availability_check id none h db ≡ ok (result, db'))
      × Tells id h db result db'
unfolding create_pending_reservation_with_availability_check expire_stale_holds_for_session
attempt_outcome id h db ne session range forth later =
    let (result, db', e, tells) = after_session id h db ne range forth later in
    (result, db', ground arith, tells)
