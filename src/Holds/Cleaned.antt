-- ===== src/Holds/Cleaned.antt =====
-- The tables once the stale holds of a session and of a car are expired: what a read of them finds.
use rent_a_car_v.Base.{
  ◌≡◌, ◌≤◌, ◌∙◌, refl, Bool, false, not, ◌&&◌, ◌||◌, none, List, [], ◌∷◌, any, update_where, ◌==◌,
  arith,
}
use rent_a_car_v.Lifecycle.{is_hold_status}
use rent_a_car_v.Database.{Database, Reservation}
use rent_a_car_v.Finalization.{find_active_by_session_id}
use rent_a_car_v.Holds.{stale, expired_row, expire_rows}
use rent_a_car_v.Holds.Gone.{stale_of}
use rent_a_car_v.Holds.Create.{
  HoldRequest, find_overlapping_hold, car_has_open_physical_rental, find_booked_date_overlap,
}
use rent_a_car_v.Holds.Outcome.{
  any_left, active_kept, lapses, lapsed_kept, overlapping_kept, open_kept, booked_kept,
}

abbrev pub of_session_stale : HoldRequest → Reservation → Bool
of_session_stale h r = r.session_id == h.session_id && stale h.now r

-- The tables once the stale holds of the session, and then those of the car, are expired.
abbrev pub without_session : HoldRequest → Database → Database
without_session h db = expire_rows (of_session_stale h) h.now db

abbrev pub cleaned : HoldRequest → Database → Database
cleaned h db = expire_rows (stale_of h.car_id h.now) h.now (without_session h db)

abbrev pub is_booked : HoldRequest → Database → Bool
is_booked h db =
    car_has_open_physical_rental h.car_id db
    || find_booked_date_overlap h.car_id h.start_date h.end_date db

module _ (h : HoldRequest) where
  pub stale_of_session : (r : Reservation) → of_session_stale h r && not (stale h.now r) ≡ false
  stale_of_session r = ground arith

  pub stale_of_car : (r : Reservation) → stale_of h.car_id h.now r && not (stale h.now r) ≡ false
  stale_of_car r = ground arith

  pub cleaned_active :
      (db : Database)
      → h.now ≤ h.looked_up_at
      → find_active_by_session_id h.session_id h.looked_up_at (cleaned h db)
        ≡ find_active_by_session_id h.session_id h.looked_up_at db
  cleaned_active db le =
      active_kept (stale_of h.car_id h.now) h.now stale_of_car (without_session h db) h.session_id
        h.looked_up_at le
      ∙ active_kept (of_session_stale h) h.now stale_of_session db h.session_id h.looked_up_at le

  pub cleaned_lapsed :
      (db : Database) → any (lapses h) (cleaned h db).reservations ≡ any (lapses h) db.reservations
  cleaned_lapsed db =
      lapsed_kept (stale_of h.car_id h.now) h.now stale_of_car (without_session h db) h refl
      ∙ lapsed_kept (of_session_stale h) h.now stale_of_session db h refl

  pub cleaned_overlapping :
      (db : Database)
      → find_overlapping_hold none none h (cleaned h db) ≡ find_overlapping_hold none none h db
  cleaned_overlapping db =
      overlapping_kept (stale_of h.car_id h.now) h.now stale_of_car (without_session h db) h refl
      ∙ overlapping_kept (of_session_stale h) h.now stale_of_session db h refl

  pub cleaned_open :
      (db : Database)
      → car_has_open_physical_rental h.car_id (cleaned h db)
        ≡ car_has_open_physical_rental h.car_id db
  cleaned_open db =
      open_kept (stale_of h.car_id h.now) h.now stale_of_car (without_session h db) h.car_id
      ∙ open_kept (of_session_stale h) h.now stale_of_session db h.car_id

  pub cleaned_booked :
      (db : Database)
      → find_booked_date_overlap h.car_id h.start_date h.end_date (cleaned h db)
        ≡ find_booked_date_overlap h.car_id h.start_date h.end_date db
  cleaned_booked db =
      booked_kept (stale_of h.car_id h.now) h.now stale_of_car (without_session h db) h.car_id
        h.start_date h.end_date
      ∙ booked_kept (of_session_stale h) h.now stale_of_session db h.car_id h.start_date h.end_date

  no_more_stale :
      (p : Reservation → Bool) (rs : List Reservation)
      → any (of_session_stale h) rs ≡ false
      → any (of_session_stale h) (update_where p (expired_row h.now) rs) ≡ false
  unfolding is_hold_status
  no_more_stale p [] e = e
  no_more_stale p (r ∷ rs) e = ground (arith, no_more_stale p rs)

  pub cleaned_stale :
      (db : Database)
      → (any (stale_of h.car_id h.now) (cleaned h db).reservations ≡ false)
        × (any (of_session_stale h) (cleaned h db).reservations ≡ false)
  unfolding expire_rows is_hold_status
  cleaned_stale db =
      let rows = update_where (of_session_stale h) (expired_row h.now) db.reservations in
      (
        any_left (stale_of h.car_id h.now) h.now rows (λ r. ground arith),
        no_more_stale (stale_of h.car_id h.now) rows
            (any_left (of_session_stale h) h.now db.reservations (λ r. ground arith)),
      )
