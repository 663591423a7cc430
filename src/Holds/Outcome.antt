-- ===== src/Holds/Outcome.antt =====
-- What an attempt to create a hold gives, on every branch.
use rent_a_car_v.Base.{
  ℕ, ◌≡◌, ◌≢◌, refl, inl, inr, Bool, true, false, ◌≤◌, leb, not, ◌&&◌, none, List, [], ◌∷◌, any,
  find, update_where, ltb, ◌==◌, arith, Bool-cases, Option-cases,
}
use rent_a_car_v.Lifecycle.{is_hold_status}
use rent_a_car_v.Database.{Database, Reservation}
use rent_a_car_v.Bookings.Ranges.{open_physical}
use rent_a_car_v.Finalization.{find_active_by_session_id, find_last}
use rent_a_car_v.Holds.{stale, expired_row, expire_rows}
use rent_a_car_v.Holds.Gone.{stale_of}
use rent_a_car_v.Holds.Create.{
  HoldRequest, holds_overlap, holds_share_session, new_hold, holds_range, find_overlapping_hold,
  car_has_open_physical_rental, find_booked_date_overlap,
}

-- The session's holds that are not over.
abbrev pub active_of : ℕ → ℕ → Reservation → Bool
active_of session_id now r =
    r.session_id == session_id && (is_hold_status r.status && ltb now r.hold_expires_at)

-- A hold of the session that is not over at `now`, and is when the session's hold is looked up.
abbrev pub lapses : HoldRequest → Reservation → Bool
lapses h r =
    r.session_id == h.session_id
    && (is_hold_status r.status
        && (ltb h.now r.hold_expires_at && leb r.hold_expires_at h.looked_up_at))

pub find_last-none :
    (p : Reservation → Bool) (rs : List Reservation) → find_last p rs ≡ none → any p rs ≡ false
find_last-none p [] h = refl
find_last-none p (r ∷ rs) h = elim (Option-cases (find_last p rs)) [
  | inr (x, e) ↦ absurd (ground arith)
  | inl e ↦ ground (arith, find_last-none p rs e)
]

pub find-none :
    (p : Reservation → Bool) (rs : List Reservation) → find p rs ≡ none → any p rs ≡ false
find-none p [] h = refl
find-none p (r ∷ rs) h = ground (arith, find-none p rs)

-- What an expiry of the rows that `p` selects does to a test that no expired row and no selected row
-- passes.
module _ (p : Reservation → Bool) (now : ℕ) where
  pub any_left :
      (rs : List Reservation)
      → ((r : Reservation) → p (expired_row now r) ≡ false)
      → any p (update_where p (expired_row now) rs) ≡ false
  any_left [] e = refl
  any_left (r ∷ rs) e = elim (Bool-cases (p r)) [
    | inl y ↦ rw y (ground (arith, e r, any_left rs e))
    | inr n ↦ rw n (ground (arith, any_left rs e))
  ]

  module _ (q : Reservation → Bool) (gone : (r : Reservation) → q (expired_row now r) ≡ false)
      (apart : (r : Reservation) → p r && q r ≡ false) where
    find_kept : (rs : List Reservation) → find q (update_where p (expired_row now) rs) ≡ find q rs
    find_kept [] = refl
    find_kept (r ∷ rs) = ground (arith, gone r, apart r, find_kept rs)

    find_last_kept :
        (rs : List Reservation) → find_last q (update_where p (expired_row now) rs) ≡ find_last q rs
    find_last_kept [] = refl
    find_last_kept (r ∷ rs) = ground (arith, gone r, apart r, find_last_kept rs)

    any_kept : (rs : List Reservation) → any q (update_where p (expired_row now) rs) ≡ any q rs
    any_kept [] = refl
    any_kept (r ∷ rs) = ground (arith, gone r, apart r, any_kept rs)

-- Expired rows are stale: what is read of the live holds, of the open rentals and of the calendar stays.
module _ (p : Reservation → Bool) (now : ℕ)
    (old : (r : Reservation) → p r && not (stale now r) ≡ false) (db : Database) where
  pub active_kept :
      (session_id later : ℕ)
      → now ≤ later
      → find_active_by_session_id session_id later (expire_rows p now db)
        ≡ find_active_by_session_id session_id later db
  unfolding find_active_by_session_id expire_rows is_hold_status
  active_kept session_id later le =
      find_last_kept p now (active_of session_id later) (λ r. ground arith)
        (λ r. ground (arith, old r)) db.reservations

  pub lapsed_kept :
      (h : HoldRequest)
      → h.now ≡ now
      → any (lapses h) (expire_rows p now db).reservations ≡ any (lapses h) db.reservations
  unfolding expire_rows is_hold_status
  lapsed_kept h e =
      any_kept p now (lapses h) (λ r. ground arith) (λ r. ground (arith, old r)) db.reservations

  pub overlapping_kept :
      (h : HoldRequest)
      → h.now ≡ now
      → find_overlapping_hold none none h (expire_rows p now db)
        ≡ find_overlapping_hold none none h db
  unfolding find_overlapping_hold expire_rows is_hold_status
  overlapping_kept h e = elim (Bool-cases (h.car_id == 0)) [
    | inl y ↦ rw y refl
    | inr n ↦ rw n (
        find_kept p now (holds_range none none h) (λ r. ground arith) (λ r. ground (arith, old r))
          db.reservations)
  ]

  pub open_kept :
      (car_id : ℕ)
      → car_has_open_physical_rental car_id (expire_rows p now db)
        ≡ car_has_open_physical_rental car_id db
  unfolding car_has_open_physical_rental expire_rows is_hold_status
  open_kept car_id =
      any_kept p now (λ (r : Reservation). r.car_id == car_id && open_physical r.status)
        (λ r. ground arith) (λ r. ground (arith, old r)) db.reservations

  pub booked_kept :
      (car_id start end : ℕ)
      → find_booked_date_overlap car_id start end (expire_rows p now db)
        ≡ find_booked_date_overlap car_id start end db
  unfolding find_booked_date_overlap expire_rows
  booked_kept car_id start end = refl

-- No hold of the session, and no stale one of the car.
pub no_overlap :
    (h : HoldRequest) (id : ℕ) (rs : List Reservation)
    → h.car_id ≢ 0
    → any (stale_of h.car_id h.now) rs ≡ false
    → any (holds_range none none h) rs ≡ false
    → any (holds_overlap (new_hold id h)) rs ≡ false
no_overlap h id [] ne s k = refl
no_overlap h id (r ∷ rs) ne s k = ground (arith, no_overlap h id rs ne)

pub no_session :
    (h : HoldRequest) (id : ℕ) (rs : List Reservation)
    → any (λ r. r.session_id == h.session_id && stale h.now r) rs ≡ false
    → any (lapses h) rs ≡ false
    → any (active_of h.session_id h.looked_up_at) rs ≡ false
    → any (holds_share_session (new_hold id h)) rs ≡ false
no_session h id [] s l k = refl
no_session h id (r ∷ rs) s l k = ground (arith, no_session h id rs)

pub lapsed_shares :
    (h : HoldRequest) (id : ℕ) (rs : List Reservation)
    → any (lapses h) rs ≡ true
    → any (holds_share_session (new_hold id h)) rs ≡ true
unfolding is_hold_status
lapsed_shares h id [] l = absurd (ground arith)
lapsed_shares h id (r ∷ rs) l = ground (arith, lapsed_shares h id rs)

-- What is not found at one moment is not found later.
pub still_none :
    (session_id now later : ℕ) (rs : List Reservation)
    → now ≤ later
    → find_last (active_of session_id now) rs ≡ none
    → find_last (active_of session_id later) rs ≡ none
still_none session_id now later [] le h = refl
still_none session_id now later (r ∷ rs) le h =
    elim (Option-cases (find_last (active_of session_id now) rs)) [
      | inr (x, e) ↦ absurd (ground arith)
      | inl e ↦ ground (arith, still_none session_id now later rs le e)
    ]
