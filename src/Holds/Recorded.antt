-- ===== src/Holds/Recorded.antt =====
-- Expired holds leave the status history exact.
use rent_a_car_v.Base.{
  ℕ, ◌≡◌, ◌⊎◌, refl, inl, inr, Bool, true, false, not, ◌&&◌, none, some, List, [], ◌∷◌, ◌++◌, find,
  keep, any, map, update_where, All, All-append, ◌==◌, if◌then◌else◌, arith, Bool-cases,
}
use rent_a_car_v.Lifecycle.{
  Status, expired, is_hold_status, can_transition, is_valid_status, same, processing_payment,
}
use rent_a_car_v.Database.{Database, Reservation, HistoryRow}
use rent_a_car_v.StatusChange.Recorded.{has_id, last_status, IsRecorded}
use rent_a_car_v.Holds.{
  expired_row, expiry_history, expire_rows, stale, abandoned, expire_stale_holds_for_car,
  expire_stale_holds_for_session, mark_reservation_expired, mark_abandoned_reservations, Expiry,
  run_expiry, of_car, of_session, of_reservation, of_abandoned,
}

-- The primary key: no two rows have the same id.
abbrev pub distinct_ids : List Reservation → Bool
distinct_ids [] = true
distinct_ids (r ∷ rs) = not (any (has_id r.id) rs) && distinct_ids rs

last_status-append :
    (i : ℕ) (hs ks : List HistoryRow)
    → last_status i (hs ++ ks)
      ≡ (elim (last_status i ks) [ some s ↦ some s | none ↦ last_status i hs ])
last_status-append i [] ks = ground arith
last_status-append i (h ∷ hs) ks = ground (arith, last_status-append i hs ks)

module _ (p : Reservation → Bool) (now : ℕ) where
  last_expiry :
      (i : ℕ) (rs : List Reservation)
      → last_status i (map expiry_history (keep p rs))
        ≡ (if any (λ r. r.id == i && p r) rs then some expired else none)
  last_expiry i [] = refl
  last_expiry i (r ∷ rs) = elim (Bool-cases (p r)) [
    | inl y ↦ rw y (ground (arith, last_expiry i rs))
    | inr n ↦ rw n (ground (arith, last_expiry i rs))
  ]

  no_other :
      (i : ℕ) (rs : List Reservation)
      → any (has_id i) rs ≡ false
      → any (λ r. r.id == i && p r) rs ≡ false
  no_other i [] h = refl
  no_other i (r ∷ rs) h = ground (arith, no_other i rs)

  not_found :
      (i : ℕ) (rs : List Reservation) → find (has_id i) rs ≡ none → any (has_id i) rs ≡ false
  not_found i [] h = refl
  not_found i (r ∷ rs) h = ground (arith, not_found i rs)

  selected_once :
      (i : ℕ) (rs : List Reservation) (r : Reservation)
      → distinct_ids rs ≡ true
      → find (has_id i) rs ≡ some r
      → any (λ s. s.id == i && p s) rs ≡ p r
  selected_once i [] r h f = ground arith
  selected_once i (s ∷ rs) r h f = elim (Bool-cases (s.id == i)) [
    | inl y ↦ ground (arith, no_other i rs)
    | inr n ↦ ground (arith, selected_once i rs r)
  ]

  found_before :
      (i : ℕ) (rs : List Reservation) (s : Reservation)
      → find (has_id i) (update_where p (expired_row now) rs) ≡ some s
      → (r : Reservation) × (find (has_id i) rs ≡ some r)
        × (s ≡ (if p r then expired_row now r else r))
  found_before i [] s f = absurd (ground arith)
  found_before i (r ∷ rs) s f = elim (Bool-cases (r.id == i)) [
    | inl y ↦ (r, ground arith, ground arith)
    | inr n ↦ let (q, g, e) = found_before i rs s (ground arith) in (q, ground arith, e)
  ]

hold_expires : (s : Status) → is_hold_status s ≡ true → can_transition (some s) expired ≡ true
unfolding is_hold_status can_transition
hold_expires s h = ground arith

module _ (p : Reservation → Bool)
    (holds : (r : Reservation) → p r ≡ true → is_hold_status r.status ≡ true) where
  expiries_allowed :
      (rs : List Reservation)
      → All
          (λ (h : HistoryRow). can_transition h.old_status h.new_status ≡ true)
          (map expiry_history (keep p rs))
  expiries_allowed [] = tt
  expiries_allowed (r ∷ rs) = elim (Bool-cases (p r)) [
    | inl y ↦ rw y (hold_expires r.status (holds r y), expiries_allowed rs)
    | inr n ↦ rw n (expiries_allowed rs)
  ]

  expire_rows-IsRecorded :
      (now : ℕ) (db : Database)
      → distinct_ids db.reservations ≡ true
      → IsRecorded db
      → IsRecorded (expire_rows p now db)
  unfolding expire_rows is_valid_status
  expire_rows-IsRecorded now db d rec =
      let before = found_before p now in
      record {
        current = λ i s f.
            let (r, g, e) = before i db.reservations s f in
            rw
              (
                last_status-append i db.history (map expiry_history (keep p db.reservations)),
                last_expiry p now i db.reservations,
                selected_once p now i db.reservations r d g,
              )
              (elim (Bool-cases (p r)) [
                | inl y ↦ let e' : s ≡ expired_row now r = rw y at e in rw (y, e') refl
                | inr n ↦ let e' : s ≡ r = rw n at e in rw (n, e') (rec.current i r g)
              ]);
        known = λ i s f.
            let (r, g, e) = before i db.reservations s f in
            elim (Bool-cases (p r)) [
              | inl y ↦ let e' : s ≡ expired_row now r = rw y at e in rw e' refl
              | inr n ↦ let e' : s ≡ r = rw n at e in rw e' (rec.known i r g)
            ];
        allowed =
            All-append (λ (h : HistoryRow). can_transition h.old_status h.new_status ≡ true)
              db.history (map expiry_history (keep p db.reservations)) rec.allowed
              (expiries_allowed db.reservations);
      }

processing_hold : (s : Status) → same s processing_payment ≡ true → is_hold_status s ≡ true
unfolding is_hold_status
processing_hold s h = ground arith

module _ (p : Reservation → Bool) (f : Reservation → Reservation)
    (same_id : (r : Reservation) → (f r).id ≡ r.id) where
  pub any-has_id :
      (i : ℕ) (rs : List Reservation) → any (has_id i) (update_where p f rs) ≡ any (has_id i) rs
  any-has_id i [] = refl
  any-has_id i (r ∷ rs) = ground (arith, same_id r, any-has_id i rs)

  pub distinct_ids-update_where :
      (rs : List Reservation) → distinct_ids (update_where p f rs) ≡ distinct_ids rs
  distinct_ids-update_where [] = refl
  distinct_ids-update_where (r ∷ rs) =
      ground (arith, same_id r, any-has_id r.id rs, distinct_ids-update_where rs)

-- What an expiry leaves of the tables: they are as they were, or the holds that some test selects
-- are expired.
pub run_expiry-cases :
    (x : Expiry) (now : ℕ) (db : Database)
    → (run_expiry x now db ≡ db)
      ⊎ ((p : Reservation → Bool) × ((r : Reservation)
            → p r ≡ true
            → is_hold_status r.status ≡ true)
          × (run_expiry x now db ≡ expire_rows p now db))
unfolding run_expiry expire_stale_holds_for_car expire_stale_holds_for_session
    mark_reservation_expired mark_abandoned_reservations
run_expiry-cases (of_car car_id) now db = elim (Bool-cases (car_id == 0)) [
  | inl y ↦ inl (ground arith)
  | inr n ↦ inr (λ r. r.car_id == car_id && stale now r, λ r h. ground arith, ground arith)
]
run_expiry-cases (of_session none) now db = inl refl
run_expiry-cases (of_session (some s)) now db =
    inr (λ r. r.session_id == s && stale now r, λ r h. ground arith, refl)
run_expiry-cases (of_reservation i) now db = inr (
  λ r. r.id == i && same r.status processing_payment,
  λ r h. processing_hold r.status (ground arith),
  refl,
)
run_expiry-cases (of_abandoned l) now db = inr (abandoned l now, λ r h. ground arith, refl)

-- Each way to expire holds keeps the ids of the reservations distinct and the history exact: the last
-- history row of each reservation names its status, and each row is a step of the graph.
pub run_expiry-IsRecorded :
    (x : Expiry) (now : ℕ) (db : Database)
    → distinct_ids db.reservations ≡ true
    → IsRecorded db
    → (distinct_ids (run_expiry x now db).reservations ≡ true) × IsRecorded (run_expiry x now db)
unfolding expire_rows
run_expiry-IsRecorded x now db d rec = elim (run_expiry-cases x now db) [
  | inl same ↦ rw same (d, rec)
  | inr (p, holds, same) ↦ rw same (
    rw (distinct_ids-update_where p (expired_row now) (λ r. refl) db.reservations) d,
    expire_rows-IsRecorded p holds now db d rec,
  )
]
