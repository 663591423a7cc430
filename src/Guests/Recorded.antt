-- ===== src/Guests/Recorded.antt =====
-- A hold that a guest makes, with its row in the status history.
use rent_a_car_v.Base.{
  ℕ, ◌≡◌, ◌⊎◌, refl, inl, inr, true, false, Option, some, List, [], ◌∷◌, ◌++◌, any, find, arith,
  Bool-cases, Result-cases, ok, All-append, ◌==◌,
}
use rent_a_car_v.Lifecycle.{can_transition, is_valid_status}
use rent_a_car_v.Database.{Database, Reservation, HistoryRow}
use rent_a_car_v.StatusChange.Recorded.{IsRecorded, has_id, last_status-append}
use rent_a_car_v.Holds.{Expiry, run_expiry, of_car, of_session, expire_rows}
use rent_a_car_v.Holds.Recorded.{run_expiry-cases, run_expiry-IsRecorded}
use rent_a_car_v.Holds.Allowed.{run_expiry-Allowed, run_expiry-ids}
use rent_a_car_v.Holds.Create.{
  HoldRequest, CreateResult, new_hold, created, existing_active, overlapping, booked_overlap,
  create_pending_reservation_with_availability_check,
}
use rent_a_car_v.Holds.Created.{is_created, Attempted, create_inversion, Attempted-Allowed}
use rent_a_car_v.Guests.{recorded, initial_row, record_initial_status, create_pending_reservation}
use rent_a_car_v.Guests.Kept.{Sound}

run_expiry_blocks :
    (x : Expiry) (now : ℕ) (db : Database) → (run_expiry x now db).blocks ≡ db.blocks
unfolding expire_rows
run_expiry_blocks x now db = elim (run_expiry-cases x now db) [
  | inl same ↦ rw same refl
  | inr (p, _, same) ↦ rw same refl
]

run_expiry-Sound : (x : Expiry) (now : ℕ) (db : Database) → Sound db → Sound (run_expiry x now db)
run_expiry-Sound x now db (a, r, f) = (
  run_expiry-Allowed x now db a,
  (run_expiry-IsRecorded x now db a.0 r).1,
  rw (run_expiry_blocks x now db) f,
)

find-append_one :
    (i : ℕ) (rs : List Reservation) (x r : Reservation)
    → any (has_id x.id) rs ≡ false
    → find (has_id i) (rs ++ (x ∷ [])) ≡ some r
    → ((x.id ≡ i) × (r ≡ x)) ⊎ (((x.id == i) ≡ false) × (find (has_id i) rs ≡ some r))
find-append_one i [] x r n e = ground arith
find-append_one i (y ∷ ys) x r n e = elim (Bool-cases (y.id == i)) [
  | inl q ↦ inr (ground arith, ground arith)
  | inr q ↦ elim (find-append_one i ys x r (ground arith) (ground arith)) [
    | inl (same, there) ↦ inl (same, there)
    | inr (other, there) ↦ inr (other, ground arith)
  ]
]

-- The tables with a new hold and its row of the history.
abbrev with_hold : ℕ → Option ℕ → HoldRequest → Database → Database
with_hold id user_id h db = record db {
  reservations = db.reservations ++ (new_hold id h ∷ []);
  history = db.history ++ (initial_row id user_id ∷ []);
}

with_hold-IsRecorded :
    (id : ℕ) (user_id : Option ℕ) (h : HoldRequest) (db : Database)
    → any (has_id id) db.reservations ≡ false
    → IsRecorded db
    → IsRecorded (with_hold id user_id h db)
unfolding can_transition is_valid_status
with_hold-IsRecorded id user_id h db fresh rec = record {
  current = λ i r f. elim (find-append_one i db.reservations (new_hold id h) r fresh f) [
    | inl (same, there) ↦ ground (arith, last_status-append i db.history (initial_row id user_id))
    | inr (other, there) ↦
        ground
          (arith, last_status-append i db.history (initial_row id user_id), rec.current i r there)
  ];
  known = λ i r f. elim (find-append_one i db.reservations (new_hold id h) r fresh f) [
    | inl (same, there) ↦ rw there refl
    | inr (other, there) ↦ rec.known i r there
  ];
  allowed =
      All-append (λ (k : HistoryRow). can_transition k.old_status k.new_status ≡ true) db.history
        (initial_row id user_id ∷ []) rec.allowed (refl, tt);
}

module _ (user_id : Option ℕ) (id : ℕ) (exclude : Option ℕ) (h : HoldRequest) where
  unrecorded :
      (result : CreateResult) (db : Database)
      → is_created result ≡ false
      → recorded user_id (result, db) ≡ (result, db)
  unrecorded (created r) db n = absurd (ground arith)
  unrecorded (existing_active r) db n = refl
  unrecorded (overlapping r) db n = refl
  unrecorded booked_overlap db n = refl

  Attempted-Sound :
      (db db' : Database) (result : CreateResult)
      → Sound db
      → any (has_id id) db.reservations ≡ false
      → Attempted id exclude h db result db'
      → Sound (recorded user_id (result, db')).1
  unfolding record_initial_status
  Attempted-Sound db db' result s fresh (inl (there, n)) = rw (unrecorded result db' n, there) s
  Attempted-Sound db db' result (a, r, f) fresh (inr (made, free, there)) =
      let kept = Attempted-Allowed id exclude h db db' result a fresh (inr (made, free, there)) in
      let rows = rw there at kept in
      rw (made, there) (rows, with_hold-IsRecorded id user_id h db fresh r, f)

-- A guest's attempt to make a hold that does not fail leaves sound tables, if the id for a new row is one
-- that no row has: the holds are ones that the constraints allow, and a new hold has its row in the
-- history, so that the history names the status of each reservation.
pub create_pending_reservation-Sound :
    (user_id : Option ℕ) (id : ℕ) (exclude_session_id : Option ℕ) (h : HoldRequest)
    (db db' : Database) (result : CreateResult)
    → Sound db
    → any (has_id id) db.reservations ≡ false
    → create_pending_reservation user_id id exclude_session_id h db ≡ ok (result, db')
    → Sound db'
unfolding create_pending_reservation
create_pending_reservation-Sound user_id id exclude h db db' result s fresh e =
    let x = of_session (some h.session_id) in
    let y = of_car h.car_id in
    let db1 = run_expiry x h.now db in
    let s1 = run_expiry-Sound x h.now db s in
    let fresh1 : any (has_id id) db1.reservations ≡ false =
      rw (run_expiry-ids x h.now id db) fresh in
    elim (Result-cases (create_pending_reservation_with_availability_check id exclude h db)) [
      | inr (z, c) ↦ absurd (ground arith)
      | inl ((first, made), c) ↦
          let there : recorded user_id (first, made) ≡ (result, db') = ground arith in
          let sound : Sound (recorded user_id (first, made)).1 =
            elim (create_inversion id exclude h db made first c) [
              | inl t ↦ Attempted-Sound user_id id exclude h db1 made first s1 fresh1 t
              | inr t ↦
                  Attempted-Sound user_id id exclude h (run_expiry y h.now db1) made first
                    (run_expiry-Sound y h.now db1 s1) (rw (run_expiry-ids y h.now id db1) fresh1) t
            ] in
          rw there at sound
    ]
