-- ===== src/Holds/Gone.antt =====
-- Which reservations an expiry touches.
use rent_a_car_v.Base.{
  ℕ, ◌≡◌, ◌≢◌, refl, inl, inr, Bool, true, false, ◌&&◌, some, List, [], ◌∷◌, find, any,
  update_where, ◌==◌, arith, Bool-cases,
}
use rent_a_car_v.Lifecycle.{expired, is_hold_status}
use rent_a_car_v.Database.{Database, Reservation}
use rent_a_car_v.StatusChange.Recorded.{has_id}
use rent_a_car_v.Holds.{
  expired_row, expire_rows, stale, expire_stale_holds_for_car, Expiry, run_expiry,
}
use rent_a_car_v.Holds.Recorded.{run_expiry-cases}

-- The hold of the car ran out.
abbrev pub stale_of : ℕ → ℕ → Reservation → Bool
stale_of car_id now r = r.car_id == car_id && stale now r

expired_is_no_hold : is_hold_status expired ≡ false
unfolding is_hold_status
expired_is_no_hold = refl

none_stale :
    (car_id now : ℕ) (rs : List Reservation)
    → any (stale_of car_id now) (update_where (stale_of car_id now) (expired_row now) rs) ≡ false
none_stale car now [] = refl
none_stale car now (r ∷ rs) = elim (Bool-cases (stale_of car now r)) [
  | inl y ↦ rw y (ground (arith, expired_is_no_hold, none_stale car now rs))
  | inr n ↦ rw n (ground (arith, none_stale car now rs))
]

-- After the holds of a car were expired, no hold of that car is left whose time is over.
pub expire_stale_holds_for_car-none_left :
    (car_id now : ℕ) (db : Database)
    → car_id ≢ 0
    → any (stale_of car_id now) (expire_stale_holds_for_car car_id now db).reservations ≡ false
unfolding expire_stale_holds_for_car expire_rows
expire_stale_holds_for_car-none_left car now db ne =
    let given : (car == 0) ≡ false = ground arith in rw given (none_stale car now db.reservations)

untouched :
    (p : Reservation → Bool) (now i : ℕ) (rs : List Reservation) (r : Reservation)
    → ((s : Reservation) → p s ≡ true → is_hold_status s.status ≡ true)
    → find (has_id i) rs ≡ some r
    → is_hold_status r.status ≡ false
    → find (has_id i) (update_where p (expired_row now) rs) ≡ some r
untouched p now i [] r holds f n = f
untouched p now i (s ∷ rs) r holds f n = elim (Bool-cases (s.id == i)) [
  | inl y ↦ ground (arith, holds s)
  | inr k ↦ ground (arith, untouched p now i rs r holds)
]

-- No expiry touches a reservation that is not a hold: one that is paid, confirmed, under way or over
-- keeps its row as it is.
pub run_expiry_spares :
    (x : Expiry) (now i : ℕ) (db : Database) (r : Reservation)
    → find (has_id i) db.reservations ≡ some r
    → is_hold_status r.status ≡ false
    → find (has_id i) (run_expiry x now db).reservations ≡ some r
unfolding expire_rows
run_expiry_spares x now i db r f n = elim (run_expiry-cases x now db) [
  | inl same ↦ rw same f
  | inr (p, holds, same) ↦ rw same (untouched p now i db.reservations r holds f n)
]
