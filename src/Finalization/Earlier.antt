-- ===== src/Finalization/Earlier.antt =====
-- What a finalization finds booked before it.
use rent_a_car_v.Base.{
  List, [], ◌∷◌, find, any, ◌==◌, ◌&&◌, ◌||◌, ℕ, ◌≡◌, ◌⊎◌, inl, inr, Bool, true, false, some, none,
  arith, Bool-cases, Option-cases,
}
use rent_a_car_v.Lifecycle.{is_ops_lifecycle_status}
use rent_a_car_v.StatusChange.{same_session}
use rent_a_car_v.Database.{Database, Reservation, Order}
use rent_a_car_v.Finalization.{
  of_session, of_reservation, find_by_stripe_session_id, find_by_id, or_else,
  find_order_by_stripe_session_id, find_order_by_reservation_id, Outcome,
}
use rent_a_car_v.Finalization.Review.{resolve_concurrent_finalization_result}

abbrev pub SessionOrder : ℕ → Database → Type 0
SessionOrder session db = any (of_session session) db.orders ≡ true

abbrev pub ReservationOrder : ℕ → Database → Type 0
ReservationOrder i db = any (of_reservation i) db.orders ≡ true

-- A reservation is past its booking and has an order, or neither.
abbrev pub Guarded : Reservation → Database → Type 0
Guarded r db =
    ((is_ops_lifecycle_status r.status ≡ true) × ReservationOrder r.id db)
    ⊎ ((is_ops_lifecycle_status r.status ≡ false) × (find_order_by_reservation_id r.id db ≡ none))

-- A row for the session, or of the reservation, that is past its booking.
abbrev pub HasBookedRow : ℕ → ℕ → Database → Type 0
HasBookedRow i session db =
    (any
        (λ (x : Reservation).
          same_session x.stripe_session_id (some session) && is_ops_lifecycle_status x.status)
        db.reservations
      || any (λ (x : Reservation). x.id == i && is_ops_lifecycle_status x.status) db.reservations)
    ≡ true

pub found_any :
    {A : Type 0} (p w : A → Bool) (xs : List A) (x : A)
    → find p xs ≡ some x
    → w x ≡ true
    → any (λ y. p y && w y) xs ≡ true
found_any p w [] x f k = absurd (ground arith)
found_any p w (y ∷ ys) x f k = elim (Bool-cases (p y)) [
  | inl m ↦ ground arith
  | inr m ↦ ground (arith, found_any p w ys x)
]

pub found_one :
    {A : Type 0} (p : A → Bool) (xs : List A) (x : A) → find p xs ≡ some x → any p xs ≡ true
found_one p [] x f = absurd (ground arith)
found_one p (y ∷ ys) x f = elim (Bool-cases (p y)) [
  | inl m ↦ ground arith
  | inr m ↦ ground (arith, found_one p ys x)
]

pub session_order :
    (session : ℕ) (db : Database) (x : Order)
    → find_order_by_stripe_session_id session db ≡ some x
    → SessionOrder session db
unfolding find_order_by_stripe_session_id
session_order session db x f = found_one (of_session session) db.orders x f

pub reservation_order :
    (i : ℕ) (db : Database) (x : Order)
    → find_order_by_reservation_id i db ≡ some x
    → ReservationOrder i db
unfolding find_order_by_reservation_id
reservation_order i db x f = found_one (of_reservation i) db.orders x f

session_row :
    (i session : ℕ) (db : Database) (x : Reservation)
    → find_by_stripe_session_id session db ≡ some x
    → is_ops_lifecycle_status x.status ≡ true
    → HasBookedRow i session db
unfolding find_by_stripe_session_id
session_row i session db x f k = ground (
  arith,
  found_any (λ (y : Reservation). same_session y.stripe_session_id (some session))
      (λ (y : Reservation). is_ops_lifecycle_status y.status) db.reservations x f k,
)

own_row :
    (i session : ℕ) (db : Database) (x : Reservation)
    → find_by_id i db ≡ some x
    → is_ops_lifecycle_status x.status ≡ true
    → HasBookedRow i session db
unfolding find_by_id
own_row i session db x f k = ground (
  arith,
  found_any (λ (y : Reservation). y.id == i) (λ (y : Reservation). is_ops_lifecycle_status y.status)
      db.reservations x f k,
)

-- What an attempt that lost a race finds was booked before it.
latest_row :
    (r : Reservation) (session : ℕ) (db : Database) (latest : Reservation)
    → or_else (find_by_stripe_session_id session db) (find_by_id r.id db) ≡ some latest
    → is_ops_lifecycle_status latest.status ≡ true
    → HasBookedRow r.id session db
latest_row r session db latest f k = elim (Option-cases (find_by_stripe_session_id session db)) [
  | inr (x, e) ↦ session_row r.id session db x e (ground arith)
  | inl e ↦ own_row r.id session db latest (ground arith) k
]

pub concurrent_found :
    (r : Reservation) (session : ℕ) (db : Database) (found : Outcome)
    → resolve_concurrent_finalization_result r session db ≡ some found
    → (SessionOrder session db ⊎ ReservationOrder r.id db) ⊎ HasBookedRow r.id session db
unfolding resolve_concurrent_finalization_result
concurrent_found r session db found c =
    elim (Option-cases (find_order_by_stripe_session_id session db)) [
      | inr (x, f) ↦ inl (inl (session_order session db x f))
      | inl f ↦ elim (Option-cases (find_order_by_reservation_id r.id db)) [
        | inr (x, g) ↦ inl (inr (reservation_order r.id db x g))
        | inl g ↦
            elim (Option-cases
              (or_else (find_by_stripe_session_id session db) (find_by_id r.id db))) [
                | inl n ↦ absurd (ground arith)
                | inr (latest, n) ↦ elim (Bool-cases (is_ops_lifecycle_status latest.status)) [
                  | inl y ↦ inr (latest_row r session db latest n y)
                  | inr y ↦ absurd (ground arith)
                ]
              ]
      ]
    ]
