-- ===== src/Finalization/Inversion.antt =====
-- What an attempt to book a paid reservation has done where it succeeds.
use rent_a_car_v.Base.{
  ℕ, ◌≡◌, inl, inr, Bool, true, false, Option, some, none, List, [], ◌∷◌, ◌++◌, any, arith,
  Bool-cases, Option-cases, Result-cases, ok,
}
use rent_a_car_v.Lifecycle.{paid, confirmed}
use rent_a_car_v.Database.{Database, Reservation, Order, Block}
use rent_a_car_v.Bookings.Ranges.{add_range}
use rent_a_car_v.StatusChange.{change_status, same_session}
use rent_a_car_v.Finalization.{Surroundings, find_by_id}
use rent_a_car_v.Finalization.Complete.{
  first_of, system_change, payment_patch, lift_change, new_order, create_order_from_reservation,
  book_paid, complete_reservation_finalization,
}

-- The tables as a booking writes them, before the last change of the status.
abbrev pub with_booking : Surroundings → Reservation → ℕ → ℕ → List Block → Database → Database
with_booking s r car_id stripe_session_id blocks db = record db {
  blocks = blocks;
  orders = db.orders ++ (new_order s.order_id r car_id stripe_session_id ∷ []);
}

abbrev pub has_order : ℕ → List Order → Bool
has_order i orders = any (λ (o : Order). same_session o.reservation_id (some i)) orders

confirm_inversion :
    (i : ℕ) (db db' : Database)
    → lift_change (change_status (system_change i confirmed none) db) ≡ ok db'
    → (b : Bool) × (change_status (system_change i confirmed none) db ≡ ok (b, db'))
confirm_inversion i db db' h =
    elim (Result-cases (change_status (system_change i confirmed none) db)) [
      | inl ((b, x), e) ↦ (b, ground arith)
      | inr (x, e) ↦ absurd (ground arith)
    ]

pub book_paid_inversion :
    (s : Surroundings) (r : Reservation) (car_id session : ℕ) (db db' : Database)
    → book_paid s r car_id session db ≡ ok db'
    → (blocks : List Block) × (add_range true s.block_id s.now db.reservations car_id r.pickup_date
          r.return_date db.blocks
        ≡ ok blocks)
      × (has_order r.id db.orders ≡ false)
      × (b : Bool) × (change_status
            (system_change r.id confirmed none)
            (with_booking s r car_id session blocks db)
          ≡ ok (b, db'))
unfolding book_paid create_order_from_reservation
book_paid_inversion s r car session db db' h =
    elim (Result-cases
      (add_range true s.block_id s.now db.reservations car r.pickup_date r.return_date db.blocks)) [
        | inr (x, e) ↦ absurd (ground arith)
        | inl (blocks, e) ↦ elim (Bool-cases (has_order r.id db.orders)) [
          | inl t ↦ absurd (ground arith)
          | inr n ↦
              let (b, c) =
                confirm_inversion r.id (with_booking s r car session blocks db) db'
                  (ground arith) in
              (blocks, e, n, b, c)
        ]
      ]

-- The reservation became paid, was read again, and was booked.
pub complete_inversion :
    (s : Surroundings) (r : Reservation) (session : ℕ) (intent cents : Option ℕ) (db db' : Database)
    → complete_reservation_finalization s r session intent cents db ≡ ok db'
    → (b : Bool) × (marked : Database) × (r' : Reservation) × (change_status
          (system_change r.id paid
            (some (payment_patch session s.now (first_of intent r.stripe_payment_intent_id) cents)))
          db
        ≡ ok (b, marked))
      × (find_by_id r.id marked ≡ some r')
      × (book_paid s r' r.car_id session marked ≡ ok db')
unfolding complete_reservation_finalization
complete_inversion s r session intent cents db db' h =
    let patch = payment_patch session s.now (first_of intent r.stripe_payment_intent_id) cents in
    elim (Result-cases (change_status (system_change r.id paid (some patch)) db)) [
      | inr (x, e) ↦ absurd (ground arith)
      | inl ((b, marked), e) ↦ elim (Option-cases (find_by_id r.id marked)) [
        | inl n ↦ absurd (ground arith)
        | inr (r', n) ↦ (b, marked, r', e, n, ground arith)
      ]
    ]
