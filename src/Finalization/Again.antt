-- ===== src/Finalization/Again.antt =====
-- A finalization that is repeated after it booked the reservation.
use rent_a_car_v.Base.{
  ℕ, ◌≡◌, refl, inl, inr, Bool, true, false, some, none, List, [], ◌∷◌, ◌++◌, find, arith,
  Bool-cases, ok, ◌==◌,
}
use rent_a_car_v.Database.{Database, Reservation, Order}
use rent_a_car_v.StatusChange.{same_session}
use rent_a_car_v.StatusChange.Inversion.{has_id}
use rent_a_car_v.Finalization.Cases.{core-Ending}
use rent_a_car_v.Finalization.{
  Retrieve, Options, Outcome, already_confirmed, finalized, Surroundings,
  find_order_by_stripe_session_id, find_by_stripe_session_id,
  resolve_reservation_for_stripe_session, of_session,
}
use rent_a_car_v.Finalization.Complete.{new_order}
use rent_a_car_v.Finalization.Core.{finalize_reservation_core, finalize_found}
use rent_a_car_v.Finalization.Booked.{IsBooked}
use rent_a_car_v.Finalization.Results.{Ending-finalized}

find-append_one :
    (p : Order → Bool) (os : List Order) (x : Order)
    → find p os ≡ none
    → p x ≡ true
    → find p (os ++ (x ∷ [])) ≡ some x
find-append_one p [] x h t = ground arith
find-append_one p (o ∷ os) x h t = ground (arith, find-append_one p os x)

session_found :
    (i session : ℕ) (rows : List Reservation) (r : Reservation)
    → find (has_id i) rows ≡ some r
    → r.stripe_session_id ≡ some session
    → (r' : Reservation) × (find
          (λ (x : Reservation). same_session x.stripe_session_id (some session))
          rows
        ≡ some r')
session_found i session [] r f h = absurd (ground arith)
session_found i session (x ∷ xs) r f h =
    elim (Bool-cases (same_session x.stripe_session_id (some session))) [
      | inl y ↦ (x, rw y refl)
      | inr n ↦ let (r', g) = session_found i session xs r (ground arith) h in (r', rw n g)
    ]

session_given :
    (retrieve : Retrieve) (s : Surroundings) (session : ℕ) (o : Options) (db db' : Database)
    (result : Outcome)
    → finalize_reservation_core retrieve s session o db ≡ ok (result, db')
    → (session == 0) ≡ false
unfolding finalize_reservation_core
session_given retrieve s session o db db' result e = elim (Bool-cases (session == 0)) [
  | inl y ↦ absurd (ground arith)
  | inr n ↦ n
]

core_repeats :
    (retrieve : Retrieve) (s : Surroundings) (session : ℕ) (o : Options) (db : Database)
    (r : Reservation) (order : Order)
    → (session == 0) ≡ false
    → find_by_stripe_session_id session db ≡ some r
    → find_order_by_stripe_session_id session db ≡ some order
    → finalize_reservation_core retrieve s session o db
      ≡ ok (
        record { reservation = some r.id; order = some order.id; reason = already_confirmed },
        db,
      )
unfolding finalize_reservation_core finalize_found resolve_reservation_for_stripe_session
core_repeats retrieve s session o db r order n f g = ground arith

booked_repeats :
    (retrieve : Retrieve) (s t : Surroundings) (session i car_id : ℕ) (o : Options)
    (db db' : Database)
    → (session == 0) ≡ false
    → find_order_by_stripe_session_id session db ≡ none
    → IsBooked t i car_id session db db'
    → (j : ℕ) × (finalize_reservation_core retrieve s session o db'
        ≡ ok (
          record { reservation = some j; order = some t.order_id; reason = already_confirmed },
          db',
        ))
unfolding find_by_stripe_session_id find_order_by_stripe_session_id
booked_repeats retrieve s t session i car o db db' n g b =
    let (r', f) = session_found i session db'.reservations b.row b.found b.linked in
    let new = new_order t.order_id b.row car session in
    (
      r'.id,
      core_repeats retrieve s session o db' r' new n f
          (rw b.orders (find-append_one (of_session session) db.orders new g (ground arith))),
    )

-- After a finalization that booked the reservation, each further one for the same session, whatever its
-- options, its time and the provider's answers are, changes nothing and gives the reason
-- `already_confirmed` with the order that was booked.
pub finalized_again :
    (retrieve retrieve' : Retrieve) (s s' : Surroundings) (session : ℕ) (o o' : Options)
    (db db' : Database) (result : Outcome)
    → finalize_reservation_core retrieve s session o db ≡ ok (result, db')
    → result.reason ≡ finalized
    → (i : ℕ) × (finalize_reservation_core retrieve' s' session o' db'
        ≡ ok (
          record { reservation = some i; order = result.order; reason = already_confirmed },
          db',
        ))
finalized_again retrieve retrieve' s s' session o o' db db' result e f =
    elim (core-Ending retrieve s session o db db' result e) [
      | inl (n, _, _) ↦ absurd (ground arith)
      | inr (r, _, inl (a, _, _)) ↦ absurd (ground arith)
      | inr (r, _, inr (n, ending, _)) ↦
          let (a, _, b) = Ending-finalized retrieve s session o r db db' result f ending in
          rw a (
            booked_repeats retrieve' s' s session r.id r.car_id o' db db'
              (session_given retrieve s session o db db' result e) n b)
    ]
