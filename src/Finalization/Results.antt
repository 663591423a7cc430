-- ===== src/Finalization/Results.antt =====
-- What a finalization guarantees by how it ends.
use rent_a_car_v.Base.{
  List, [], ◌∷◌, find, any, ℕ, ◌≡◌, ◌⊎◌, inl, inr, refl, Bool, true, false, not, Option, some, none,
  arith, ok,
}
use rent_a_car_v.Database.{Database, Reservation}
use rent_a_car_v.Finalization.Cases.{core-Ending}
use rent_a_car_v.Finalization.{
  of_reservation, find_order_by_reservation_id, Retrieve, Options, CheckoutSession, PaymentStatus,
  is_stripe_session_paid, resolve_reservation_for_stripe_session, resolve_stripe_payment_status,
  resolve_stripe_checkout_session_details, Outcome, Reason, not_found, already_confirmed, finalized,
  Surroundings,
}
use rent_a_car_v.Finalization.Review.{outcome}
use rent_a_car_v.Finalization.Core.{finalize_reservation_core}
use rent_a_car_v.Finalization.Webhook.{event_status, event_manual_review}
use rent_a_car_v.Finalization.Reviewed.{
  IsReviewed, mark_inversion, mark_paid_reservation_conflict-IsReviewed,
}
use rent_a_car_v.Lifecycle.{is_ops_lifecycle_status}
use rent_a_car_v.Finalization.Earlier.{SessionOrder, ReservationOrder, HasBookedRow, Guarded}
use rent_a_car_v.Finalization.Ending.{is_finalized, Says, Ending, repeats, declines, reviews, books}
use rent_a_car_v.Finalization.Booked.{IsBooked, attempt-IsBooked}

-- What was booked before: an order for the session is there; or the reservation is past its booking and
-- has an order; or it is still to be booked while another row, of the session or with its id, is past
-- its booking.
abbrev pub WasBooked : Reservation → ℕ → Database → Type 0
WasBooked r session db =
    SessionOrder session db
    ⊎ ((is_ops_lifecycle_status r.status ≡ true) × ReservationOrder r.id db)
    ⊎ ((is_ops_lifecycle_status r.status ≡ false) × HasBookedRow r.id session db)

none_of : {A : Type 0} (p : A → Bool) (xs : List A) → find p xs ≡ none → any p xs ≡ false
none_of p [] h = refl
none_of p (x ∷ xs) h = ground (arith, none_of p xs)

was_booked :
    (r : Reservation) (session : ℕ) (db : Database)
    → (SessionOrder session db ⊎ ReservationOrder r.id db) ⊎ HasBookedRow r.id session db
    → Guarded r db
    → WasBooked r session db
unfolding find_order_by_reservation_id
was_booked r session db (inl (inl x)) guard = inl x
was_booked r session db (inl (inr x)) (inl y) = inr (inl y)
was_booked r session db (inr x) (inl y) = inr (inl y)
was_booked r session db (inr x) (inr (n, _)) = inr (inr (n, x))
was_booked r session db (inl (inr x)) (inr (n, f)) =
    absurd (ground (arith, none_of (of_reservation r.id) db.orders f))

abbrev pub Accounted :
    (retrieve : Retrieve) (s : Surroundings) (session : ℕ) (o : Options) (db : Database)
    (result : Outcome) (db' : Database)
    → Type 0
Accounted retrieve s session o db result db' =
    ((result.reason ≡ not_found)
      × (resolve_reservation_for_stripe_session session o s.now db ≡ none))
    ⊎ ((r : Reservation) × (resolve_reservation_for_stripe_session session o s.now db ≡ some r)
        × (result.reason ≡ already_confirmed)
        × (db' ≡ db)
        × WasBooked r session db)
    ⊎ ((r : Reservation) × (resolve_reservation_for_stripe_session session o s.now db ≡ some r)
        × (((result.reason ≡ finalized) × IsBooked s r.id r.car_id session db db')
            ⊎ ((event_status result.reason ≡ some event_manual_review) × IsReviewed r.id db db')))

reviews_not_finalized :
    (r : Reservation) (result : Outcome) (reason : Reason)
    → result ≡ outcome r none reason
    → event_status reason ≡ some event_manual_review
    → is_finalized result.reason ≡ false
unfolding event_status
reviews_not_finalized r result reason e m = ground arith

module _ (retrieve : Retrieve) (s : Surroundings) (session : ℕ) (o : Options) where
  pub Ending-finalized :
      (r : Reservation) (db db' : Database) (result : Outcome)
      → result.reason ≡ finalized
      → Ending retrieve s session o r db result db'
      → (result ≡ outcome r (some s.order_id) finalized)
        × Says retrieve s session o true
        × IsBooked s r.id r.car_id session db db'
  Ending-finalized r db db' result f (repeats e same there) = absurd (ground arith)
  Ending-finalized r db db' result f (declines reason says n e same) = absurd (ground arith)
  Ending-finalized r db db' result f (reviews reason intent cents says m e) = absurd (
      ground (
        arith,
        reviews_not_finalized r result reason
            ((mark_inversion r session reason intent cents db db' result e).0) m,
      ))
  Ending-finalized r db db' result f (books cents says e a) =
      (e, says, attempt-IsBooked s r session o cents db db' a)

  Ending-paid :
      (r : Reservation) (db db' : Database) (result : Outcome)
      → (Says retrieve s session o false → ⊥)
      → Ending retrieve s session o r db result db'
      → ((result.reason ≡ already_confirmed)
          × (db' ≡ db)
          × ((SessionOrder session db ⊎ ReservationOrder r.id db) ⊎ HasBookedRow r.id session db))
        ⊎ ((result.reason ≡ finalized) × IsBooked s r.id r.car_id session db db')
        ⊎ ((event_status result.reason ≡ some event_manual_review) × IsReviewed r.id db db')
  Ending-paid r db db' result f (repeats e same there) = inl (e, same, there)
  Ending-paid r db db' result f (declines reason says n e same) = absurd (f says)
  Ending-paid r db db' result f (reviews reason intent cents says m e) = inr (
      inr (
        rw ((mark_inversion r session reason intent cents db db' result e).0) m,
        mark_paid_reservation_conflict-IsReviewed r session reason intent cents db db' result e,
      ))
  Ending-paid r db db' result f (books cents says e a) =
      inr (inl (ground arith, attempt-IsBooked s r session o cents db db' a))

-- Where a finalization gives the reason `finalized`, the session was paid according to its status or its
-- details, the reservation found for the session is the one of the outcome, and it is booked: its row
-- is confirmed under the session, it had no order and has one with the new id, its dates are not empty,
-- and the calendar of the car gets a block for them that overlaps no other block.
pub finalize_reservation_core-IsBooked :
    (retrieve : Retrieve) (s : Surroundings) (session : ℕ) (o : Options) (db db' : Database)
    (result : Outcome)
    → finalize_reservation_core retrieve s session o db ≡ ok (result, db')
    → result.reason ≡ finalized
    → (r : Reservation) × (resolve_reservation_for_stripe_session session o s.now db ≡ some r)
      × (result ≡ outcome r (some s.order_id) finalized)
      × Says retrieve s session o true
      × IsBooked s r.id r.car_id session db db'
finalize_reservation_core-IsBooked retrieve s session o db db' result e f =
    elim (core-Ending retrieve s session o db db' result e) [
      | inl (n, same, none_found) ↦ absurd (ground arith)
      | inr (r, found, inl (a, same, _)) ↦ absurd (ground arith)
      | inr (r, found, inr (n, ending, _)) ↦
          let (a, says, b) = Ending-finalized retrieve s session o r db db' result f ending in
          (r, found, a, says, b)
    ]

paid_only :
    (retrieve : Retrieve) (s : Surroundings) (session : ℕ) (o : Options) (st : Option PaymentStatus)
    (c : CheckoutSession) (b : Bool)
    → resolve_stripe_payment_status retrieve session o ≡ ok st
    → resolve_stripe_checkout_session_details retrieve session o ≡ ok c
    → is_stripe_session_paid st ≡ not b
    → is_stripe_session_paid c.payment_status ≡ not b
    → Says retrieve s session o b
    → ⊥
paid_only retrieve s session o st c b e f p q (inl (st', e', p')) = ground arith
paid_only retrieve s session o st c b e f p q (inr (c', e', p')) = ground arith

-- If status and details say that the session is paid, a finalization that does not fail found no
-- reservation, or changed nothing as the booking was made before, or booked the reservation, or recorded it for
-- manual review; then its row is in manual review, or nothing changed because the graph has no step
-- from the row's status to manual review.
pub paid_is_settled :
    (retrieve : Retrieve) (s : Surroundings) (session : ℕ) (o : Options) (db db' : Database)
    (result : Outcome) (st : Option PaymentStatus) (c : CheckoutSession)
    → resolve_stripe_payment_status retrieve session o ≡ ok st
    → resolve_stripe_checkout_session_details retrieve session o ≡ ok c
    → is_stripe_session_paid st ≡ true
    → is_stripe_session_paid c.payment_status ≡ true
    → finalize_reservation_core retrieve s session o db ≡ ok (result, db')
    → Accounted retrieve s session o db result db'
paid_is_settled retrieve s session o db db' result st c a b p q e =
    elim (core-Ending retrieve s session o db db' result e) [
      | inl (n, same, none_found) ↦ inl (n, none_found)
      | inr (r, found, inl (n, same, there)) ↦ inr (inl (r, found, n, same, inl there))
      | inr (r, found, inr (n, ending, guard)) ↦
          elim (Ending-paid retrieve s session o r db db' result
            (paid_only retrieve s session o st c false a b p q) ending) [
              | inl (k, same, there) ↦
                  inr (inl (r, found, k, same, was_booked r session db there guard))
              | inr x ↦ inr (inr (r, found, x))
            ]
    ]
