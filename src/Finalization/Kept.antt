-- ===== src/Finalization/Kept.antt =====
-- What every finalization keeps, and a finalization that is repeated.
use rent_a_car_v.Base.{ℕ, ◌≡◌, refl, inl, inr, Bool, true, false, Option, some, none, List, ok}
use rent_a_car_v.Database.{Database, Reservation, Block}
use rent_a_car_v.Lifecycle.{Status, paid, confirmed, manual_review}
use rent_a_car_v.Bookings.Ranges.{apart, add_range}
use rent_a_car_v.Bookings.Runs.{add_range-apart}
use rent_a_car_v.StatusChange.{ReservationPatch, change_status}
use rent_a_car_v.StatusChange.Recorded.{IsRecorded, change_status-IsRecorded}
use rent_a_car_v.StatusChange.Quiet.{change_status_row, frees}
use rent_a_car_v.Finalization.Cases.{core-Ending}
use rent_a_car_v.Finalization.{Retrieve, Options, Outcome, Surroundings}
use rent_a_car_v.Finalization.Complete.{system_change, payment_patch, first_of}
use rent_a_car_v.Finalization.Review.{attempt, review_patch}
use rent_a_car_v.Finalization.Core.{finalize_reservation_core}
use rent_a_car_v.Finalization.Inversion.{with_booking, book_paid_inversion, complete_inversion}
use rent_a_car_v.Finalization.Reviewed.{mark_inversion}
use rent_a_car_v.Finalization.Ending.{Ending, repeats, declines, reviews, books}

-- A property of the tables that changes of status keep, and the booking of a range.
pub record IsKept (P : Database → Type 0) : Type 0 where
  pub change :
      (i : ℕ) (t : Status) (p : Option ReservationPatch) (db db' : Database) (b : Bool)
      → frees t ≡ false
      → P db
      → change_status (system_change i t p) db ≡ ok (b, db')
      → P db'
  pub booking :
      (s : Surroundings) (r : Reservation) (car_id session : ℕ) (blocks : List Block)
      (db : Database)
      → P db
      → add_range true s.block_id s.now db.reservations car_id r.pickup_date r.return_date db.blocks
        ≡ ok blocks
      → P (with_booking s r car_id session blocks db)

module _ {P : Database → Type 0} (k : IsKept P) where
  attempt_keeps :
      (s : Surroundings) (r : Reservation) (session : ℕ) (o : Options) (cents : Option ℕ)
      (db db' : Database)
      → P db
      → attempt s r session o cents db ≡ ok db'
      → P db'
  attempt_keeps s r session o cents db db' h e =
      let intent = first_of o.payment_intent r.stripe_payment_intent_id in
      let patch = payment_patch session s.now (first_of intent r.stripe_payment_intent_id) cents in
      let (b, marked, x, changed, there, booked) =
        complete_inversion s r session intent cents db db' e in
      let (blocks, added, n, b', confirmed_now) =
        book_paid_inversion s x r.car_id session marked db' booked in
      k.change x.id confirmed none (with_booking s x r.car_id session blocks marked) db' b' refl
        (k.booking s x r.car_id session blocks marked
          (k.change r.id paid (some patch) db marked b refl h changed) added)
        confirmed_now

  ending_keeps :
      (retrieve : Retrieve) (s : Surroundings) (session : ℕ) (o : Options) (r : Reservation)
      (db db' : Database) (result : Outcome)
      → P db
      → Ending retrieve s session o r db result db'
      → P db'
  ending_keeps retrieve s session o r db db' result h (repeats e same _) = rw same h
  ending_keeps retrieve s session o r db db' result h (declines reason says n e same) = rw same h
  ending_keeps retrieve s session o r db db' result h (books cents says e a) =
      attempt_keeps s r session o cents db db' h a
  ending_keeps retrieve s session o r db db' result h (reviews reason intent cents says m e) =
      elim ((mark_inversion r session reason intent cents db db' result e).1) [
        | inr (same, _, _, _) ↦ rw same h
        | inl (b, changed) ↦
            k.change r.id manual_review (some (review_patch r session intent cents)) db db' b refl h
              changed
      ]

  pub core_keeps :
      (retrieve : Retrieve) (s : Surroundings) (session : ℕ) (o : Options) (db db' : Database)
      (result : Outcome)
      → P db
      → finalize_reservation_core retrieve s session o db ≡ ok (result, db')
      → P db'
  core_keeps retrieve s session o db db' result h e =
      elim (core-Ending retrieve s session o db db' result e) [
        | inl (_, same, _) ↦ rw same h
        | inr (r, _, inl (_, same, _)) ↦ rw same h
        | inr (r, _, inr (_, ending, _)) ↦
            ending_keeps retrieve s session o r db db' result h ending
      ]

IsRecorded-IsKept : IsKept IsRecorded
IsRecorded-IsKept = record {
  change = λ i t p db db' b f h e. change_status-IsRecorded (system_change i t p) db db' b h e;
  booking = λ s r car_id session blocks db h e. record {
    current = h.current;
    known = h.known;
    allowed = h.allowed;
  };
}

apart-IsKept : IsKept (λ db. apart db.blocks ≡ true)
apart-IsKept = record {
  change = λ i t p db db' b f h e. rw ((change_status_row (system_change i t p) db db' b f e).0) h;
  booking = λ s r car_id session blocks db h e.
      add_range-apart true s.block_id s.now db.reservations car_id r.pickup_date r.return_date
        db.blocks blocks h e;
}

-- A finalization that does not fail keeps the calendar free of overlaps, and keeps the history true:
-- the last row of each reservation names its status, and every row follows the graph.
pub finalize_reservation_core-IsRecorded :
    (retrieve : Retrieve) (s : Surroundings) (session : ℕ) (o : Options) (db db' : Database)
    (result : Outcome)
    → IsRecorded db
    → apart db.blocks ≡ true
    → finalize_reservation_core retrieve s session o db ≡ ok (result, db')
    → IsRecorded db' × (apart db'.blocks ≡ true)
finalize_reservation_core-IsRecorded retrieve s session o db db' result rec h e = (
  core_keeps IsRecorded-IsKept retrieve s session o db db' result rec e,
  core_keeps apart-IsKept retrieve s session o db db' result h e,
)
