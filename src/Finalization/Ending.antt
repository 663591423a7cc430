-- ===== src/Finalization/Ending.antt =====
-- How a finalization that does not fail ends: the cases that its properties go by.
use rent_a_car_v.Base.{
  ℕ, ◌≡◌, refl, ◌⊎◌, inl, inr, Bool, true, false, Option, some, none, arith, Bool-cases,
  Option-cases, Result-cases, ok,
}
use rent_a_car_v.Finalization.Earlier.{
  SessionOrder, ReservationOrder, HasBookedRow, concurrent_found,
}
use rent_a_car_v.Lifecycle.{same}
use rent_a_car_v.Database.{Database, Reservation}
use rent_a_car_v.Finalization.{
  Retrieve, Options, CheckoutSession, PaymentStatus, FinalizeError, is_stripe_session_paid,
  resolve_stripe_payment_status, resolve_stripe_checkout_session_details, Outcome, Reason,
  already_confirmed, finalized, overlap_after_payment, Surroundings,
}
use rent_a_car_v.Finalization.Complete.{first_of}
use rent_a_car_v.Finalization.Review.{
  outcome, mark_paid_reservation_conflict, reject_stripe_finalization,
  resolve_concurrent_finalization_result, handle_finalization_overlap, finalize_paid_expired_hold,
  attempt,
}
use rent_a_car_v.Finalization.Core.{book_active_hold}
use rent_a_car_v.Finalization.Webhook.{event_status, event_manual_review}

abbrev pub is_finalized : Reason → Bool
is_finalized finalized = true
is_finalized _ = false

not_finalized :
    (reason : Reason) → event_status reason ≡ some event_manual_review → is_finalized reason ≡ false
unfolding event_status
not_finalized reason e = ground arith

module _ (retrieve : Retrieve) (s : Surroundings) (session : ℕ) (o : Options) where
  -- The session's status, or its details, say whether it is paid.
  abbrev pub StatusSays : Bool → Type 0
  StatusSays b =
      (st : Option PaymentStatus) × (resolve_stripe_payment_status retrieve session o ≡ ok st)
      × (is_stripe_session_paid st ≡ b)

  abbrev pub DetailsSay : Bool → Type 0
  DetailsSay b =
      (c : CheckoutSession) × (resolve_stripe_checkout_session_details retrieve session o ≡ ok c)
      × (is_stripe_session_paid c.payment_status ≡ b)

  abbrev pub Says : Bool → Type 0
  Says b = StatusSays b ⊎ DetailsSay b

  -- What a run made of the reservation that it found.
  pub data Ending (r : Reservation) (db : Database) (result : Outcome) (db' : Database)
      : Type 0 where
    repeats :
        result.reason ≡ already_confirmed
        → db' ≡ db
        → (SessionOrder session db ⊎ ReservationOrder r.id db) ⊎ HasBookedRow r.id session db
        → Ending r db result db'
    declines :
        (reason : Reason)
        → Says false
        → is_finalized reason ≡ false
        → result ≡ outcome r none reason
        → db' ≡ db
        → Ending r db result db'
    reviews :
        (reason : Reason) (intent cents : Option ℕ)
        → Says true
        → event_status reason ≡ some event_manual_review
        → mark_paid_reservation_conflict r session reason intent cents db ≡ ok (result, db')
        → Ending r db result db'
    books :
        (cents : Option ℕ)
        → Says true
        → result ≡ outcome r (some s.order_id) finalized
        → attempt s r session o cents db ≡ ok db'
        → Ending r db result db'

  pub reject-Ending :
      (r : Reservation) (reason : Reason) (cents : Option ℕ) (st : Option PaymentStatus)
      (db db' : Database) (result : Outcome)
      → ((b : Bool) → is_stripe_session_paid st ≡ b → Says b)
      → event_status reason ≡ some event_manual_review
      → reject_stripe_finalization r session reason cents st db ≡ ok (result, db')
      → Ending r db result db'
  unfolding reject_stripe_finalization
  reject-Ending r reason cents st db db' result says m e =
      elim (Bool-cases (is_stripe_session_paid st)) [
        | inl y ↦ reviews reason none cents (says true y) m (ground arith)
        | inr n ↦
            declines reason (says false n) (not_finalized reason m) (ground arith) (ground arith)
      ]

  concurrent-Ending :
      (r : Reservation) (db db' : Database) (result found : Outcome)
      → resolve_concurrent_finalization_result r session db ≡ some found
      → (result ≡ found) × (db' ≡ db)
      → Ending r db result db'
  unfolding resolve_concurrent_finalization_result
  concurrent-Ending r db db' result found c (e, same) =
      repeats (ground arith) same (concurrent_found r session db found c)

  overlap-Ending :
      (r : Reservation) (cents : Option ℕ) (st : Option PaymentStatus) (x : FinalizeError)
      (db db' : Database) (result : Outcome)
      → Says true
      → handle_finalization_overlap x r session o cents st db ≡ ok (result, db')
      → Ending r db result db'
  unfolding handle_finalization_overlap event_status
  overlap-Ending r cents st x db db' result says e =
      elim (Option-cases (resolve_concurrent_finalization_result r session db)) [
        | inr (found, c) ↦ concurrent-Ending r db db' result found c (ground arith, ground arith)
        | inl n ↦
            reviews overlap_after_payment (first_of o.payment_intent r.stripe_payment_intent_id)
              cents says refl (ground arith)
      ]

  pub expired-Ending :
      (r : Reservation) (cents : Option ℕ) (db db' : Database) (result : Outcome)
      → Says true
      → finalize_paid_expired_hold retrieve s r session o cents db ≡ ok (result, db')
      → Ending r db result db'
  unfolding finalize_paid_expired_hold
  expired-Ending r cents db db' result says e =
      elim (Result-cases (attempt s r session o cents db)) [
        | inl (x, a) ↦ books cents says (ground arith) (ground arith)
        | inr (x, a) ↦ elim (Result-cases (resolve_stripe_payment_status retrieve session o)) [
          | inr (y, b) ↦ absurd (ground arith)
          | inl (st, b) ↦ overlap-Ending r cents st x db db' result says (ground arith)
        ]
      ]

  pub active-Ending :
      (r : Reservation) (cents : Option ℕ) (st : Option PaymentStatus) (db db' : Database)
      (result : Outcome)
      → Says true
      → book_active_hold s r session o cents st db ≡ ok (result, db')
      → Ending r db result db'
  unfolding book_active_hold
  active-Ending r cents st db db' result says e =
      elim (Result-cases (attempt s r session o cents db)) [
        | inl (x, a) ↦ books cents says (ground arith) (ground arith)
        | inr (x, a) ↦ overlap-Ending r cents st x db db' result says (ground arith)
      ]
