-- ===== src/Finalization/Cases.antt =====
-- How each part of a finalization ends, down to the whole run.
use rent_a_car_v.Base.{
  ℕ, ◌≡◌, refl, ◌⊎◌, inl, inr, true, not, ◌&&◌, Option, some, none, arith, Bool-cases, Option-cases,
  Result-cases, ok,
}
use rent_a_car_v.Lifecycle.{is_hold_status, is_ops_lifecycle_status, same, cancelled}
use rent_a_car_v.Database.{Database, Reservation}
use rent_a_car_v.Payments.{
  Link, orphan_recovery, linked, validate_active_stripe_session_link,
  validate_stripe_payment_details, paid_snapshot_from_stripe_session,
  paid_snapshot_from_finalization_context, positive,
}
use rent_a_car_v.Finalization.{
  Retrieve, Options, CheckoutSession, PaymentStatus, is_stripe_session_paid,
  resolve_reservation_for_stripe_session, resolve_stripe_payment_status,
  resolve_stripe_checkout_session_details, find_order_by_stripe_session_id,
  find_order_by_reservation_id, Outcome, not_found, already_confirmed, hold_expired,
  status_not_active, payment_not_paid, paid_after_cancel, stale_stripe_session, payment_problem,
  Surroundings,
}
use rent_a_car_v.Finalization.Complete.{first_of, is_hold_expired}
use rent_a_car_v.Finalization.Review.{
  check_details, Checked, passed, rejected, validate_stripe_session_for_finalization,
}
use rent_a_car_v.Finalization.Core.{
  decide_by_status, decide, finalize_without_order, finalize_found, finalize_reservation_core,
}
use rent_a_car_v.Finalization.Webhook.{event_status}
use rent_a_car_v.Finalization.Earlier.{SessionOrder, Guarded, session_order, reservation_order}
use rent_a_car_v.Finalization.Ending.{
  Says, Ending, repeats, declines, reviews, reject-Ending, expired-Ending, active-Ending,
}

Link-cases :
    (l : Link)
    → ((active : ℕ) × (incoming : ℕ) × (l ≡ Link.stale_stripe_session active incoming))
      ⊎ (l ≡ orphan_recovery)
      ⊎ (l ≡ linked)
Link-cases orphan_recovery = inr (inl refl)
Link-cases linked = inr (inr refl)
Link-cases (Link.stale_stripe_session active incoming) = inl (active, incoming, refl)

module _ (retrieve : Retrieve) (s : Surroundings) (session : ℕ) (o : Options) where
  status-Ending :
      (r : Reservation) (cents : Option ℕ) (st : Option PaymentStatus) (db db' : Database)
      (result : Outcome)
      → resolve_stripe_payment_status retrieve session o ≡ ok st
      → decide_by_status retrieve s r session o cents st db ≡ ok (result, db')
      → Ending retrieve s session o r db result db'
  unfolding decide_by_status event_status
  status-Ending r cents st db db' result a e = elim (Bool-cases (is_stripe_session_paid st)) [
    | inr n ↦ elim (Bool-cases (is_hold_expired r s.now)) [
      | inl x ↦ declines hold_expired (inl (st, a, n)) refl (ground arith) (ground arith)
      | inr x ↦ elim (Bool-cases (o.require_active_status && not (is_hold_status r.status))) [
        | inl i ↦ declines status_not_active (inl (st, a, n)) refl (ground arith) (ground arith)
        | inr i ↦ declines payment_not_paid (inl (st, a, n)) refl (ground arith) (ground arith)
      ]
    ]
    | inl y ↦
        let says : Says retrieve s session o true = inl (st, a, y) in
        elim (Bool-cases (is_hold_expired r s.now)) [
          | inl x ↦ expired-Ending retrieve s session o r cents db db' result says (ground arith)
          | inr x ↦ elim (Bool-cases (o.require_active_status && not (is_hold_status r.status))) [
            | inr i ↦
                active-Ending retrieve s session o r cents st db db' result says (ground arith)
            | inl i ↦ elim (Bool-cases (same r.status cancelled)) [
              | inl c ↦
                  reviews paid_after_cancel (first_of o.payment_intent r.stripe_payment_intent_id)
                    cents says refl (ground arith)
              | inr c ↦
                  expired-Ending retrieve s session o r cents db db' result says (ground arith)
            ]
          ]
        ]
  ]

  details-Ending :
      (r : Reservation) (c : CheckoutSession) (db db' : Database) (result : Outcome)
      → resolve_stripe_checkout_session_details retrieve session o ≡ ok c
      → check_details r session c db ≡ rejected (ok (result, db'))
      → Ending retrieve s session o r db result db'
  unfolding event_status
  details-Ending r c db db' result a e =
      elim (Result-cases (validate_stripe_payment_details c.session r)) [
        | inl (u, v) ↦ absurd (ground arith)
        | inr (problem, v) ↦
            reject-Ending retrieve s session o r (payment_problem problem)
              (paid_snapshot_from_stripe_session (some c.session)) c.payment_status db db' result
              (λ b p. inr (c, a, p)) refl (ground arith)
      ]

  stale-Ending :
      (r : Reservation) (active incoming : ℕ) (db db' : Database) (result : Outcome)
      → validate_active_stripe_session_link r session ≡ Link.stale_stripe_session active incoming
      → validate_stripe_session_for_finalization retrieve r session o db
        ≡ rejected (ok (result, db'))
      → Ending retrieve s session o r db result db'
  unfolding validate_stripe_session_for_finalization event_status
  stale-Ending r active incoming db db' result l e =
      elim (Result-cases (resolve_stripe_payment_status retrieve session o)) [
        | inr (x, a) ↦ absurd (ground arith)
        | inl (st, a) ↦
            reject-Ending retrieve s session o r stale_stripe_session (positive o.amount_total) st
              db db' result (λ b p. inl (st, a, p)) refl (ground arith)
      ]

  fresh-Ending :
      (r : Reservation) (db db' : Database) (result : Outcome)
      → (validate_active_stripe_session_link r session ≡ orphan_recovery)
        ⊎ (validate_active_stripe_session_link r session ≡ linked)
      → validate_stripe_session_for_finalization retrieve r session o db
        ≡ rejected (ok (result, db'))
      → Ending retrieve s session o r db result db'
  unfolding validate_stripe_session_for_finalization
  fresh-Ending r db db' result l e =
      elim (Result-cases (resolve_stripe_checkout_session_details retrieve session o)) [
        | inr (x, a) ↦ absurd (ground arith)
        | inl (c, a) ↦ details-Ending r c db db' result a (ground arith)
      ]

  rejected-Ending :
      (r : Reservation) (db db' : Database) (result : Outcome)
      → validate_stripe_session_for_finalization retrieve r session o db
        ≡ rejected (ok (result, db'))
      → Ending retrieve s session o r db result db'
  rejected-Ending r db db' result e =
      elim (Link-cases (validate_active_stripe_session_link r session)) [
        | inl (active, incoming, l) ↦ stale-Ending r active incoming db db' result l e
        | inr l ↦ fresh-Ending r db db' result l e
      ]

  decide-Ending :
      (r : Reservation) (c : Checked) (db db' : Database) (result : Outcome)
      → validate_stripe_session_for_finalization retrieve r session o db ≡ c
      → decide retrieve s r session o c db ≡ ok (result, db')
      → Ending retrieve s session o r db result db'
  unfolding decide
  decide-Ending r (rejected x) db db' result v e = rejected-Ending r db db' result (ground arith)
  decide-Ending r (passed c) db db' result v e =
      elim (Result-cases (resolve_stripe_payment_status retrieve session o)) [
        | inr (x, a) ↦ absurd (ground arith)
        | inl (st, a) ↦
            status-Ending r
              (paid_snapshot_from_finalization_context o.amount_total (some c.session)) st db db'
              result a (ground arith)
      ]

  without_order-Ending :
      (r : Reservation) (db db' : Database) (result : Outcome)
      → finalize_without_order retrieve s r session o db ≡ ok (result, db')
      → Ending retrieve s session o r db result db' × Guarded r db
  unfolding finalize_without_order
  without_order-Ending r db db' result e =
      elim (Option-cases (find_order_by_reservation_id r.id db)) [
        | inr (order, f) ↦ (
          repeats (ground arith) (ground arith) (inl (inr (reservation_order r.id db order f))),
          inl (ground arith, reservation_order r.id db order f),
        )
        | inl f ↦ elim (Bool-cases (is_ops_lifecycle_status r.status)) [
          | inl y ↦ absurd (ground arith)
          | inr n ↦ (
            decide-Ending r (validate_stripe_session_for_finalization retrieve r session o db) db
                db' result refl (ground arith),
            inr (n, f),
          )
        ]
      ]

  -- A run that does not fail found no reservation and changed nothing, or an order that names the
  -- session, or else ended in one of the ways above.
  pub core-Ending :
      (db db' : Database) (result : Outcome)
      → finalize_reservation_core retrieve s session o db ≡ ok (result, db')
      → ((result.reason ≡ not_found)
          × (db' ≡ db)
          × (resolve_reservation_for_stripe_session session o s.now db ≡ none))
        ⊎ ((r : Reservation) × (resolve_reservation_for_stripe_session session o s.now db ≡ some r)
            × (((result.reason ≡ already_confirmed) × (db' ≡ db) × SessionOrder session db)
                ⊎ ((find_order_by_stripe_session_id session db ≡ none)
                    × Ending retrieve s session o r db result db'
                    × Guarded r db)))
  unfolding finalize_reservation_core finalize_found
  core-Ending db db' result e =
      elim (Option-cases (resolve_reservation_for_stripe_session session o s.now db)) [
        | inl n ↦ inl (ground arith, ground arith, n)
        | inr (r, n) ↦ elim (Option-cases (find_order_by_stripe_session_id session db)) [
          | inr (order, f) ↦
              inr (r, n, inl (ground arith, ground arith, session_order session db order f))
          | inl f ↦
              let (ending, guard) = without_order-Ending r db db' result (ground arith) in
              inr (r, n, inr (f, ending, guard))
        ]
      ]
