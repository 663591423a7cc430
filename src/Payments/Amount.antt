-- ===== src/Payments/Amount.antt =====
-- The amount that is stored for a reservation.
use rent_a_car_v.Base.{
  ℕ, ◌≡◌, ◌≢◌, refl, sym, ◌∙◌, ◌⊎◌, inl, inr, Option, none, some, List, find, ◌==◌, ok, arith,
  Bool-cases, Option-cases,
}
use rent_a_car_v.Lifecycle.{Status}
use rent_a_car_v.Database.{Reservation}
use rent_a_car_v.StatusChange.{
  ReservationPatch, apply_status_change, patch_reservation, same_session,
}
use rent_a_car_v.StatusChange.Recorded.{has_id, find-update_where, apply_id}
use rent_a_car_v.Payments.{
  StripeSession, validate_stripe_payment_details, get_expected_stripe_amount_cents,
  paid_snapshot_from_stripe_session, paid_snapshot_from_finalization_context, paid_amount_patch,
  persist_paid_amount_if_needed, persist_payment_intent_if_needed, patch_rows, no_patch, is_paid,
}

validated_amount :
    (s : StripeSession) (r : Reservation)
    → validate_stripe_payment_details s r ≡ ok tt
    → s.amount_total ≡ some r.total_price
unfolding validate_stripe_payment_details get_expected_stripe_amount_cents
validated_amount s r e = elim (Option-cases s.amount_total) [
  | inl n ↦ absurd (ground arith)
  | inr (n, k) ↦ elim (Bool-cases (n == r.total_price)) [
    | inl y ↦ ground arith
    | inr w ↦ absurd (ground arith)
  ]
]

-- A payment that passes the check is stored with the price that was quoted: the change of status that
-- carries the session's amount sets the paid amount of a reservation without one to its total price,
-- whatever amount the context brings along.
pub paid_amount_is_price :
    (s : StripeSession) (r : Reservation) (context : Option ℕ) (new : Status)
    → validate_stripe_payment_details s r ≡ ok tt
    → r.total_price ≢ 0
    → r.paid_amount_cents ≡ none
    → (apply_status_change new
        (some (paid_amount_patch (paid_snapshot_from_finalization_context context (some s))))
        r).paid_amount_cents
      ≡ some r.total_price
unfolding apply_status_change patch_reservation paid_amount_patch
    paid_snapshot_from_finalization_context paid_snapshot_from_stripe_session
paid_amount_is_price s r context new e ne n =
    let a = validated_amount s r e in rw (a, n) (ground arith)

-- The same status and price, and the paid amount if there was one.
abbrev pub Kept : Reservation → Reservation → Type 0
Kept s t =
    (t.status ≡ s.status)
    × (t.total_price ≡ s.total_price)
    × ((s.paid_amount_cents ≡ none) ⊎ (t.paid_amount_cents ≡ s.paid_amount_cents))

patched-Kept :
    (q : Status) (p : ReservationPatch) (s : Reservation)
    → p.total_price ≡ none
    → s.status ≡ q
    → Kept s (apply_status_change q (some p) s)
unfolding apply_status_change patch_reservation
patched-Kept q p s h k = elim (Option-cases s.paid_amount_cents) [
  | inl n ↦ (sym k, ground arith, inl n)
  | inr (n, e) ↦ (sym k, ground arith, inr (ground arith))
]

module _ (r q : Reservation) (i : ℕ) (rows : List Reservation) (s : Reservation)
    (current : find (has_id r.id) rows ≡ some q) (same : q.status ≡ r.status)
    (found : find (has_id i) rows ≡ some s) where
  patch_rows_keeps :
      (p : ReservationPatch)
      → p.total_price ≡ none
      → (t : Reservation) × (find (has_id i) (patch_rows r p rows) ≡ some t) × Kept s t
  patch_rows_keeps p h =
      let f = apply_status_change r.status (some p) in
      let at = find-update_where r.id i f rows (apply_id r.status (some p)) in
      elim (Bool-cases (r.id == i)) [
        | inl y ↦
            let status : s.status ≡ r.status = ground arith in
            (f s, ground arith, patched-Kept r.status p s h status)
        | inr n ↦ (s, ground arith, (refl, refl, inr refl))
      ]

  persist_paid_amount_keeps :
      (cents : Option ℕ)
      → (t : Reservation) × (find (has_id i) (persist_paid_amount_if_needed r cents rows) ≡ some t)
        × Kept s t
  unfolding persist_paid_amount_if_needed
  persist_paid_amount_keeps cents = elim (Bool-cases (is_paid r.paid_amount_cents)) [
    | inl y ↦ (s, ground arith, (refl, refl, inr refl))
    | inr n ↦ elim (Bool-cases (is_paid cents)) [
      | inr w ↦ (s, ground arith, (refl, refl, inr refl))
      | inl w ↦
          let (t, e, k) = patch_rows_keeps (record no_patch { paid_amount_cents = cents }) refl in
          (t, ground arith, k)
    ]
  ]

  persist_payment_intent_keeps :
      (intent : ℕ)
      → (t : Reservation) × (find (has_id i) (persist_payment_intent_if_needed r intent rows)
          ≡ some t)
        × Kept s t
  unfolding persist_payment_intent_if_needed
  persist_payment_intent_keeps intent =
      elim (Bool-cases (same_session r.stripe_payment_intent_id (some intent))) [
        | inl y ↦ (s, ground arith, (refl, refl, inr refl))
        | inr n ↦
            let (t, e, k) =
              patch_rows_keeps (record no_patch { stripe_payment_intent_id = some (some intent) })
                refl in
            (t, ground arith, k)
      ]

paid_kept :
    (s t u : Reservation)
    → (s.paid_amount_cents ≡ none) ⊎ (t.paid_amount_cents ≡ s.paid_amount_cents)
    → (t.paid_amount_cents ≡ none) ⊎ (u.paid_amount_cents ≡ t.paid_amount_cents)
    → (s.paid_amount_cents ≡ none) ⊎ (u.paid_amount_cents ≡ s.paid_amount_cents)
paid_kept s t u (inl n) k = inl n
paid_kept s t u (inr e) (inl n) = inl (sym e ∙ n)
paid_kept s t u (inr e) (inr e') = inr (e' ∙ e)

-- Filling in the paid amount and the payment intent of a reservation that was read from the table
-- loses no row, changes no status and no price, and never replaces a paid amount that is there.
pub persist_keeps :
    (r : Reservation) (cents : Option ℕ) (intent i : ℕ) (rows : List Reservation) (s : Reservation)
    → find (has_id r.id) rows ≡ some r
    → find (has_id i) rows ≡ some s
    → (t : Reservation) × (find
          (has_id i)
          (persist_payment_intent_if_needed r intent (persist_paid_amount_if_needed r cents rows))
        ≡ some t)
      × Kept s t
persist_keeps r cents intent i rows s f g =
    let (t, e, (a, b, c)) = persist_paid_amount_keeps r r i rows s f refl g cents in
    let (q, m, (x, _, _)) = persist_paid_amount_keeps r r r.id rows r f refl f cents in
    let rows' = persist_paid_amount_if_needed r cents rows in
    let (u, v, (a', b', c')) = persist_payment_intent_keeps r q i rows' t m x e intent in
    (u, v, (a' ∙ a, b' ∙ b, paid_kept s t u c c'))
