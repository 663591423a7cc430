-- ===== src/Lifecycle/Graph.antt =====
-- The transitions of backend/src/domain/reservationStatus.js as a graph: what a reservation can
-- become, and what it must have been.
use rent_a_car_v.Base.{
  ◌≡◌, refl, ◌↔◌, ◌⊎◌, inl, inr, Bool, true, false, ◌||◌, some, List, [], ◌∷◌, any, arith,
  Bool-cases,
}
use rent_a_car_v.Lifecycle.{
  Status, pending_payment, processing_payment, paid, confirmed, car_prepared, picked_up,
  active_rental, returned, completed, cancelled, no_show, expired, manual_review, refunded, unknown,
  same, includes, can_transition, is_terminal,
}

pub same_iff : (a b : Status) → (same a b ≡ true) ↔ (a ≡ b)
same_iff a b = (ground arith, ground arith)

-- A way of a reservation from `s` to `t`; the list holds the statuses it was set to, last first.
pub data Trail (s : Status) : List Status → Status → Type 0 where
  start : Trail s [] s
  next :
      {l : List Status} {t u : Status}
      → Trail s l t
      → can_transition (some t) u ≡ true
      → Trail s (u ∷ l) u

-- A set of statuses that no transition leaves is never left.
pub Trail-closed :
    (p : Status → Bool)
    → ((t u : Status) → p t ≡ true → can_transition (some t) u ≡ true → p u ≡ true)
    → {s t : Status} {l : List Status} → p s ≡ true
    → Trail s l t
    → p t ≡ true
Trail-closed p keeps h start = h
Trail-closed p keeps h (next {t = t} {u = u} r c) = keeps t u (Trail-closed p keeps h r) c

-- A set that can be left only through `gate`: once outside, the way has passed through it.
pub Trail-gate :
    (p gate : Status → Bool)
    → ((t u : Status)
        → p t ≡ true
        → can_transition (some t) u ≡ true
        → (p u ≡ true) ⊎ (gate u ≡ true))
    → {s t : Status} {l : List Status} → p s ≡ true
    → Trail s l t
    → (p t ≡ true) ⊎ (any gate l ≡ true)
Trail-gate p gate keeps h start = inl h
Trail-gate p gate keeps h (next {l = l} {t = t} {u = u} r c) = elim (Trail-gate p gate keeps h r) [
  | inr seen ↦ inr (elim (Bool-cases (gate u)) [ inl e ↦ rw e | inr e ↦ rw e seen ])
  | inl inside ↦ elim (keeps t u inside c) [ inl e ↦ inl e | inr e ↦ inr (rw e) ]
]

abbrev pub handed_over : Status → Bool
handed_over s = includes (picked_up ∷ active_rental ∷ returned ∷ completed ∷ []) s

handed_over_step :
    (t u : Status) → handed_over t ≡ true → can_transition (some t) u ≡ true → handed_over u ≡ true
unfolding can_transition
handed_over_step t u h c = ground arith

-- Once a car was picked up, the reservation only ever is picked up, active, returned or completed:
-- it is never cancelled, refunded, expired or put into manual review again.
pub picked_up_stays : {t : Status} {l : List Status} → Trail picked_up l t → handed_over t ≡ true
picked_up_stays r = Trail-closed handed_over handed_over_step refl r

-- What a reservation can be as long as it was never paid for nor reviewed by hand.
abbrev unpaid : Status → Bool
unpaid s = includes (pending_payment ∷ processing_payment ∷ expired ∷ cancelled ∷ []) s

-- What it can be before `confirmed`, and before `car_prepared`.
abbrev before_confirmed : Status → Bool
before_confirmed s = unpaid s || includes (paid ∷ manual_review ∷ refunded ∷ []) s

abbrev before_prepared : Status → Bool
before_prepared s = before_confirmed s || includes (confirmed ∷ no_show ∷ []) s

abbrev pub paid_or_reviewed : Status → Bool
paid_or_reviewed s = includes (paid ∷ manual_review ∷ []) s

unpaid_gate :
    (t u : Status)
    → unpaid t ≡ true
    → can_transition (some t) u ≡ true
    → (unpaid u ≡ true) ⊎ (paid_or_reviewed u ≡ true)
unfolding can_transition
unpaid_gate t u h c = ground arith

confirmed_gate :
    (t u : Status)
    → before_confirmed t ≡ true
    → can_transition (some t) u ≡ true
    → (before_confirmed u ≡ true) ⊎ (same u confirmed ≡ true)
unfolding can_transition
confirmed_gate t u h c = ground arith

prepared_gate :
    (t u : Status)
    → before_prepared t ≡ true
    → can_transition (some t) u ≡ true
    → (before_prepared u ≡ true) ⊎ (same u car_prepared ≡ true)
unfolding can_transition
prepared_gate t u h c = ground arith

handed_over-after : (t : Status) → before_prepared t ≡ true → handed_over t ≡ false
handed_over-after t h = ground arith

handed_over-unpaid : (t : Status) → unpaid t ≡ true → handed_over t ≡ false
handed_over-unpaid t h = ground arith

confirmed_before_prepared : (t : Status) → handed_over t ≡ true → before_confirmed t ≡ false
confirmed_before_prepared t h = ground arith

-- A hold that began in `pending_payment` comes to the handover of the car only when it was confirmed and
-- the car was prepared: every way from `pending_payment` to one of `picked_up`, `active_rental`,
-- `returned` and `completed` passes through `confirmed`, through `car_prepared`, and through `paid` or
-- `manual_review`.
pub handed_over_needs_confirmation :
    {t : Status} {l : List Status}
    → Trail pending_payment l t
    → handed_over t ≡ true
    → (includes l confirmed ≡ true)
      × (includes l car_prepared ≡ true)
      × (any paid_or_reviewed l ≡ true)
handed_over_needs_confirmation {t} {l} r h = (
  elim (Trail-gate before_confirmed (λ x. same x confirmed) confirmed_gate refl r) [
    | inl early ↦ cc (confirmed_before_prepared t h)
    | inr seen ↦ seen
  ],
  elim (Trail-gate before_prepared (λ x. same x car_prepared) prepared_gate refl r) [
    | inl early ↦ cc (handed_over-after t early)
    | inr seen ↦ seen
  ],
  elim (Trail-gate unpaid paid_or_reviewed unpaid_gate refl r) [
    | inl early ↦ cc (handed_over-unpaid t early)
    | inr seen ↦ seen
  ],
)

-- The terminal statuses from which nothing else follows.
abbrev final : Status → Bool
final s = includes (no_show ∷ refunded ∷ []) s

final_step : (t u : Status) → final t ≡ true → can_transition (some t) u ≡ true → final u ≡ true
unfolding can_transition
final_step t u h c = ground arith

final_not_completed : (s : Status) {l : List Status} → final s ≡ true → ¬ Trail s l completed
final_not_completed s h r = cc (Trail-closed final final_step h r)

reopened : Status → Bool
reopened s = includes (completed ∷ cancelled ∷ expired ∷ []) s

terminal_split : (s : Status) → is_terminal s ≡ true → (reopened s ≡ true) ⊎ (final s ≡ true)
unfolding is_terminal reopened
terminal_split s h = ground arith

reopened_way : (s : Status) → reopened s ≡ true → (l : List Status) × Trail s l completed
unfolding reopened can_transition
reopened_way completed h = ([], start)
reopened_way cancelled h = (
  completed ∷ returned ∷ picked_up ∷ car_prepared ∷ confirmed ∷ manual_review ∷ [],
  next (next (next (next (next (next start refl) refl) refl) refl) refl) refl,
)
reopened_way expired h = (
  completed ∷ returned ∷ picked_up ∷ car_prepared ∷ confirmed ∷ manual_review ∷ [],
  next (next (next (next (next (next start refl) refl) refl) refl) refl) refl,
)
reopened_way (unknown n) h = absurd (ground arith)
reopened_way _ h = cc

-- Of the statuses that `isTerminal` accepts, exactly `completed`, `cancelled` and `expired` can
-- still lead to a completed rental.
pub terminal_reopens_iff :
    (s : Status)
    → is_terminal s ≡ true
    → ((l : List Status) × Trail s l completed)
      ↔ (includes (completed ∷ cancelled ∷ expired ∷ []) s ≡ true)
unfolding reopened
terminal_reopens_iff s h = (
  λ way. elim (terminal_split s h) [
    | inl open_again ↦ open_again
    | inr stuck ↦ absurd (final_not_completed s stuck way.1)
  ],
  reopened_way s,
)
