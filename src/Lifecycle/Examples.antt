-- ===== src/Lifecycle/Examples.antt =====
-- The theorems on backend/src/domain/reservationStatus.js at concrete reservations, and tests.
use rent_a_car_v.Base.{◌≡◌, refl, ◌↔◌, true, false, none, List, [], ◌∷◌, any}
use rent_a_car_v.Lifecycle.{
  Status, pending_payment, processing_payment, paid, confirmed, car_prepared, picked_up, completed,
  cancelled, expired, includes, can_transition, is_terminal,
}
use rent_a_car_v.Lifecycle.Graph.{
  Trail, start, next, paid_or_reviewed, handed_over_needs_confirmation, terminal_reopens_iff,
}

new_row_test : can_transition none paid ≡ false
unfolding can_transition
new_row_test = refl

rental : List Status
rental = picked_up ∷ car_prepared ∷ confirmed ∷ paid ∷ processing_payment ∷ []

rental_way : Trail pending_payment rental picked_up
unfolding can_transition rental
rental_way = next (next (next (next (next start refl) refl) refl) refl) refl

handed_over_needs_confirmation_example :
    (includes rental confirmed ≡ true)
    × (includes rental car_prepared ≡ true)
    × (any paid_or_reviewed rental ≡ true)
handed_over_needs_confirmation_example = handed_over_needs_confirmation rental_way refl

terminal_reopens_iff_example :
    ((l : List Status) × Trail expired l completed)
    ↔ (includes (completed ∷ cancelled ∷ expired ∷ []) expired ≡ true)
unfolding is_terminal
terminal_reopens_iff_example = terminal_reopens_iff expired refl
