-- ===== src/Lifecycle.antt =====
-- backend/src/domain/reservationStatus.js: the statuses of a reservation and the transitions
-- between them.
pub mod Graph
mod Examples
use rent_a_car_v.Base.{
  ℕ, ◌+◌, Bool, true, false, ◌||◌, not, Option, none, some, List, [], ◌∷◌, any, ◌==◌, if◌then◌else◌,
  Result, ok, err,
}

-- A status is a string of the source. Each known string is a constructor; any other string is
-- `unknown n`, for its number n in some enumeration of the other strings.
pub data Status : Type 0 where
  pending_payment processing_payment paid confirmed car_prepared picked_up active_rental : Status
  returned completed cancelled no_show expired manual_review refunded : Status
  unknown : ℕ → Status

abbrev pub rank : Status → ℕ
rank pending_payment = 0
rank processing_payment = 1
rank paid = 2
rank confirmed = 3
rank car_prepared = 4
rank picked_up = 5
rank active_rental = 6
rank returned = 7
rank completed = 8
rank cancelled = 9
rank no_show = 10
rank expired = 11
rank manual_review = 12
rank refunded = 13
rank (unknown n) = 14 + n

-- `===` on statuses.
abbrev pub same : Status → Status → Bool
same a b = rank a == rank b

abbrev pub includes : List Status → Status → Bool
includes l s = any (λ x. same x s) l

abbrev pub reservation_statuses : List Status
reservation_statuses =
    pending_payment ∷ processing_payment ∷ paid ∷ confirmed ∷ car_prepared ∷ picked_up
    ∷ active_rental ∷ returned ∷ completed ∷ cancelled ∷ no_show ∷ expired ∷ manual_review
    ∷ refunded ∷ []

abbrev pub active_hold_statuses : List Status
active_hold_statuses = pending_payment ∷ processing_payment ∷ []

abbrev pub terminal_statuses : List Status
terminal_statuses = completed ∷ cancelled ∷ expired ∷ no_show ∷ refunded ∷ []

-- The table TRANSITIONS; a status outside it has no edge.
unfoldable pub transitions : Status → List Status
transitions pending_payment = processing_payment ∷ expired ∷ cancelled ∷ []
transitions processing_payment = paid ∷ pending_payment ∷ expired ∷ cancelled ∷ manual_review ∷ []
transitions paid = confirmed ∷ manual_review ∷ refunded ∷ cancelled ∷ []
transitions manual_review = confirmed ∷ refunded ∷ cancelled ∷ []
transitions confirmed = car_prepared ∷ cancelled ∷ no_show ∷ refunded ∷ []
transitions car_prepared = picked_up ∷ cancelled ∷ no_show ∷ refunded ∷ []
transitions picked_up = active_rental ∷ returned ∷ []
transitions active_rental = returned ∷ []
transitions returned = completed ∷ []
transitions completed = []
transitions cancelled = manual_review ∷ []
transitions expired = paid ∷ manual_review ∷ []
transitions no_show = []
transitions refunded = []
transitions (unknown n) = []

unfoldable pub is_valid_status : Status → Bool
is_valid_status s = includes reservation_statuses s

unfoldable pub is_hold_status : Status → Bool
is_hold_status s = includes active_hold_statuses s

unfoldable pub is_terminal : Status → Bool
is_terminal s = includes terminal_statuses s

unfoldable pub is_ops_lifecycle_status : Status → Bool
is_ops_lifecycle_status s =
    includes (confirmed ∷ car_prepared ∷ picked_up ∷ active_rental ∷ returned ∷ completed ∷ []) s

-- `none` is a null or undefined `fromStatus`.
unfoldable pub can_transition : Option Status → Status → Bool
unfolding is_valid_status transitions
can_transition none to = same to pending_payment || same to confirmed
can_transition (some from) to =
    if not (is_valid_status from) || not (is_valid_status to)
    then false
    else if same from to
    then true
    else includes (transitions from) to

-- `fromStatus === toStatus`, which a null never meets.
abbrev pub same_as : Option Status → Status → Bool
same_as none to = false
same_as (some from) to = same from to

-- INVALID_STATUS_TRANSITION, with the two statuses that the error carries.
pub data TransitionError : Type 0 where
  invalid_status_transition : Option Status → Status → TransitionError

unfoldable pub assert_transition : Option Status → Status → Result TransitionError (Unit {0})
unfolding can_transition
assert_transition from to =
    if same_as from to
    then ok tt
    else if not (can_transition from to)
    then err (invalid_status_transition from to)
    else ok tt
