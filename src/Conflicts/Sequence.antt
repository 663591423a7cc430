-- ===== src/Conflicts/Sequence.antt =====
-- The order with the next rental of the car.
use rent_a_car_v.Base.{
  ℕ, zero, suc, ◌≤◌, ◌≡◌, refl, inl, inr, Bool, true, false, Option, some, List, [], ◌∷◌, keep, any,
  arith, Option-cases,
}
use rent_a_car_v.Database.{Reservation, Block}
use rent_a_car_v.Conflicts.{
  Conflict, Schedule, Plan, ScheduledCar, check_reservation_range_conflicts, hold_conflicts,
  find_car, blocks_plan, block_conflicts, block_rows, status_conflicts, sequence_conflicts,
  next_pickup, expiry_conflicts, damage_conflicts, return_after_next_pickup, insurance_expired,
  insurance_expires_during, inspection_expired, inspection_expires_during,
}
use rent_a_car_v.Conflicts.Writable.{car_conflicts-parts, check_found}

abbrev pub is_after_next : Conflict → Bool
is_after_next c = elim c.code [ return_after_next_pickup ↦ true | other ↦ false ]

next_pickup_late :
    (p : Plan) (rs : List Reservation) (t : ℕ) → next_pickup p rs ≡ some t → p.end ≤ t
unfolding next_pickup
next_pickup_late p [] t e = absurd (ground arith)
next_pickup_late p (r ∷ rs) t e = elim (Option-cases (next_pickup p rs)) [
  | inl n ↦ ground arith
  | inr (u, k) ↦ ground (arith, next_pickup_late p rs u k)
]

sequence_never : (s : Schedule) (p : Plan) → any is_after_next (sequence_conflicts s p) ≡ false
unfolding sequence_conflicts
sequence_never s p = elim (Option-cases (next_pickup p s.reservations)) [
  | inl n ↦ rw n refl
  | inr (t, k) ↦ rw k (ground (arith, next_pickup_late p s.reservations t k))
]

block_rows_never : (n : ℕ) (bs : List Block) → any is_after_next (block_rows n bs) ≡ false
unfolding block_rows
block_rows_never zero bs = refl
block_rows_never (suc n) [] = refl
block_rows_never (suc n) (b ∷ bs) = block_rows_never n bs

other_parts_never :
    (s : Schedule) (p : Plan) (c : ScheduledCar)
    → (any is_after_next (status_conflicts c) ≡ false)
      × (any is_after_next (hold_conflicts s p) ≡ false)
      × (any is_after_next (block_conflicts s p) ≡ false)
      × (any is_after_next (damage_conflicts s c) ≡ false)
unfolding status_conflicts hold_conflicts block_conflicts damage_conflicts
other_parts_never s p c =
    (ground arith, ground arith, block_rows_never 5 (keep (blocks_plan p) s.blocks), ground arith)

expiry_never :
    (t : Option ℕ) (p : Plan)
    → (any is_after_next (expiry_conflicts t p insurance_expired insurance_expires_during) ≡ false)
      × (any is_after_next (expiry_conflicts t p inspection_expired inspection_expires_during)
          ≡ false)
unfolding expiry_conflicts
expiry_never t p = (ground arith, ground arith)

-- No check ever reports that the return is after the next pickup: the query looks for pickups from
-- the end on only.
pub never_after_next_pickup :
    (s : Schedule) (p : Plan) → any is_after_next (check_reservation_range_conflicts s p) ≡ false
unfolding check_reservation_range_conflicts
never_after_next_pickup s p = elim (Option-cases (find_car s p)) [
  | inl n ↦ ground arith
  | inr (c, f) ↦ rw (check_found s p c f) (
      ground (
        arith,
        car_conflicts-parts is_after_next s p c,
        sequence_never s p,
        other_parts_never s p c,
        expiry_never c.insurance_expiry p,
        expiry_never c.technical_inspection_expiry p,
      ))
]
