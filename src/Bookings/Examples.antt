-- ===== src/Bookings/Examples.antt =====
-- The theorems on the calendar at concrete blocks, and tests.
use rent_a_car_v.Base.{
  ℕ, ◌⊎◌, ◌&&◌, List, ◌≤◌, ◌≡◌, refl, true, false, none, some, [], ◌∷◌, any, count, ok, err, arith,
}
use rent_a_car_v.Lifecycle.{picked_up, completed, Status}
use rent_a_car_v.Database.{Block, Reservation}
use rent_a_car_v.Bookings.Ranges.{
  overlap, transaction_aborted, apart, extended_rows, extend_open_physical_rental_blocks, clamp_end,
  clamp_closed_physical_rental_blocks, delete_expired, purge_expired, open_rental, new_block,
  insert_date_block, assert_no_overlap, add_range,
}
use rent_a_car_v.Bookings.Runs.{Writes, here, and_then, adds, takes, booked_once}
use rent_a_car_v.Bookings.Calendar.{add_range_refines, calendar, within, with_range}
use rent_a_car_v.Bookings.Overdue.{is_open, purge_expired-is_open}

abbrev rental : Status → Reservation
rental s = record {
  id = 7;
  car_id = 3;
  session_id = 11;
  status = s;
  pickup_date = 1000;
  return_date = 5000;
  total_price = 9000;
  hold_expires_at = 0;
  stripe_session_id = none;
  stripe_payment_intent_id = none;
  paid_amount_cents = none;
}

abbrev first : Block
first = new_block 1 3 1000 5000

abbrev second : Block
second = new_block 2 3 6000 8000

added : add_range true 1 0 [] 3 1000 5000 [] ≡ ok (first ∷ [])
unfolding add_range purge_expired extend_open_physical_rental_blocks apart
    clamp_closed_physical_rental_blocks delete_expired assert_no_overlap insert_date_block
added = refl

-- At 9000 the car that is out since 1000 still has its block.
overdue :
    purge_expired true none 9000 (rental picked_up ∷ []) (first ∷ [])
    ≡ ok (new_block 1 3 1000 10_000 ∷ [])
unfolding purge_expired extend_open_physical_rental_blocks apart clamp_end open_rental
    clamp_closed_physical_rental_blocks delete_expired
overdue = refl

-- After the return the block is cut back and deleted.
returned_car : purge_expired true none 9000 (rental completed ∷ []) (first ∷ []) ≡ ok []
unfolding purge_expired extend_open_physical_rental_blocks apart clamp_end open_rental
    clamp_closed_physical_rental_blocks delete_expired
returned_car = refl

first-Writes : Writes [] (first ∷ [])
first-Writes = and_then here (adds true 1 0 [] 3 1000 5000 added)

booked_once_example : count (takes 3 2000) (first ∷ []) ≤ 1
booked_once_example = booked_once (first ∷ []) 3 2000 first-Writes

purged : purge_expired true (some 3) 0 [] (first ∷ []) ≡ ok (first ∷ [])
unfolding purge_expired extend_open_physical_rental_blocks apart clamp_closed_physical_rental_blocks
    delete_expired open_rental clamp_end
purged = refl

add_range_refines_example :
    ((add_range true 2 0 [] 3 2000 8000 (first ∷ []) ≡ err overlap)
      × (t : ℕ) × (within 2000 8000 t ≡ true)
      × (calendar (first ∷ []) 3 t ≡ true))
    ⊎ ((bs : List Block) × (add_range true 2 0 [] 3 2000 8000 (first ∷ []) ≡ ok bs)
        × ((t : ℕ) → calendar (first ∷ []) 3 t && within 2000 8000 t ≡ false)
        × (calendar bs ≡ with_range 3 2000 8000 (calendar (first ∷ []))))
add_range_refines_example =
    add_range_refines true 2 0 [] 3 2000 8000 (first ∷ []) (first ∷ []) (λ e. ground arith)
      (ground arith) purged refl

extension_clashes :
    apart (extended_rows (some 3) 6500 (rental picked_up ∷ []) (first ∷ second ∷ [])) ≡ false
unfolding apart open_rental
extension_clashes = refl

-- The next booking is in the way of an overdue car: nothing can be booked for this car in a transaction.
aborted :
    add_range true 3 6500 (rental picked_up ∷ []) 3 9000 9500 (first ∷ second ∷ [])
    ≡ err transaction_aborted
unfolding add_range purge_expired extend_open_physical_rental_blocks
aborted = ground (arith, extension_clashes)

first_open : any (is_open (rental picked_up ∷ []) 1) (first ∷ []) ≡ true
unfolding open_rental
first_open = refl

purge_expired-is_open_example :
    any (is_open (rental picked_up ∷ []) 1) (new_block 1 3 1000 10_000 ∷ []) ≡ true
purge_expired-is_open_example =
    purge_expired-is_open true none 9000 (rental picked_up ∷ []) 1 (first ∷ [])
      (new_block 1 3 1000 10_000 ∷ []) first_open overdue
