-- ===== src/Bookings/Calendar.antt =====
-- The calendar as its readers see it: which car is taken at which instant. Booking a range on the table
-- of blocks is adding it to this view.
use rent_a_car_v.Base.{
  ℕ, ◌<◌, ◌≡◌, ◌≢◌, ◌⊎◌, inl, inr, refl, Bool, true, false, not, ◌&&◌, ◌||◌, some, List, [], ◌∷◌,
  ◌++◌, any, ltb, leb, max, ◌==◌, ok, err, arith, Bool-cases,
}
use mathlib.Core.Path.{fun_ext}
use rent_a_car_v.Database.{Block, Reservation, overlaps}
use rent_a_car_v.Bookings.Ranges.{overlap, purge_expired, taken, new_block, add_range}
use rent_a_car_v.Bookings.Runs.{takes}
use rent_a_car_v.Bookings.Overdue.{add_range_outcome}

abbrev pub Calendar : Type 0
Calendar = ℕ → ℕ → Bool

-- The view of a table.
abbrev pub calendar : List Block → Calendar
calendar bs car_id t = any (takes car_id t) bs

abbrev pub within : ℕ → ℕ → ℕ → Bool
within start end t = leb start t && ltb t end

-- The abstract operation.
abbrev pub with_range : ℕ → ℕ → ℕ → Calendar → Calendar
with_range car_id start end c other t = c other t || (car_id == other && within start end t)

-- No row is empty: `start_date < end_date`.
abbrev pub no_empty : List Block → Bool
no_empty bs = not (any (λ (b : Block). leb b.end_date b.start_date) bs)

calendar-append :
    (bs : List Block) (b : Block) (other t : ℕ)
    → calendar (bs ++ (b ∷ [])) other t ≡ (calendar bs other t || takes other t b)
calendar-append [] b other t = ground arith
calendar-append (x ∷ xs) b other t = ground (arith, calendar-append xs b other t)

taken_instant :
    (car_id start end : ℕ) (bs : List Block)
    → start < end
    → no_empty bs ≡ true
    → taken car_id start end bs ≡ true
    → (t : ℕ) × (within start end t ≡ true) × (calendar bs car_id t ≡ true)
taken_instant car start end [] h n k = absurd (ground arith)
taken_instant car start end (b ∷ bs) h n k =
    elim (Bool-cases (b.car_id == car && overlaps start end b)) [
      | inl y ↦ (max start b.start_date, ground arith, ground arith)
      | inr m ↦
          let (t, i, c) = taken_instant car start end bs h (ground arith) (ground arith) in
          (t, i, ground arith)
    ]

free_instants :
    (car_id start end t : ℕ) (bs : List Block)
    → taken car_id start end bs ≡ false
    → calendar bs car_id t && within start end t ≡ false
free_instants car start end t [] k = refl
free_instants car start end t (b ∷ bs) k = ground (arith, free_instants car start end t bs)

add_view :
    (bs : List Block) (id car_id start end : ℕ)
    → calendar (bs ++ (new_block id car_id start end ∷ []))
      ≡ with_range car_id start end (calendar bs)
add_view bs id car start end =
    fun_ext λ other. fun_ext λ t. calendar-append bs (new_block id car start end) other t

-- Booking a range refines the abstract operation. From the purged table, which has no empty rows: either
-- the booking is refused as an overlap and the car is taken at an instant of the range; or it succeeds,
-- the car was free at each instant of the range, and what the new table shows is what the old one showed,
-- with the range added for this car.
pub add_range_refines :
    (in_transaction : Bool) (id now : ℕ) (rows : List Reservation) (car_id start end : ℕ)
    (bs purged : List Block)
    → car_id ≢ 0
    → start < end
    → purge_expired in_transaction (some car_id) now rows bs ≡ ok purged
    → no_empty purged ≡ true
    → ((add_range in_transaction id now rows car_id start end bs ≡ err overlap)
        × (t : ℕ) × (within start end t ≡ true)
        × (calendar purged car_id t ≡ true))
      ⊎ ((bs' : List Block) × (add_range in_transaction id now rows car_id start end bs ≡ ok bs')
          × ((t : ℕ) → calendar purged car_id t && within start end t ≡ false)
          × (calendar bs' ≡ with_range car_id start end (calendar purged)))
add_range_refines in_transaction id now rows car start end bs purged ne h p n =
    let how = add_range_outcome in_transaction id now rows car start end bs purged ne h p in
    elim (Bool-cases (taken car start end purged)) [
      | inl y ↦
          let (t, i, c) = taken_instant car start end purged h n y in inl (rw y at how, t, i, c)
      | inr m ↦ inr (
        purged ++ (new_block id car start end ∷ []),
        rw m at how,
        λ t. free_instants car start end t purged m,
        add_view purged id car start end,
      )
    ]
