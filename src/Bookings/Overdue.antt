-- ===== src/Bookings/Overdue.antt =====
-- Booking a range once the calendar is purged, and what the purge does for cars that are out.
use rent_a_car_v.Base.{
  ℕ, ◌<◌, ◌≡◌, ◌≢◌, inl, inr, Bool, true, false, ◌&&◌, Option, some, List, [], ◌∷◌, ◌++◌, any, ◌==◌,
  if◌then◌else◌, ok, err, arith, Bool-cases, Result-cases,
}
use rent_a_car_v.Database.{Block, Reservation}
use rent_a_car_v.Bookings.Ranges.{
  overlap, extended_rows, extended, clamp_closed_physical_rental_blocks, delete_expired, purge_rows,
  purge_expired, taken, open_rental, new_block, insert_date_block, assert_no_overlap, add_range,
}
use rent_a_car_v.Bookings.Apart.{purge_expired_inversion, insert_free}

-- Once the calendar is purged, booking a valid range is refused as an overlap exactly if a block of
-- the car overlaps it, and else appends the new block: the exclusion constraint never refuses a row
-- that the check let through.
pub add_range_outcome :
    (in_transaction : Bool) (id now : ℕ) (rows : List Reservation) (car_id start end : ℕ)
    (bs purged : List Block)
    → car_id ≢ 0
    → start < end
    → purge_expired in_transaction (some car_id) now rows bs ≡ ok purged
    → add_range in_transaction id now rows car_id start end bs ≡ (
        if taken car_id start end purged
        then err overlap
        else ok (purged ++ (new_block id car_id start end ∷ [])))
unfolding add_range assert_no_overlap insert_date_block
add_range_outcome t id now rows car start end bs purged ne h p =
    elim (Bool-cases (taken car start end purged)) [
      | inl y ↦ ground arith
      | inr n ↦ ground (arith, insert_free id car start end purged h n)
    ]

-- The row with this id is there, and its rental is open.
abbrev pub is_open : List Reservation → ℕ → Block → Bool
is_open rows i b = b.id == i && open_rental rows b

extended_open :
    (now : ℕ) (rows : List Reservation) (b : Block)
    → open_rental rows b ≡ true
    → open_rental rows (extended now b) ≡ true
unfolding open_rental
extended_open now [] b h = h
extended_open now (r ∷ rows) b h = ground (arith, extended_open now rows b)

extended_rows-is_open :
    (scope : Option ℕ) (now : ℕ) (rows : List Reservation) (i : ℕ) (bs : List Block)
    → any (is_open rows i) bs ≡ true
    → any (is_open rows i) (extended_rows scope now rows bs) ≡ true
extended_rows-is_open scope now rows i [] h = h
extended_rows-is_open scope now rows i (b ∷ bs) h =
    ground (arith, extended_open now rows b, extended_rows-is_open scope now rows i bs)

clamp_closed-is_open :
    (scope : Option ℕ) (now : ℕ) (rows : List Reservation) (i : ℕ) (bs : List Block)
    → any (is_open rows i) bs ≡ true
    → any (is_open rows i) (clamp_closed_physical_rental_blocks scope now rows bs) ≡ true
unfolding clamp_closed_physical_rental_blocks
clamp_closed-is_open scope now rows i [] h = h
clamp_closed-is_open scope now rows i (b ∷ bs) h =
    ground (arith, clamp_closed-is_open scope now rows i bs)

delete_expired-is_open :
    (scope : Option ℕ) (now : ℕ) (rows : List Reservation) (i : ℕ) (bs : List Block)
    → any (is_open rows i) bs ≡ true
    → any (is_open rows i) (delete_expired scope now rows bs) ≡ true
unfolding delete_expired
delete_expired-is_open scope now rows i [] h = h
delete_expired-is_open scope now rows i (b ∷ bs) h =
    ground (arith, delete_expired-is_open scope now rows i bs)

purge_rows-is_open :
    (scope : Option ℕ) (now : ℕ) (rows : List Reservation) (i : ℕ) (bs : List Block)
    → any (is_open rows i) bs ≡ true
    → any (is_open rows i) (purge_rows scope now rows bs) ≡ true
purge_rows-is_open scope now rows i bs h =
    delete_expired-is_open scope now rows i (clamp_closed_physical_rental_blocks scope now rows bs)
      (clamp_closed-is_open scope now rows i bs h)

-- The purge keeps the block of every car that is out, however long its end is past, and the block
-- still belongs to the open rental.
pub purge_expired-is_open :
    (in_transaction : Bool) (scope : Option ℕ) (now : ℕ) (rows : List Reservation) (i : ℕ)
    (bs bs' : List Block)
    → any (is_open rows i) bs ≡ true
    → purge_expired in_transaction scope now rows bs ≡ ok bs'
    → any (is_open rows i) bs' ≡ true
purge_expired-is_open t scope now rows i bs bs' h e =
    elim (purge_expired_inversion t scope now rows bs bs' e) [
      | inl (_, same) ↦ rw same (
          purge_rows-is_open scope now rows i (extended_rows scope now rows bs)
            (extended_rows-is_open scope now rows i bs h))
      | inr same ↦ rw same (purge_rows-is_open scope now rows i bs h)
    ]

-- A range that was booked is not empty, no block of the purged calendar overlapped it, and its block
-- is the last one.
pub add_range_inversion :
    (t : Bool) (id now : ℕ) (rows : List Reservation) (car_id start end : ℕ) (bs bs' : List Block)
    → add_range t id now rows car_id start end bs ≡ ok bs'
    → (purged : List Block) × (start < end)
      × (purge_expired t (some car_id) now rows bs ≡ ok purged)
      × (taken car_id start end purged ≡ false)
      × (bs' ≡ purged ++ (new_block id car_id start end ∷ []))
unfolding add_range assert_no_overlap insert_date_block
add_range_inversion t id now rows car start end bs bs' h =
    elim (Result-cases (purge_expired t (some car) now rows bs)) [
      | inr (x, p) ↦ absurd (ground arith)
      | inl (purged, p) ↦ elim (Bool-cases (taken car start end purged)) [
        | inl y ↦ absurd (ground arith)
        | inr n ↦ (purged, ground arith, p, n, ground arith)
      ]
    ]
