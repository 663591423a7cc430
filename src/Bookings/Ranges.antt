-- ===== src/Bookings/Ranges.antt =====
-- The writes to a car's calendar: `purgeExpired`, `addRange`, `updateRange` and `moveRange` of
-- backend/src/services/sql/bookingSyncSqlService.js, under the exclusion constraint of
-- backend/sql/schema/010_car_date_blocks_exclusion.sql. The id of a new row, the time and the
-- reservations are arguments; kind, reason and author of a block are left out.
use rent_a_car_v.Base.{
  ℕ, ◌+◌, Bool, true, not, ◌&&◌, ◌||◌, Option, none, some, List, [], ◌∷◌, ◌++◌, any, keep,
  update_where, max, ltb, leb, ◌==◌, if◌then◌else◌, Result, ok, err, guard, ◌>>=◌, ◌>>◌,
}
use rent_a_car_v.Lifecycle.{Status, picked_up, active_rental, same}
use rent_a_car_v.Database.{Block, Reservation, overlaps}
use rent_a_car_v.Bookings.{remove_range}

pub data CalendarError : Type 0 where
  invalid_car invalid_range overlap transaction_aborted : CalendarError

abbrev pub open_physical : Status → Bool
open_physical s = same s picked_up || same s active_rental

-- `openPhysicalRentalOverlapSql`.
unfoldable pub open_rental : List Reservation → Block → Bool
open_rental rows b =
    any
      (λ (r : Reservation).
        r.car_id == b.car_id && (open_physical r.status && overlaps r.pickup_date r.return_date b))
      rows

-- `none` stands for all cars.
abbrev pub in_scope : Option ℕ → Block → Bool
in_scope none b = true
in_scope (some car_id) b = b.car_id == car_id

-- Two rows that `no_overlapping_car_blocks` does not let stand beside each other; a range without
-- an instant overlaps nothing.
abbrev pub clashes : Block → Block → Bool
clashes a b =
    a.car_id == b.car_id
    && (ltb a.start_date a.end_date
        && (ltb b.start_date b.end_date
            && (ltb a.start_date b.end_date && ltb b.start_date a.end_date)))

unfoldable pub apart : List Block → Bool
apart [] = true
apart (b ∷ bs) = not (any (clashes b) bs) && apart bs

abbrev pub extended : ℕ → Block → Block
extended now b = record b { end_date = max b.end_date (now + 1000) }

abbrev pub extended_rows : Option ℕ → ℕ → List Reservation → List Block → List Block
extended_rows scope now rows blocks =
    update_where (λ b. in_scope scope b && open_rental rows b) (extended now) blocks

-- The UPDATE fails where an extended block runs into another one.
unfoldable pub extend_open_physical_rental_blocks :
    Option ℕ → ℕ → List Reservation → List Block → Result CalendarError (List Block)
extend_open_physical_rental_blocks scope now rows blocks =
    if apart (extended_rows scope now rows blocks)
    then ok (extended_rows scope now rows blocks)
    else err overlap

-- `MAX(r.return_date)` over the closed rentals that are over and that the block overlaps; 0 for none.
unfoldable pub clamp_end : ℕ → List Reservation → Block → ℕ
clamp_end now [] b = 0
clamp_end now (r ∷ rows) b =
    let rest = clamp_end now rows b in
    if r.car_id == b.car_id
      && (not (open_physical r.status)
          && (leb r.return_date now && overlaps r.pickup_date r.return_date b))
    then max r.return_date rest
    else rest

abbrev pub clamped : ℕ → List Reservation → Block → Bool
clamped now rows b = ltb 0 (clamp_end now rows b) && ltb (clamp_end now rows b) b.end_date

unfoldable pub clamp_closed_physical_rental_blocks :
    Option ℕ → ℕ → List Reservation → List Block → List Block
clamp_closed_physical_rental_blocks scope now rows blocks =
    update_where (λ b. in_scope scope b && (not (open_rental rows b) && clamped now rows b))
      (λ b. record b { end_date = clamp_end now rows b }) blocks

unfoldable pub delete_expired : Option ℕ → ℕ → List Reservation → List Block → List Block
delete_expired scope now rows blocks =
    keep (λ b. not (in_scope scope b && (leb b.end_date now && not (open_rental rows b)))) blocks

abbrev pub purge_rows : Option ℕ → ℕ → List Reservation → List Block → List Block
purge_rows scope now rows blocks =
    delete_expired scope now rows (clamp_closed_physical_rental_blocks scope now rows blocks)

-- An overlap of the extension is caught. `in_transaction` says whether the failed statement makes
-- the later ones of the same connection fail.
unfoldable pub purge_expired :
    Bool → Option ℕ → ℕ → List Reservation → List Block → Result CalendarError (List Block)
purge_expired in_transaction scope now rows blocks =
    elim (extend_open_physical_rental_blocks scope now rows blocks) [
      | ok longer ↦ ok (purge_rows scope now rows longer)
      | err _ ↦
          if in_transaction then err transaction_aborted else ok (purge_rows scope now rows blocks)
    ]

abbrev pub taken : ℕ → ℕ → ℕ → List Block → Bool
taken car_id start end blocks = any (λ b. b.car_id == car_id && overlaps start end b) blocks

unfoldable pub assert_no_overlap : ℕ → ℕ → ℕ → List Block → Result CalendarError (Unit {0})
assert_no_overlap car_id start end blocks =
    if taken car_id start end blocks then err overlap else ok tt

abbrev pub new_block : ℕ → ℕ → ℕ → ℕ → Block
new_block id car_id start end = record {
  id = id;
  car_id = car_id;
  start_date = start;
  end_date = end;
}

unfoldable pub insert_date_block : ℕ → ℕ → ℕ → ℕ → List Block → Result CalendarError (List Block)
insert_date_block id car_id start end blocks =
    if any (clashes (new_block id car_id start end)) blocks
    then err overlap
    else ok (blocks ++ (new_block id car_id start end ∷ []))

-- Checked, then written: the last two steps of each way to book a range.
abbrev pub book : ℕ → ℕ → ℕ → ℕ → List Block → List Block → Result CalendarError (List Block)
book id car_id start end checked blocks = do
  assert_no_overlap car_id start end checked
  insert_date_block id car_id start end blocks

unfoldable pub add_range :
    Bool → ℕ → ℕ → List Reservation → ℕ → ℕ → ℕ → List Block → Result CalendarError (List Block)
add_range in_transaction id now rows car_id start end blocks = do
  guard (not (car_id == 0)) invalid_car
  guard (ltb start end) invalid_range
  purged ← purge_expired in_transaction (some car_id) now rows blocks
  book id car_id start end purged purged

unfoldable pub update_range :
    Bool
    → ℕ
    → ℕ
    → List Reservation
    → ℕ
    → ℕ
    → ℕ
    → ℕ
    → ℕ
    → List Block
    → Result CalendarError (List Block)
update_range in_transaction id now rows car_id prev_start prev_end start end blocks = do
  guard (not (car_id == 0)) invalid_car
  guard (ltb start end) invalid_range
  purged ← purge_expired in_transaction (some car_id) now rows blocks
  let rest = remove_range car_id prev_start prev_end purged
  book id car_id start end rest rest

unfoldable pub move_range :
    Bool
    → ℕ
    → ℕ
    → List Reservation
    → ℕ
    → ℕ
    → ℕ
    → ℕ
    → ℕ
    → ℕ
    → List Block
    → Result CalendarError (List Block)
move_range in_transaction id now rows prev_car_id car_id prev_start prev_end start end blocks = do
  guard (not (prev_car_id == 0 || car_id == 0)) invalid_car
  guard (ltb start end) invalid_range
  first ← purge_expired in_transaction (some prev_car_id) now rows blocks
  purged ← purge_expired in_transaction (some car_id) now rows first
  book id car_id start end purged (remove_range prev_car_id prev_start prev_end purged)
