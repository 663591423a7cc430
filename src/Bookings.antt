-- ===== src/Bookings.antt =====
-- The calendar of a car, the table car_date_blocks:
-- backend/src/services/sql/bookingSyncSqlService.js, and `extractStoredRange` of
-- backend/src/services/admin/order/orderMapper.js.
pub mod Ranges
pub mod Apart
pub mod Runs
pub mod Overdue
pub mod Calendar
mod Examples
use rent_a_car_v.Base.{
  ℕ, Bool, not, ◌&&◌, none, some, List, [], ◌∷◌, find, keep, leb, ◌==◌, if◌then◌else◌,
}
use rent_a_car_v.Database.{Block, overlaps}

-- `ORDER BY start_date ASC`; rows that start together keep their order.
insert_by_start : Block → List Block → List Block
insert_by_start b [] = b ∷ []
insert_by_start b (c ∷ cs) =
    if leb b.start_date c.start_date then b ∷ c ∷ cs else c ∷ insert_by_start b cs

sort_by_start : List Block → List Block
sort_by_start [] = []
sort_by_start (b ∷ bs) = insert_by_start b (sort_by_start bs)

unfoldable pub fetch_date_blocks_for_car : ℕ → List Block → List Block
unfolding sort_by_start insert_by_start
fetch_date_blocks_for_car car_id blocks =
    sort_by_start (keep (λ (b : Block). b.car_id == car_id) blocks)

-- The stored range of the first block that overlaps the given one, and else the given one.
unfoldable pub extract_stored_range : List Block → ℕ → ℕ → ℕ × ℕ
extract_stored_range blocks start end = elim (find (overlaps start end) blocks) [
  | some b ↦ (b.start_date, b.end_date)
  | none ↦ (start, end)
]

unfoldable pub resolve_stored_date_range : ℕ → ℕ → ℕ → List Block → ℕ × ℕ
unfolding fetch_date_blocks_for_car extract_stored_range
resolve_stored_date_range car_id start end blocks =
    extract_stored_range (fetch_date_blocks_for_car car_id blocks) start end

abbrev pub is_range : ℕ → ℕ → ℕ → Block → Bool
is_range car_id start end b = b.car_id == car_id && (b.start_date == start && b.end_date == end)

-- DELETE of the rows with exactly this range. A car id of 0 is no id.
unfoldable pub remove_range : ℕ → ℕ → ℕ → List Block → List Block
remove_range car_id start end blocks =
    if car_id == 0 then blocks else keep (λ b. not (is_range car_id start end b)) blocks
