-- ===== src/Finalization/Booked.antt =====
-- What a booked payment leaves in the tables.
use rent_a_car_v.Base.{
  ℕ, ◌≡◌, ◌<◌, ◌∙◌, refl, sym, true, false, Option, some, none, List, [], ◌∷◌, ◌++◌, find, arith,
  ok,
}
use rent_a_car_v.Lifecycle.{paid, confirmed}
use rent_a_car_v.Database.{Database, Reservation, Block}
use rent_a_car_v.Bookings.Ranges.{taken, new_block}
use rent_a_car_v.Bookings.Overdue.{add_range_inversion}
use rent_a_car_v.StatusChange.{apply_status_change, patch_reservation}
use rent_a_car_v.StatusChange.Inversion.{has_id}
use rent_a_car_v.StatusChange.Quiet.{patched_row, unpatched_row}
use rent_a_car_v.Finalization.{Surroundings, Options, find_by_id}
use rent_a_car_v.Finalization.Complete.{
  first_of, system_change, payment_patch, new_order, book_paid,
}
use rent_a_car_v.Finalization.Review.{attempt}
use rent_a_car_v.Finalization.Inversion.{
  with_booking, has_order, book_paid_inversion, complete_inversion,
}

find-has_id :
    (i : ℕ) (rows : List Reservation) (r : Reservation) → find (has_id i) rows ≡ some r → r.id ≡ i
find-has_id i [] r h = absurd (ground arith)
find-has_id i (x ∷ xs) r h = ground (arith, find-has_id i xs r)

-- The reservation is confirmed under the session; there was no order of it and there is one now; its
-- dates are taken by a block of their own, and no other block of the car overlapped them.
pub record IsBooked (s : Surroundings) (i car_id session : ℕ) (db db' : Database) : Type 0 where
  pub row : Reservation
  pub found : find (has_id i) db'.reservations ≡ some row
  pub status : row.status ≡ confirmed
  pub linked : row.stripe_session_id ≡ some session
  pub no_order : has_order i db.orders ≡ false
  pub orders : db'.orders ≡ db.orders ++ (new_order s.order_id row car_id session ∷ [])
  pub dates : row.pickup_date < row.return_date
  pub others : List Block
  pub free : taken car_id row.pickup_date row.return_date others ≡ false
  pub blocks :
      db'.blocks ≡ others ++ (new_block s.block_id car_id row.pickup_date row.return_date ∷ [])

book_paid-IsBooked :
    (s : Surroundings) (r : Reservation) (i car_id session : ℕ) (db db' : Database)
    → r.id ≡ i
    → r.stripe_session_id ≡ some session
    → find (has_id i) db.reservations ≡ some r
    → book_paid s r car_id session db ≡ ok db'
    → IsBooked s i car_id session db db'
book_paid-IsBooked s r i car session db db' same link f e =
    let (blocks, added, n, b, changed) = book_paid_inversion s r car session db db' e in
    let (bs, os, x, before, after) =
      unpatched_row (system_change r.id confirmed none) (with_booking s r car session blocks db) db'
        b refl refl changed in
    let (others, dates, _, free, bl) =
      add_range_inversion true s.block_id s.now db.reservations car r.pickup_date r.return_date
        db.blocks blocks added in
    record {
      row = record r { status = confirmed };
      found = ground (arith, after, before, same, f);
      status = refl;
      linked = link;
      no_order = rw (sym same) n;
      orders = os;
      dates = dates;
      others = others;
      free = free;
      blocks = bs ∙ bl;
    }

same_orders :
    (s : Surroundings) (i car_id session : ℕ) (db before db' : Database)
    → db.orders ≡ before.orders
    → IsBooked s i car_id session db db'
    → IsBooked s i car_id session before db'
same_orders s i car session db before db' e b = record {
  row = b.row;
  found = b.found;
  status = b.status;
  linked = b.linked;
  no_order = rw e at b.no_order;
  orders = rw e at b.orders;
  dates = b.dates;
  others = b.others;
  free = b.free;
  blocks = b.blocks;
}

linked_row :
    (session now : ℕ) (intent cents : Option ℕ) (o : Option Reservation) (r x : Reservation)
    → o ≡ some r
    → o ≡ some (apply_status_change paid (some (payment_patch session now intent cents)) x)
    → r.stripe_session_id ≡ some session
unfolding apply_status_change patch_reservation payment_patch
linked_row session now intent cents o r x e f = ground arith

-- An attempt that succeeds.
pub attempt-IsBooked :
    (s : Surroundings) (r : Reservation) (session : ℕ) (o : Options) (cents : Option ℕ)
    (db db' : Database)
    → attempt s r session o cents db ≡ ok db'
    → IsBooked s r.id r.car_id session db db'
unfolding find_by_id
attempt-IsBooked s r session o cents db db' e =
    let intent = first_of o.payment_intent r.stripe_payment_intent_id in
    let (b, marked, r', changed, there, booked) =
      complete_inversion s r session intent cents db db' e in
    let patch = payment_patch session s.now (first_of intent r.stripe_payment_intent_id) cents in
    let (bs, os, x, before, after) =
      patched_row (system_change r.id paid (some patch)) db marked b refl refl changed in
    let i =
      book_paid-IsBooked s r' r.id r.car_id session marked db'
        (find-has_id r.id marked.reservations r' there)
        (linked_row session s.now (first_of intent r.stripe_payment_intent_id) cents _ r' x there
          after)
        there booked in
    same_orders s r.id r.car_id session marked db db' os i
