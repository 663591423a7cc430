-- ===== src/StatusChange/Examples.antt =====
-- The theorems on changes of status at a concrete database, and tests.
use rent_a_car_v.Base.{◌≡◌, refl, ◌⊎◌, true, false, none, some, [], ◌∷◌, arith, ok, err}
use rent_a_car_v.Text.{codes}
use rent_a_car_v.Lifecycle.{
  Status, confirmed, paid, refunded, manual_review, car_prepared, picked_up, includes,
  can_transition, assert_transition, is_valid_status,
}
use rent_a_car_v.Refund.Policy.{is_allowed_during_pending_refund}
use rent_a_car_v.Refund.Ledger.{
  RefundOperation, Ledger, pending, new_operation, find_active_by_reservation_id,
}
use rent_a_car_v.Database.{
  Database, Reservation, HistoryRow, Car, CarStatus, Block, find_by_id_for_update,
}
use rent_a_car_v.Bookings.{remove_range, resolve_stored_date_range}
use rent_a_car_v.Fleet.{sync_car_status_from_reservation}
use rent_a_car_v.StatusChange.{
  Change, ActorType, change_status, refund_in_progress, apply_status_change, write_change,
  change_status_core, change_locked, refund_blocks, perform, releases, release_dates,
  soft_delete_order_for_reservation,
}
use rent_a_car_v.StatusChange.Recorded.{IsRecorded, change_status-IsRecorded}
use rent_a_car_v.StatusChange.Guarded.{pending_refund_holds, refunded_keeps_cars}

abbrev pub booking : Status → Reservation
booking s = record {
  id = 7;
  car_id = 3;
  session_id = 11;
  status = s;
  pickup_date = 1000;
  return_date = 5000;
  total_price = 9000;
  hold_expires_at = 0;
  stripe_session_id = some 5;
  stripe_payment_intent_id = some 70;
  paid_amount_cents = some 9000;
}

abbrev pub step_row : Status → Status → HistoryRow
step_row old new = record {
  reservation_id = 7;
  old_status = some old;
  new_status = new;
  changed_by_user_id = none;
  changed_by_system = true;
}

abbrev pub reserved_car : Car
reserved_car = record {
  id = 3;
  status = CarStatus.reserved;
  availability = true;
  is_deleted = false;
}

abbrev pub block : Block
block = record { id = 1; car_id = 3; start_date = 1000; end_date = 5000 }

-- A confirmed booking, its car and its dates.
abbrev pub with_ledger : Ledger → Database
with_ledger l = record {
  reservations = booking confirmed ∷ [];
  history = step_row paid confirmed ∷ [];
  cars = reserved_car ∷ [];
  blocks = block ∷ [];
  orders = [];
  refunds = l;
}

abbrev pub refund_open : RefundOperation
refund_open = new_operation 7 none 70 9000 pending (codes "refund:reservation:7:full") 1

abbrev pub open_ledger : Ledger
open_ledger = record { next_id = 2; ops = refund_open ∷ [] }

abbrev pub to : Status → Change
to s = record {
  reservation_id = 7;
  new_status = s;
  actor = ActorType.system;
  user_id = none;
  patch = none;
}

-- The booking is refunded: its dates are free, its car stays reserved.
abbrev pub after_refund : Ledger → Database
after_refund l = record {
  reservations = booking refunded ∷ [];
  history = step_row paid confirmed ∷ step_row confirmed refunded ∷ [];
  cars = reserved_car ∷ [];
  blocks = [];
  orders = [];
  refunds = l;
}

picked_up_refused : change_status (to picked_up) (with_ledger open_ledger) ≡ err refund_in_progress
unfolding change_status change_status_core change_locked refund_blocks find_by_id_for_update
    find_active_by_reservation_id is_allowed_during_pending_refund
picked_up_refused = refl

pub refunding :
    (l : Ledger) → change_status (to refunded) (with_ledger l) ≡ ok (true, after_refund l)
unfolding change_status change_status_core change_locked refund_blocks find_by_id_for_update
    is_allowed_during_pending_refund assert_transition can_transition perform write_change
    apply_status_change sync_car_status_from_reservation release_dates releases remove_range
    resolve_stored_date_range soft_delete_order_for_reservation
refunding l = ground arith

confirmed-IsRecorded : IsRecorded (with_ledger open_ledger)
unfolding can_transition is_valid_status
confirmed-IsRecorded = record {
  current = λ i r f. ground arith;
  known = λ i r f. ground arith;
  allowed = (refl, tt);
}

change_status-IsRecorded_example : IsRecorded (after_refund open_ledger)
change_status-IsRecorded_example =
    change_status-IsRecorded (to refunded) (with_ledger open_ledger) (after_refund open_ledger) true
      confirmed-IsRecorded (refunding open_ledger)

refund_is_open : find_active_by_reservation_id 7 open_ledger ≡ some refund_open
unfolding find_active_by_reservation_id
refund_is_open = refl

pending_refund_holds_example :
    (refunded ≡ confirmed)
    ⊎ (includes (refunded ∷ paid ∷ manual_review ∷ confirmed ∷ car_prepared ∷ []) refunded ≡ true)
pending_refund_holds_example =
    pending_refund_holds (to refunded) (with_ledger open_ledger) (after_refund open_ledger) true
      refund_open (booking confirmed) (booking refunded) refund_is_open refl (refunding open_ledger)
      refl refl

refunded_keeps_cars_example : (after_refund open_ledger).cars ≡ (with_ledger open_ledger).cars
refunded_keeps_cars_example =
    refunded_keeps_cars (to refunded) (with_ledger open_ledger) (after_refund open_ledger) true refl
      (refunding open_ledger)
