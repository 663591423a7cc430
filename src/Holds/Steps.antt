-- ===== src/Holds/Steps.antt =====
-- Sequences of transactions on the reservations: holds are made, moved and expired, statuses change,
-- and payments are finalized.
use rent_a_car_v.Base.{ℕ, ◌≡◌, ◌≤◌, refl, Bool, false, Option, [], any, count, ok}
use rent_a_car_v.Database.{Database}
use rent_a_car_v.StatusChange.{Change, change_status}
use rent_a_car_v.StatusChange.Inversion.{has_id}
use rent_a_car_v.Finalization.{Retrieve, Surroundings, Options, Outcome}
use rent_a_car_v.Finalization.Core.{finalize_reservation_core}
use rent_a_car_v.Finalization.Complete.{system_change}
use rent_a_car_v.Finalization.Kept.{IsKept, core_keeps}
use rent_a_car_v.Holds.{Expiry, run_expiry}
use rent_a_car_v.Holds.Create.{
  HoldRequest, CreateResult, create_pending_reservation_with_availability_check,
}
use rent_a_car_v.Holds.Rehold.{ReholdResult, rehold_pending_reservation_with_availability_check}
use rent_a_car_v.Holds.Exclusive.{
  exclusive, holds_at, holds_of, exclusive-holds_at, exclusive-holds_of,
}
use rent_a_car_v.Holds.Allowed.{Allowed, run_expiry-Allowed, change_status-Allowed}
use rent_a_car_v.Holds.Created.{create-Allowed}
use rent_a_car_v.Holds.Moves.{rehold-Allowed}

-- A transaction that commits. The id of a new row is one that no row has.
pub data Step (db db' : Database) : Type 0 where
  creates :
      (id : ℕ) (exclude_session_id : Option ℕ) (h : HoldRequest) (result : CreateResult)
      → any (has_id id) db.reservations ≡ false
      → create_pending_reservation_with_availability_check id exclude_session_id h db
        ≡ ok (result, db')
      → Step db db'
  reholds :
      (h : HoldRequest) (result : ReholdResult)
      → rehold_pending_reservation_with_availability_check h db ≡ ok (result, db')
      → Step db db'
  expires : (x : Expiry) (now : ℕ) → run_expiry x now db ≡ db' → Step db db'
  changes : (c : Change) (changed : Bool) → change_status c db ≡ ok (changed, db') → Step db db'
  finalizes :
      (retrieve : Retrieve) (s : Surroundings) (session : ℕ) (o : Options) (result : Outcome)
      → finalize_reservation_core retrieve s session o db ≡ ok (result, db')
      → Step db db'

pub data Steps (db : Database) : Database → Type 0 where
  here : Steps db db
  and_then : {db1 db2 : Database} → Steps db db1 → Step db1 db2 → Steps db db2

pub Allowed-IsKept : IsKept Allowed
Allowed-IsKept = record {
  change = λ i t p db db' b f a e. change_status-Allowed (system_change i t p) db db' b a e;
  booking = λ s r car_id session blocks db a e. a;
}

Step-Allowed : {db db' : Database} → Step db db' → Allowed db → Allowed db'
Step-Allowed {db} {db'} (creates id ex h result fresh e) a =
    create-Allowed id ex h db db' result a fresh e
Step-Allowed {db} {db'} (reholds h result e) a = rehold-Allowed h db db' result a e
Step-Allowed {db} {db'} (expires x now e) a = rw e at (run_expiry-Allowed x now db a)
Step-Allowed {db} {db'} (changes c b e) a = change_status-Allowed c db db' b a e
Step-Allowed {db} {db'} (finalizes retrieve s session o result e) a =
    core_keeps Allowed-IsKept retrieve s session o db db' result a e

Steps-Allowed : {db db' : Database} → Steps db db' → Allowed db → Allowed db'
Steps-Allowed here a = a
Steps-Allowed (and_then steps step) a = Step-Allowed step (Steps-Allowed steps a)

-- Whatever transactions ran since there were no reservations: at every instant at most one payment hold
-- takes a car, and a session has at most one hold.
pub held_once :
    (db db' : Database) (car_id t session_id : ℕ)
    → db.reservations ≡ []
    → Steps db db'
    → (count (holds_at car_id t) db'.reservations ≤ 1)
      × (count (holds_of session_id) db'.reservations ≤ 1)
unfolding exclusive
held_once db db' car t session n steps =
    let (_, e) = Steps-Allowed steps (rw n refl, rw n refl) in
    (exclusive-holds_at car t db'.reservations e, exclusive-holds_of session db'.reservations e)
