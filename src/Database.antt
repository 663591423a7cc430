-- ===== src/Database.antt =====
-- The tables that the services share, with the columns that the code reads or writes when it decides:
-- backend/sql/schema/006_reservations.sql, 017_reservation_status_history.sql, 002_cars.sql,
-- 003_car_date_blocks.sql and 007_orders.sql. Times are milliseconds since 1970, amounts are cents,
-- and a string that is only compared (a session, an id of the provider) is a number. Contact data,
-- locations, snapshots and time stamps of the rows are left out.
use rent_a_car_v.Base.{ℕ, Bool, ◌&&◌, Option, List, find, ltb, ◌==◌}
use rent_a_car_v.Lifecycle.{Status}
use rent_a_car_v.Refund.Ledger.{Ledger}

pub record Reservation : Type 0 where
  pub id : ℕ
  pub car_id : ℕ
  pub session_id : ℕ
  pub status : Status
  pub pickup_date : ℕ
  pub return_date : ℕ
  pub total_price : ℕ
  pub hold_expires_at : ℕ
  pub stripe_session_id : Option ℕ
  pub stripe_payment_intent_id : Option ℕ
  pub paid_amount_cents : Option ℕ

pub record HistoryRow : Type 0 where
  pub reservation_id : ℕ
  pub old_status : Option Status
  pub new_status : Status
  pub changed_by_user_id : Option ℕ
  pub changed_by_system : Bool

pub data CarStatus : Type 0 where
  available reserved rented needs_cleaning needs_inspection : CarStatus
  in_maintenance damaged inactive : CarStatus

pub record Car : Type 0 where
  pub id : ℕ
  pub status : CarStatus
  pub availability : Bool
  pub is_deleted : Bool

-- A row of car_date_blocks: the car is taken from `start_date` up to, not including, `end_date`.
pub record Block : Type 0 where
  pub id : ℕ
  pub car_id : ℕ
  pub start_date : ℕ
  pub end_date : ℕ

pub data OrderStatus : Type 0 where
  active expired cancelled : OrderStatus

pub record Order : Type 0 where
  pub id : ℕ
  pub reservation_id : Option ℕ
  pub car_id : ℕ
  pub pickup_date : ℕ
  pub return_date : ℕ
  pub stripe_session_id : Option ℕ
  pub status : OrderStatus
  pub is_deleted : Bool

pub record Database : Type 0 where
  pub reservations : List Reservation
  pub history : List HistoryRow
  pub cars : List Car
  pub blocks : List Block
  pub orders : List Order
  pub refunds : Ledger

-- `start_date < end AND end_date > start`.
abbrev pub overlaps : ℕ → ℕ → Block → Bool
overlaps start end b = ltb b.start_date end && ltb start b.end_date

unfoldable pub find_by_id_for_update : ℕ → Database → Option Reservation
find_by_id_for_update i db = find (λ (r : Reservation). r.id == i) db.reservations
