-- ===== src/Conflicts.antt =====
-- Conflicts of a planned range of a car: backend/src/modules/calendar/calendar.conflictEngine.js, with
-- `findOverlappingHold` and `findOpenPhysicalRental` of
-- backend/src/services/sql/reservation/reservationReadRepository.js. Messages and the ids that go with
-- a conflict are left out; the query of at most five blocks, which has no order, takes the first ones.
pub mod Writable
pub mod Sequence
mod Examples
use rent_a_car_v.Base.{
  ℕ, zero, suc, ◌+◌, ◌-◌, Bool, true, false, not, ◌&&◌, ◌||◌, Option, none, some, List, [], ◌∷◌,
  ◌++◌, find, keep, any, min, ltb, leb, ◌==◌, if◌then◌else◌, Result, ok, err,
}
use rent_a_car_v.Lifecycle.{
  Status, cancelled, expired, refunded, no_show, completed, includes, is_hold_status,
}
use rent_a_car_v.Database.{
  Reservation, CarStatus, in_maintenance, damaged, inactive, Block, overlaps,
}
use rent_a_car_v.Fleet.{is_car}
use rent_a_car_v.Bookings.Ranges.{open_physical}

pub data ConflictCode : Type 0 where
  car_not_found car_status_block hold_overlap open_physical_rental block_overlap : ConflictCode
  return_after_next_pickup cleaning_buffer insurance_expired : ConflictCode
  insurance_expires_during inspection_expired inspection_expires_during : ConflictCode
  damaged_active : ConflictCode

pub data Severity : Type 0 where
  block warn : Severity

pub record Conflict : Type 0 where
  pub code : ConflictCode
  pub severity : Severity
  pub overridable : Bool

abbrev pub conflict : ConflictCode → Severity → Bool → Conflict
conflict c s o = record { code = c; severity = s; overridable = o }

-- The columns of `cars` that the check reads.
pub record ScheduledCar : Type 0 where
  pub id : ℕ
  pub status : CarStatus
  pub insurance_expiry : Option ℕ
  pub technical_inspection_expiry : Option ℕ
  pub is_deleted : Bool

-- What the queries read: the tables, the cars with an unresolved damage report, and the time.
pub record Schedule : Type 0 where
  pub cars : List ScheduledCar
  pub reservations : List Reservation
  pub blocks : List Block
  pub unresolved_damage : List ℕ
  pub now : ℕ

pub record Plan : Type 0 where
  pub car_id : ℕ
  pub start : ℕ
  pub end : ℕ
  pub exclude_reservation_id : Option ℕ
  pub exclude_block_id : Option ℕ

abbrev pub excluded : Option ℕ → ℕ → Bool
excluded none i = false
excluded (some j) i = i == j

abbrev pub hard_unbookable : CarStatus → Bool
hard_unbookable s = is_car s in_maintenance || (is_car s damaged || is_car s inactive)

abbrev pub holds_car : Schedule → Plan → Reservation → Bool
holds_car s p r =
    r.car_id == p.car_id
    && (is_hold_status r.status
        && (ltb s.now r.hold_expires_at
            && (ltb r.pickup_date p.end
                && (ltb p.start r.return_date && not (excluded p.exclude_reservation_id r.id)))))

-- `findOverlappingHold`; a car id of 0 is no id.
unfoldable pub find_overlapping_hold : Schedule → Plan → Option Reservation
find_overlapping_hold s p = if p.car_id == 0 then none else find (holds_car s p) s.reservations

abbrev pub is_out : Plan → Reservation → Bool
is_out p r =
    r.car_id == p.car_id && (open_physical r.status && not (excluded p.exclude_reservation_id r.id))

-- `findOpenPhysicalRental`, of which only the presence is read.
unfoldable pub find_open_physical_rental : Schedule → Plan → Option Reservation
find_open_physical_rental s p = if p.car_id == 0 then none else find (is_out p) s.reservations

abbrev pub when_found {ℓ} : {A : Type ℓ} → Option A → Conflict → List Conflict
when_found none c = []
when_found (some a) c = c ∷ []

unfoldable pub hold_conflicts : Schedule → Plan → List Conflict
hold_conflicts s p = elim (find_overlapping_hold s p) [
  | none ↦ []
  | some r ↦
      if excluded p.exclude_reservation_id r.id then [] else conflict hold_overlap block false ∷ []
]

-- `LIMIT n`, and one conflict for each row.
block_rows : ℕ → List Block → List Conflict
block_rows zero bs = []
block_rows (suc n) [] = []
block_rows (suc n) (b ∷ bs) = conflict block_overlap block true ∷ block_rows n bs

abbrev pub blocks_plan : Plan → Block → Bool
blocks_plan p b =
    b.car_id == p.car_id && (overlaps p.start p.end b && not (excluded p.exclude_block_id b.id))

unfoldable pub block_conflicts : Schedule → Plan → List Conflict
unfolding block_rows
block_conflicts s p = block_rows 5 (keep (blocks_plan p) s.blocks)

abbrev pub is_over : Status → Bool
is_over s = includes (cancelled ∷ expired ∷ refunded ∷ no_show ∷ completed ∷ []) s

abbrev pub follows : Plan → Reservation → Bool
follows p r =
    r.car_id == p.car_id
    && (not (is_over r.status)
        && (leb p.end r.pickup_date && not (excluded p.exclude_reservation_id r.id)))

-- `ORDER BY pickup_date ASC LIMIT 1`: the earliest pickup at or after the end.
unfoldable pub next_pickup : Plan → List Reservation → Option ℕ
next_pickup p [] = none
next_pickup p (r ∷ rs) =
    let rest = next_pickup p rs in
    if follows p r
    then elim rest [ none ↦ some r.pickup_date | some t ↦ some (min r.pickup_date t) ]
    else rest

abbrev pub buffer_ms : ℕ
buffer_ms = 7_200_000

abbrev pub sequence_with : Plan → Option ℕ → List Conflict
sequence_with p none = []
sequence_with p (some next_start) =
    if ltb next_start p.end
    then conflict return_after_next_pickup block true ∷ []
    else if ltb (next_start - p.end) buffer_ms
    then conflict cleaning_buffer warn true ∷ []
    else []

unfoldable pub sequence_conflicts : Schedule → Plan → List Conflict
sequence_conflicts s p = sequence_with p (next_pickup p s.reservations)

-- A document that ends before the range, or within it.
unfoldable pub expiry_conflicts : Option ℕ → Plan → ConflictCode → ConflictCode → List Conflict
expiry_conflicts none p before during = []
expiry_conflicts (some t) p before during =
    if ltb t p.start
    then conflict before block true ∷ []
    else if leb t p.end
    then conflict during warn true ∷ []
    else []

unfoldable pub damage_conflicts : Schedule → ScheduledCar → List Conflict
damage_conflicts s c =
    if any (λ i. i == c.id) s.unresolved_damage && is_car c.status damaged
    then conflict damaged_active block true ∷ []
    else []

unfoldable pub status_conflicts : ScheduledCar → List Conflict
status_conflicts c =
    if hard_unbookable c.status then conflict car_status_block block true ∷ [] else []

abbrev pub find_car : Schedule → Plan → Option ScheduledCar
find_car s p = find (λ (c : ScheduledCar). c.id == p.car_id && not c.is_deleted) s.cars

unfoldable pub car_conflicts : Schedule → Plan → ScheduledCar → List Conflict
car_conflicts s p c =
    status_conflicts c
    ++ (hold_conflicts s p
        ++ (when_found (find_open_physical_rental s p) (conflict open_physical_rental block false)
            ++ (block_conflicts s p
                ++ (sequence_conflicts s p
                    ++ (expiry_conflicts c.insurance_expiry p insurance_expired
                          insurance_expires_during
                        ++ (expiry_conflicts c.technical_inspection_expiry p inspection_expired
                              inspection_expires_during
                            ++ damage_conflicts s c))))))

unfoldable pub check_reservation_range_conflicts : Schedule → Plan → List Conflict
check_reservation_range_conflicts s p = elim (find_car s p) [
  | none ↦ conflict car_not_found block false ∷ []
  | some c ↦ car_conflicts s p c
]

abbrev pub is_block : Severity → Bool
is_block block = true
is_block warn = false

abbrev pub is_hard : Conflict → Bool
is_hard c = is_block c.severity && not c.overridable

abbrev pub is_soft : Conflict → Bool
is_soft c = is_block c.severity && c.overridable

-- The error carries the conflicts.
unfoldable pub assert_writable :
    List Conflict → Bool → Bool → Result (List Conflict) (List Conflict × Bool)
assert_writable conflicts force can_override =
    if any is_hard conflicts
    then err conflicts
    else if any is_soft conflicts && not (force && can_override)
    then err conflicts
    else ok (conflicts, force && can_override)
