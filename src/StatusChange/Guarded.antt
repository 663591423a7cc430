-- ===== src/StatusChange/Guarded.antt =====
-- What a change of status may not do while money is on its way back, and what it gives free.
use rent_a_car_v.Base.{
  ◌≡◌, refl, sym, ◌∙◌, ap, ◌⊎◌, inl, inr, Bool, true, false, some, [], ◌∷◌, find, arith, Bool-cases,
  ok,
}
use rent_a_car_v.Lifecycle.{
  Status, same, refunded, paid, manual_review, confirmed, car_prepared, includes,
}
use rent_a_car_v.Lifecycle.Graph.{same_iff}
use rent_a_car_v.Refund.Policy.{is_allowed_during_pending_refund}
use rent_a_car_v.Refund.Ledger.{RefundOperation, find_active_by_reservation_id, is_pending}
use rent_a_car_v.Database.{Database, Reservation}
use rent_a_car_v.Fleet.{sync_car_status_from_reservation}
use rent_a_car_v.StatusChange.{
  Change, change_status, write_change, write_rows, write_car, apply_status_change, refund_blocks,
  release_dates, releases,
}
use rent_a_car_v.StatusChange.Recorded.{
  has_id, change_status_inversion, write_change_rows, find-update_where, apply_id, apply_status,
}

refund_open :
    (c : Change) (db : Database) (r : Reservation) (op : RefundOperation)
    → find_active_by_reservation_id c.reservation_id db.refunds ≡ some op
    → is_pending op.status ≡ true
    → refund_blocks c r db ≡ false
    → (same r.status c.new_status ≡ true) ⊎ (is_allowed_during_pending_refund c.new_status ≡ true)
unfolding refund_blocks
refund_open c db r op a p b = ground arith

allowed_includes :
    (s : Status)
    → is_allowed_during_pending_refund s ≡ true
    → includes (refunded ∷ paid ∷ manual_review ∷ confirmed ∷ car_prepared ∷ []) s ≡ true
unfolding is_allowed_during_pending_refund
allowed_includes s h = ground arith

-- The row after a change is the row before it, or has the status asked for.
changed_row :
    (c : Change) (db db' : Database) (changed : Bool) (r r' : Reservation)
    → find (has_id c.reservation_id) db.reservations ≡ some r
    → find (has_id c.reservation_id) db'.reservations ≡ some r'
    → (((changed ≡ false) × (db' ≡ db)) ⊎ ((changed ≡ true) × (db' ≡ write_change c r db)))
    → (r' ≡ r) ⊎ (r' ≡ apply_status_change c.new_status c.patch r)
changed_row c db db' changed r r' f f' (inl (_, same_db)) =
    inl
      (ground (arith, ap (λ (d : Database). find (has_id c.reservation_id) d.reservations) same_db))
changed_row c db db' changed r r' f f' (inr (_, same_db)) =
    let i = c.reservation_id in
    let f'' : find (has_id i) (write_rows c r db).reservations ≡ some r' =
      rw (write_change_rows c r db).0 at (rw same_db at f') in
    inr (
      ground (
        arith,
        find-update_where i i (apply_status_change c.new_status c.patch) db.reservations
            (apply_id c.new_status c.patch),
      ))

-- While a refund of a reservation is pending, a change leaves its status as it was, or takes it to
-- `refunded` or to a status from which a refund may start: the car is not handed over, and the
-- booking is not cancelled.
pub pending_refund_holds :
    (c : Change) (db db' : Database) (changed : Bool) (op : RefundOperation) (r r' : Reservation)
    → find_active_by_reservation_id c.reservation_id db.refunds ≡ some op
    → is_pending op.status ≡ true
    → change_status c db ≡ ok (changed, db')
    → find (has_id c.reservation_id) db.reservations ≡ some r
    → find (has_id c.reservation_id) db'.reservations ≡ some r'
    → (r'.status ≡ r.status)
      ⊎ (includes (refunded ∷ paid ∷ manual_review ∷ confirmed ∷ car_prepared ∷ []) r'.status
          ≡ true)
pending_refund_holds c db db' changed op r r' a p e f f' =
    let (s, g, b, _, effect) = change_status_inversion c db db' changed e in
    let s_is_r : s ≡ r = cc in
    let effect' = rw s_is_r at effect in
    elim (changed_row c db db' changed r r' f f' effect') [
      | inl same_row ↦ inl (ap (λ (x : Reservation). x.status) same_row)
      | inr new_row ↦
          let now : r'.status ≡ c.new_status =
            ap (λ (x : Reservation). x.status) new_row ∙ apply_status c.new_status c.patch r in
          elim (refund_open c db r op a p (rw s_is_r at b)) [
            | inl stays ↦ inl (now ∙ sym ((same_iff r.status c.new_status).0 stays))
            | inr allowed ↦ inr (rw now (allowed_includes c.new_status allowed))
          ]
    ]

sync_refunded :
    (r : Reservation) (s : Status) (db : Database)
    → s ≡ refunded
    → (sync_car_status_from_reservation r s db).cars ≡ db.cars
unfolding sync_car_status_from_reservation
sync_refunded r s db n = rw n (ground arith)

release_cars :
    (r : Reservation) (s : Status) (db : Database) → (release_dates r s db).cars ≡ db.cars
unfolding release_dates
release_cars r s db = refl

write_change_cars :
    (c : Change) (r : Reservation) (db : Database)
    → c.new_status ≡ refunded
    → (write_change c r db).cars ≡ db.cars
unfolding write_change
write_change_cars c r db n =
    let updated = apply_status_change c.new_status c.patch r in
    let kept = sync_refunded updated c.new_status (write_rows c r db) n in
    elim (Bool-cases (releases r.status c.new_status)) [
      | inl e ↦ rw e (release_cars updated c.new_status (write_car c r db) ∙ kept)
      | inr e ↦ rw e kept
    ]

-- A reservation that is refunded leaves its car's row as it is: a car that was reserved for it stays
-- reserved.
pub refunded_keeps_cars :
    (c : Change) (db db' : Database) (changed : Bool)
    → c.new_status ≡ refunded
    → change_status c db ≡ ok (changed, db')
    → db'.cars ≡ db.cars
refunded_keeps_cars c db db' changed n e =
    let (r, _, _, _, effect) = change_status_inversion c db db' changed e in
    elim effect [
      | inl (_, same_db) ↦ ap (λ (d : Database). d.cars) same_db
      | inr (_, same_db) ↦ rw same_db (write_change_cars c r db n)
    ]
