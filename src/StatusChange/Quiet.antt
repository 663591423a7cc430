-- ===== src/StatusChange/Quiet.antt =====
-- A change into a status that keeps the dates: what it leaves alone, and the row that it leaves.
use rent_a_car_v.Base.{
  ◌≡◌, refl, sym, ap, ◌∙◌, ◌⊎◌, inl, inr, Bool, true, false, ◌||◌, none, some, find, arith,
  Bool-cases, ok, is_some,
}
use rent_a_car_v.Lifecycle.{Status, same, cancelled, no_show, refunded}
use rent_a_car_v.Database.{Database, Reservation, find_by_id_for_update}
use rent_a_car_v.Fleet.{sync_car_status_from_reservation}
use rent_a_car_v.StatusChange.{
  Change, change_status, write_change, write_rows, apply_status_change, releases,
  change_status_core, change_locked, perform,
}
use rent_a_car_v.StatusChange.Inversion.{
  has_id, find-update_where, change_status_inversion, write_change_rows, apply_id,
}

abbrev pub frees : Status → Bool
frees s = same s cancelled || (same s no_show || same s refunded)

sync_keeps :
    (r : Reservation) (s : Status) (db : Database)
    → ((sync_car_status_from_reservation r s db).blocks ≡ db.blocks)
      × ((sync_car_status_from_reservation r s db).orders ≡ db.orders)
unfolding sync_car_status_from_reservation
sync_keeps r s db = ground arith

releases-frees : (old new : Status) → frees new ≡ false → releases old new ≡ false
unfolding releases
releases-frees old new h = ground arith

write_change_keeps :
    (c : Change) (r : Reservation) (db : Database)
    → frees c.new_status ≡ false
    → ((write_change c r db).blocks ≡ db.blocks) × ((write_change c r db).orders ≡ db.orders)
unfolding write_change
write_change_keeps c r db h =
    rw (releases-frees r.status c.new_status h)
      (sync_keeps (apply_status_change c.new_status c.patch r) c.new_status (write_rows c r db))

pub same_equal : (a b : Status) → same a b ≡ true → a ≡ b
same_equal a b h = ground arith

updated_row :
    (c : Change) (r : Reservation) (db : Database)
    → find (has_id c.reservation_id) db.reservations ≡ some r
    → find (has_id c.reservation_id) (write_change c r db).reservations
      ≡ some (apply_status_change c.new_status c.patch r)
updated_row c r db h = rw ((write_change_rows c r db).0) (
    ground (
      arith,
      h,
      find-update_where c.reservation_id c.reservation_id (apply_status_change c.new_status c.patch)
          db.reservations (apply_id c.new_status c.patch),
    ))

-- Calendar and orders stay; the row gets the new status, with the patch where anything changed.
pub change_status_row :
    (c : Change) (db db' : Database) (changed : Bool)
    → frees c.new_status ≡ false
    → change_status c db ≡ ok (changed, db')
    → (db'.blocks ≡ db.blocks)
      × (db'.orders ≡ db.orders)
      × (r : Reservation) × (r' : Reservation) × (find (has_id c.reservation_id) db.reservations
          ≡ some r)
      × (find (has_id c.reservation_id) db'.reservations ≡ some r')
      × (((changed ≡ false) × (r' ≡ r)) ⊎ (r' ≡ apply_status_change c.new_status c.patch r))
change_status_row c db db' changed h e =
    let (r, found, _, step, effect) = change_status_inversion c db db' changed e in
    elim effect [
      | inl (f, same) ↦ rw same (refl, refl, r, r, found, found, inl (f, refl))
      | inr (_, same) ↦
          let (blocks, orders) = write_change_keeps c r db h in
          rw same (
            blocks,
            orders,
            r,
            apply_status_change c.new_status c.patch r,
            found,
            updated_row c r db found,
            inr refl,
          )
    ]

unchanged_same :
    (c : Change) (r : Reservation) (db db' : Database)
    → find (has_id c.reservation_id) db.reservations ≡ some r
    → change_status c db ≡ ok (false, db')
    → same r.status c.new_status ≡ true
unfolding change_status change_status_core change_locked perform find_by_id_for_update
unchanged_same c r db db' found e = elim (Bool-cases (same r.status c.new_status)) [
  | inl y ↦ y
  | inr n ↦ absurd (ground arith)
]

unchanged_status :
    (c : Change) (r : Reservation) (db db' : Database) (changed : Bool)
    → find (has_id c.reservation_id) db.reservations ≡ some r
    → changed ≡ false
    → change_status c db ≡ ok (changed, db')
    → r.status ≡ c.new_status
unchanged_status c r db db' changed found f e =
    same_equal r.status c.new_status (unchanged_same c r db db' found (rw (sym f) e))

-- A change with a patch is always written.
pub patched_row :
    (c : Change) (db db' : Database) (changed : Bool)
    → is_some c.patch ≡ true
    → frees c.new_status ≡ false
    → change_status c db ≡ ok (changed, db')
    → (db'.blocks ≡ db.blocks)
      × (db'.orders ≡ db.orders)
      × (r : Reservation) × (find (has_id c.reservation_id) db.reservations ≡ some r)
      × (find (has_id c.reservation_id) db'.reservations
          ≡ some (apply_status_change c.new_status c.patch r))
unfolding change_status change_status_core change_locked perform
patched_row c db db' changed p h e =
    let (blocks, orders, r, r', found, found', effect) = change_status_row c db db' changed h e in
    elim effect [
      | inl (f, same) ↦ absurd (ground arith)
      | inr same ↦ (blocks, orders, r, found, rw same at found')
    ]

set_status : (r : Reservation) (s : Status) → r.status ≡ s → record r { status = s } ≡ r
set_status r s h = ap (λ (t : Status). record r { status = t }) (sym h)

-- A change without a patch sets the status and nothing else of the row.
pub unpatched_row :
    (c : Change) (db db' : Database) (changed : Bool)
    → c.patch ≡ none
    → frees c.new_status ≡ false
    → change_status c db ≡ ok (changed, db')
    → (db'.blocks ≡ db.blocks)
      × (db'.orders ≡ db.orders)
      × (r : Reservation) × (find (has_id c.reservation_id) db.reservations ≡ some r)
      × (find (has_id c.reservation_id) db'.reservations
          ≡ some (record r { status = c.new_status }))
unfolding apply_status_change
unpatched_row c db db' changed p h e =
    let (blocks, orders, r, r', found, found', effect) = change_status_row c db db' changed h e in
    elim effect [
      | inl (f, same) ↦ (
        blocks,
        orders,
        r,
        found,
        found'
            ∙ ap some (
                same
                ∙ sym (set_status r c.new_status (unchanged_status c r db db' changed found f e))),
      )
      | inr same ↦ (blocks, orders, r, found, ground (arith, same, p))
    ]
