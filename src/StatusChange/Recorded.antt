-- ===== src/StatusChange/Recorded.antt =====
-- The status history agrees with the reservations, and follows the transition graph.
use rent_a_car_v.Base.{
  ℕ, ◌≡◌, refl, ◌⊎◌, inl, inr, Bool, true, Option, none, some, List, [], ◌∷◌, ◌++◌, find,
  update_where, All, All-append, arith, ◌==◌, if◌then◌else◌, Bool-cases, Option-cases, ok,
}
use rent_a_car_v.Lifecycle.{Status, same, can_transition, is_valid_status}
use rent_a_car_v.Database.{Database, Reservation, HistoryRow}
use rent_a_car_v.StatusChange.{Change, change_status, apply_status_change, history_row, write_rows}
pub use rent_a_car_v.StatusChange.Inversion.{
  has_id, find-update_where, change_status_inversion, write_change_rows, apply_id, apply_status,
}

-- The status that the last history row of a reservation names.
abbrev pub last_status : ℕ → List HistoryRow → Option Status
last_status i [] = none
last_status i (h ∷ hs) = elim (last_status i hs) [
  | some s ↦ some s
  | none ↦ if h.reservation_id == i then some h.new_status else none
]

pub last_status-append :
    (i : ℕ) (hs : List HistoryRow) (h : HistoryRow)
    → last_status i (hs ++ (h ∷ []))
      ≡ (if h.reservation_id == i then some h.new_status else last_status i hs)
last_status-append i [] h = refl
last_status-append i (x ∷ xs) h = ground (arith, last_status-append i xs h)

-- The last history row of every reservation names its status, which is one of the known ones, and
-- every row follows the graph.
pub record IsRecorded (db : Database) : Type 0 where
  pub current :
      (i : ℕ) (r : Reservation)
      → find (has_id i) db.reservations ≡ some r
      → last_status i db.history ≡ some r.status
  pub known :
      (i : ℕ) (r : Reservation)
      → find (has_id i) db.reservations ≡ some r
      → is_valid_status r.status ≡ true
  pub allowed : All (λ (h : HistoryRow). can_transition h.old_status h.new_status ≡ true) db.history

known_step :
    (from to : Status)
    → is_valid_status from ≡ true
    → (same from to ≡ true) ⊎ (can_transition (some from) to ≡ true)
    → (can_transition (some from) to ≡ true) × (is_valid_status to ≡ true)
unfolding can_transition
known_step from to k h = ground arith

found-cases :
    (i j : ℕ) (f : Reservation → Reservation) (rows : List Reservation) (s : Reservation)
    → ((r : Reservation) → (f r).id ≡ r.id)
    → find (has_id j) (update_where (has_id i) f rows) ≡ some s
    → (r : Reservation) × (find (has_id j) rows ≡ some r) × (s ≡ (if i == j then f r else r))
found-cases i j f rows s same e = elim (Option-cases (find (has_id j) rows)) [
  | inl n ↦ absurd (ground (arith, find-update_where i j f rows same))
  | inr (r, n) ↦ (r, n, ground (arith, find-update_where i j f rows same))
]

module _ (c : Change) (r : Reservation) (db : Database) (rec : IsRecorded db) where
  write_current :
      (i : ℕ) (s : Reservation)
      → find (has_id i) (write_rows c r db).reservations ≡ some s
      → last_status i (write_rows c r db).history ≡ some s.status
  write_current i s e =
      let f = apply_status_change c.new_status c.patch in
      let (old, found, now) =
        found-cases c.reservation_id i f db.reservations s (apply_id c.new_status c.patch) e in
      rw (last_status-append i db.history (history_row c r.status))
        (elim (Bool-cases (c.reservation_id == i)) [
          | inl q ↦
              let now' : s ≡ f old = rw q at now in
              rw (q, now', apply_status c.new_status c.patch old)
          | inr q ↦ let now' : s ≡ old = rw q at now in rw (q, now') (rec.current i old found)
        ])

  write_known :
      is_valid_status c.new_status ≡ true
      → (i : ℕ) (s : Reservation) → find (has_id i) (write_rows c r db).reservations ≡ some s
      → is_valid_status s.status ≡ true
  write_known k i s e =
      let f = apply_status_change c.new_status c.patch in
      let (old, found, now) =
        found-cases c.reservation_id i f db.reservations s (apply_id c.new_status c.patch) e in
      elim (Bool-cases (c.reservation_id == i)) [
        | inl q ↦
            let now' : s ≡ f old = rw q at now in rw (now', apply_status c.new_status c.patch old) k
        | inr q ↦ let now' : s ≡ old = rw q at now in rw now' (rec.known i old found)
      ]

-- Every change of status keeps the history exact: the last history row of each reservation still
-- names its status, each status is a known one, and each row of the history is a step of the
-- transition graph.
pub change_status-IsRecorded :
    (c : Change) (db db' : Database) (changed : Bool)
    → IsRecorded db
    → change_status c db ≡ ok (changed, db')
    → IsRecorded db'
change_status-IsRecorded c db db' changed rec e =
    let (r, found, _, step, effect) = change_status_inversion c db db' changed e in
    elim effect [
      | inl (_, same) ↦ rw same rec
      | inr (_, same) ↦
          let (rows, hist) = write_change_rows c r db in
          let (allowed, known) =
            known_step r.status c.new_status (rec.known c.reservation_id r found) step in
          rw same (record {
            current = rw (rows, hist) (write_current c r db rec);
            known = rw rows (write_known c r db rec known);
            allowed = rw hist (
                All-append (λ (h : HistoryRow). can_transition h.old_status h.new_status ≡ true)
                  db.history (history_row c r.status ∷ []) rec.allowed (allowed, tt));
          })
    ]
