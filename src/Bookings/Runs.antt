-- ===== src/Bookings/Runs.antt =====
-- Sequences of writes to the calendar: a car is booked at most once at every instant, and a car that
-- is out stays booked.
use rent_a_car_v.Base.{
  ℕ, ◌≤◌, ◌≡◌, refl, inl, inr, Bool, true, false, ◌&&◌, Option, some, List, [], ◌∷◌, ◌++◌, any,
  count, ltb, leb, ◌==◌, ok, arith, Bool-cases, Result-cases,
}
use rent_a_car_v.Database.{Block, Reservation}
use rent_a_car_v.Bookings.{remove_range}
use rent_a_car_v.Bookings.Ranges.{
  clashes, apart, purge_expired, taken, new_block, insert_date_block, assert_no_overlap, add_range,
  update_range, move_range, book,
}
use rent_a_car_v.Bookings.Apart.{apart-keep, purge_expired-apart, apart-append_one}

pub data Write : List Block → List Block → Type 0 where
  adds :
      (in_transaction : Bool) (id now : ℕ) (rows : List Reservation) (car_id start end : ℕ)
      {bs bs' : List Block}
      → add_range in_transaction id now rows car_id start end bs ≡ ok bs'
      → Write bs bs'
  updates :
      (in_transaction : Bool) (id now : ℕ) (rows : List Reservation)
      (car_id prev_start prev_end start end : ℕ) {bs bs' : List Block}
      → update_range in_transaction id now rows car_id prev_start prev_end start end bs ≡ ok bs'
      → Write bs bs'
  moves :
      (in_transaction : Bool) (id now : ℕ) (rows : List Reservation)
      (prev_car_id car_id prev_start prev_end start end : ℕ) {bs bs' : List Block}
      → move_range in_transaction id now rows prev_car_id car_id prev_start prev_end start end bs
        ≡ ok bs'
      → Write bs bs'
  removes :
      (car_id start end : ℕ) {bs bs' : List Block}
      → remove_range car_id start end bs ≡ bs'
      → Write bs bs'
  purges :
      (in_transaction : Bool) (scope : Option ℕ) (now : ℕ) (rows : List Reservation)
      {bs bs' : List Block}
      → purge_expired in_transaction scope now rows bs ≡ ok bs'
      → Write bs bs'

pub data Writes (bs : List Block) : List Block → Type 0 where
  here : Writes bs bs
  and_then : {cs ds : List Block} → Writes bs cs → Write cs ds → Writes bs ds

book-apart :
    (id car_id start end : ℕ) (checked bs bs' : List Block)
    → apart bs ≡ true
    → book id car_id start end checked bs ≡ ok bs'
    → apart bs' ≡ true
unfolding assert_no_overlap insert_date_block
book-apart id car start end checked bs bs' h e =
    let new = new_block id car start end in
    elim (Bool-cases (taken car start end checked)) [
      | inl y ↦ absurd (ground arith)
      | inr n ↦ elim (Bool-cases (any (clashes new) bs)) [
        | inl y ↦ absurd (ground arith)
        | inr k ↦
            let same : bs' ≡ bs ++ (new ∷ []) = ground arith in
            rw same (apart-append_one bs new h k)
      ]
    ]

remove_range-apart :
    (car_id start end : ℕ) (bs : List Block)
    → apart bs ≡ true
    → apart (remove_range car_id start end bs) ≡ true
unfolding remove_range
remove_range-apart car start end bs h = elim (Bool-cases (car == 0)) [
  | inl y ↦ rw y h
  | inr n ↦ rw n (apart-keep _ bs h)
]

pub add_range-apart :
    (t : Bool) (id now : ℕ) (rows : List Reservation) (car_id start end : ℕ) (bs bs' : List Block)
    → apart bs ≡ true
    → add_range t id now rows car_id start end bs ≡ ok bs'
    → apart bs' ≡ true
unfolding add_range
add_range-apart t id now rows car start end bs bs' h e =
    elim (Result-cases (purge_expired t (some car) now rows bs)) [
      | inr (x, p) ↦ absurd (ground arith)
      | inl (cs, p) ↦
          book-apart id car start end cs cs bs'
            (purge_expired-apart t (some car) now rows bs cs h p) (ground arith)
    ]

update_range-apart :
    (t : Bool) (id now : ℕ) (rows : List Reservation) (car_id ps pe start end : ℕ)
    (bs bs' : List Block)
    → apart bs ≡ true
    → update_range t id now rows car_id ps pe start end bs ≡ ok bs'
    → apart bs' ≡ true
unfolding update_range
update_range-apart t id now rows car ps pe start end bs bs' h e =
    elim (Result-cases (purge_expired t (some car) now rows bs)) [
      | inr (x, p) ↦ absurd (ground arith)
      | inl (cs, p) ↦
          let rest = remove_range car ps pe cs in
          book-apart id car start end rest rest bs'
            (remove_range-apart car ps pe cs (purge_expired-apart t (some car) now rows bs cs h p))
            (ground arith)
    ]

move_range-apart :
    (t : Bool) (id now : ℕ) (rows : List Reservation) (prev car_id ps pe start end : ℕ)
    (bs bs' : List Block)
    → apart bs ≡ true
    → move_range t id now rows prev car_id ps pe start end bs ≡ ok bs'
    → apart bs' ≡ true
unfolding move_range
move_range-apart t id now rows prev car ps pe start end bs bs' h e =
    elim (Result-cases (purge_expired t (some prev) now rows bs)) [
      | inr (x, p) ↦ absurd (ground arith)
      | inl (cs, p) ↦
          let h' = purge_expired-apart t (some prev) now rows bs cs h p in
          elim (Result-cases (purge_expired t (some car) now rows cs)) [
            | inr (x, q) ↦ absurd (ground arith)
            | inl (ds, q) ↦
                book-apart id car start end ds (remove_range prev ps pe ds) bs'
                  (remove_range-apart prev ps pe ds
                    (purge_expired-apart t (some car) now rows cs ds h' q))
                  (ground arith)
          ]
    ]

Write-apart : {bs bs' : List Block} → Write bs bs' → apart bs ≡ true → apart bs' ≡ true
Write-apart {bs} {bs'} (adds t id now rows car s e p) h =
    add_range-apart t id now rows car s e bs bs' h p
Write-apart {bs} {bs'} (updates t id now rows car ps pe s e p) h =
    update_range-apart t id now rows car ps pe s e bs bs' h p
Write-apart {bs} {bs'} (moves t id now rows prev car ps pe s e p) h =
    move_range-apart t id now rows prev car ps pe s e bs bs' h p
Write-apart {bs} {bs'} (removes car s e same) h = cc (same, remove_range-apart car s e bs h)
Write-apart {bs} {bs'} (purges t scope now rows p) h =
    purge_expired-apart t scope now rows bs bs' h p

Writes-apart : {bs bs' : List Block} → Writes bs bs' → apart bs ≡ true → apart bs' ≡ true
Writes-apart here h = h
Writes-apart (and_then ws w) h = Write-apart w (Writes-apart ws h)

-- The block takes the car at the instant.
abbrev pub takes : ℕ → ℕ → Block → Bool
takes car_id t b = b.car_id == car_id && (leb b.start_date t && ltb t b.end_date)

takes_alone :
    (car_id t : ℕ) (b : Block) (bs : List Block)
    → any (clashes b) bs ≡ false
    → takes car_id t b ≡ true
    → count (takes car_id t) bs ≡ 0
takes_alone car t b [] h k = refl
takes_alone car t b (c ∷ cs) h k = ground (arith, takes_alone car t b cs)

apart-takes : (car_id t : ℕ) (bs : List Block) → apart bs ≡ true → count (takes car_id t) bs ≤ 1
unfolding apart
apart-takes car t [] h = ground arith
apart-takes car t (b ∷ bs) h = ground (arith, takes_alone car t b bs, apart-takes car t bs)

-- Whatever writes filled the calendar from the empty one on, each car is taken by at most one block
-- at every instant: no car is booked twice.
pub booked_once : (bs : List Block) (car_id t : ℕ) → Writes [] bs → count (takes car_id t) bs ≤ 1
unfolding apart
booked_once bs car t ws = apart-takes car t bs (Writes-apart ws refl)
