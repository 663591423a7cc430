-- ===== src/Bookings/Apart.antt =====
-- What the writes to the calendar keep: no two blocks of a car share an instant.
use rent_a_car_v.Base.{
  ℕ, ◌≤◌, ◌<◌, ◌≡◌, refl, ◌⊎◌, inl, inr, Bool, true, false, not, ◌&&◌, ◌||◌, Option, List, [], ◌∷◌,
  map, ◌++◌, any, keep, update_where, if◌then◌else◌, ok, arith, Bool-cases,
}
use rent_a_car_v.Database.{Block, Reservation}
use rent_a_car_v.Bookings.Ranges.{
  clashes, apart, extended_rows, extend_open_physical_rental_blocks, clamp_end, clamped,
  clamp_closed_physical_rental_blocks, delete_expired, purge_rows, purge_expired, taken, in_scope,
  open_rental, new_block,
}

any-keep : (q p : Block → Bool) (bs : List Block) → any q bs ≡ false → any q (keep p bs) ≡ false
any-keep q p [] h = h
any-keep q p (b ∷ bs) h = ground (arith, any-keep q p bs)

pub apart-keep : (p : Block → Bool) (bs : List Block) → apart bs ≡ true → apart (keep p bs) ≡ true
unfolding apart
apart-keep p [] h = h
apart-keep p (b ∷ bs) h = elim (Bool-cases (p b)) [
  | inl e ↦ rw e (ground (arith, any-keep (clashes b) p bs, apart-keep p bs))
  | inr e ↦ rw e (ground (arith, apart-keep p bs))
]

-- A function that only shortens blocks.
abbrev Shortens : (Block → Block) → Type 0
Shortens f =
    (b : Block)
    → ((f b).car_id ≡ b.car_id) × ((f b).start_date ≡ b.start_date) × ((f b).end_date ≤ b.end_date)

module _ (f : Block → Block) (short : Shortens f) where
  clashes_shorter : (a b : Block) → clashes a b ≡ false → clashes (f a) (f b) ≡ false
  clashes_shorter a b h = ground (arith, short a, short b)

  any_shorter :
      (a : Block) (bs : List Block)
      → any (clashes a) bs ≡ false
      → any (clashes (f a)) (map f bs) ≡ false
  any_shorter a [] h = refl
  any_shorter a (b ∷ bs) h = ground (arith, clashes_shorter a b, any_shorter a bs)

  apart_shorter : (bs : List Block) → apart bs ≡ true → apart (map f bs) ≡ true
  unfolding apart
  apart_shorter [] h = refl
  apart_shorter (b ∷ bs) h = ground (arith, any_shorter b bs, apart_shorter bs)

update_where-map :
    (p : Block → Bool) (f : Block → Block) (bs : List Block)
    → update_where p f bs ≡ map (λ b. if p b then f b else b) bs
update_where-map p f [] = refl
update_where-map p f (b ∷ bs) = ground (arith, update_where-map p f bs)

clamp-Shortens :
    (scope : Option ℕ) (now : ℕ) (rows : List Reservation)
    → Shortens (λ b.
      if in_scope scope b && (not (open_rental rows b) && clamped now rows b)
      then record b { end_date = clamp_end now rows b }
      else b)
clamp-Shortens scope now rows b = ground arith

clamp_closed_physical_rental_blocks-apart :
    (scope : Option ℕ) (now : ℕ) (rows : List Reservation) (bs : List Block)
    → apart bs ≡ true
    → apart (clamp_closed_physical_rental_blocks scope now rows bs) ≡ true
unfolding clamp_closed_physical_rental_blocks
clamp_closed_physical_rental_blocks-apart scope now rows bs h =
    rw
      (update_where-map (λ b. in_scope scope b && (not (open_rental rows b) && clamped now rows b))
        (λ b. record b { end_date = clamp_end now rows b }) bs)
      (apart_shorter _ (clamp-Shortens scope now rows) bs h)

purge_rows-apart :
    (scope : Option ℕ) (now : ℕ) (rows : List Reservation) (bs : List Block)
    → apart bs ≡ true
    → apart (purge_rows scope now rows bs) ≡ true
unfolding delete_expired
purge_rows-apart scope now rows bs h =
    apart-keep _ (clamp_closed_physical_rental_blocks scope now rows bs)
      (clamp_closed_physical_rental_blocks-apart scope now rows bs h)

-- The purge gives the rows that are left after an extension that fits, or after none.
pub purge_expired_inversion :
    (in_transaction : Bool) (scope : Option ℕ) (now : ℕ) (rows : List Reservation)
    (bs bs' : List Block)
    → purge_expired in_transaction scope now rows bs ≡ ok bs'
    → ((apart (extended_rows scope now rows bs) ≡ true)
        × (bs' ≡ purge_rows scope now rows (extended_rows scope now rows bs)))
      ⊎ (bs' ≡ purge_rows scope now rows bs)
unfolding purge_expired extend_open_physical_rental_blocks
purge_expired_inversion t scope now rows bs bs' e =
    elim (Bool-cases (apart (extended_rows scope now rows bs))) [
      | inl y ↦ inl (y, ground arith)
      | inr n ↦ inr (ground arith)
    ]

pub purge_expired-apart :
    (in_transaction : Bool) (scope : Option ℕ) (now : ℕ) (rows : List Reservation)
    (bs bs' : List Block)
    → apart bs ≡ true
    → purge_expired in_transaction scope now rows bs ≡ ok bs'
    → apart bs' ≡ true
purge_expired-apart t scope now rows bs bs' h e =
    elim (purge_expired_inversion t scope now rows bs bs' e) [
      | inl (y, same) ↦
          rw same (purge_rows-apart scope now rows (extended_rows scope now rows bs) y)
      | inr same ↦ rw same (purge_rows-apart scope now rows bs h)
    ]

any_append_one :
    (q : Block → Bool) (bs : List Block) (b : Block) → any q (bs ++ (b ∷ [])) ≡ (any q bs || q b)
any_append_one q [] b = ground arith
any_append_one q (x ∷ xs) b = ground (arith, any_append_one q xs b)

pub apart-append_one :
    (bs : List Block) (b : Block)
    → apart bs ≡ true
    → any (clashes b) bs ≡ false
    → apart (bs ++ (b ∷ [])) ≡ true
unfolding apart
apart-append_one [] b h k = refl
apart-append_one (x ∷ xs) b h k =
    ground (arith, any_append_one (clashes x) xs b, apart-append_one xs b)

-- A range of a car that no block overlaps fits the constraint: the row is inserted.
pub insert_free :
    (id car_id start end : ℕ) (bs : List Block)
    → start < end
    → taken car_id start end bs ≡ false
    → any (clashes (new_block id car_id start end)) bs ≡ false
insert_free id car start end [] h k = refl
insert_free id car start end (b ∷ bs) h k = ground (arith, insert_free id car start end bs)
