-- ===== src/Holds/Replace.antt =====
-- One row of a table of holds is replaced.
use rent_a_car_v.Base.{
  ℕ, ◌≡◌, refl, inl, inr, Bool, true, false, not, ◌&&◌, some, none, List, [], ◌∷◌, any, find,
  update_where, ◌==◌, arith, Bool-cases,
}
use rent_a_car_v.Database.{Reservation}
use rent_a_car_v.StatusChange.Inversion.{has_id}
use rent_a_car_v.Holds.Recorded.{distinct_ids}
use rent_a_car_v.Holds.Rehold.{others}
use rent_a_car_v.Holds.Exclusive.{collide, exclusive}

collide_comm : (a b : Reservation) → collide a b ≡ collide b a
collide_comm a b = ground arith

others_all : (i : ℕ) (rs : List Reservation) → any (has_id i) rs ≡ false → others i rs ≡ rs
others_all i [] h = refl
others_all i (r ∷ rs) h = ground (arith, others_all i rs)

any-find :
    (p q : Reservation → Bool) (rs : List Reservation) (r : Reservation)
    → find p rs ≡ some r
    → any q rs ≡ false
    → q r ≡ false
any-find p q [] r e h = absurd (ground arith)
any-find p q (x ∷ xs) r e h = ground (arith, any-find p q xs r)

pub any-less :
    (q t : Reservation → Bool) (rs : List Reservation)
    → ((r : Reservation) → q r ≡ false → t r ≡ false)
    → any q rs ≡ false
    → any t rs ≡ false
any-less q t [] less h = refl
any-less q t (r ∷ rs) less h = ground (arith, less r, any-less q t rs less)

-- A row that `p` finds has the id `i`, and ids are distinct.
module _ (p : Reservation → Bool) (i : ℕ)
    (named : (r : Reservation) → p r && not (r.id == i) ≡ false) where
  not_named : (rs : List Reservation) → any (has_id i) rs ≡ false → any p rs ≡ false
  not_named [] h = refl
  not_named (r ∷ rs) h = ground (arith, named r, not_named rs)

  none_found : (rs : List Reservation) → any p rs ≡ false → find p rs ≡ none
  none_found [] h = refl
  none_found (r ∷ rs) h = ground (arith, none_found rs)

  unchanged :
      (f : Reservation → Reservation) (rs : List Reservation)
      → any p rs ≡ false
      → update_where p f rs ≡ rs
  unchanged f [] h = refl
  unchanged f (r ∷ rs) h = ground (arith, unchanged f rs)

  any-replace :
      (q : Reservation → Bool) (f : Reservation → Reservation) (rs : List Reservation)
      (r : Reservation)
      → distinct_ids rs ≡ true
      → find p rs ≡ some r
      → any q rs ≡ false
      → q (f r) ≡ false
      → any q (update_where p f rs) ≡ false
  any-replace q f [] r d e h k = h
  any-replace q f (x ∷ xs) r d e h k = elim (Bool-cases (p x)) [
    | inl y ↦ ground (arith, named x, not_named xs, unchanged f xs)
    | inr n ↦ ground (arith, any-replace q f xs r)
  ]

  -- The new row stands in no other row's way.
  pub replace-exclusive :
      (f : Reservation → Reservation) (rs : List Reservation) (r : Reservation)
      → distinct_ids rs ≡ true
      → find p rs ≡ some r
      → any (collide (f r)) (others i rs) ≡ false
      → exclusive rs ≡ true
      → exclusive (update_where p f rs) ≡ true
  unfolding exclusive
  replace-exclusive f [] r d e k h = h
  replace-exclusive f (x ∷ xs) r d e k h = elim (Bool-cases (p x)) [
    | inl y ↦ ground (arith, named x, not_named xs, unchanged f xs, others_all i xs)
    | inr n ↦ elim (Bool-cases (x.id == i)) [
      | inl y ↦ absurd (ground (arith, not_named xs, none_found xs))
      | inr m ↦
          ground
            (arith, collide_comm x (f r), any-replace (collide x) f xs r, replace-exclusive f xs r)
    ]
  ]

  -- A row that stands in the table is in no other row's way.
  pub found_free :
      (rs : List Reservation) (r : Reservation)
      → distinct_ids rs ≡ true
      → find p rs ≡ some r
      → exclusive rs ≡ true
      → any (collide r) (others i rs) ≡ false
  unfolding exclusive
  found_free [] r d e h = refl
  found_free (x ∷ xs) r d e h = elim (Bool-cases (p x)) [
    | inl y ↦ ground (arith, named x, others_all i xs)
    | inr n ↦ elim (Bool-cases (x.id == i)) [
      | inl y ↦ absurd (ground (arith, not_named xs, none_found xs))
      | inr m ↦ ground (arith, collide_comm x r, any-find p (collide x) xs r, found_free xs r)
    ]
  ]
