-- ===== src/Holds/Exclusive.antt =====
-- Holds that stand in each other's way, and what changes of the rows do to them.
use rent_a_car_v.Base.{
  ℕ, ◌≡◌, ◌≤◌, refl, Bool, true, false, not, ◌&&◌, ◌||◌, List, [], ◌∷◌, ◌++◌, any, count,
  update_where, ltb, leb, ◌==◌, arith, if◌then◌else◌,
}
use rent_a_car_v.Lifecycle.{is_hold_status}
use rent_a_car_v.Database.{Reservation}
use rent_a_car_v.Holds.Create.{holds_overlap, holds_share_session}

abbrev pub collide : Reservation → Reservation → Bool
collide a b = holds_overlap a b || holds_share_session a b

-- What the two constraints say of the table.
unfoldable pub exclusive : List Reservation → Bool
exclusive [] = true
exclusive (r ∷ rs) = not (any (collide r) rs) && exclusive rs

-- A change that keeps the car, the session and the dates, and makes no hold.
abbrev pub Frees : (Reservation → Reservation) → Type 0
Frees f =
    (r : Reservation)
    → ((f r).car_id ≡ r.car_id)
      × ((f r).session_id ≡ r.session_id)
      × ((f r).pickup_date ≡ r.pickup_date)
      × ((f r).return_date ≡ r.return_date)
      × (is_hold_status (f r).status && not (is_hold_status r.status) ≡ false)

module _ (p : Reservation → Bool) (f : Reservation → Reservation) (frees : Frees f) where
  collide_less :
      (a b : Reservation)
      → collide a b ≡ false
      → collide (if p a then f a else a) (if p b then f b else b) ≡ false
  collide_less a b h = ground (arith, frees a, frees b)

  none_less :
      (a : Reservation) (rs : List Reservation)
      → any (collide a) rs ≡ false
      → any (collide (if p a then f a else a)) (update_where p f rs) ≡ false
  none_less a [] h = refl
  none_less a (r ∷ rs) h = ground (arith, collide_less a r, none_less a rs)

  pub update_where-exclusive :
      (rs : List Reservation) → exclusive rs ≡ true → exclusive (update_where p f rs) ≡ true
  unfolding exclusive
  update_where-exclusive [] h = refl
  update_where-exclusive (r ∷ rs) h = ground (arith, none_less r rs, update_where-exclusive rs)

pub any_append_one :
    (q : Reservation → Bool) (rs : List Reservation) (r : Reservation)
    → any q (rs ++ (r ∷ [])) ≡ (any q rs || q r)
any_append_one q [] r = ground arith
any_append_one q (x ∷ xs) r = ground (arith, any_append_one q xs r)

pub append_one-exclusive :
    (rs : List Reservation) (r : Reservation)
    → exclusive rs ≡ true
    → any (collide r) rs ≡ false
    → exclusive (rs ++ (r ∷ [])) ≡ true
unfolding exclusive
append_one-exclusive [] r h k = refl
append_one-exclusive (x ∷ xs) r h k =
    ground (arith, any_append_one (collide x) xs r, append_one-exclusive xs r)

-- The row is a hold that takes the car at the instant.
abbrev pub holds_at : ℕ → ℕ → Reservation → Bool
holds_at car_id t r =
    is_hold_status r.status && (r.car_id == car_id && (leb r.pickup_date t && ltb t r.return_date))

abbrev pub holds_of : ℕ → Reservation → Bool
holds_of session_id r = is_hold_status r.status && r.session_id == session_id

holds_alone :
    (car_id t : ℕ) (r : Reservation) (rs : List Reservation)
    → any (collide r) rs ≡ false
    → holds_at car_id t r ≡ true
    → count (holds_at car_id t) rs ≡ 0
holds_alone car t r [] h k = refl
holds_alone car t r (x ∷ xs) h k = ground (arith, holds_alone car t r xs)

pub exclusive-holds_at :
    (car_id t : ℕ) (rs : List Reservation) → exclusive rs ≡ true → count (holds_at car_id t) rs ≤ 1
unfolding exclusive
exclusive-holds_at car t [] h = ground arith
exclusive-holds_at car t (r ∷ rs) h =
    ground (arith, holds_alone car t r rs, exclusive-holds_at car t rs)

session_alone :
    (s : ℕ) (r : Reservation) (rs : List Reservation)
    → any (collide r) rs ≡ false
    → holds_of s r ≡ true
    → count (holds_of s) rs ≡ 0
session_alone s r [] h k = refl
session_alone s r (x ∷ xs) h k = ground (arith, session_alone s r xs)

pub exclusive-holds_of :
    (s : ℕ) (rs : List Reservation) → exclusive rs ≡ true → count (holds_of s) rs ≤ 1
unfolding exclusive
exclusive-holds_of s [] h = ground arith
exclusive-holds_of s (r ∷ rs) h = ground (arith, session_alone s r rs, exclusive-holds_of s rs)
