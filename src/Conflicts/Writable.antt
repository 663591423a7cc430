-- ===== src/Conflicts/Writable.antt =====
-- What a range that may be written is free of.
use rent_a_car_v.Base.{
  ℕ, suc, ◌≤◌, ◌<◌, ap, All, Option, ◌≡◌, ◌≢◌, refl, ◌⊎◌, inl, inr, Bool, true, false, ◌&&◌, ◌||◌,
  none, some, List, [], ◌∷◌, ◌++◌, find, keep, any, ◌==◌, ok, arith, Bool-cases, Option-cases,
  is_some,
}
use rent_a_car_v.Lifecycle.{
  pending_payment, processing_payment, picked_up, active_rental, is_hold_status,
}
use rent_a_car_v.Database.{Block, Reservation, in_maintenance, damaged, inactive}
use rent_a_car_v.Conflicts.{
  excluded, Conflict, Schedule, Plan, ScheduledCar, assert_writable,
  check_reservation_range_conflicts, car_conflicts, is_hard, is_soft, hold_conflicts,
  find_overlapping_hold, find_open_physical_rental, when_found, holds_car, is_out, find_car,
  blocks_plan, block_conflicts, block_rows, status_conflicts, hard_unbookable, sequence_conflicts,
  expiry_conflicts, damage_conflicts, conflict, block, open_physical_rental, insurance_expired,
  insurance_expires_during, inspection_expired, inspection_expires_during,
}

any-append :
    (q : Conflict → Bool) (cs ds : List Conflict) → any q (cs ++ ds) ≡ (any q cs || any q ds)
any-append q [] ds = refl
any-append q (c ∷ cs) ds = ground (arith, any-append q cs ds)

-- A test that no conflict of a car passes is one that no conflict of any part passes.
pub car_conflicts-parts :
    (q : Conflict → Bool) (s : Schedule) (p : Plan) (c : ScheduledCar)
    → any q (car_conflicts s p c) ≡ (
        any q (status_conflicts c)
        || (any q (hold_conflicts s p)
            || (any q (
                  when_found
                    (find_open_physical_rental s p)
                    (conflict open_physical_rental block false))
                || (any q (block_conflicts s p)
                    || (any q (sequence_conflicts s p)
                        || (any q (
                              expiry_conflicts c.insurance_expiry p insurance_expired
                                insurance_expires_during)
                            || (any q (
                                  expiry_conflicts c.technical_inspection_expiry p
                                    inspection_expired inspection_expires_during)
                                || any q (damage_conflicts s c))))))))
unfolding car_conflicts
car_conflicts-parts q s p c =
    let a = status_conflicts c in
    let b = hold_conflicts s p in
    let d =
      when_found (find_open_physical_rental s p) (conflict open_physical_rental block false) in
    let e = block_conflicts s p in
    let f = sequence_conflicts s p in
    let g = expiry_conflicts c.insurance_expiry p insurance_expired insurance_expires_during in
    let h =
      expiry_conflicts c.technical_inspection_expiry p inspection_expired
        inspection_expires_during in
    let i = damage_conflicts s c in
    ground (
      arith,
      any-append q a (b ++ (d ++ (e ++ (f ++ (g ++ (h ++ i)))))),
      any-append q b (d ++ (e ++ (f ++ (g ++ (h ++ i))))),
      any-append q d (e ++ (f ++ (g ++ (h ++ i)))),
      any-append q e (f ++ (g ++ (h ++ i))),
      any-append q f (g ++ (h ++ i)),
      any-append q g (h ++ i),
      any-append q h i,
    )

module _ {A : Type 0} (q : A → Bool) where
  found_passes : (xs : List A) (x : A) → find q xs ≡ some x → q x ≡ true
  found_passes [] x e = absurd (ground arith)
  found_passes (y ∷ ys) x e = elim (Bool-cases (q y)) [
    | inl k ↦ ground arith
    | inr k ↦ ground (arith, found_passes ys x)
  ]

  found_none : (xs : List A) → find q xs ≡ none → any q xs ≡ false
  found_none [] e = refl
  found_none (y ∷ ys) e = ground (arith, found_none ys)

module _ (s : Schedule) (p : Plan) (ne : p.car_id ≢ 0) where
  no_hold : any is_hard (hold_conflicts s p) ≡ false → any (holds_car s p) s.reservations ≡ false
  unfolding hold_conflicts find_overlapping_hold
  no_hold h =
      let given : (p.car_id == 0) ≡ false = ground arith in
      elim (Option-cases (find (holds_car s p) s.reservations)) [
        | inl n ↦ found_none (holds_car s p) s.reservations n
        | inr (r, f) ↦
            let k = found_passes (holds_car s p) s.reservations r f in absurd (ground arith)
      ]

  not_out :
      any is_hard
          (when_found (find_open_physical_rental s p) (conflict open_physical_rental block false))
        ≡ false
      → any (is_out p) s.reservations ≡ false
  unfolding find_open_physical_rental
  not_out h =
      let given : (p.car_id == 0) ≡ false = ground arith in
      elim (Option-cases (find (is_out p) s.reservations)) [
        | inl n ↦ found_none (is_out p) s.reservations n
        | inr (r, f) ↦ absurd (ground arith)
      ]

written :
    (cs : List Conflict) (force can_override : Bool) (res : List Conflict × Bool)
    → assert_writable cs force can_override ≡ ok res
    → (any is_hard cs ≡ false) × ((any is_soft cs ≡ false) ⊎ ((force && can_override) ≡ true))
unfolding assert_writable
written cs force can res e = elim (Bool-cases (any is_hard cs)) [
  | inl y ↦ absurd (ground arith)
  | inr n ↦ elim (Bool-cases (any is_soft cs)) [
    | inr k ↦ (n, inl k)
    | inl k ↦ elim (Bool-cases (force && can)) [
      | inl w ↦ (n, inr w)
      | inr w ↦ absurd (ground arith)
    ]
  ]
]

pub check_found :
    (s : Schedule) (p : Plan) (c : ScheduledCar)
    → find_car s p ≡ some c
    → check_reservation_range_conflicts s p ≡ car_conflicts s p c
unfolding check_reservation_range_conflicts
check_found s p c f = ground arith

check_missing :
    (s : Schedule) (p : Plan)
    → find_car s p ≡ none
    → any is_hard (check_reservation_range_conflicts s p) ≡ true
unfolding check_reservation_range_conflicts
check_missing s p f = ground arith

-- What the rows themselves say of an instant `t`, or of the present.
abbrev pub IsOther : Plan → Reservation → Type 0
IsOther p r = (r.car_id ≡ p.car_id) × (p.exclude_reservation_id ≢ some r.id)

abbrev pub HoldsAt : ℕ → ℕ → Reservation → Type 0
HoldsAt now t r =
    ((r.status ≡ pending_payment) ⊎ (r.status ≡ processing_payment))
    × (now < r.hold_expires_at)
    × (r.pickup_date ≤ t)
    × (t < r.return_date)

abbrev pub IsOut : Reservation → Type 0
IsOut r = (r.status ≡ picked_up) ⊎ (r.status ≡ active_rental)

abbrev pub BlocksAt : Plan → ℕ → Block → Type 0
BlocksAt p t b =
    (b.car_id ≡ p.car_id) × (p.exclude_block_id ≢ some b.id) × (b.start_date ≤ t) × (t < b.end_date)

not_excluded : (e : Option ℕ) (i : ℕ) → e ≢ some i → excluded e i ≡ false
not_excluded none i ne = refl
not_excluded (some j) i ne = elim (Bool-cases (i == j)) [
  | inr n ↦ n
  | inl y ↦ absurd (ne (ap some (ground arith)))
]

none_passes :
    {A : Type 0} (q : A → Bool) (P : A → Type 0) (xs : List A)
    → ((x : A) → P x → q x ≡ true)
    → any q xs ≡ false
    → All (λ x. P x → ⊥) xs
none_passes q P [] f n = tt
none_passes q P (x ∷ xs) f n =
    (λ h. let k : q x ≡ true = f x h in ground arith, none_passes q P xs f (ground arith))

held_found :
    (s : Schedule) (p : Plan) (t : ℕ) (r : Reservation)
    → p.start ≤ t
    → t < p.end
    → IsOther p r × HoldsAt s.now t r
    → holds_car s p r ≡ true
unfolding is_hold_status
held_found s p t r from until ((car, other), (inl e, live, after, before)) =
    ground (arith, not_excluded p.exclude_reservation_id r.id other)
held_found s p t r from until ((car, other), (inr e, live, after, before)) =
    ground (arith, not_excluded p.exclude_reservation_id r.id other)

out_found : (p : Plan) (r : Reservation) → IsOther p r × IsOut r → is_out p r ≡ true
out_found p r ((car, other), inl e) =
    ground (arith, not_excluded p.exclude_reservation_id r.id other)
out_found p r ((car, other), inr e) =
    ground (arith, not_excluded p.exclude_reservation_id r.id other)

block_found :
    (p : Plan) (t : ℕ) (b : Block)
    → p.start ≤ t
    → t < p.end
    → BlocksAt p t b
    → blocks_plan p b ≡ true
block_found p t b from until (car, other, after, before) =
    ground (arith, not_excluded p.exclude_block_id b.id other)

-- A range that may be written, with whatever permission and force, is one of a car that is there. At no
-- instant of the range does a running payment hold of a reservation of the car take it, and no
-- reservation of the car is under way, in each case but for the reservation that the plan excludes.
pub writable_is_free :
    (s : Schedule) (p : Plan) (force can_override : Bool) (res : List Conflict × Bool) (t : ℕ)
    → p.car_id ≢ 0
    → p.start ≤ t
    → t < p.end
    → assert_writable (check_reservation_range_conflicts s p) force can_override ≡ ok res
    → (is_some (find_car s p) ≡ true)
      × All (λ r. IsOther p r × HoldsAt s.now t r → ⊥) s.reservations
      × All (λ r. IsOther p r × IsOut r → ⊥) s.reservations
writable_is_free s p force can res t ne from until e =
    let (hard, _) = written (check_reservation_range_conflicts s p) force can res e in
    elim (Option-cases (find_car s p)) [
      | inl n ↦ absurd (ground (arith, check_missing s p n))
      | inr (c, f) ↦
          let hard' : any is_hard (car_conflicts s p c) ≡ false =
            rw (check_found s p c f) at hard in
          let parts = car_conflicts-parts is_hard s p c in
          (
            ground arith,
            none_passes (holds_car s p) (λ r. IsOther p r × HoldsAt s.now t r) s.reservations
                (λ r. held_found s p t r from until) (no_hold s p ne (ground arith)),
            none_passes (is_out p) (λ r. IsOther p r × IsOut r) s.reservations (out_found p)
                (not_out s p ne (ground arith)),
          )
    ]

blocks_found :
    (n : ℕ) (p : Plan) (bs : List Block)
    → any is_soft (block_rows (suc n) (keep (blocks_plan p) bs)) ≡ any (blocks_plan p) bs
unfolding block_rows
blocks_found n p [] = refl
blocks_found n p (b ∷ bs) = elim (Bool-cases (blocks_plan p b)) [
  | inl y ↦ rw y refl
  | inr k ↦ rw k (blocks_found n p bs)
]

-- A range that is written without an override meets at no instant a block of the car other than the
-- block that the plan excludes, and the car is not in maintenance, damaged or inactive.
pub unforced_is_clear :
    (s : Schedule) (p : Plan) (c : ScheduledCar) (force can_override : Bool)
    (res : List Conflict × Bool) (t : ℕ)
    → (force && can_override) ≡ false
    → find_car s p ≡ some c
    → p.start ≤ t
    → t < p.end
    → assert_writable (check_reservation_range_conflicts s p) force can_override ≡ ok res
    → All (λ b. BlocksAt p t b → ⊥) s.blocks
      × (c.status ≢ in_maintenance)
      × (c.status ≢ damaged)
      × (c.status ≢ inactive)
unfolding block_conflicts status_conflicts
unforced_is_clear s p c force can res t weak f from until e =
    let (_, soft) = written (check_reservation_range_conflicts s p) force can res e in
    elim soft [
      | inr w ↦ absurd (ground arith)
      | inl none_soft ↦
          let soft' : any is_soft (car_conflicts s p c) ≡ false =
            rw (check_found s p c f) at none_soft in
          let parts = car_conflicts-parts is_soft s p c in
          let usable : hard_unbookable c.status ≡ false = ground arith in
          (
            none_passes (blocks_plan p) (BlocksAt p t) s.blocks (λ b. block_found p t b from until)
                (ground (arith, blocks_found 4 p s.blocks)),
            λ x. ground arith,
            λ x. ground arith,
            λ x. ground arith,
          )
    ]
