-- ===== src/Pricing/Double/Signs.antt =====
-- What the operations keep of the sign of a number.
use native.Mathlib.Nat.{div-eq_of_lt}
use rent_a_car_v.Base.{
  ℕ, zero, suc, ◌+◌, ◌-◌, ◌*◌, ◌/◌, ◌≤◌, ◌≡◌, ◌⊎◌, inl, inr, leb, arith, Bool-cases,
}
use rent_a_car_v.Base.Int.{ℤ, pos, negsuc, ◌+ℤ◌, ◌*ℤ◌, ◌≤ℤ◌, neg}
use rent_a_car_v.Pricing.Double.{
  two_52, scale, half_even, unit_of, nearest, hundredths, plus, times, floor_div, math_round,
}
use rent_a_car_v.Pricing.Money.{round2}

nearest_nonneg : (n : ℤ) (d : ℕ) → pos 0 ≤ℤ n → pos 0 ≤ℤ (nearest n d).numerator
unfolding nearest
nearest_nonneg (pos n) d h = ground arith
nearest_nonneg (negsuc n) d h = absurd (ground arith)

zero_nonpos : (u d : ℕ) → pos (half_even (0 * u) d) ≤ℤ pos 0
unfolding half_even
zero_nonpos u d = ground arith

neg_nonpos : (m : ℕ) → neg m ≤ℤ pos 0
neg_nonpos m = ground arith

nearest_nonpos : (n : ℤ) (d : ℕ) → n ≤ℤ pos 0 → (nearest n d).numerator ≤ℤ pos 0
unfolding nearest
nearest_nonpos (pos zero) d h = zero_nonpos (unit_of 0 d) d
nearest_nonpos (pos (suc n)) d h = absurd (ground arith)
nearest_nonpos (negsuc n) d h = neg_nonpos (half_even (suc n * unit_of (suc n) d) d)

half_even_least : (a d : ℕ) → a / d ≤ half_even a d
unfolding half_even
half_even_least a d = ground arith

-- The unit of a number of hundredths is bounded, and it is the one sought or all doublings are spent.
scale_bounds :
    (fuel u n : ℕ)
    → 1 ≤ u
    → u ≤ 900_719_925_474_099_200
    → (scale fuel u (suc n) 100 ≤ 900_719_925_474_099_200)
      × ((two_52 ≤ suc n * scale fuel u (suc n) 100 / 100) ⊎ (u + fuel ≤ scale fuel u (suc n) 100))
unfolding scale
scale_bounds zero u n h b = (b, inr (ground arith))
scale_bounds (suc fuel) u n h b = elim (Bool-cases (leb two_52 (suc n * u / 100))) [
  | inl y ↦ rw y (b, inl (ground arith))
  | inr k ↦
      let (up, found) = scale_bounds fuel (2 * u) n (ground arith) (ground arith) in
      rw k (up, elim found [ inl f ↦ inl f | inr f ↦ inr (ground arith) ])
]

least :
    (n u m : ℕ)
    → u ≤ 900_719_925_474_099_200
    → (two_52 ≤ suc n * u / 100) ⊎ (1 + 1074 ≤ u)
    → suc n * u / 100 ≤ m
    → u ≤ m * two_52
least n u m up found le =
    let more : u ≤ suc n * u = ground arith in
    elim found [ inl f ↦ ground arith | inr f ↦ ground arith ]

hundredths_least :
    (n : ℕ) → unit_of (suc n) 100 ≤ half_even (suc n * unit_of (suc n) 100) 100 * two_52
hundredths_least n =
    let u = unit_of (suc n) 100 in
    let (up, found) = scale_bounds 1074 1 n (ground arith) (ground arith) in
    least n u (half_even (suc n * u) 100) up found (half_even_least (suc n * u) 100)

below_epsilon : (m u : ℕ) → u ≤ m * two_52 → neg m *ℤ pos two_52 +ℤ pos 1 *ℤ pos u ≤ℤ pos 0
unfolding ◌+ℤ◌ ◌*ℤ◌
below_epsilon zero u h = ground arith
below_epsilon (suc m) u h = ground arith

hundred_nonpos : (a : ℤ) → a ≤ℤ pos 0 → a *ℤ pos 100 ≤ℤ pos 0
unfolding ◌*ℤ◌
hundred_nonpos (pos n) h = ground arith
hundred_nonpos (negsuc n) h = ground arith

hundred_nonneg : (a : ℤ) → pos 0 ≤ℤ a → pos 0 ≤ℤ a *ℤ pos 100
unfolding ◌*ℤ◌
hundred_nonneg (pos n) h = ground arith
hundred_nonneg (negsuc n) h = ground arith

half_unit : (k u : ℕ) → k ≤ u → k / (2 * u) ≡ 0
half_unit k zero h = ground arith
half_unit k (suc u) h = div-eq_of_lt (ground arith)

rounds_nonpos : (a : ℤ) (u : ℕ) → a ≤ℤ pos 0 → floor_div (a *ℤ pos 2 +ℤ pos u) (2 * u) ≤ℤ pos 0
unfolding floor_div ◌+ℤ◌ ◌*ℤ◌
rounds_nonpos (pos zero) u h = ground (arith, half_unit u u)
rounds_nonpos (pos (suc n)) u h = absurd (ground arith)
rounds_nonpos (negsuc n) u h = ground (arith, half_unit (u - 2 * suc n) u)

rounds_nonneg : (a : ℤ) (u : ℕ) → pos 0 ≤ℤ a → pos 0 ≤ℤ floor_div (a *ℤ pos 2 +ℤ pos u) (2 * u)
unfolding floor_div ◌+ℤ◌ ◌*ℤ◌
rounds_nonneg (pos n) u h = ground arith
rounds_nonneg (negsuc n) u h = absurd (ground arith)

above_epsilon : (n u : ℕ) → pos 0 ≤ℤ pos n *ℤ pos two_52 +ℤ pos 1 *ℤ pos u
unfolding ◌+ℤ◌ ◌*ℤ◌
above_epsilon n u = ground arith

-- Rounding a number of hundredths keeps its sign.
pub round2_nonneg : (n : ℕ) → pos 0 ≤ℤ round2 (hundredths (pos n))
unfolding round2 times plus math_round nearest
round2_nonneg n =
    let u = unit_of n 100 in
    let x = nearest (pos (half_even (n * u) 100) *ℤ pos two_52 +ℤ pos 1 *ℤ pos u) (u * two_52) in
    rounds_nonneg _ _ (
      nearest_nonneg (x.numerator *ℤ pos 100) (x.unit * 1)
        (hundred_nonneg x.numerator (nearest_nonneg _ _ (above_epsilon (half_even (n * u) 100) u))))

pub round2_nonpos : (n : ℕ) → round2 (hundredths (negsuc n)) ≤ℤ pos 0
unfolding round2 times plus math_round nearest
round2_nonpos n =
    let u = unit_of (suc n) 100 in
    let m = half_even (suc n * u) 100 in
    let x = nearest (neg m *ℤ pos two_52 +ℤ pos 1 *ℤ pos u) (u * two_52) in
    rounds_nonpos _ _ (
      nearest_nonpos (x.numerator *ℤ pos 100) (x.unit * 1)
        (hundred_nonpos x.numerator (nearest_nonpos _ _ (below_epsilon m u (hundredths_least n)))))
