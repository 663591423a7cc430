-- ===== src/Pricing/Double.antt =====
-- The language's numbers, as far as prices use them: binary floating point with 53 significant bits, each
-- operation rounded to the nearest number and ties to the even one. Exact below 2^53; a number there
-- that is not subnormal has the least unit that gives it 53 bits, and no unit is less than 2^-1074.
pub mod Signs
use rent_a_car_v.Base.{
  ℕ, zero, suc, ◌+◌, ◌-◌, ◌*◌, ◌/◌, Bool, ◌&&◌, ◌||◌, ltb, leb, ◌==◌, if◌then◌else◌,
}
use rent_a_car_v.Base.Int.{ℤ, pos, negsuc, ◌+ℤ◌, ◌*ℤ◌, neg}

-- `numerator / unit`, where `unit` is a power of 2.
pub record Double : Type 0 where
  pub numerator : ℤ
  pub unit : ℕ

abbrev pub two_52 : ℕ
two_52 = 4_503_599_627_370_496

-- The unit of the number nearest to `n / d`: the first doubling of `u` that gives the quotient 53 bits.
unfoldable pub scale : ℕ → ℕ → ℕ → ℕ → ℕ
scale zero u n d = u
scale (suc fuel) u n d = if leb two_52 (n * u / d) then u else scale fuel (2 * u) n d

abbrev pub is_odd : ℕ → Bool
is_odd q = q - q / 2 * 2 == 1

-- `a / d` to the nearest whole number, ties to the even one.
unfoldable pub half_even : ℕ → ℕ → ℕ
half_even a d =
    let q = a / d in
    let rem = a - q * d in if ltb d (2 * rem) || (2 * rem == d && is_odd q) then suc q else q

abbrev pub unit_of : ℕ → ℕ → ℕ
unit_of n d = scale 1074 1 n d

-- The number nearest to `n / d`.
unfoldable pub nearest : ℤ → ℕ → Double
unfolding scale half_even
nearest (pos n) d = record { numerator = pos (half_even (n * unit_of n d) d); unit = unit_of n d }
nearest (negsuc n) d = record {
  numerator = neg (half_even (suc n * unit_of (suc n) d) d);
  unit = unit_of (suc n) d;
}

abbrev pub whole : ℕ → Double
whole n = record { numerator = pos n; unit = 1 }

-- The number that a decimal with two places is read as.
abbrev pub hundredths : ℤ → Double
hundredths n = nearest n 100

unfoldable pub plus : Double → Double → Double
plus a b = nearest (a.numerator *ℤ pos b.unit +ℤ b.numerator *ℤ pos a.unit) (a.unit * b.unit)

unfoldable pub times : Double → Double → Double
times a b = nearest (a.numerator *ℤ b.numerator) (a.unit * b.unit)

unfoldable pub over : Double → ℕ → Double
over a n = nearest a.numerator (a.unit * n)

-- `Number.EPSILON`.
abbrev pub epsilon : Double
epsilon = record { numerator = pos 1; unit = two_52 }

-- `Math.floor(n / d)`.
unfoldable pub floor_div : ℤ → ℕ → ℤ
floor_div (pos n) d = pos (n / d)
floor_div (negsuc n) d = negsuc (n / d)

-- `Math.round`: the nearest whole number, halves up.
unfoldable pub math_round : Double → ℤ
unfolding floor_div
math_round a = floor_div (a.numerator *ℤ pos 2 +ℤ pos a.unit) (2 * a.unit)
