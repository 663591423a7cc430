-- ===== src/Text/Decimal.antt =====
-- Decimal numerals: reading back what was written.
use rent_a_car_v.Base.{
  ℕ, zero, suc, ◌+◌, ◌-◌, ◌*◌, ◌/◌, ◌%◌, ◌<◌, ◌≡◌, refl, inl, inr, true, [], ◌∷◌, ◌++◌, arith, ltb,
  Bool-cases,
}
use rent_a_car_v.Text.{Text, is_digit, all_digits, value_from, digits_fuel, decimal, same_text}

value_from-append :
    (acc : ℕ) (s : Text) (d : ℕ)
    → value_from acc (s ++ (d ∷ [])) ≡ value_from acc s * 10 + (d - b'0')
unfolding value_from
value_from-append acc [] d = refl
value_from-append acc (c ∷ s) d = value_from-append (acc * 10 + (c - b'0')) s d

all_digits-append :
    (s : Text) (d : ℕ) → all_digits s ≡ true → is_digit d ≡ true → all_digits (s ++ (d ∷ [])) ≡ true
unfolding all_digits
all_digits-append [] d h k = rw k
all_digits-append (c ∷ s) d h k = ground (arith, all_digits-append s d)

digits_fuel_value : (f n : ℕ) → n < f → value_from 0 (digits_fuel f n) ≡ n
unfolding digits_fuel value_from
digits_fuel_value zero n h = absurd (omega arith)
digits_fuel_value (suc f) n h = elim (Bool-cases (ltb n 10)) [
  | inl e ↦ rw e (ground arith)
  | inr e ↦ rw e (
      rw (value_from-append 0 (digits_fuel f (n / 10)) (b'0' + n % 10))
        (ground (arith, digits_fuel_value f (n / 10))))
]

digits_fuel_digits : (f n : ℕ) → all_digits (digits_fuel f n) ≡ true
unfolding digits_fuel all_digits
digits_fuel_digits zero n = refl
digits_fuel_digits (suc f) n = elim (Bool-cases (ltb n 10)) [
  | inl e ↦ rw e (ground arith)
  | inr e ↦ rw e (
      all_digits-append (digits_fuel f (n / 10)) (b'0' + n % 10) (digits_fuel_digits f (n / 10))
        (ground arith))
]

pub value_from-decimal : (n : ℕ) → value_from 0 (decimal n) ≡ n
unfolding decimal
value_from-decimal n = digits_fuel_value (suc n) n (omega arith)

pub all_digits-decimal : (n : ℕ) → all_digits (decimal n) ≡ true
unfolding decimal
all_digits-decimal n = digits_fuel_digits (suc n) n

pub same_text_eq : (s t : Text) → same_text s t ≡ true → s ≡ t
unfolding same_text
same_text_eq [] [] h = refl
same_text_eq (c ∷ s) (d ∷ t) h = ground (arith, same_text_eq s t)
same_text_eq [] (d ∷ t) h = cc
same_text_eq (c ∷ s) [] h = cc

pub same_text_refl : (s : Text) → same_text s s ≡ true
unfolding same_text
same_text_refl [] = refl
same_text_refl (c ∷ s) = ground (arith, same_text_refl s)
