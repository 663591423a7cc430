-- ===== src/Refund/Policy/Keys.antt =====
-- Idempotency keys of refunds: each attempt has its own, and the attempt is read back from it.
use rent_a_car_v.Base.{
  ℕ, ◌≡◌, refl, ◌∙◌, inl, inr, true, false, [], ◌∷◌, ◌++◌, arith, leb, max, ◌≢◌, Bool-cases,
  if◌then◌else◌, some, ◌⊎◌, ltb, ◌/◌, ◌%◌, ◌+◌,
}
use rent_a_car_v.Text.{
  Text, codes, all_digits, decimal, digits_fuel, strip_prefix, value_from, is_digit,
}
use rent_a_car_v.Text.Decimal.{value_from-decimal, all_digits-decimal}
use rent_a_car_v.Refund.Policy.{
  build_idempotency_key, parse_attempt_from_idempotency_key, StripeError,
  is_indeterminate_stripe_error, server_error, is_one_of, is_text,
}

-- A digit starts no match.
skip_digits :
    (ds s : Text)
    → all_digits ds ≡ true
    → parse_attempt_from_idempotency_key (ds ++ s) ≡ parse_attempt_from_idempotency_key s
unfolding parse_attempt_from_idempotency_key all_digits strip_prefix
skip_digits [] s h = refl
skip_digits (c ∷ ds) s h = ground (arith, skip_digits ds s)

read_attempt :
    (ds : Text)
    → all_digits ds ≡ true
    → ds ≢ []
    → parse_attempt_from_idempotency_key (codes ":full:attempt" ++ ds) ≡ value_from 0 ds
unfolding parse_attempt_from_idempotency_key strip_prefix
read_attempt [] h ne = absurd (ne refl)
read_attempt (c ∷ ds) h ne = ground arith

append-ne-nil : (s : Text) (d : ℕ) → s ++ (d ∷ []) ≢ []
append-ne-nil [] d h = cc
append-ne-nil (c ∷ s) d h = cc

colon_digit :
    (c : ℕ) (s : Text)
    → is_digit c ≡ true
    → parse_attempt_from_idempotency_key (b':' ∷ c ∷ s) ≡ parse_attempt_from_idempotency_key (c ∷ s)
unfolding parse_attempt_from_idempotency_key strip_prefix
colon_digit c s h = ground arith

decimal-ne-nil : (n : ℕ) → decimal n ≢ []
unfolding decimal digits_fuel
decimal-ne-nil n = elim (Bool-cases (ltb n 10)) [
  | inl e ↦ rw e (λ h. cc)
  | inr e ↦ rw e (append-ne-nil (digits_fuel n (n / 10)) (b'0' + n % 10))
]

-- Nor does the colon before a numeral.
skip_id :
    (ds s : Text)
    → all_digits ds ≡ true
    → ds ≢ []
    → parse_attempt_from_idempotency_key (b':' ∷ (ds ++ s)) ≡ parse_attempt_from_idempotency_key s
unfolding all_digits
skip_id [] s h ne = absurd (ne refl)
skip_id (c ∷ ds) s h ne = colon_digit c (ds ++ s) (ground arith) ∙ skip_digits (c ∷ ds) s h

abbrev key_tail : ℕ → Text
key_tail n = if leb n 1 then codes ":full" else codes ":full:attempt" ++ decimal n

read_tail : (n : ℕ) → parse_attempt_from_idempotency_key (key_tail n) ≡ max 1 n
unfolding parse_attempt_from_idempotency_key strip_prefix
read_tail n = elim (Bool-cases (leb n 1)) [
  | inl e ↦ rw e (ground arith)
  | inr e ↦ rw e (
      read_attempt (decimal n) (all_digits-decimal n) (decimal-ne-nil n)
      ∙ value_from-decimal n
      ∙ ground arith)
]

read_key :
    (ds : Text) (n : ℕ)
    → all_digits ds ≡ true
    → ds ≢ []
    → parse_attempt_from_idempotency_key (codes "refund:reservation:" ++ (ds ++ key_tail n))
      ≡ max 1 n
unfolding parse_attempt_from_idempotency_key strip_prefix
read_key ds n h ne = skip_id ds (key_tail n) h ne ∙ read_tail n

-- The attempt that a key was built for is read back from it; attempts 0 and 1 share one key.
pub parse-build_key :
    (reservation_id attempt : ℕ)
    → parse_attempt_from_idempotency_key (build_idempotency_key reservation_id attempt)
      ≡ max 1 attempt
unfolding build_idempotency_key
parse-build_key id n = read_key (decimal id) n (all_digits-decimal id) (decimal-ne-nil id)

-- A refund attempt is written off only on a definite answer: an error with a server's status code
-- (500 or more) is never determinate, but for an explicit `failed` or `canceled` status or an
-- invalid request.
pub server_error_stays_open :
    (e : StripeError)
    → server_error e.status_code ≡ true
    → is_indeterminate_stripe_error (some e) ≡ false
    → (is_one_of (codes "failed" ∷ codes "canceled" ∷ []) e.status ≡ true)
      ⊎ (is_text (codes "StripeInvalidRequestError") e.error_type ≡ true)
unfolding is_indeterminate_stripe_error
server_error_stays_open e h k = ground arith
