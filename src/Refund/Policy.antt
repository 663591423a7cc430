-- ===== src/Refund/Policy.antt =====
-- backend/src/services/payment/refund/refundPolicy.js: which reservations may be refunded, the
-- idempotency keys, the amount, and which errors of the payment provider leave the result open.
pub mod Keys
use rent_a_car_v.Base.{
  ℕ, ◌+◌, ◌*◌, Bool, true, false, not, ◌&&◌, ◌||◌, Option, none, some, List, [], ◌∷◌, ◌++◌, ltb,
  leb, ◌==◌, if◌then◌else◌, any, Result, ok, err,
}
use rent_a_car_v.Text.{Text, codes, same_text, all_digits, value_from, decimal, strip_prefix}
use rent_a_car_v.Lifecycle.{
  Status, paid, manual_review, confirmed, car_prepared, refunded, same, includes,
}

pub data RefundError : Type 0 where
  refund_not_allowed : Status → RefundError
  refund_ledger_inconsistent refund_no_amount refund_failed refund_not_found : RefundError
  refund_indeterminate not_found : RefundError

abbrev pub refundable_statuses : List Status
refundable_statuses = paid ∷ manual_review ∷ confirmed ∷ car_prepared ∷ []

unfoldable pub assert_refundable_status : Status → Result RefundError (Unit {0})
assert_refundable_status s =
    if not (includes refundable_statuses s) then err (refund_not_allowed s) else ok tt

unfoldable pub is_allowed_during_pending_refund : Status → Bool
is_allowed_during_pending_refund s = same s refunded || includes refundable_statuses s

-- The reservation's id is a number; a template literal writes it in decimal.
unfoldable pub build_idempotency_key : ℕ → ℕ → Text
build_idempotency_key reservation_id attempt =
    codes "refund:reservation:"
    ++ (decimal reservation_id
        ++ (if leb attempt 1 then codes ":full" else codes ":full:attempt" ++ decimal attempt))

-- The match of `:attempt(\d+)$` at the start of a text.
match_attempt : Text → Option ℕ
match_attempt s = elim (strip_prefix (codes ":attempt") s) [
  | none ↦ none
  | some [] ↦ none
  | some (c ∷ ds) ↦ if all_digits (c ∷ ds) then some (value_from 0 (c ∷ ds)) else none
]

unfoldable pub parse_attempt_from_idempotency_key : Text → ℕ
unfolding match_attempt
parse_attempt_from_idempotency_key [] = 1
parse_attempt_from_idempotency_key (c ∷ s) = elim (match_attempt (c ∷ s)) [
  | some n ↦ n
  | none ↦ parse_attempt_from_idempotency_key s
]

-- The amount that the provider still holds, if it is known, and else the amount paid; `none` is a
-- missing amount, and an amount that is not positive is 0.
unfoldable pub amount_cents_from_reservation : Option ℕ → Option ℕ → Result RefundError ℕ
amount_cents_from_reservation paid_amount_cents (some resolved) =
    if resolved == 0 then err refund_no_amount else ok resolved
amount_cents_from_reservation (some snapshot) none =
    if ltb 0 snapshot then ok snapshot else err refund_no_amount
amount_cents_from_reservation none none = err refund_no_amount

-- An error of the provider's client. A field that is missing is the empty text; the status code is
-- `none` where `Number(err.statusCode)` is not finite.
pub record StripeError : Type 0 where
  pub status : Text
  pub error_type : Text
  pub status_code : Option ℕ
  pub code : Text
  pub message : Text

to_lower : ℕ → ℕ
to_lower c = if leb b'A' c && leb c b'Z' then c + 32 else c

lower : Text → Text
lower [] = []
lower (c ∷ s) = to_lower c ∷ lower s

contains : Text → Text → Bool
contains needle [] = elim (strip_prefix needle []) [ none ↦ false | some _ ↦ true ]
contains needle (c ∷ s) = elim (strip_prefix needle (c ∷ s)) [
  | none ↦ contains needle s
  | some _ ↦ true
]

-- The test `/timeout|timed out|socket hang up/i`.
is_timeout_message : Text → Bool
unfolding contains lower to_lower
is_timeout_message m =
    contains (codes "timeout") (lower m)
    || (contains (codes "timed out") (lower m) || contains (codes "socket hang up") (lower m))

abbrev pub is_one_of : List Text → Text → Bool
is_one_of l s = any (λ x. same_text x s) l

abbrev pub server_error : Option ℕ → Bool
server_error none = false
server_error (some n) = leb 500 n

abbrev pub is_text : Text → Text → Bool
is_text = same_text

-- `none` is a missing error.
unfoldable pub is_indeterminate_stripe_error : Option StripeError → Bool
unfolding is_timeout_message
is_indeterminate_stripe_error none = true
is_indeterminate_stripe_error (some e) =
    if is_one_of (codes "failed" ∷ codes "canceled" ∷ []) e.status
    then false
    else if is_text (codes "StripeInvalidRequestError") e.error_type
    then false
    else if is_text (codes "StripeAPIError") e.error_type
        && (is_text (codes "refund_failed") e.code && not (server_error e.status_code))
    then false
    else if is_one_of (codes "StripeConnectionError" ∷ codes "StripeTimeoutError" ∷ []) e.error_type
    then true
    else if is_one_of
        (codes "ETIMEDOUT" ∷ codes "ECONNRESET" ∷ codes "EPIPE" ∷ codes "ENOTFOUND" ∷ []) e.code
    then true
    else if server_error e.status_code
    then true
    else if is_timeout_message e.message
    then true
    else elim e.status_code [ none ↦ true | some _ ↦ false ]
