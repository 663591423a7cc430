-- ===== src/Holds/Timing.antt =====
-- How long a hold and a checkout session last: backend/src/config/reservationTiming.js.
use rent_a_car_v.Base.{ℕ, ◌+◌, ◌*◌, ◌/◌, ◌<◌, ◌≡◌, not, ltb, leb, Result, ok, guard, ◌>>◌, arith}
use rent_a_car_v.Holds.Create.{hold_window_ms}

abbrev pub reservation_hold_minutes : ℕ
reservation_hold_minutes = 35

abbrev pub stripe_checkout_expires_minutes : ℕ
stripe_checkout_expires_minutes = 30

abbrev pub stripe_checkout_min_expires_minutes : ℕ
stripe_checkout_min_expires_minutes = 30

pub data TimingError : Type 0 where
  below_minimum not_before_hold : TimingError

unfoldable pub assert_checkout_expires_before_hold : ℕ → ℕ → Result TimingError (Unit {0})
assert_checkout_expires_before_hold checkout_minutes hold_minutes = do
  guard (not (ltb checkout_minutes stripe_checkout_min_expires_minutes)) below_minimum
  guard (not (leb hold_minutes checkout_minutes)) not_before_hold

-- In seconds.
unfoldable pub get_stripe_checkout_expires_at : ℕ → ℕ
get_stripe_checkout_expires_at now_ms = now_ms / 1000 + stripe_checkout_expires_minutes * 60

-- The check at the start of the process passes, so a checkout session that begins with its hold is over
-- before the hold is.
pub checkout_ends_before_hold :
    (now : ℕ)
    → (assert_checkout_expires_before_hold stripe_checkout_expires_minutes reservation_hold_minutes
        ≡ ok tt)
      × (get_stripe_checkout_expires_at now * 1000 < now + hold_window_ms)
unfolding assert_checkout_expires_before_hold get_stripe_checkout_expires_at
checkout_ends_before_hold now = (ground arith, ground arith)
