-- ===== src/Payments/Examples.antt =====
-- The theorems on payments at a concrete session.
use rent_a_car_v.Base.{◌≡◌, refl, none, some, ok, arith}
use rent_a_car_v.Text.{codes, same_text}
use rent_a_car_v.Lifecycle.{processing_payment, paid}
use rent_a_car_v.Database.{Reservation}
use rent_a_car_v.StatusChange.{apply_status_change}
use rent_a_car_v.StatusChange.Examples.{booking}
use rent_a_car_v.Payments.{
  StripeSession, validate_stripe_payment_details, get_expected_stripe_amount_cents,
  paid_amount_patch, paid_snapshot_from_finalization_context,
}
use rent_a_car_v.Payments.Amount.{paid_amount_is_price}

abbrev session : StripeSession
session = record { id = 5; amount_total = some 9000; currency = codes "eur" }

abbrev unpaid : Reservation
unpaid = record (booking processing_payment) { paid_amount_cents = none }

validated : validate_stripe_payment_details session unpaid ≡ ok tt
unfolding validate_stripe_payment_details get_expected_stripe_amount_cents same_text
validated = refl

paid_amount_is_price_example :
    (apply_status_change paid
      (some (paid_amount_patch (paid_snapshot_from_finalization_context (some 1) (some session))))
      unpaid).paid_amount_cents
    ≡ some 9000
paid_amount_is_price_example =
    paid_amount_is_price session unpaid (some 1) paid validated (λ e. ground arith) refl
