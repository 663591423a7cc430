-- ===== src/Finalization/DryRun.antt =====
-- The reconciliation of sessions when it only reports:
-- backend/src/services/payment/reconcileStripeSessionsService.js.
use rent_a_car_v.Database.{Database}
