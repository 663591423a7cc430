-- ===== src/Refund.antt =====
-- Refunds of paid reservations: backend/src/services/payment/refund and
-- backend/src/services/sql/refundOperationSqlService.js.
pub mod Policy
pub mod Ledger
pub mod Operations
pub mod Apply
mod Examples
