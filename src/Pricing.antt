-- ===== src/Pricing.antt =====
-- The price of a rental: backend/src/utils/pricing.
-- Amounts are whole cents and percentages hundredths of a percent, as the columns NUMERIC(10,2) of
-- backend/sql/schema/024_pricing_engine.sql hold them. Between two roundings the source computes in
-- euros with binary floating point, and so does the model (Double).
pub mod Double
pub mod Money
pub mod Config
pub mod Extras
pub mod Surcharges
pub mod Fees
pub mod Discounts
pub mod Quote
mod Examples
