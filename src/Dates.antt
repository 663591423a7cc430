-- ===== src/Dates.antt =====
-- Dates and times: backend/src/utils/date.
pub mod Civil
pub mod RentalDays
mod Examples
