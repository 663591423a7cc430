-- ===== src/Lib.antt =====
-- A car rental shop: the rules of its backend (backend/src) about reservations, money and cars.
--
-- A paid checkout session is finalized: its reservation is confirmed, its dates are blocked in the
-- car's calendar and an order is made, in one transaction, once for each session; where this cannot be
-- done, the reservation goes to manual review. The provider's webhook starts this, once for each event.
--
-- A reservation moves through a graph of statuses. But for the statements that expire unpaid holds,
-- one service changes its status, and keeps a history, the status of the car, the car's calendar and the order in step. Paid
-- reservations are refunded through a ledger of refund operations, which is written before and after
-- each call of the payment provider. Prices are computed from a car, a period and a configuration.
-- A guest's reservation starts as a hold of 35 minutes, which the constraints of the table keep apart from
-- the other holds of the car and of the session. A job expires abandoned holds and asks the provider
-- what became of the sessions whose holds are over.
--
-- Files, and the code they are about (paths are below backend/src/, or begin with backend/):
--   Base (Tests, Lists, Errors, Int)  shared helpers: tests into Bool, lists as tables, results, ℤ
--   Text                 strings as lists of character codes; decimal numerals
--   Lifecycle            domain/reservationStatus.js; Lifecycle/Graph: trails through the graph
--   Refund/Policy        services/payment/refund/refundPolicy.js; Policy/Keys: idempotency keys
--   Refund/Ledger        services/sql/refundOperationSqlService.js with the constraints of
--                        backend/sql/schema/032_refund_operations.sql; Ledger/Invariant and Runs:
--                        what statements and their sequences keep
--   Refund/Operations    services/payment/refund/refundLedgerService.js; Operations/Reuse
--   Refund/Apply         services/payment/refund/applyRefundService.js; Apply/Writes, Apply/Outcome
--   Database             the tables that services share (backend/sql/schema)
--   Conflicts            modules/calendar/calendar.conflictEngine.js; Conflicts/Writable and
--                        Conflicts/Sequence
--   Holds                services/sql/reservation/reservationHoldExpiry.js; Holds/Create:
--                        reservationHoldCreate.js; Holds/Rehold: reservationHoldRehold.js;
--                        Holds/Timing: config/reservationTiming.js. Proofs:
--                        Holds/Recorded, Gone, Exclusive and Replace (what the constraints say), Allowed,
--                        Created, Moves, Steps (sequences of transactions), Outcome, Cleaned
--                        and Attempt
--   Bookings             services/sql/bookingSyncSqlService.js (Bookings/Ranges: the writes), with
--                        extractStoredRange and resolveStoredDateRange of services/admin/order;
--                        Bookings/Apart, Bookings/Runs, Bookings/Overdue and Bookings/Calendar
--   Fleet                services/carFleetSyncService.js, services/sql/car/carFleetSql.js
--   StatusChange         services/reservation/reservationStatusService.js with applyStatusChange of
--                        services/sql/reservation/reservationLifecycleRepository.js;
--                        StatusChange/Inversion, StatusChange/Recorded,
--                        StatusChange/Guarded, StatusChange/Quiet
--   Payments             services/payment/stripeSessionValidation.js, and the backfills of
--                        services/payment/refund/refundLedgerService.js; Payments/Amount
--   Finalization         services/bookingFinalization: the session and the reservation;
--                        Finalization/Complete: the booking; Finalization/Review: manual review and
--                        recovery; Finalization/Core: finalizeReservationCore.js;
--                        Finalization/Webhook: webhookEventProcessingService.js;
--                        Finalization/Reconcile: services/payment/reconcileStripeSessionsService.js;
--                        Finalization/DryRun: what its dry run keeps. Proofs:
--                        Finalization/Inversion, Reviewed, Earlier, Ending and Cases (how a run ends), Booked,
--                        Results, Kept (what every run keeps), Again, Deliveries (sequences of
--                        events), PaidEvents
--   Guests               services/reservationService.js; Guests/Checkout:
--                        services/payment/checkout/checkoutReservationService.js and
--                        checkoutCompensationService.js; Guests/Kept, Guests/Recorded
--   LoginAttempts        services/auth/loginAttemptService.js; LoginAttempts/Window
--   Dates                utils/date/calculateRentalDays.js, rentalLimits.js, the UTC calendar
--   Pricing              utils/pricing, one module a file; Pricing/Extras/Selection,
--                        Pricing/Quote/Limits, Pricing/Discounts/Signs; Pricing/Double: the
--                        language's numbers, with Pricing/Double/Signs
--   Modules named Examples hold tests and the theorems at concrete inputs.
--
-- Conventions. A table is the list of its rows in the order of their ids, and a transaction is a
-- function of the database that gives an error or the new database: an error leaves nothing
-- behind, and row locks make transactions one step. Instants are milliseconds since 1970, amounts
-- are whole cents and percentages hundredths of a percent: between two roundings to cents a price
-- is a binary floating point number, as in the source (Pricing/Double, exact below 2^53). Making
-- and moving a hold has an instant for each reading of the clock; a finalization has one for all
-- of its readings. A string that is only compared is a number. Recursion with fuel stands in
-- Refund/Operations, which needs as much as there are attempts left, at most five, and is shown
-- to end, and in the decimal numerals of Text, where one more than the number is enough; and in
-- Pricing/Double, which doubles a unit at most 1074 times, as many as the numbers of the language
-- have.
--
-- Not modelled: controllers, validators, front ends, reporting, mail, storage, and the calls of the
-- payment provider themselves; columns that no decision reads (contact data, labels, time stamps);
-- audit entries, logs and listeners, which run after a transaction.
pub mod Base
pub mod Bookings
pub mod Conflicts
pub mod Database
pub mod Dates
pub mod Finalization
pub mod Fleet
pub mod Guests
pub mod Holds
pub mod Lifecycle
pub mod LoginAttempts
pub mod Payments
pub mod Pricing
pub mod Refund
pub mod StatusChange
pub mod Text
