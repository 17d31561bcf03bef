-- ===== src/Billing.antt =====
-- Billing: usage sessions and the outbox of meter events.
pub mod Rows
pub mod Catalog
pub mod Start
pub mod Metering
pub mod Close
pub mod Ledger
pub mod Batch
pub mod Emission
pub mod History
pub mod Final
pub mod Opening
pub mod Worker
pub mod Same
mod Tests
pub mod Attempts
pub mod Amounts
pub mod Prices
