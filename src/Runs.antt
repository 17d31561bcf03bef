-- ===== src/Runs.antt =====
-- The lifecycle of a training run: worker/src/jobs/run-executor.ts, the routes of
-- apps/api/src/routes/v1/runs.ts that change a run, and apps/api/src/lib/billing.ts.
pub mod Rows
pub mod Billing
pub mod Stages
pub mod Monitor
pub mod Requests
pub mod Events
pub mod Lifecycle
pub mod Book
pub mod Billed
pub mod Turns
pub mod Overwritten
pub mod Loops
pub mod Ticks
pub mod Asked
pub mod Reported
pub mod Play
pub mod Overdue
pub mod Admission
mod Tests
