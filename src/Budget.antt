-- ===== src/Budget.antt =====
-- Workspaces that are stopped for their owners: worker/src/jobs/budget-monitor.ts and
-- worker/src/jobs/idle-termination.ts.
pub mod Rows
pub mod Notices
pub mod Monitor
pub mod Idle
pub mod Threshold
pub mod Stopped
pub mod Spared
mod Tests
