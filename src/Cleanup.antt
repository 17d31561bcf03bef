-- ===== src/Cleanup.antt =====
-- Cleanup: ending a workspace's sessions, ports, machine and GPU.
pub mod Rows
pub mod Attempt
pub mod Run
pub mod Batch
pub mod Settling
pub mod Settled
mod Tests
pub mod Parts
pub mod Torn
pub mod Complete
pub mod Backoff
