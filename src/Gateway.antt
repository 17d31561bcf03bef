-- ===== src/Gateway.antt =====
-- The edge gateway (apps/gateway/src/index.ts).
pub mod Leases
pub mod Consistent
pub mod Allocating
pub mod Granting
pub mod Answers
pub mod Releasing
mod Tests
pub mod Exhaustion
pub mod Boot
pub mod Booting
pub mod Ended
pub mod Ending
