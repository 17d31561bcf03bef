-- ===== src/Fleet.antt =====
-- The machines behind workspaces: worker/src/jobs/warm-pool.ts.
pub mod Vlan
pub mod Rows
pub mod Clones
pub mod Claim
pub mod Build
pub mod Spawn
pub mod Waiting
pub mod Shrink
pub mod Pool
pub mod Turns
pub mod Steps
pub mod Bounded
pub mod Placing
pub mod Watching
pub mod Limited
pub mod Exclusive
pub mod Building
pub mod Releasing
pub mod Owners
pub mod Stuck
pub mod Revived
pub mod Late
mod Tests
