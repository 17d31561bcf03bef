-- ===== src/Store.antt =====
-- Values that expire: apps/api/src/lib/ephemeralStore.ts.
pub mod Memory
pub mod Contract
pub mod Agreement
pub mod Refines
mod Tests
