-- ===== src/Hooks.antt =====
-- Webhooks: worker/src/jobs/webhook-delivery.ts.
pub mod Address
pub mod Delivery
pub mod Public
mod Tests
