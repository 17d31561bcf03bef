-- ===== src/Mail.antt =====
-- The queue of e-mails: worker/src/jobs/email-outbox.ts.
pub mod Outbox
pub mod Counted
pub mod Bounded
pub mod Stuck
mod Tests
