-- ===== src/Secrets.antt =====
-- Secrets at rest: packages/shared/src/secretCrypto.ts.
pub mod Crypto
pub mod RoundTrip
mod Tests
