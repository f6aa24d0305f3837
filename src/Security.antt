-- ===== src/Security.antt =====
-- infrastructure/peer/security: revocation, identities and profiles.
pub mod Encoding
pub mod Crypto
pub mod Checkpoint
pub mod Records
pub mod Bundle
pub mod States
pub mod Manager
pub mod Identity
pub mod Profile
mod Samples
mod Tests
