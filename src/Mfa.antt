-- ===== src/Mfa.antt =====
-- The second factor of privileged accounts (src/auth/privileged-mfa.service.ts).
pub mod Base32
pub mod Vault
pub mod Totp
pub mod Sessions
pub mod Challenge
pub mod Enrolling
pub mod Examples
