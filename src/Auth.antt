-- ===== src/Auth.antt =====
-- Authentication (src/auth): passwords, sessions and the recovery of accounts.
pub mod Registry
pub mod Recovery
pub mod Login
pub mod SecondFactor
mod Examples
