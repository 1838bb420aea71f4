-- ===== src/Admin.antt =====
-- Internal administration (src/internal-admin): who may do what, delegation of roles, and approvals.
pub mod Catalog
pub mod Office
pub mod Authority
pub mod Scopes
pub mod Emails
pub mod Approvals
pub mod Delegation
pub mod Accounts
pub mod Runs
pub mod Limits
mod Examples
