-- ===== src/Report.antt =====
-- The report service (src/report): a report's life from triage to closure.
pub mod Types
pub mod Workflow
pub mod Policy
pub mod Model
pub mod Effects
pub mod Assignment
pub mod Expiry
pub mod EvidencePath
pub mod Intake
pub mod Status
pub mod Completion
pub mod Governance
pub mod Verification
pub mod Deadlines
pub mod Lifecycle
pub mod Decisions
pub mod Rework
pub mod Service
mod Examples
