-- ===== src/Report/Lifecycle.antt =====
-- How a report's status moves, over all handlers of src/report/report.service.ts.
pub mod Checks
pub mod Moved
pub mod Closure
pub mod Consent
use fixzone_enterprise_api.Base.{ℕ, ◌≡◌, ◌≢◌, ◌⊎◌, true, none, is_id}
use fixzone_enterprise_api.Report.Types.{
  ReportStatus, triage, pending, assigned, completed_by_provider, closed, is_super_admin,
}
use fixzone_enterprise_api.Report.Workflow.{can_transition}
use fixzone_enterprise_api.Report.Model.{Report, JwtUser}
use fixzone_enterprise_api.Report.Assignment.{may_dispatch}

-- The provider is taken off a report that had one, and the report waits for dispatch again.
abbrev pub Unassigns : Report → Report → Type 0
Unassigns r r' =
    (is_id r.assigned_provider_id ≡ true)
    × (r.status ≢ pending)
    × (r'.status ≡ pending)
    × (r'.assigned_provider_id ≡ none)

-- What a caller may do to a report's status: nothing, a step of the table, or one of the moves that
-- the table does not have.
pub data Moves (user : JwtUser) (r r' : Report) : Type 0 where
  stays : r'.status ≡ r.status → Moves user r r'
  by_table : can_transition r.status r'.status ≡ true → Moves user r r'
  -- Whoever may dispatch takes the provider off, and may set another in the same call.
  unassigns : may_dispatch user ≡ true → Unassigns r r' → Moves user r r'
  reassigns :
      may_dispatch user ≡ true
      → is_id r.assigned_provider_id ≡ true
      → r.status ≢ pending
      → r'.status ≡ assigned
      → Moves user r r'
  -- A provider refuses, or lets the deadline pass.
  given_back :
      r.status ≡ assigned → r'.status ≡ pending → r'.assigned_provider_id ≡ none → Moves user r r'
  -- The organization that the report was matched with accepts it.
  accepted_from_triage : r.status ≡ triage → r'.status ≡ pending → Moves user r r'
  -- The citizen, the organization or the platform asks for rework of a completed report.
  reworked : r.status ≡ completed_by_provider → r'.status ≡ assigned → Moves user r r'
  -- The platform settles a report that is not closed, or reopens one that is.
  governed :
      is_super_admin user.role ≡ true
      → r.status ≢ closed
      → (r'.status ≡ assigned) ⊎ (r'.status ≡ closed)
      → Moves user r r'
  reopened :
      is_super_admin user.role ≡ true
      → r.status ≡ closed
      → r'.status ≡ completed_by_provider
      → Moves user r r'
