-- ===== src/Report/Workflow.antt =====
-- src/report/report-workflow.ts: the table of status transitions and its test.
pub mod Walks
use text.Mathlib.Text.{◌==◌ as str_eq}
use fixzone_enterprise_api.Base.{
  Bool, true, false, String, Option, none, some, List, [], ◌∷◌, any, if◌then◌else◌,
}
use fixzone_enterprise_api.Report.Types.{
  ReportStatus, triage, org_review, pending, assigned, in_progress, completed_by_provider, closed,
  same_status,
}

-- `ALLOWED_REPORT_TRANSITIONS`
abbrev pub allowed_transitions : ReportStatus → List ReportStatus
allowed_transitions triage = org_review ∷ []
allowed_transitions org_review = pending ∷ triage ∷ []
allowed_transitions pending = assigned ∷ org_review ∷ []
allowed_transitions assigned = in_progress ∷ []
allowed_transitions in_progress = completed_by_provider ∷ []
allowed_transitions completed_by_provider = closed ∷ []
allowed_transitions closed = []

-- `canTransitionReportStatus` on two members of the enumeration.
unfoldable pub can_transition : ReportStatus → ReportStatus → Bool
can_transition current next = any (same_status next) (allowed_transitions current)

-- The text of each member of the enumeration.
abbrev pub status_name : ReportStatus → String
status_name triage = "TRIAGE"
status_name org_review = "ORG_REVIEW"
status_name pending = "PENDING"
status_name assigned = "ASSIGNED"
status_name in_progress = "IN_PROGRESS"
status_name completed_by_provider = "COMPLETED_BY_PROVIDER"
status_name closed = "CLOSED"

abbrev pub statuses : List ReportStatus
statuses =
    triage ∷ org_review ∷ pending ∷ assigned ∷ in_progress ∷ completed_by_provider ∷ closed ∷ []

status_named : String → List ReportStatus → Option ReportStatus
status_named text [] = none
status_named text (s ∷ ss) = if str_eq (status_name s) text then some s else status_named text ss

-- `upper` is `String.prototype.toUpperCase`.
module _ (upper : String → String) where
  unfoldable pub normalize_report_status : String → Option ReportStatus
  unfolding status_named
  normalize_report_status status = status_named (upper status) statuses

  unfoldable pub can_transition_report_status : String → String → Bool
  can_transition_report_status current next = elim (normalize_report_status current) [
    | none ↦ false
    | some c ↦ elim (normalize_report_status next) [ none ↦ false | some n ↦ can_transition c n ]
  ]
