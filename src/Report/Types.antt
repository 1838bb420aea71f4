-- ===== src/Report/Types.antt =====
-- The enumerations of prisma/schema.prisma that the report service branches on, and their tests.
use fixzone_enterprise_api.Base.{ℕ, Bool, true, false, Option, none, some, ◌==◌}

pub data ReportStatus : Type 0 where
  triage org_review pending assigned in_progress completed_by_provider closed : ReportStatus

pub data CompletionPolicy : Type 0 where
  citizen_confirmation_required organization_confirmation_required both_required : CompletionPolicy
  citizen_or_organization admin_resolution_required : CompletionPolicy
  auto_close_after_review_window : CompletionPolicy

-- `pending` of the source is `undecided` here, beside the status of that name.
pub data CompletionDecision : Type 0 where
  undecided confirmed verified rework_requested disputed escalated : CompletionDecision

pub data AssignmentOutcome : Type 0 where
  rejected timed_out : AssignmentOutcome

pub data AccountStatus : Type 0 where
  pending_invite pending_approval active suspended deactivated : AccountStatus

pub data UserRole : Type 0 where
  platform_super_admin platform_owner executive_super_admin technical_admin : UserRole
  operations_admin organization_onboarding_admin provider_admin finance_billing_admin : UserRole
  billing_admin legal_admin assignment_admin asset_admin asset_intelligence_admin : UserRole
  compliance_admin compliance_audit_admin regulatory_admin security_admin : UserRole
  investigation_admin release_operations_admin backup_recovery_admin support_admin : UserRole
  super_admin org_admin dispatch_officer provider pending_provider citizen : UserRole

-- The texts that the service writes to the column `completionReviewState`.
pub data ReviewState : Type 0 where
  in_dispute in_rework awaiting_organization_verification awaiting_citizen_review : ReviewState
  awaiting_admin_resolution awaiting_review_window awaiting_both : ReviewState
  review_closed governance_hold : ReviewState

abbrev status_index : ReportStatus → ℕ
status_index triage = 0
status_index org_review = 1
status_index pending = 2
status_index assigned = 3
status_index in_progress = 4
status_index completed_by_provider = 5
status_index closed = 6

-- `a === b` on statuses.
abbrev pub same_status : ReportStatus → ReportStatus → Bool
same_status a b = status_index a == status_index b

abbrev policy_index : CompletionPolicy → ℕ
policy_index citizen_confirmation_required = 0
policy_index organization_confirmation_required = 1
policy_index both_required = 2
policy_index citizen_or_organization = 3
policy_index admin_resolution_required = 4
policy_index auto_close_after_review_window = 5

abbrev pub same_policy : CompletionPolicy → CompletionPolicy → Bool
same_policy a b = policy_index a == policy_index b

abbrev decision_index : CompletionDecision → ℕ
decision_index undecided = 0
decision_index confirmed = 1
decision_index verified = 2
decision_index rework_requested = 3
decision_index disputed = 4
decision_index escalated = 5

-- `a === b` for a nullable decision `a`.
abbrev pub is_decision : Option CompletionDecision → CompletionDecision → Bool
is_decision none b = false
is_decision (some a) b = decision_index a == decision_index b

abbrev review_index : ReviewState → ℕ
review_index in_dispute = 0
review_index in_rework = 1
review_index awaiting_organization_verification = 2
review_index awaiting_citizen_review = 3
review_index awaiting_admin_resolution = 4
review_index awaiting_review_window = 5
review_index awaiting_both = 6
review_index review_closed = 7
review_index governance_hold = 8

abbrev pub is_review : Option ReviewState → ReviewState → Bool
is_review none b = false
is_review (some a) b = review_index a == review_index b

-- `isSuperAdmin`, `isAdmin`, `isDispatch`, `isProvider` of the service, on the role.
unfoldable pub is_super_admin : UserRole → Bool
is_super_admin super_admin = true
is_super_admin _ = false

unfoldable pub is_admin : UserRole → Bool
is_admin org_admin = true
is_admin _ = false

unfoldable pub is_dispatch : UserRole → Bool
is_dispatch dispatch_officer = true
is_dispatch _ = false

unfoldable pub is_provider : UserRole → Bool
is_provider provider = true
is_provider _ = false

unfoldable pub is_citizen : UserRole → Bool
is_citizen citizen = true
is_citizen _ = false

abbrev pub is_active : AccountStatus → Bool
is_active active = true
is_active _ = false

abbrev pub is_suspended : AccountStatus → Bool
is_suspended suspended = true
is_suspended _ = false
