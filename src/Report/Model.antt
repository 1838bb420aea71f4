-- ===== src/Report/Model.antt =====
-- The data that the report service reads and writes: the columns of the report table that its
-- handlers change, the caller, and the surroundings of a call.
use fixzone_enterprise_api.Base.{
  ℕ, String, Bool, Option, none, some, List, Table, or_else, is_id, get_or, if◌then◌else◌,
}
use fixzone_enterprise_api.Base.Result.{Result, ok, err, forbidden}
use fixzone_enterprise_api.Report.Types.{
  ReportStatus, CompletionPolicy, CompletionDecision, AssignmentOutcome, AccountStatus, UserRole,
  ReviewState,
}

-- A row of the report table, without its identifier, which is the row's key. Identifiers are
-- numbers that are only compared, with 0 for the empty text; a time is in milliseconds. The
-- coordinates of a completion are carried along unread, as numbers.
pub record Report : Type 0 where
  pub title : String
  pub category : String
  pub status : ReportStatus
  pub organization_id : ℕ
  pub citizen_id : ℕ
  pub assigned_provider_id : Option ℕ
  pub assigned_organization_id : Option ℕ
  pub organization_assigned_by_id : Option ℕ
  pub organization_assigned_at : Option ℕ
  pub organization_assignment_source : Option String
  pub assigned_at : Option ℕ
  pub assignment_deadline_at : Option ℕ
  pub last_assignment_outcome : Option AssignmentOutcome
  pub last_assignment_reason : Option String
  pub last_assignment_at : Option ℕ
  pub last_assignment_provider_id : Option ℕ
  pub completion_note : Option String
  pub completion_image_url : Option String
  pub completion_image_path : Option String
  pub completion_latitude : Option ℕ
  pub completion_longitude : Option ℕ
  pub completion_accuracy : Option ℕ
  pub completion_location_captured_at : Option ℕ
  pub completion_location_source : Option String
  pub completed_by_provider_at : Option ℕ
  pub citizen_rating : Option ℕ
  pub citizen_feedback : Option String
  pub completion_rejection_reason : Option String
  pub completion_policy : Option CompletionPolicy
  pub completion_policy_source : Option String
  pub completion_review_state : Option ReviewState
  pub completion_review_deadline_at : Option ℕ
  pub completion_review_processed_at : Option ℕ
  pub completion_fallback_rule : Option String
  pub completion_final_actor_type : Option String
  pub completion_governance_hold_reason : Option String
  pub citizen_completion_decision : Option CompletionDecision
  pub citizen_completion_decided_at : Option ℕ
  pub organization_completion_decision : Option CompletionDecision
  pub organization_completion_decided_at : Option ℕ
  pub organization_completion_decided_by_id : Option ℕ
  pub organization_completion_reason : Option String
  pub completion_finalized_at : Option ℕ
  pub completion_finalized_by_id : Option ℕ
  pub completion_finalized_by_role : Option UserRole
  pub completion_closure_reason : Option String
  pub completion_dispute_reason : Option String

-- `JwtUser`: the caller, as the token names it.
pub record JwtUser : Type 0 where
  pub id : Option ℕ
  pub user_id : Option ℕ
  pub sub : Option ℕ
  pub full_name : Option String
  pub email : Option String
  pub role : UserRole
  pub organization_id : Option ℕ

-- A row of the user table, with its rows of the table `providerOrganization`: an organization and
-- whether the link is active.
pub record User : Type 0 where
  pub role : UserRole
  pub account_status : AccountStatus
  pub organization_id : Option ℕ
  pub provider_organizations : List (ℕ × Bool)

-- What a call reads and does not change: its clock, the users, and the configuration.
-- `platform_policy` is the configured policy as `normalizeCompletionPolicy` reads it, and `iso` is
-- `Date.prototype.toISOString`. `trust_answer` is the answer of the trust service's
-- `assertProviderJobAcceptanceAllowed`, and `maintenance_answer` that of the workflow orchestrator's
-- `assertMaintenanceActive`; either is `ok` where that service is not injected. `completion_evidence`
-- counts a report's rows of completion evidence, and `url_pathname` is `new URL(text).pathname`.
pub record Env : Type 0 where
  pub now : ℕ
  pub users : Table User
  pub assignment_timeout_minutes : ℕ
  pub platform_policy : Option CompletionPolicy
  pub iso : ℕ → String
  pub trust_answer : ℕ → Result (Unit {0})
  pub maintenance_answer : Result (Unit {0})
  pub completion_evidence : ℕ → ℕ
  pub url_pathname : String → Option String

-- `user.id ?? user.userId ?? user.sub`
abbrev pub actor_id : JwtUser → Option ℕ
actor_id user = or_else user.id (or_else user.user_id user.sub)

-- `getUserId`
unfoldable pub get_user_id : JwtUser → Result ℕ
get_user_id user = elim (actor_id user) [
  | none ↦ err (forbidden "User id missing")
  | some id ↦ if is_id (some id) then ok id else err (forbidden "User id missing")
]

-- `requireUserOrganizationId`
unfoldable pub require_user_organization_id : JwtUser → Result ℕ
require_user_organization_id user = elim user.organization_id [
  | none ↦ err (forbidden "No org")
  | some id ↦ if is_id (some id) then ok id else err (forbidden "No org")
]

-- `policyForReport`
unfoldable pub policy_for_report : Env → Report → CompletionPolicy
policy_for_report env r =
    get_or (or_else r.completion_policy env.platform_policy)
      CompletionPolicy.citizen_confirmation_required
