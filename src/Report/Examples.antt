-- ===== src/Report/Examples.antt =====
-- A small town on which the theorems are applied: two users, two reports and their surroundings.
mod Service
mod Decisions
mod Runs
use fixzone_enterprise_api.Base.{
  ℕ, ◌≡◌, refl, String, Bool, true, false, Option, none, some, List, [], ◌∷◌, HasDistinctKeys, find,
}
use fixzone_enterprise_api.Base.Result.{Result, ok}
use fixzone_enterprise_api.Report.Types.{
  ReportStatus, pending, assigned, completed_by_provider, closed, CompletionPolicy, both_required,
  CompletionDecision, undecided, UserRole, citizen, provider, org_admin, super_admin, AccountStatus,
  active,
}
use fixzone_enterprise_api.Report.Model.{Report, JwtUser, User, Env}
use fixzone_enterprise_api.Report.Effects.{World}

-- A caller of a role, in organization 7.
abbrev pub caller : ℕ → UserRole → JwtUser
caller id role = record {
  id = some id;
  user_id = none;
  sub = none;
  full_name = none;
  email = none;
  role = role;
  organization_id = some 7;
}

abbrev pub ama : JwtUser
ama = caller 1 citizen

abbrev pub kofi : JwtUser
kofi = caller 2 provider

abbrev pub operator : JwtUser
operator = caller 3 org_admin

abbrev pub platform : JwtUser
platform = caller 4 super_admin

abbrev row : UserRole → User
row role = record {
  role = role;
  account_status = active;
  organization_id = some 7;
  provider_organizations = [];
}

abbrev pub town : Env
town = record {
  now = 1000;
  users = (1, row citizen) ∷ (2, row provider) ∷ (3, row org_admin) ∷ [];
  assignment_timeout_minutes = 15;
  platform_policy = some both_required;
  iso = λ _. "now";
  trust_answer = λ _. ok tt;
  maintenance_answer = ok tt;
  completion_evidence = λ _. 0;
  url_pathname = λ _. none;
}

-- A report of the citizen 1 to the organization 7.
abbrev pub pothole : ReportStatus → Option ℕ → Report
pothole status provider_id = record {
  title = "Pothole";
  category = "roads";
  status = status;
  organization_id = 7;
  citizen_id = 1;
  assigned_provider_id = provider_id;
  assigned_organization_id = some 7;
  organization_assigned_by_id = none;
  organization_assigned_at = none;
  organization_assignment_source = none;
  assigned_at = some 500;
  assignment_deadline_at = some 900;
  last_assignment_outcome = none;
  last_assignment_reason = none;
  last_assignment_at = none;
  last_assignment_provider_id = none;
  completion_note = none;
  completion_image_url = none;
  completion_image_path = none;
  completion_latitude = none;
  completion_longitude = none;
  completion_accuracy = none;
  completion_location_captured_at = none;
  completion_location_source = none;
  completed_by_provider_at = none;
  citizen_rating = none;
  citizen_feedback = none;
  completion_rejection_reason = none;
  completion_policy = some both_required;
  completion_policy_source = none;
  completion_review_state = none;
  completion_review_deadline_at = some 950;
  completion_review_processed_at = none;
  completion_fallback_rule = none;
  completion_final_actor_type = none;
  completion_governance_hold_reason = none;
  citizen_completion_decision = some undecided;
  citizen_completion_decided_at = none;
  organization_completion_decision = some undecided;
  organization_completion_decided_at = none;
  organization_completion_decided_by_id = none;
  organization_completion_reason = none;
  completion_finalized_at = none;
  completion_finalized_by_id = none;
  completion_finalized_by_role = none;
  completion_closure_reason = none;
  completion_dispute_reason = none;
}

abbrev pub fixed : Report
fixed = pothole completed_by_provider (some 2)

abbrev pub waiting : Report
waiting = pothole assigned (some 2)

abbrev pub tables : World
tables = record {
  reports = (10, fixed) ∷ (11, waiting) ∷ [];
  activities = [];
  compliance_log = [];
  demo_log = [];
  notifications = [];
}

pub tables-HasDistinctKeys : HasDistinctKeys tables.reports
unfolding find
tables-HasDistinctKeys = (refl, (refl, tt))
