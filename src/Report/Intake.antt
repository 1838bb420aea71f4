-- ===== src/Report/Intake.antt =====
-- An organization's answer to a report that is routed to it: `acceptOrganizationReport` and
-- `rejectOrganizationReport` (src/report/report.service.ts).
use fixzone_enterprise_api.Base.{
  ℕ, String, Bool, true, false, not, ◌&&◌, Option, none, some, List, [], ◌∷◌, ◌++◌, ◌==◌, ltb,
  same_id, is_id, get_or, or_else, str_eq, trimmed, if◌then◌else◌,
}
use fixzone_enterprise_api.Base.Result.{
  Result, ok, err, forbidden, conflict, bad_request, ◌>>◌, throw_if,
}
use fixzone_enterprise_api.Report.Types.{
  triage, org_review, pending, AssignmentOutcome, rejected, same_status, is_admin, is_dispatch,
}
use fixzone_enterprise_api.Report.Model.{Report, JwtUser, Env, require_user_organization_id}
use fixzone_enterprise_api.Report.Effects.{
  Effect, Change, keep, write, Action, with_report, and_then, lift, notify_organization_operators,
  notify_platform_resolvers, notification, activity, audited, mention,
}

abbrev pub accepted_source : String
accepted_source = "Organization accepted report"

abbrev pub rejected_source : String
rejected_source = "Organization rejected report"

-- What `responsibilityResolutionFromActivity` reads from the metadata of the report's activity.
pub record Resolution : Type 0 where
  pub is_matched : Bool
  pub proposed_organization_id : Option ℕ
  pub selected_candidate_id : Option ℕ

abbrev is_rejected : Option AssignmentOutcome → Bool
is_rejected (some rejected) = true
is_rejected _ = false

abbrev has_rejected_source : Option String → Bool
has_rejected_source none = false
has_rejected_source (some s) = str_eq s rejected_source

abbrev resolves_to : ℕ → Option Resolution → Bool
resolves_to organization none = false
resolves_to organization (some x) =
    x.is_matched
    && same_id (or_else x.proposed_organization_id x.selected_candidate_id) (some organization)

-- `isLegacyMatchedResponsibilityReview`
unfoldable pub is_legacy_matched_review : Report → ℕ → Option Resolution → Bool
is_legacy_matched_review r organization resolution =
    ltb 0 organization
    && same_status r.status triage
    && r.organization_id == organization
    && not (is_id r.assigned_organization_id)
    && not (is_id r.assigned_provider_id)
    && not (is_rejected r.last_assignment_outcome)
    && not (has_rejected_source r.organization_assignment_source)
    && resolves_to organization resolution

-- The checks and the update of `acceptOrganizationReport`.
unfoldable pub accept_checks : Env → ℕ → Option Resolution → Report → Result Change
accept_checks env organization resolution r =
    let legacy = is_legacy_matched_review r organization resolution in
    do
      throw_if (not (same_id r.assigned_organization_id (some organization)) && not legacy)
          (forbidden "Report is not routed to your organization")
      if same_status r.status pending && r.organization_id == organization then ok keep else do
        throw_if (not (same_status r.status org_review) && not legacy)
            (conflict "Report is not awaiting organization decision")
        ok (
            write (record r {
              status = pending;
              organization_id = organization;
              assigned_organization_id = some (get_or r.assigned_organization_id organization);
              organization_assigned_at = some (get_or r.organization_assigned_at env.now);
              organization_assignment_source = some accepted_source;
              last_assignment_outcome = none;
              last_assignment_reason = none;
              last_assignment_at = some env.now;
            }))

accept_effects : Env → ℕ → Option String → JwtUser → ℕ → Report → Report → List Effect
accept_effects env id note user organization r r' =
    audited "Organization Report Accepted" user id (some organization)
    ∷ activity id user "ORGANIZATION_ACCEPTED_REPORT" organization (r.status, r'.status)
        (none, none, trimmed note)
    ∷ notification r'.citizen_id id "organization_report_accepted" "Report accepted for dispatch" (
        mention "" r'.title
          " was accepted by the responsible organization and is awaiting provider assignment.")
    ∷ notify_organization_operators env organization id "organization_report_accepted"
        "Report accepted" (mention "" r'.title " is now in your dispatch queue.")

-- `acceptOrganizationReport`
unfoldable pub accept_organization_report :
    Env → ℕ → Option String → Option Resolution → JwtUser → Action Report
unfolding accept_effects
accept_organization_report env id note resolution user =
    and_then (lift (require_user_organization_id user)) (λ organization.
      and_then
        (lift (
          throw_if (not (is_admin user.role) && not (is_dispatch user.role))
            (forbidden "Only organization operators can accept reports")))
        (λ _.
          with_report id (accept_checks env organization resolution)
            (accept_effects env id note user organization)))

-- The update of `rejectOrganizationReport`: back to the platform's triage, routed to nobody.
abbrev pub returned_to_triage : Env → String → Report → Report
returned_to_triage env reason r = record r {
  status = triage;
  assigned_organization_id = none;
  organization_assigned_by_id = none;
  organization_assigned_at = none;
  organization_assignment_source = some rejected_source;
  assigned_provider_id = none;
  assigned_at = none;
  assignment_deadline_at = none;
  last_assignment_outcome = some rejected;
  last_assignment_reason = some reason;
  last_assignment_at = some env.now;
}

-- The suggested organization, if one is named, must exist.
unknown_suggestion : (ℕ → Bool) → Option ℕ → Bool
unknown_suggestion exists suggested = elim suggested [
  | none ↦ false
  | some o ↦ ltb 0 o && not (exists o)
]

-- The checks and the update of `rejectOrganizationReport`. `exists` tells the organizations.
unfoldable pub reject_report_checks :
    Env → (ℕ → Bool) → String → Option ℕ → ℕ → Option Resolution → Report → Result Change
unfolding unknown_suggestion
reject_report_checks env exists reason suggested organization resolution r =
    let legacy = is_legacy_matched_review r organization resolution in
    do
      throw_if (not (same_id r.assigned_organization_id (some organization)) && not legacy)
          (forbidden "Report is not routed to your organization")
      if same_status r.status triage && not legacy then ok keep else do
        throw_if (not (same_status r.status org_review) && not legacy)
            (conflict "Report is not awaiting organization decision")
        throw_if (unknown_suggestion exists suggested)
            (bad_request "Suggested organization was not found")
        ok (write (returned_to_triage env reason r))

reject_report_effects : Env → ℕ → String → JwtUser → ℕ → Report → Report → List Effect
reject_report_effects env id reason user organization r r' =
    audited "Organization Report Rejected" user id (some organization)
    ∷ activity id user "ORGANIZATION_REJECTED_REPORT" organization (r.status, r'.status)
        (none, some reason, none)
    ∷ (notify_platform_resolvers env id "organization_report_rejected"
          "Organization rejected responsibility"
          (mention "" r'.title " was returned to platform responsibility resolution.")
        ++ notification r'.citizen_id id "organization_report_rejected"
            "Report returned for platform review"
            (mention "" r'.title " was returned for SecureZone platform triage.")
          ∷ [])

-- The reason that a request must give.
unfoldable pub required_reason : Option String → String → Result String
required_reason reason message = elim (trimmed reason) [
  | none ↦ err (bad_request message)
  | some text ↦ ok text
]

-- `rejectOrganizationReport`
unfoldable pub reject_organization_report :
    Env → (ℕ → Bool) → ℕ → Option String → Option ℕ → Option Resolution → JwtUser → Action Report
unfolding reject_report_effects
reject_organization_report env exists id reason suggested resolution user =
    and_then (lift (require_user_organization_id user)) (λ organization.
      and_then
        (lift (
          throw_if (not (is_admin user.role) && not (is_dispatch user.role))
            (forbidden "Only organization operators can reject reports")))
        (λ _. and_then (lift (required_reason reason "Rejection reason is required")) (λ text.
          with_report id (reject_report_checks env exists text suggested organization resolution)
            (reject_report_effects env id text user organization))))
