-- ===== src/Report/Verification.antt =====
-- The organization's decision on a completed report: `verifyOrganizationCompletion` and
-- `requestOrganizationCompletionRework` (src/report/report.service.ts).
use fixzone_enterprise_api.Base.{
  ℕ, String, not, ◌&&◌, Option, none, some, List, [], ◌∷◌, ◌++◌, is_id, get_or, trimmed,
  if◌then◌else◌,
}
use fixzone_enterprise_api.Base.Result.{Result, ok, forbidden, conflict, ◌>>=◌, ◌>>◌, throw_if}
use fixzone_enterprise_api.Report.Types.{
  assigned, closed, admin_resolution_required, undecided, verified, rework_requested, in_rework,
  review_closed, same_status, same_policy, is_decision, is_admin, is_dispatch,
}
use fixzone_enterprise_api.Report.Policy.{review_state_for, is_completion_satisfied}
use fixzone_enterprise_api.Report.Model.{
  Report, JwtUser, Env, get_user_id, require_user_organization_id, policy_for_report,
}
use fixzone_enterprise_api.Report.Effects.{
  Effect, Change, keep, write, Action, with_report, and_then, lift, notification, activity, audited,
  mention,
}
use fixzone_enterprise_api.Report.Intake.{required_reason}
use fixzone_enterprise_api.Report.Completion.{
  organization_review_checks, assert_no_active_completion_blockers, finalized,
  notify_completion_closure,
}

-- The update of `verifyOrganizationCompletion`.
unfoldable pub organization_verified : Env → Option String → JwtUser → ℕ → Report → Report
organization_verified env reason user user_id r =
    let policy = policy_for_report env r in
    let citizen_decision = some (get_or r.citizen_completion_decision undecided) in
    let closes = is_completion_satisfied policy citizen_decision (some verified) in
    let decided = record r {
      organization_completion_decision = some verified;
      organization_completion_decided_at = some env.now;
      organization_completion_decided_by_id = some user_id;
      organization_completion_reason = trimmed reason;
      completion_review_state = some (
          if closes
          then review_closed
          else review_state_for policy citizen_decision (some verified));
    } in
    finalized env closes user user_id
      (get_or (trimmed reason) "Organization verification satisfied completion policy.") decided

-- The checks and the update of `verifyOrganizationCompletion`.
unfoldable pub verify_checks : Env → Option String → JwtUser → ℕ → Report → Result Change
verify_checks env reason user organization r = do
  organization_review_checks organization r
  if is_decision r.organization_completion_decision verified then ok keep else do
    assert_no_active_completion_blockers r
    throw_if (same_policy (policy_for_report env r) admin_resolution_required)
        (forbidden "This completion requires platform resolution.")
    user_id ← get_user_id user
    ok (write (organization_verified env reason user user_id r))

verify_effects : ℕ → Option String → JwtUser → Report → Report → List Effect
verify_effects id reason user r r' =
    (if same_status r'.status closed
      then notify_completion_closure id r'
      else notification r'.citizen_id id "organization_completion_verified"
          "Organization verified completion"
          (mention "Organization verified " r'.title ". Your confirmation is still required.")
        ∷ [])
    ++ audited "Organization Verified Completion" user id (some r'.organization_id)
      ∷ activity id user "ORGANIZATION_VERIFIED_COMPLETION" r'.organization_id (r.status, r'.status)
          (r'.assigned_provider_id, trimmed reason, none)
      ∷ []

-- The checks of both calls on the caller.
unfoldable pub operator_organization : JwtUser → Result ℕ
operator_organization user = do
  throw_if (not (is_admin user.role) && not (is_dispatch user.role))
      (forbidden "Only organization operators can verify")
  require_user_organization_id user

-- `verifyOrganizationCompletion`
unfoldable pub verify_organization_completion : Env → ℕ → Option String → JwtUser → Action Report
unfolding verify_effects operator_organization
verify_organization_completion env id reason user =
    and_then (lift (operator_organization user)) (λ organization.
      with_report id (verify_checks env reason user organization) (verify_effects id reason user))

-- `assertOrganizationCanRequestCompletionRework`
unfoldable pub assert_organization_can_request_rework : Report → Result (Unit {0})
assert_organization_can_request_rework r = do
  throw_if (is_decision r.organization_completion_decision verified)
      (conflict "Organization completion decision has already been submitted for this attempt")
  throw_if (is_decision r.organization_completion_decision rework_requested)
      (conflict "Organization completion rework has already been requested for this attempt")

-- The checks and the update of `requestOrganizationCompletionRework`.
unfoldable pub organization_rework_checks :
    Env → Option String → JwtUser → ℕ → Report → Result Change
organization_rework_checks env reason user organization r = do
  organization_review_checks organization r
  assert_organization_can_request_rework r
  why ← required_reason reason "Reason is required"
  user_id ← get_user_id user
  ok (
      write (record r {
        status = assigned;
        organization_completion_decision = some rework_requested;
        organization_completion_decided_at = some env.now;
        organization_completion_decided_by_id = some user_id;
        organization_completion_reason = some why;
        completion_rejection_reason = some why;
        completion_review_state = some in_rework;
        completion_dispute_reason = some why;
      }))

organization_rework_effects : ℕ → Option String → JwtUser → Report → Report → List Effect
organization_rework_effects id reason user r r' =
    (if is_id r'.assigned_provider_id
      then notification (get_or r'.assigned_provider_id 0) id "completion_rework_requested"
          "Completion rework requested" (mention "Organization requested rework on " r'.title ".")
        ∷ []
      else [])
    ++ notification r'.citizen_id id "completion_rework_requested" "Completion rework requested"
        (mention "Organization requested rework on " r'.title ".")
      ∷ audited "Organization Requested Completion Rework" user id (some r'.organization_id)
      ∷ activity id user "ORGANIZATION_REQUESTED_COMPLETION_REWORK" r'.organization_id
          (r.status, r'.status) (r'.assigned_provider_id, trimmed reason, none)
      ∷ []

-- `requestOrganizationCompletionRework`
unfoldable pub request_organization_completion_rework :
    Env → ℕ → Option String → JwtUser → Action Report
unfolding organization_rework_effects operator_organization
request_organization_completion_rework env id reason user =
    and_then (lift (operator_organization user)) (λ organization.
      with_report id (organization_rework_checks env reason user organization)
        (organization_rework_effects id reason user))
