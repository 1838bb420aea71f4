-- ===== src/Report/Status.antt =====
-- A change of status on request: `updateStatus` and `assertStatusTransitionAllowed`, with the
-- completion that a provider submits by it (src/report/report.service.ts).
mod Request
mod Notices
pub use Request.{StatusRequest, PolicySources}
unfoldable pub use Request.{resolve_completion_policy, completed_report}
unfoldable pub use Notices.{
  notify_status_change, notify_completion_reviewers, activity_action_for_status,
}
use fixzone_enterprise_api.Base.{
  ℕ, ◌+◌, ◌*◌, String, Bool, true, false, not, ◌&&◌, ◌||◌, Option, none, some, List, [], ◌∷◌, ◌++◌,
  ltb, same_id, is_some, get_or, trimmed, if◌then◌else◌,
}
use fixzone_enterprise_api.Base.Result.{Result, ok, forbidden, bad_request, ◌>>◌, throw_if}
use fixzone_enterprise_api.Report.Types.{
  ReportStatus, assigned, in_progress, completed_by_provider, closed, CompletionPolicy,
  citizen_confirmation_required, organization_confirmation_required, both_required,
  admin_resolution_required, auto_close_after_review_window, undecided, same_status, same_policy,
  is_super_admin, is_admin, is_dispatch, is_provider,
}
use fixzone_enterprise_api.Report.Workflow.{can_transition}
use fixzone_enterprise_api.Report.Policy.{review_state_for}
use fixzone_enterprise_api.Report.Model.{Report, JwtUser, Env, get_user_id}
use fixzone_enterprise_api.Report.Effects.{
  Effect, Change, write, Action, with_report, and_then, lift, find_report, emit,
  notify_organization_operators, notify_platform_resolvers, notification, activity, audited,
  mention,
}
use fixzone_enterprise_api.Report.Expiry.{
  assert_active_provider, assert_provider_can_access_report, assert_assignment_still_acceptable,
}
use fixzone_enterprise_api.Report.EvidencePath.{normalize_completion_evidence_fields}

-- `assertStatusTransitionAllowed`
unfoldable pub assert_status_transition_allowed :
    Report → ReportStatus → JwtUser → ℕ → Result (Unit {0})
assert_status_transition_allowed r next user user_id = do
  throw_if (same_status next assigned)
      (forbidden "Use provider assignment to move a report to ASSIGNED")
  throw_if (not (can_transition r.status next)) (forbidden "Invalid status transition")
  (if is_provider user.role
      then throw_if (not (same_id r.assigned_provider_id (some user_id)))
          (forbidden "Not your report")
        >> throw_if
            (not (same_status next in_progress) && not (same_status next completed_by_provider))
            (forbidden "Invalid status for provider")
      else if is_admin user.role || is_dispatch user.role
      then throw_if (not (same_id (some r.organization_id) user.organization_id))
          (forbidden "Wrong org")
      else throw_if (not (is_super_admin user.role)) (forbidden "Not allowed"))

-- The checks of `updateStatus` on the transition, and its update.
unfoldable pub status_checks :
    Env → PolicySources → ℕ → ℕ → StatusRequest → JwtUser → ℕ → Report → Result Change
status_checks env sources hours id dto user user_id r = do
  assert_status_transition_allowed r dto.status user user_id
  let evidence =
      normalize_completion_evidence_fields env.url_pathname dto.completion_image_url
        dto.completion_image_path
  if not (same_status dto.status completed_by_provider)
      then ok (write (record r { status = dto.status }))
      else do
        throw_if
            (not (is_some evidence.1 || is_some evidence.0)
              && not (ltb 0 (env.completion_evidence id)))
            (bad_request "COMPLETION_EVIDENCE_REQUIRED")
        ok (
            write
              (completed_report env hours dto (resolve_completion_policy env sources r) evidence r))

status_notices : Env → ℕ → StatusRequest → Report → Report → List Effect
status_notices env id dto r r' =
    if same_status dto.status completed_by_provider
    then notify_completion_reviewers env id r'
    else notify_status_change id r'.status r'

-- The orchestrator is called between the notices and the audit; where it throws, the update stays.
unfoldable pub status_finish : Env → ℕ → StatusRequest → JwtUser → Report → Report → Action Report
status_finish env id dto user r r' =
    and_then
      (lift
        (if same_status dto.status completed_by_provider then env.maintenance_answer else ok tt))
      (λ _.
        and_then
          (emit (
            audited "Report Status Changed" user id (some r'.organization_id)
            ∷ activity id user (activity_action_for_status dto.status) r'.organization_id
                (r.status, r'.status) (r'.assigned_provider_id, none, trimmed dto.completion_note)
            ∷ []))
          (λ _. lift (ok r')))

-- The checks of `updateStatus` that concern a provider.
provider_checks : Env → JwtUser → ℕ → Report → Result (Unit {0})
provider_checks env user user_id r =
    if is_provider user.role
    then assert_active_provider env user_id >> assert_provider_can_access_report env user user_id r
    else ok tt

abbrev pub starts_work : StatusRequest → JwtUser → Bool
starts_work dto user = is_provider user.role && same_status dto.status in_progress

unfoldable pub acceptance_check : Env → StatusRequest → JwtUser → ℕ → Report → Action (Unit {0})
acceptance_check env dto user user_id r =
    if starts_work dto user && same_status r.status assigned
    then assert_assignment_still_acceptable env r user user_id
    else lift (ok tt)

-- `updateStatus`
unfoldable pub update_status : Env → PolicySources → ℕ → ℕ → StatusRequest → JwtUser → Action Report
unfolding provider_checks acceptance_check status_notices status_finish
update_status env sources hours id dto user = and_then (lift (get_user_id user)) (λ user_id.
    and_then (find_report id) (λ r. and_then (lift (provider_checks env user user_id r)) (λ _.
      and_then (acceptance_check env dto user user_id r) (λ _.
        and_then (lift (if starts_work dto user then env.trust_answer user_id else ok tt)) (λ _.
          and_then
            (with_report id (status_checks env sources hours id dto user user_id)
              (status_notices env id dto))
            (status_finish env id dto user r))))))
