-- ===== src/Report/Governance.antt =====
-- The platform's governance of completion: the six `admin…` handlers
-- (src/report/report.service.ts).
mod Handler
mod Holds
pub use Handler.{Names}
unfoldable pub use Handler.{govern}
unfoldable pub use Holds.{
  place_hold_checks, admin_place_completion_hold, remove_hold_checks, admin_remove_completion_hold,
  override_checks, admin_override_completion_policy,
}
use fixzone_enterprise_api.Base.{
  ℕ, String, not, Option, none, some, List, [], ◌∷◌, ◌++◌, is_id, is_text, get_or, trimmed,
  if◌then◌else◌,
}
use fixzone_enterprise_api.Base.Result.{Result, ok, forbidden, conflict, ◌>>=◌, ◌>>◌, throw_if}
use fixzone_enterprise_api.Report.Types.{
  assigned, completed_by_provider, closed, CompletionPolicy, escalated, in_rework, review_closed,
  governance_hold, same_status, same_policy, is_review, is_super_admin,
}
use fixzone_enterprise_api.Report.Policy.{review_state_for}
use fixzone_enterprise_api.Report.Model.{Report, JwtUser, Env, get_user_id, policy_for_report}
use fixzone_enterprise_api.Report.Effects.{
  Effect, Change, write, Action, with_report, and_then, lift, find_report, emit,
  notify_organization_operators, notification, activity, audited, mention,
}
use fixzone_enterprise_api.Report.Intake.{required_reason}
use fixzone_enterprise_api.Report.Governance.Handler.{required_governance_reason}

-- The checks and the update of `adminResolveAndClose`.
unfoldable pub resolve_checks : Env → Option String → JwtUser → Report → Result Change
resolve_checks env reason user r = do
  throw_if (same_status r.status closed) (conflict "Report is already closed")
  throw_if (is_text r.completion_governance_hold_reason)
      (conflict "Remove governance hold before resolving")
  why ← required_governance_reason reason
  user_id ← get_user_id user
  ok (
      write (record r {
        status = closed;
        completion_review_state = some review_closed;
        completion_finalized_at = some env.now;
        completion_finalized_by_id = some user_id;
        completion_finalized_by_role = some user.role;
        completion_final_actor_type = some "SUPER_ADMIN_GOVERNANCE";
        completion_closure_reason = some why;
      }))

-- `adminResolveAndClose`
unfoldable pub admin_resolve_and_close : Env → ℕ → Option String → JwtUser → Action Report
unfolding govern
admin_resolve_and_close env id reason user =
    govern env id
      (record {
        action = "ADMIN_COMPLETION_RESOLVED_CLOSED";
        audit_action = "Admin Completion Resolved And Closed";
        notify_type = "governance_resolution_closed";
        notify_title = "Report closed by governance resolution";
      })
      reason user (resolve_checks env reason user) (λ _. [])

-- The checks and the update of `adminReturnForCompletionRework`.
unfoldable pub return_for_rework_checks : Option String → Report → Result Change
return_for_rework_checks reason r = do
  throw_if (same_status r.status closed) (conflict "Closed reports must be reopened before rework")
  throw_if (is_review r.completion_review_state in_rework)
      (conflict "Report is already returned for rework")
  why ← required_governance_reason reason
  ok (
      write (record r {
        status = assigned;
        completion_review_state = some in_rework;
        organization_completion_decision = some escalated;
        organization_completion_reason = some why;
        completion_rejection_reason = some why;
        completion_dispute_reason = some why;
      }))

rework_notice : ℕ → Report → List Effect
rework_notice id r' =
    if is_id r'.assigned_provider_id
    then notification (get_or r'.assigned_provider_id 0) id "governance_rework_requested"
        "Report returned for rework"
        (mention "Governance returned " r'.title " for provider rework.")
      ∷ []
    else []

-- `adminReturnForCompletionRework`
unfoldable pub admin_return_for_completion_rework :
    Env → ℕ → Option String → JwtUser → Action Report
unfolding govern rework_notice
admin_return_for_completion_rework env id reason user =
    govern env id
      (record {
        action = "ADMIN_COMPLETION_RETURNED_FOR_REWORK";
        audit_action = "Admin Completion Returned For Rework";
        notify_type = "governance_rework_requested";
        notify_title = "Report returned for provider rework";
      })
      reason user (return_for_rework_checks reason) (rework_notice id)

-- The checks and the update of `adminReopenCompletion`.
unfoldable pub reopen_checks : Env → Option String → Report → Result Change
reopen_checks env reason r = do
  throw_if (not (same_status r.status closed)) (conflict "Only closed reports can be reopened")
  why ← required_governance_reason reason
  ok (
      write (record r {
        status = completed_by_provider;
        completion_review_state = some (
            review_state_for (policy_for_report env r) r.citizen_completion_decision
              r.organization_completion_decision);
      }))

-- `adminReopenCompletion`
unfoldable pub admin_reopen_completion : Env → ℕ → Option String → JwtUser → Action Report
unfolding govern
admin_reopen_completion env id reason user =
    govern env id
      (record {
        action = "ADMIN_COMPLETION_REOPENED";
        audit_action = "Admin Completion Reopened";
        notify_type = "completion_governance_reopened";
        notify_title = "Report reopened by governance";
      })
      reason user (reopen_checks env reason) (λ _. [])
