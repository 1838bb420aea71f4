-- ===== src/Report/Governance/Holds.antt =====
-- Governance holds and the override of the policy: `adminPlaceCompletionHold`,
-- `adminRemoveCompletionHold` and `adminOverrideCompletionPolicy` (src/report/report.service.ts).
use fixzone_enterprise_api.Base.{ℕ, String, not, Option, none, some, [], is_text, if◌then◌else◌}
use fixzone_enterprise_api.Base.Result.{Result, ok, conflict, ◌>>=◌, ◌>>◌, throw_if}
use fixzone_enterprise_api.Report.Types.{
  closed, CompletionPolicy, review_closed, governance_hold, same_status, same_policy,
}
use fixzone_enterprise_api.Report.Policy.{review_state_for}
use fixzone_enterprise_api.Report.Model.{Report, JwtUser, Env, policy_for_report}
use fixzone_enterprise_api.Report.Effects.{Change, write, Action}
use fixzone_enterprise_api.Report.Governance.Handler.{required_governance_reason, govern}

-- The checks and the update of `adminPlaceCompletionHold`.
unfoldable pub place_hold_checks : Option String → Report → Result Change
place_hold_checks reason r = do
  throw_if (same_status r.status closed) (conflict "Reopen closed reports before placing hold")
  why ← required_governance_reason reason
  throw_if (is_text r.completion_governance_hold_reason)
      (conflict "Report is already on governance hold")
  ok (
      write (record r {
        completion_governance_hold_reason = some why;
        completion_review_state = some governance_hold;
      }))

-- `adminPlaceCompletionHold`
unfoldable pub admin_place_completion_hold : Env → ℕ → Option String → JwtUser → Action Report
unfolding govern
admin_place_completion_hold env id reason user =
    govern env id
      (record {
        action = "ADMIN_COMPLETION_HOLD_PLACED";
        audit_action = "Admin Completion Hold Placed";
        notify_type = "completion_governance_hold";
        notify_title = "Report placed on governance hold";
      })
      reason user (place_hold_checks reason) (λ _. [])

-- The checks and the update of `adminRemoveCompletionHold`.
unfoldable pub remove_hold_checks : Env → Option String → Report → Result Change
remove_hold_checks env reason r = do
  why ← required_governance_reason reason
  throw_if (not (is_text r.completion_governance_hold_reason))
      (conflict "Report is not on governance hold")
  ok (
      write (record r {
        completion_governance_hold_reason = none;
        completion_review_state = some (
            if same_status r.status closed
            then review_closed
            else review_state_for (policy_for_report env r) r.citizen_completion_decision
                r.organization_completion_decision);
      }))

-- `adminRemoveCompletionHold`
unfoldable pub admin_remove_completion_hold : Env → ℕ → Option String → JwtUser → Action Report
unfolding govern
admin_remove_completion_hold env id reason user =
    govern env id
      (record {
        action = "ADMIN_COMPLETION_HOLD_REMOVED";
        audit_action = "Admin Completion Hold Removed";
        notify_type = "completion_governance_hold_removed";
        notify_title = "Governance hold removed";
      })
      reason user (remove_hold_checks env reason) (λ _. [])

-- The checks and the update of `adminOverrideCompletionPolicy`.
unfoldable pub override_checks : Env → CompletionPolicy → Option String → Report → Result Change
override_checks env policy reason r = do
  why ← required_governance_reason reason
  throw_if (same_status r.status closed) (conflict "Reopen closed reports before overriding policy")
  throw_if (same_policy (policy_for_report env r) policy)
      (conflict "Report already uses this policy")
  ok (
      write (record r {
        completion_policy = some policy;
        completion_policy_source = some "SUPER_ADMIN_REPORT_OVERRIDE";
        completion_review_state = some (
            review_state_for policy r.citizen_completion_decision
              r.organization_completion_decision);
      }))

-- `adminOverrideCompletionPolicy`
unfoldable pub admin_override_completion_policy :
    Env → ℕ → CompletionPolicy → Option String → JwtUser → Action Report
unfolding govern
admin_override_completion_policy env id policy reason user =
    govern env id
      (record {
        action = "ADMIN_COMPLETION_POLICY_OVERRIDDEN";
        audit_action = "Admin Completion Policy Overridden";
        notify_type = "completion_policy_overridden";
        notify_title = "Completion policy overridden";
      })
      reason user (override_checks env policy reason) (λ _. [])
