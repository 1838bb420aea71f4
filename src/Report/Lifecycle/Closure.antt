-- ===== src/Report/Lifecycle/Closure.antt =====
-- Who closes a report, and by what right.
use fixzone_enterprise_api.Base.{◌≡◌, ◌⊎◌, true, false, some, is_text, same_id}
use fixzone_enterprise_api.Base.Result.{Result, ok}
use fixzone_enterprise_api.Report.Types.{
  completed_by_provider, closed, is_super_admin, is_provider, auto_close_after_review_window,
}
use fixzone_enterprise_api.Report.Policy.Laws.{Closes}
use fixzone_enterprise_api.Report.Model.{Report, JwtUser, Env, policy_for_report, get_user_id}
use fixzone_enterprise_api.Report.Verification.{operator_organization}
use fixzone_enterprise_api.Report.Decisions.{IsOpenToDecision}
use fixzone_enterprise_api.Report.Deadlines.{is_processor}
use fixzone_enterprise_api.Report.Deadlines.Laws.{IsDue}
use fixzone_enterprise_api.Report.Service.Allows.{Allows}
use fixzone_enterprise_api.Report.Lifecycle.Checks

-- The rights by which a report is closed.
pub data ClosedBy (env : Env) (user : JwtUser) (r r' : Report) : Type 0 where
  -- The caller is one of the two who decide; the decisions that the policy asks for are there, and
  -- nothing stood in their way.
  decisions :
      (get_user_id user ≡ ok r.citizen_id) ⊎ (operator_organization user ≡ ok r.organization_id)
      → IsOpenToDecision r
      → Closes
          (policy_for_report env r)
          r'.citizen_completion_decision
          r'.organization_completion_decision
      → ClosedBy env user r r'
  -- The platform resolved it, and there was no governance hold.
  governance :
      is_super_admin user.role ≡ true
      → is_text r.completion_governance_hold_reason ≡ false
      → ClosedBy env user r r'
  -- Its review window was over, with nothing in the way, and its policy closes it then.
  review_window :
      is_processor user.role ≡ true
      → r.completion_policy ≡ some auto_close_after_review_window
      → IsDue env r
      → ClosedBy env user r r'
  -- An operator of the owning organization, or the platform, set the status of a completed report.
  operator :
      r.status ≡ completed_by_provider
      → is_provider user.role ≡ false
      → (is_super_admin user.role ≡ true)
        ⊎ (same_id (some r.organization_id) user.organization_id ≡ true)
      → ClosedBy env user r r'

-- A report that is closed now was closed before, or was closed by right.
abbrev pub ClosesByRight : Env → JwtUser → Report → Report → Type 0
ClosesByRight env user r r' = r'.status ≡ closed → (r.status ≡ closed) ⊎ ClosedBy env user r r'
