-- ===== src/Report/Service/Allows.antt =====
-- What a relation must allow for every request to keep it: each write that a handler's checks let
-- through, for a caller who passed the handler's first checks.
use fixzone_enterprise_api.Base.{ℕ, String, ◌≡◌, Bool, true, not, Option, none, arith}
use fixzone_enterprise_api.Base.Result.{ok, Error, throw_if}
use fixzone_enterprise_api.Report.Types.{CompletionPolicy, is_super_admin}
use fixzone_enterprise_api.Report.Model.{
  Report, JwtUser, Env, get_user_id, require_user_organization_id,
}
use fixzone_enterprise_api.Report.Effects.{write}
use fixzone_enterprise_api.Report.Assignment.{
  may_dispatch, cancel_checks, assign_checks, AssignOptions,
}
use fixzone_enterprise_api.Report.Expiry.{Scope, is_overdue, expired, reject_update}
use fixzone_enterprise_api.Report.Intake.{Resolution, accept_checks, reject_report_checks}
use fixzone_enterprise_api.Report.Status.{status_checks, StatusRequest, PolicySources}
use fixzone_enterprise_api.Report.Completion.{confirm_checks, citizen_rework_checks}
use fixzone_enterprise_api.Report.Verification.{
  operator_organization, verify_checks, organization_rework_checks,
}
use fixzone_enterprise_api.Report.Deadlines.{
  is_processor, awaits_window, skip_reason, window_closed,
}
use fixzone_enterprise_api.Report.Governance.{
  resolve_checks, return_for_rework_checks, place_hold_checks, remove_hold_checks, reopen_checks,
  override_checks,
}

pub record Allows (P : Report → Report → Type 0) (env : Env) (user : JwtUser) : Type 0 where
  pub cancels :
      (reason : Option String) (r r' : Report)
      → may_dispatch user ≡ true
      → cancel_checks env reason user r ≡ ok (write r')
      → P r r'
  pub assigns :
      (provider_id : ℕ) (options : AssignOptions) (r r' : Report)
      → may_dispatch user ≡ true
      → assign_checks env provider_id user options r ≡ ok (write r')
      → P r r'
  pub reassigns :
      (reason : Option String) (provider_id : ℕ) (options : AssignOptions) (r s r' : Report)
      → may_dispatch user ≡ true
      → cancel_checks env reason user r ≡ ok (write s)
      → assign_checks env provider_id user options s ≡ ok (write r')
      → P r r'
  pub refuses :
      (reason : String) (user_id : ℕ) (r r' : Report)
      → get_user_id user ≡ ok user_id
      → reject_update env reason user_id r ≡ ok (write r')
      → P r r'
  pub expires : (scope : Scope) (r : Report) → is_overdue env scope r ≡ true → P r (expired env r)
  pub accepts :
      (organization : ℕ) (resolution : Option Resolution) (r r' : Report)
      → require_user_organization_id user ≡ ok organization
      → accept_checks env organization resolution r ≡ ok (write r')
      → P r r'
  pub turns_down :
      (exists : ℕ → Bool) (reason : String) (suggested : Option ℕ) (organization : ℕ)
      (resolution : Option Resolution) (r r' : Report)
      → require_user_organization_id user ≡ ok organization
      → reject_report_checks env exists reason suggested organization resolution r ≡ ok (write r')
      → P r r'
  pub updates :
      (sources : PolicySources) (hours id : ℕ) (dto : StatusRequest) (user_id : ℕ) (r r' : Report)
      → get_user_id user ≡ ok user_id
      → status_checks env sources hours id dto user user_id r ≡ ok (write r')
      → P r r'
  pub confirms :
      (rating : ℕ) (feedback : Option String) (user_id : ℕ) (r r' : Report)
      → get_user_id user ≡ ok user_id
      → confirm_checks env rating feedback user user_id r ≡ ok (write r')
      → P r r'
  pub asks_rework :
      (reason : Option String) (user_id : ℕ) (r r' : Report)
      → get_user_id user ≡ ok user_id
      → citizen_rework_checks env reason user_id r ≡ ok (write r')
      → P r r'
  pub verifies :
      (reason : Option String) (organization : ℕ) (r r' : Report)
      → operator_organization user ≡ ok organization
      → verify_checks env reason user organization r ≡ ok (write r')
      → P r r'
  pub orders_rework :
      (reason : Option String) (organization : ℕ) (r r' : Report)
      → operator_organization user ≡ ok organization
      → organization_rework_checks env reason user organization r ≡ ok (write r')
      → P r r'
  pub resolves :
      (reason : Option String) (r r' : Report)
      → is_super_admin user.role ≡ true
      → resolve_checks env reason user r ≡ ok (write r')
      → P r r'
  pub returns :
      (reason : Option String) (r r' : Report)
      → is_super_admin user.role ≡ true
      → return_for_rework_checks reason r ≡ ok (write r')
      → P r r'
  pub holds :
      (reason : Option String) (r r' : Report)
      → is_super_admin user.role ≡ true
      → place_hold_checks reason r ≡ ok (write r')
      → P r r'
  pub releases :
      (reason : Option String) (r r' : Report)
      → is_super_admin user.role ≡ true
      → remove_hold_checks env reason r ≡ ok (write r')
      → P r r'
  pub reopens :
      (reason : Option String) (r r' : Report)
      → is_super_admin user.role ≡ true
      → reopen_checks env reason r ≡ ok (write r')
      → P r r'
  pub overrides :
      (policy : CompletionPolicy) (reason : Option String) (r r' : Report)
      → is_super_admin user.role ≡ true
      → override_checks env policy reason r ≡ ok (write r')
      → P r r'
  pub closes_window :
      (user_id : ℕ) (r : Report)
      → is_processor user.role ≡ true
      → awaits_window r ≡ true
      → skip_reason env r ≡ none
      → P r (window_closed env user user_id r)

-- A check that threw nothing found its test false.
pub throw_if_passed : (c : Bool) (e : Error) → throw_if (not c) e ≡ ok tt → c ≡ true
throw_if_passed c e h = ground arith
