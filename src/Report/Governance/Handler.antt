-- ===== src/Report/Governance/Handler.antt =====
-- What the calls of the super administrator share: `assertSuperAdmin`, `requiredGovernanceReason`
-- and `recordGovernanceAction` (src/report/report.service.ts).
use fixzone_enterprise_api.Base.{ℕ, String, not, Option, none, some, List, [], ◌∷◌, ◌++◌, trimmed}
use fixzone_enterprise_api.Base.Result.{Result, ok, forbidden, throw_if}
use fixzone_enterprise_api.Report.Types.{is_super_admin}
use fixzone_enterprise_api.Report.Model.{Report, JwtUser, Env, get_user_id}
use fixzone_enterprise_api.Report.Effects.{
  Effect, Change, Action, with_report, and_then, lift, find_report, emit,
  notify_organization_operators, notification, activity, audited, mention,
}
use fixzone_enterprise_api.Report.Intake.{required_reason}

-- `assertSuperAdmin`
abbrev assert_super_admin : JwtUser → Result (Unit {0})
assert_super_admin user =
    throw_if (not (is_super_admin user.role))
      (forbidden "Super Admin completion governance required")

-- `requiredGovernanceReason`
abbrev pub required_governance_reason : Option String → Result String
required_governance_reason reason = required_reason reason "Reason is required"

-- The names that `recordGovernanceAction` is given.
pub record Names : Type 0 where
  pub action : String
  pub audit_action : String
  pub notify_type : String
  pub notify_title : String

-- `recordGovernanceAction`
record_governance_action : Env → ℕ → Names → Option String → JwtUser → Report → Report → List Effect
record_governance_action env id names reason user r r' =
    activity id user names.action r'.organization_id (r.status, r'.status)
      (r'.assigned_provider_id, trimmed reason, none)
    ∷ audited names.audit_action user id (some r'.organization_id)
    ∷ notification r'.citizen_id id names.notify_type names.notify_title
        (mention "Governance updated " r'.title ".")
    ∷ notify_organization_operators env r'.organization_id id names.notify_type names.notify_title
        (mention "Governance updated " r'.title ".")

-- A handler behind its check of the caller. `recordGovernanceAction` reads the caller's identifier
-- first, and so throws without one, behind the update.
unfoldable pub govern :
    Env
    → ℕ
    → Names
    → Option String
    → JwtUser
    → (Report → Result Change)
    → (Report → List Effect)
    → Action Report
unfolding record_governance_action
govern env id names reason user checks after = and_then (lift (assert_super_admin user)) (λ _.
    and_then (find_report id) (λ r. and_then (with_report id checks (λ _ _. [])) (λ r'.
      and_then (lift (get_user_id user)) (λ _.
        and_then (emit (record_governance_action env id names reason user r r' ++ after r'))
          (λ _. lift (ok r'))))))
