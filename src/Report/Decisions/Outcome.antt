-- ===== src/Report/Decisions/Outcome.antt =====
-- What the decisions of the citizen and of the organization lead to.
use fixzone_enterprise_api.Base.{ℕ, String, ◌≡◌, ◌↔◌, false, Option, some, arith, if◌then◌else◌}
use fixzone_enterprise_api.Base.Result.{ok}
use fixzone_enterprise_api.Report.Types.{
  completed_by_provider, closed, admin_resolution_required, confirmed, verified, same_policy,
  is_decision,
}
use fixzone_enterprise_api.Report.Policy.{is_completion_satisfied}
use fixzone_enterprise_api.Report.Policy.Laws.{Closes, satisfied_iff_Closes, satisfied_undecided}
use fixzone_enterprise_api.Report.Model.{Report, JwtUser, Env, get_user_id, policy_for_report}
use fixzone_enterprise_api.Report.Effects.{write}
use fixzone_enterprise_api.Report.Completion.{
  confirm_checks, citizen_review_checks, assert_no_active_completion_blockers, citizen_confirmed,
  organization_review_checks,
}
use fixzone_enterprise_api.Report.Verification.{verify_checks, organization_verified}
use fixzone_enterprise_api.Report.Decisions.{
  IsOpenToDecision, confirm_checks_written, verify_checks_written,
}

module _ (env : Env) (user : JwtUser) (r r' : Report) where
  confirmed_outcome :
      (rating : ℕ) (feedback : Option String) (user_id : ℕ)
      → r' ≡ citizen_confirmed env rating feedback user user_id r
      → (r'.status ≡ (
          if is_completion_satisfied
            (policy_for_report env r)
            (some confirmed)
            r.organization_completion_decision
          then closed
          else completed_by_provider))
        × (r'.citizen_completion_decision ≡ some confirmed)
  unfolding citizen_confirmed
  confirmed_outcome rating feedback user_id e = ground (
    arith,
    satisfied_undecided (policy_for_report env r) (some confirmed)
        r.organization_completion_decision,
  )

  verified_outcome :
      (reason : Option String) (user_id : ℕ)
      → r' ≡ organization_verified env reason user user_id r
      → (r'.status ≡ (
          if is_completion_satisfied
            (policy_for_report env r)
            r.citizen_completion_decision
            (some verified)
          then closed
          else completed_by_provider))
        × (r'.organization_completion_decision ≡ some verified)
  unfolding organization_verified
  verified_outcome reason user_id e = ground (
    arith,
    satisfied_undecided (policy_for_report env r) r.citizen_completion_decision (some verified),
  )

  -- A citizen's confirmation that is written closes the report exactly when the policy is content
  -- with it and with what the organization has decided.
  pub confirm_checks-Closes :
      (rating : ℕ) (feedback : Option String) (user_id : ℕ)
      → confirm_checks env rating feedback user user_id r ≡ ok (write r')
      → (r'.status ≡ closed)
        ↔ Closes (policy_for_report env r) (some confirmed) r.organization_completion_decision
  confirm_checks-Closes rating feedback user_id h =
      let (_, _, _, e) = confirm_checks_written env r r' rating feedback user user_id h in
      ground (
        arith,
        confirmed_outcome rating feedback user_id e,
        satisfied_iff_Closes (policy_for_report env r) (some confirmed)
            r.organization_completion_decision,
      )

  -- An organization's verification that is written closes the report exactly when the policy is
  -- content with it and with what the citizen has decided.
  pub verify_checks-Closes :
      (reason : Option String) (organization : ℕ)
      → verify_checks env reason user organization r ≡ ok (write r')
      → (r'.status ≡ closed)
        ↔ Closes (policy_for_report env r) r.citizen_completion_decision (some verified)
  verify_checks-Closes reason organization h =
      let (_, _, _, _, (user_id, _, e)) =
        verify_checks_written env r r' reason user organization h in
      ground (
        arith,
        verified_outcome reason user_id e,
        satisfied_iff_Closes (policy_for_report env r) r.citizen_completion_decision
            (some verified),
      )

pub confirm_checks_passed :
    (env : Env) (rating : ℕ) (feedback : Option String) (user : JwtUser) (r : Report)
    → r.status ≡ completed_by_provider
    → IsOpenToDecision r
    → is_decision r.citizen_completion_decision confirmed ≡ false
    → confirm_checks env rating feedback user r.citizen_id r
      ≡ ok (write (citizen_confirmed env rating feedback user r.citizen_id r))
unfolding confirm_checks citizen_review_checks assert_no_active_completion_blockers
confirm_checks_passed env rating feedback user r s o d = ground arith

pub verify_checks_passed :
    (env : Env) (reason : Option String) (user : JwtUser) (user_id : ℕ) (r : Report)
    → get_user_id user ≡ ok user_id
    → r.status ≡ completed_by_provider
    → IsOpenToDecision r
    → same_policy (policy_for_report env r) admin_resolution_required ≡ false
    → is_decision r.organization_completion_decision verified ≡ false
    → verify_checks env reason user r.organization_id r
      ≡ ok (write (organization_verified env reason user user_id r))
unfolding verify_checks organization_review_checks assert_no_active_completion_blockers
verify_checks_passed env reason user user_id r u s o p d = ground arith
