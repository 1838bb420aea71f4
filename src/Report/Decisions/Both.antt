-- ===== src/Report/Decisions/Both.antt =====
-- The two decisions one after the other, and the same decision twice.
use fixzone_enterprise_api.Base.{ℕ, String, ◌≡◌, ◌∙◌, ◌⊎◌, false, Option, some, arith}
use fixzone_enterprise_api.Base.Result.{ok}
use fixzone_enterprise_api.Report.Types.{
  completed_by_provider, closed, both_required, confirmed, verified, is_decision,
}
use fixzone_enterprise_api.Report.Policy.{is_completion_satisfied, review_state_for}
use fixzone_enterprise_api.Report.Model.{Report, JwtUser, Env, get_user_id, policy_for_report}
use fixzone_enterprise_api.Report.Effects.{keep, write}
use fixzone_enterprise_api.Report.Completion.{
  confirm_checks, citizen_review_checks, citizen_confirmed, organization_review_checks,
}
use fixzone_enterprise_api.Report.Verification.{verify_checks, organization_verified}
use fixzone_enterprise_api.Report.Decisions.{
  IsOpenToDecision, citizen_review_lem, organization_review_lem, confirm_checks_written,
  verify_checks_written,
}
use fixzone_enterprise_api.Report.Decisions.Outcome.{confirm_checks_passed, verify_checks_passed}

-- A report that waits for the decisions of both parties.
abbrev pub AwaitsBoth : Env → Report → Type 0
AwaitsBoth env r =
    (r.status ≡ completed_by_provider)
    × IsOpenToDecision r
    × (policy_for_report env r ≡ both_required)
    × (is_decision r.citizen_completion_decision confirmed ≡ false)
    × (is_decision r.organization_completion_decision verified ≡ false)

module _ (env : Env) (user : JwtUser) (user_id : ℕ) (r : Report) where
  confirmed_stays_open :
      (rating : ℕ) (feedback : Option String)
      → AwaitsBoth env r
      → let r' = citizen_confirmed env rating feedback user user_id r in
        (r'.status ≡ completed_by_provider)
        × IsOpenToDecision r'
        × (policy_for_report env r' ≡ both_required)
        × (r'.citizen_completion_decision ≡ some confirmed)
        × (r'.organization_completion_decision ≡ r.organization_completion_decision)
        × (r'.organization_id ≡ r.organization_id)
  unfolding citizen_confirmed is_completion_satisfied review_state_for policy_for_report
  confirmed_stays_open rating feedback (s, o, p, c, v) = ground arith

  verified_stays_open :
      (reason : Option String)
      → AwaitsBoth env r
      → let r' = organization_verified env reason user user_id r in
        (r'.status ≡ completed_by_provider)
        × IsOpenToDecision r'
        × (policy_for_report env r' ≡ both_required)
        × (r'.organization_completion_decision ≡ some verified)
        × (r'.citizen_completion_decision ≡ r.citizen_completion_decision)
        × (r'.citizen_id ≡ r.citizen_id)
  unfolding organization_verified is_completion_satisfied review_state_for policy_for_report
  verified_stays_open reason (s, o, p, c, v) = ground arith

  closes_behind_citizen :
      (reason : Option String)
      → policy_for_report env r ≡ both_required
      → r.citizen_completion_decision ≡ some confirmed
      → (organization_verified env reason user user_id r).status ≡ closed
  unfolding organization_verified is_completion_satisfied
  closes_behind_citizen reason p c = ground arith

  closes_behind_organization :
      (rating : ℕ) (feedback : Option String)
      → policy_for_report env r ≡ both_required
      → r.organization_completion_decision ≡ some verified
      → (citizen_confirmed env rating feedback user user_id r).status ≡ closed
  unfolding citizen_confirmed is_completion_satisfied
  closes_behind_organization rating feedback p c = ground arith

-- Where the policy asks for both decisions, and neither has been made on a completed report that
-- nothing blocks, the two calls of the report's citizen and its organization pass their checks in
-- either order: the first leaves the report open, and the second closes it.
pub both_required_closes :
    (env : Env) (rating : ℕ) (feedback reason : Option String) (person operator : JwtUser)
    (operator_id : ℕ) (r : Report)
    → get_user_id operator ≡ ok operator_id
    → AwaitsBoth env r
    → ((r₁ : Report) × (r₂ : Report) × (confirm_checks env rating feedback person r.citizen_id r
          ≡ ok (write r₁))
        × (r₁.status ≡ completed_by_provider)
        × (verify_checks env reason operator r.organization_id r₁ ≡ ok (write r₂))
        × (r₂.status ≡ closed))
      × ((r₁ : Report) × (r₂ : Report) × (verify_checks env reason operator r.organization_id r
            ≡ ok (write r₁))
          × (r₁.status ≡ completed_by_provider)
          × (confirm_checks env rating feedback person r.citizen_id r₁ ≡ ok (write r₂))
          × (r₂.status ≡ closed))
unfolding citizen_confirmed organization_verified
both_required_closes env rating feedback reason person operator operator_id r u a =
    let (s, o, p, c, v) = a in
    let r₁ = citizen_confirmed env rating feedback person r.citizen_id r in
    let (s₁, o₁, p₁, c₁, v₁, i₁) =
      confirmed_stays_open env person r.citizen_id r rating feedback a in
    let q₁ = organization_verified env reason operator operator_id r in
    let (t₁, m₁, n₁, w₁, d₁, j₁) = verified_stays_open env operator operator_id r reason a in
    (
      (
        r₁,
        organization_verified env reason operator operator_id r₁,
        confirm_checks_passed env rating feedback person r s o c,
        s₁,
        verify_checks_passed env reason operator operator_id r₁ u s₁ o₁ (ground arith)
            (ground arith),
        closes_behind_citizen env operator operator_id r₁ reason p₁ c₁,
      ),
      (
        q₁,
        citizen_confirmed env rating feedback person q₁.citizen_id q₁,
        verify_checks_passed env reason operator operator_id r u s o (ground arith) v,
        t₁,
        confirm_checks_passed env rating feedback person q₁ t₁ m₁ (ground arith),
        closes_behind_organization env person q₁.citizen_id q₁ rating feedback n₁ w₁,
      ),
    )

module _ (env : Env) (user : JwtUser) (r r' : Report) where
  confirmed_review :
      (rating : ℕ) (feedback : Option String) (user_id : ℕ)
      → r' ≡ citizen_confirmed env rating feedback user user_id r
      → (r'.citizen_id ≡ r.citizen_id)
        × (r'.citizen_completion_decision ≡ some confirmed)
        × ((r'.status ≡ completed_by_provider) ⊎ (r'.status ≡ closed))
  unfolding citizen_confirmed
  confirmed_review rating feedback user_id e = ground arith

  verified_review :
      (reason : Option String) (user_id : ℕ)
      → r' ≡ organization_verified env reason user user_id r
      → (r'.organization_id ≡ r.organization_id)
        × (r'.organization_completion_decision ≡ some verified)
        × ((r'.status ≡ completed_by_provider) ⊎ (r'.status ≡ closed))
  unfolding organization_verified
  verified_review reason user_id e = ground arith

  confirm_again :
      (later : Env) (rating : ℕ) (feedback : Option String) (user_id : ℕ)
      → r'.citizen_id ≡ user_id
      → r'.citizen_completion_decision ≡ some confirmed
      → (r'.status ≡ completed_by_provider) ⊎ (r'.status ≡ closed)
      → confirm_checks later rating feedback user user_id r' ≡ ok keep
  unfolding confirm_checks citizen_review_checks
  confirm_again later rating feedback user_id i c s = ground arith

  verify_again :
      (later : Env) (reason : Option String) (organization : ℕ)
      → r'.organization_id ≡ organization
      → r'.organization_completion_decision ≡ some verified
      → (r'.status ≡ completed_by_provider) ⊎ (r'.status ≡ closed)
      → verify_checks later reason user organization r' ≡ ok keep
  unfolding verify_checks organization_review_checks
  verify_again later reason organization i c s = ground arith

  -- A confirmation that was written and is sent again, at any time and with whatever rating, leaves
  -- the report as it is.
  pub confirm_checks_twice :
      (later : Env) (rating again : ℕ) (feedback more : Option String) (user_id : ℕ)
      → confirm_checks env rating feedback user user_id r ≡ ok (write r')
      → confirm_checks later again more user user_id r' ≡ ok keep
  confirm_checks_twice later rating again feedback more user_id h =
      let (c, _, _, e) = confirm_checks_written env r r' rating feedback user user_id h in
      let (i, d, s) = confirmed_review rating feedback user_id e in
      confirm_again later again more user_id (i ∙ (citizen_review_lem user_id r c).0) d s

  -- A verification that was written and is sent again, at any time and with whatever reason, leaves
  -- the report as it is.
  pub verify_checks_twice :
      (later : Env) (reason more : Option String) (organization : ℕ)
      → verify_checks env reason user organization r ≡ ok (write r')
      → verify_checks later more user organization r' ≡ ok keep
  verify_checks_twice later reason more organization h =
      let (c, _, _, _, (user_id, _, e)) =
        verify_checks_written env r r' reason user organization h in
      let (i, d, s) = verified_review reason user_id e in
      verify_again later more organization (i ∙ (organization_review_lem organization r c).0) d s
