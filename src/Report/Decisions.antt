-- ===== src/Report/Decisions.antt =====
-- What the checks of the deciding calls on a completed report let through.
pub mod Outcome
pub mod Both
use fixzone_enterprise_api.Base.{
  ℕ, String, ◌≡◌, ◌≢◌, ◌⊎◌, refl, Bool, true, false, Option, some, arith, inl, inr, is_text,
}
use fixzone_enterprise_api.Base.Result.{ok, Result-cases}
use fixzone_enterprise_api.Report.Types.{
  completed_by_provider, closed, CompletionPolicy, admin_resolution_required, confirmed, verified,
  same_policy, is_decision,
}
use fixzone_enterprise_api.Report.Model.{Report, JwtUser, Env, get_user_id, policy_for_report}
use fixzone_enterprise_api.Report.Effects.{write}
use fixzone_enterprise_api.Report.Completion.{
  confirm_checks, citizen_review_checks, assert_no_active_completion_blockers, citizen_confirmed,
  organization_review_checks, is_disputed, is_in_rework,
}
use fixzone_enterprise_api.Report.Verification.{verify_checks, organization_verified}

-- Nothing stands in the way of a decision.
abbrev pub IsOpenToDecision : Report → Type 0
IsOpenToDecision r =
    (r.status ≢ closed)
    × (is_disputed r ≡ false)
    × (is_text r.completion_governance_hold_reason ≡ false)
    × (is_in_rework r ≡ false)

pub blockers-IsOpenToDecision :
    (r : Report) → assert_no_active_completion_blockers r ≡ ok tt → IsOpenToDecision r
unfolding assert_no_active_completion_blockers
blockers-IsOpenToDecision r h = ground arith

pub citizen_review_lem :
    (user_id : ℕ) (r : Report)
    → citizen_review_checks user_id r ≡ ok tt
    → (r.citizen_id ≡ user_id) × ((r.status ≡ completed_by_provider) ⊎ (r.status ≡ closed))
unfolding citizen_review_checks
citizen_review_lem user_id r h = ground arith

pub organization_review_lem :
    (organization : ℕ) (r : Report)
    → organization_review_checks organization r ≡ ok tt
    → (r.organization_id ≡ organization)
      × ((r.status ≡ completed_by_provider) ⊎ (r.status ≡ closed))
unfolding organization_review_checks
organization_review_lem organization r h = ground arith

module _ (env : Env) (r r' : Report) where
  -- A confirmation that is written passed every check, and writes `citizen_confirmed`.
  pub confirm_checks_written :
      (rating : ℕ) (feedback : Option String) (user : JwtUser) (user_id : ℕ)
      → confirm_checks env rating feedback user user_id r ≡ ok (write r')
      → (citizen_review_checks user_id r ≡ ok tt)
        × (is_decision r.citizen_completion_decision confirmed ≡ false)
        × (assert_no_active_completion_blockers r ≡ ok tt)
        × (r' ≡ citizen_confirmed env rating feedback user user_id r)
  unfolding confirm_checks
  confirm_checks_written rating feedback user user_id h = ground arith

  -- A verification that is written passed every check, and writes `organization_verified`.
  pub verify_checks_written :
      (reason : Option String) (user : JwtUser) (organization : ℕ)
      → verify_checks env reason user organization r ≡ ok (write r')
      → (organization_review_checks organization r ≡ ok tt)
        × (is_decision r.organization_completion_decision verified ≡ false)
        × (assert_no_active_completion_blockers r ≡ ok tt)
        × (same_policy (policy_for_report env r) admin_resolution_required ≡ false)
        × ((user_id : ℕ) × (get_user_id user ≡ ok user_id)
            × (r' ≡ organization_verified env reason user user_id r))
  unfolding verify_checks
  verify_checks_written reason user organization h = elim (Result-cases (get_user_id user)) [
    | inl (user_id, e) ↦
        (ground arith, ground arith, ground arith, ground arith, (user_id, e, ground arith))
    | inr (x, e) ↦ absurd (ground arith)
  ]
