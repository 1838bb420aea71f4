-- ===== src/Report/Lifecycle/Checks.antt =====
-- The move that each handler's checks allow.
use fixzone_enterprise_api.Base.{ℕ, String, ◌≡◌, ◌≢◌, refl, ◌⊎◌, Bool, true, Option, none, arith}
use fixzone_enterprise_api.Base.Result.{ok}
use fixzone_enterprise_api.Report.Types.{
  triage, org_review, pending, assigned, completed_by_provider, closed, CompletionPolicy,
}
use fixzone_enterprise_api.Report.Workflow.{can_transition}
use fixzone_enterprise_api.Report.Model.{Report, JwtUser, Env}
use fixzone_enterprise_api.Report.Effects.{write}
use fixzone_enterprise_api.Report.Assignment.{
  cancel_checks, assign_checks, assert_assignment_allowed, AssignOptions,
}
use fixzone_enterprise_api.Report.Expiry.{reject_update}
use fixzone_enterprise_api.Report.Intake.{
  accept_checks, reject_report_checks, is_legacy_matched_review, Resolution,
}
use fixzone_enterprise_api.Report.Status.{
  status_checks, assert_status_transition_allowed, completed_report, StatusRequest, PolicySources,
}
use fixzone_enterprise_api.Report.Completion.{
  confirm_checks, citizen_review_checks, citizen_confirmed, citizen_rework_checks,
  assert_citizen_can_request_rework, organization_review_checks,
}
use fixzone_enterprise_api.Report.Verification.{
  verify_checks, organization_verified, organization_rework_checks,
  assert_organization_can_request_rework,
}
use fixzone_enterprise_api.Report.Decisions.{
  confirm_checks_written, verify_checks_written, citizen_review_lem, organization_review_lem,
  blockers-IsOpenToDecision,
}
use fixzone_enterprise_api.Report.Deadlines.{skip_reason, window_closed}
use fixzone_enterprise_api.Report.Deadlines.Laws.{skip_reason_iff_IsDue}
use fixzone_enterprise_api.Report.Governance.{
  resolve_checks, return_for_rework_checks, place_hold_checks, remove_hold_checks, reopen_checks,
  override_checks,
}
use fixzone_enterprise_api.Report.Lifecycle.{Unassigns}

module _ (env : Env) (r r' : Report) where
  pub cancel_checks-Unassigns :
      (reason : Option String) (user : JwtUser)
      → cancel_checks env reason user r ≡ ok (write r')
      → Unassigns r r'
  unfolding cancel_checks
  cancel_checks-Unassigns reason user h = ground arith

  pub assign_checks_edge :
      (provider_id : ℕ) (user : JwtUser) (options : AssignOptions)
      → assign_checks env provider_id user options r ≡ ok (write r')
      → can_transition r.status r'.status ≡ true
  unfolding assign_checks assert_assignment_allowed can_transition
  assign_checks_edge provider_id user options h = ground arith

  pub assign_checks_assigned :
      (provider_id : ℕ) (user : JwtUser) (options : AssignOptions)
      → assign_checks env provider_id user options r ≡ ok (write r')
      → r'.status ≡ assigned
  unfolding assign_checks assert_assignment_allowed
  assign_checks_assigned provider_id user options h = ground arith

  pub reject_update-Unassigns :
      (reason : String) (user_id : ℕ)
      → reject_update env reason user_id r ≡ ok (write r')
      → (r.status ≡ assigned) × (r'.status ≡ pending) × (r'.assigned_provider_id ≡ none)
  unfolding reject_update
  reject_update-Unassigns reason user_id h = ground arith

  pub accept_checks_move :
      (organization : ℕ) (resolution : Option Resolution)
      → accept_checks env organization resolution r ≡ ok (write r')
      → (r'.status ≡ pending) × ((r.status ≡ org_review) ⊎ (r.status ≡ triage))
  unfolding accept_checks is_legacy_matched_review
  accept_checks_move organization resolution h = ground arith

  pub reject_report_checks_move :
      (exists : ℕ → Bool) (reason : String) (suggested : Option ℕ) (organization : ℕ)
      (resolution : Option Resolution)
      → reject_report_checks env exists reason suggested organization resolution r ≡ ok (write r')
      → (r'.status ≡ triage) × ((r.status ≡ org_review) ⊎ (r.status ≡ triage))
  unfolding reject_report_checks is_legacy_matched_review
  reject_report_checks_move exists reason suggested organization resolution h = ground arith

  pub status_checks_edge :
      (sources : PolicySources) (hours id : ℕ) (dto : StatusRequest) (user : JwtUser) (user_id : ℕ)
      → status_checks env sources hours id dto user user_id r ≡ ok (write r')
      → (can_transition r.status r'.status ≡ true)
        × (r'.status ≢ assigned)
        × (r'.status ≡ dto.status)
  unfolding status_checks assert_status_transition_allowed completed_report
  status_checks_edge sources hours id dto user user_id h = ground arith

  pub confirm_checks_move :
      (rating : ℕ) (feedback : Option String) (user : JwtUser) (user_id : ℕ)
      → confirm_checks env rating feedback user user_id r ≡ ok (write r')
      → (r.status ≡ completed_by_provider)
        × ((r'.status ≡ completed_by_provider) ⊎ (r'.status ≡ closed))
  unfolding citizen_confirmed
  confirm_checks_move rating feedback user user_id h =
      let (reviewed, _, open_, same) =
        confirm_checks_written env r r' rating feedback user user_id h in
      ground
        (arith, (citizen_review_lem user_id r reviewed).1, (blockers-IsOpenToDecision r open_).0)

  pub citizen_rework_checks_move :
      (reason : Option String) (user_id : ℕ)
      → citizen_rework_checks env reason user_id r ≡ ok (write r')
      → (r.status ≡ completed_by_provider) × (r'.status ≡ assigned)
  unfolding citizen_rework_checks citizen_review_checks assert_citizen_can_request_rework
  citizen_rework_checks_move reason user_id h = ground arith

  pub verify_checks_move :
      (reason : Option String) (user : JwtUser) (organization : ℕ)
      → verify_checks env reason user organization r ≡ ok (write r')
      → (r.status ≡ completed_by_provider)
        × ((r'.status ≡ completed_by_provider) ⊎ (r'.status ≡ closed))
  unfolding organization_verified
  verify_checks_move reason user organization h =
      let (reviewed, _, open_, _, written) =
        verify_checks_written env r r' reason user organization h in
      ground (
        arith,
        written.2,
        (organization_review_lem organization r reviewed).1,
        (blockers-IsOpenToDecision r open_).0,
      )

  pub organization_rework_checks_move :
      (reason : Option String) (user : JwtUser) (organization : ℕ)
      → organization_rework_checks env reason user organization r ≡ ok (write r')
      → (r.status ≡ completed_by_provider) × (r'.status ≡ assigned)
  unfolding organization_rework_checks organization_review_checks
      assert_organization_can_request_rework
  organization_rework_checks_move reason user organization h = ground arith

  pub resolve_checks_move :
      (reason : Option String) (user : JwtUser)
      → resolve_checks env reason user r ≡ ok (write r')
      → (r.status ≢ closed) × (r'.status ≡ closed)
  unfolding resolve_checks
  resolve_checks_move reason user h = ground arith

  pub return_for_rework_checks_move :
      (reason : Option String)
      → return_for_rework_checks reason r ≡ ok (write r')
      → (r.status ≢ closed) × (r'.status ≡ assigned)
  unfolding return_for_rework_checks
  return_for_rework_checks_move reason h = ground arith

  pub place_hold_checks_stays :
      (reason : Option String) → place_hold_checks reason r ≡ ok (write r') → r'.status ≡ r.status
  unfolding place_hold_checks
  place_hold_checks_stays reason h = ground arith

  pub remove_hold_checks_stays :
      (reason : Option String)
      → remove_hold_checks env reason r ≡ ok (write r')
      → r'.status ≡ r.status
  unfolding remove_hold_checks
  remove_hold_checks_stays reason h = ground arith

  pub reopen_checks_move :
      (reason : Option String)
      → reopen_checks env reason r ≡ ok (write r')
      → (r.status ≡ closed) × (r'.status ≡ completed_by_provider)
  unfolding reopen_checks
  reopen_checks_move reason h = ground arith

  pub override_checks_stays :
      (policy : CompletionPolicy) (reason : Option String)
      → override_checks env policy reason r ≡ ok (write r')
      → r'.status ≡ r.status
  unfolding override_checks
  override_checks_stays policy reason h = ground arith

  pub window_closed_move :
      (user : JwtUser) (user_id : ℕ)
      → skip_reason env r ≡ none
      → (r.status ≡ completed_by_provider) × ((window_closed env user user_id r).status ≡ closed)
  unfolding window_closed
  window_closed_move user user_id h = (((skip_reason_iff_IsDue env r).0 h).0, refl)
