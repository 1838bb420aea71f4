-- ===== src/Report/Examples/Decisions.antt =====
-- The theorems on decisions, assignment and rework, applied to the small town.
use fixzone_enterprise_api.Base.{
  ℕ, ◌≡◌, refl, ◌↔◌, String, true, false, Option, none, some, arith, find, trim, trimmed,
}
use fixzone_enterprise_api.Base.Result.{ok, err, conflict}
use fixzone_enterprise_api.Report.Types.{
  pending, assigned, completed_by_provider, closed, both_required, confirmed,
  awaiting_organization_verification, in_rework, escalated, is_provider, is_super_admin,
}
use fixzone_enterprise_api.Report.Workflow.{can_transition}
use fixzone_enterprise_api.Report.Policy.{review_state_for}
use fixzone_enterprise_api.Report.Policy.Laws.{Closes}
use fixzone_enterprise_api.Report.Model.{Report, get_user_id, policy_for_report}
use fixzone_enterprise_api.Report.Effects.{keep, write}
use fixzone_enterprise_api.Report.Assignment.{
  no_options, assign_checks, assigned_to, active_provider, assert_assignment_allowed, cancel_checks,
}
use fixzone_enterprise_api.Report.Assignment.Laws.{
  MayAssign, MayCancel, assign_checks-MayAssign, cancel_checks_iff,
}
use fixzone_enterprise_api.Report.Intake.{required_reason}
use fixzone_enterprise_api.Report.Expiry.{Scope, is_overdue}
use fixzone_enterprise_api.Report.Completion.{
  confirm_checks, citizen_confirmed, citizen_review_checks, assert_no_active_completion_blockers,
  citizen_rework_checks, organization_review_checks,
}
use fixzone_enterprise_api.Report.Verification.{verify_checks, organization_verified}
use fixzone_enterprise_api.Report.Governance.{return_for_rework_checks, reopen_checks}
use fixzone_enterprise_api.Report.Decisions.Outcome.{confirm_checks-Closes}
use fixzone_enterprise_api.Report.Decisions.Both.{both_required_closes}
use fixzone_enterprise_api.Report.Rework.{ReturnedForRework, returned_is_overdue, reopened_is_stuck}
use fixzone_enterprise_api.Report.Examples.{ama, operator, platform, town, pothole, fixed}

abbrev confirmed_fix : Report
confirmed_fix = citizen_confirmed town 5 none ama 1 fixed

confirming_fixed : confirm_checks town 5 none ama 1 fixed ≡ ok (write confirmed_fix)
unfolding confirm_checks citizen_review_checks assert_no_active_completion_blockers
confirming_fixed = refl

confirm_checks-Closes_example :
    (confirmed_fix.status ≡ closed)
    ↔ Closes (policy_for_report town fixed) (some confirmed) fixed.organization_completion_decision
confirm_checks-Closes_example =
    confirm_checks-Closes town ama fixed confirmed_fix 5 none 1 confirming_fixed

abbrev verified_fix : Report
verified_fix = organization_verified town none operator 3 fixed

verifying_fixed : verify_checks town none operator 7 fixed ≡ ok (write verified_fix)
unfolding verify_checks organization_review_checks assert_no_active_completion_blockers get_user_id
    policy_for_report
verifying_fixed = refl

operator_id : get_user_id operator ≡ ok 3
unfolding get_user_id
operator_id = refl

fixed_policy : policy_for_report town fixed ≡ both_required
unfolding policy_for_report
fixed_policy = refl

both_required_closes_example :
    ((r₁ : Report) × (r₂ : Report) × (confirm_checks town 5 none ama 1 fixed ≡ ok (write r₁))
      × (r₁.status ≡ completed_by_provider)
      × (verify_checks town none operator 7 r₁ ≡ ok (write r₂))
      × (r₂.status ≡ closed))
    × ((r₁ : Report) × (r₂ : Report) × (verify_checks town none operator 7 fixed ≡ ok (write r₁))
        × (r₁.status ≡ completed_by_provider)
        × (confirm_checks town 5 none ama 1 r₁ ≡ ok (write r₂))
        × (r₂.status ≡ closed))
both_required_closes_example =
    both_required_closes town 5 none none ama operator 3 fixed operator_id
      (refl, (ground arith, refl, refl, refl), fixed_policy, refl, refl)

assigning :
    assign_checks town 2 operator no_options (pothole pending none)
    ≡ ok (write (assigned_to town 2 (pothole pending none)))
unfolding assign_checks active_provider assert_assignment_allowed is_provider is_super_admin find
assigning = refl

assign_checks-MayAssign_example :
    MayAssign town 2 operator no_options (pothole pending none)
    × (assigned_to town 2 (pothole pending none) ≡ assigned_to town 2 (pothole pending none))
assign_checks-MayAssign_example =
    assign_checks-MayAssign town 2 operator no_options (pothole pending none)
      (assigned_to town 2 (pothole pending none)) assigning

abbrev closed_fix : Report
closed_fix = pothole closed (some 2)

cancel_checks_iff_example :
    (((r' : Report) × (cancel_checks town none operator closed_fix ≡ ok (write r'))
        × (r'.status ≡ pending)
        × (r'.assigned_provider_id ≡ none))
      ↔ MayCancel operator closed_fix)
    × (can_transition closed pending ≡ false)
cancel_checks_iff_example = cancel_checks_iff town none operator closed_fix

abbrev everywhere : Scope
everywhere = record { provider_id = none; organization_id = none; actor = platform }

abbrev returned : Option ℕ → Report
returned provider_id = record (pothole completed_by_provider provider_id) {
  status = assigned;
  completion_review_state = some in_rework;
  organization_completion_decision = some escalated;
  organization_completion_reason = some "Not done";
  completion_rejection_reason = some "Not done";
  completion_dispute_reason = some "Not done";
}

returning :
    (provider_id : Option ℕ)
    → return_for_rework_checks (some "Not done") (pothole completed_by_provider provider_id)
      ≡ ok (write (returned provider_id))
unfolding return_for_rework_checks required_reason trimmed trim
returning provider_id = refl

returned_is_overdue_example :
    ((returned (some 2)).status ≡ assigned)
    × ((returned (some 2)).assigned_provider_id ≡ fixed.assigned_provider_id)
    × (is_overdue town everywhere (returned (some 2)) ≡ true)
returned_is_overdue_example =
    returned_is_overdue town town platform fixed (returned (some 2)) 900 everywhere
      (ReturnedForRework.by_platform (some "Not done") (returning (some 2))) refl (omega arith) refl
      refl

abbrev agreed : Report
agreed = record closed_fix { citizen_completion_decision = some confirmed }

abbrev reopened : Report
reopened = record agreed {
  status = completed_by_provider;
  completion_review_state = some awaiting_organization_verification;
}

reopening : reopen_checks town (some "Again") agreed ≡ ok (write reopened)
unfolding reopen_checks required_reason trimmed trim review_state_for policy_for_report
reopening = refl

reopened_is_stuck_example :
    (reopened.status ≡ completed_by_provider)
    × ((rating : ℕ) (feedback : Option String)
        → confirm_checks town rating feedback ama 1 reopened ≡ ok keep)
    × ((why : Option String)
        → citizen_rework_checks town why 1 reopened
          ≡ err
              (conflict "Citizen completion decision has already been submitted for this attempt"))
reopened_is_stuck_example =
    reopened_is_stuck town town (some "Again") ama agreed reopened reopening refl
