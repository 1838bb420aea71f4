-- ===== src/Report/Policy.antt =====
-- The completion policies of src/report/report.service.ts: which decisions close a report, and what
-- the review waits for.
pub mod Laws
use fixzone_enterprise_api.Base.{
  ◌≡◌, ◌↔◌, Bool, true, false, ◌&&◌, ◌||◌, Option, none, some, if◌then◌else◌,
}
use fixzone_enterprise_api.Report.Types.{
  CompletionPolicy, citizen_confirmation_required, organization_confirmation_required,
  both_required, citizen_or_organization, admin_resolution_required, auto_close_after_review_window,
  CompletionDecision, confirmed, verified, rework_requested, disputed, escalated, ReviewState,
  in_dispute, in_rework, awaiting_organization_verification, awaiting_citizen_review,
  awaiting_admin_resolution, awaiting_review_window, awaiting_both, is_decision, same_policy,
}

-- `reviewStateFor`
unfoldable pub review_state_for :
    CompletionPolicy → Option CompletionDecision → Option CompletionDecision → ReviewState
review_state_for policy citizen_decision organization_decision =
    if is_decision citizen_decision disputed || is_decision organization_decision escalated
    then in_dispute
    else if is_decision citizen_decision rework_requested
        || is_decision organization_decision rework_requested
    then in_rework
    else if same_policy policy both_required && is_decision citizen_decision confirmed
    then awaiting_organization_verification
    else if same_policy policy both_required && is_decision organization_decision verified
    then awaiting_citizen_review
    else if same_policy policy organization_confirmation_required
    then awaiting_organization_verification
    else if same_policy policy admin_resolution_required
    then awaiting_admin_resolution
    else if same_policy policy auto_close_after_review_window
    then awaiting_review_window
    else if same_policy policy both_required
    then awaiting_both
    else awaiting_citizen_review

-- The `switch` of `isCompletionSatisfied`.
satisfied_by : CompletionPolicy → Bool → Bool → Bool
satisfied_by citizen_confirmation_required citizen organization = citizen
satisfied_by organization_confirmation_required citizen organization = organization
satisfied_by both_required citizen organization = citizen && organization
satisfied_by citizen_or_organization citizen organization = citizen || organization
satisfied_by auto_close_after_review_window citizen organization = citizen || organization
satisfied_by admin_resolution_required citizen organization = false

-- `isCompletionSatisfied`
unfoldable pub is_completion_satisfied :
    CompletionPolicy → Option CompletionDecision → Option CompletionDecision → Bool
unfolding satisfied_by
is_completion_satisfied policy citizen_decision organization_decision =
    satisfied_by policy (is_decision citizen_decision confirmed)
      (is_decision organization_decision verified)
