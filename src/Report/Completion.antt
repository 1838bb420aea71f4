-- ===== src/Report/Completion.antt =====
-- The decisions of the citizen and of the organization on a completed report:
-- `confirmCitizenCompletion`, `rejectCitizenCompletion`, `verifyOrganizationCompletion` and
-- `requestOrganizationCompletionRework` (src/report/report.service.ts).
use fixzone_enterprise_api.Base.{
  ℕ, String, Bool, not, ◌&&◌, ◌||◌, Option, none, some, List, [], ◌∷◌, ◌++◌, ◌==◌, is_id, is_text,
  get_or, trimmed, if◌then◌else◌,
}
use fixzone_enterprise_api.Base.Result.{Result, ok, forbidden, conflict, ◌>>=◌, ◌>>◌, throw_if}
use fixzone_enterprise_api.Report.Types.{
  assigned, completed_by_provider, closed, undecided, confirmed, verified, rework_requested,
  disputed, escalated, in_dispute, in_rework, review_closed, same_status, is_decision, is_review,
  is_citizen,
}
use fixzone_enterprise_api.Report.Policy.{review_state_for, is_completion_satisfied}
use fixzone_enterprise_api.Report.Model.{Report, JwtUser, Env, get_user_id, policy_for_report}
use fixzone_enterprise_api.Report.Effects.{
  Effect, Change, keep, write, Action, with_report, and_then, lift, find_report,
  notify_organization_operators, notification, activity, audited, mention,
}
use fixzone_enterprise_api.Report.Intake.{required_reason}
use fixzone_enterprise_api.Report.Status.{notify_status_change}

-- `getCitizenReviewReport`, on the report that was found.
unfoldable pub citizen_review_checks : ℕ → Report → Result (Unit {0})
citizen_review_checks user_id r = do
  throw_if (not (r.citizen_id == user_id)) (forbidden "Not your report")
  throw_if
      (not (same_status r.status completed_by_provider)
        && not (same_status r.status closed && is_decision r.citizen_completion_decision confirmed))
      (forbidden "Report is not awaiting citizen review")

-- `getOrganizationCompletionReviewReport` without its option, on the report that was found.
unfoldable pub organization_review_checks : ℕ → Report → Result (Unit {0})
organization_review_checks organization r = do
  throw_if (not (r.organization_id == organization))
      (forbidden "Organization cannot verify this report")
  throw_if
      (not (same_status r.status completed_by_provider)
        && not (
            same_status r.status closed && is_decision r.organization_completion_decision verified))
      (forbidden "Report is not awaiting completion verification")

-- The two tests that the blockers and the deadline processor share.
abbrev pub is_disputed : Report → Bool
is_disputed r =
    is_review r.completion_review_state in_dispute
    || is_decision r.citizen_completion_decision disputed
    || is_decision r.organization_completion_decision escalated

abbrev pub is_in_rework : Report → Bool
is_in_rework r =
    is_review r.completion_review_state in_rework
    || is_decision r.citizen_completion_decision rework_requested
    || is_decision r.organization_completion_decision rework_requested

-- `assertNoActiveCompletionBlockers`
unfoldable pub assert_no_active_completion_blockers : Report → Result (Unit {0})
assert_no_active_completion_blockers r = do
  throw_if (same_status r.status closed) (conflict "Report is already closed")
  throw_if (is_disputed r) (conflict "Completion is under dispute")
  throw_if (is_text r.completion_governance_hold_reason)
      (conflict "Completion is on governance hold")
  throw_if (is_in_rework r) (conflict "Completion rework is required")

-- The columns that a decision which closes the report fills, and that any other empties.
abbrev pub finalized : Env → Bool → JwtUser → ℕ → String → Report → Report
finalized env closes user user_id reason r = record r {
  status = if closes then closed else completed_by_provider;
  completion_finalized_at = if closes then some env.now else none;
  completion_finalized_by_id = if closes then some user_id else none;
  completion_finalized_by_role = if closes then some user.role else none;
  completion_closure_reason = if closes then some reason else none;
}

-- The update of `confirmCitizenCompletion`.
unfoldable pub citizen_confirmed : Env → ℕ → Option String → JwtUser → ℕ → Report → Report
citizen_confirmed env rating feedback user user_id r =
    let policy = policy_for_report env r in
    let organization_decision = some (get_or r.organization_completion_decision undecided) in
    let closes = is_completion_satisfied policy (some confirmed) organization_decision in
    let decided = record r {
      citizen_rating = some rating;
      citizen_feedback = trimmed feedback;
      citizen_completion_decision = some confirmed;
      citizen_completion_decided_at = some env.now;
      completion_rejection_reason = none;
      completion_review_state = some (
          if closes
          then review_closed
          else review_state_for policy (some confirmed) organization_decision);
    } in
    finalized env closes user user_id "Citizen confirmation satisfied completion policy." decided

-- The checks and the update of `confirmCitizenCompletion`.
unfoldable pub confirm_checks : Env → ℕ → Option String → JwtUser → ℕ → Report → Result Change
confirm_checks env rating feedback user user_id r = do
  citizen_review_checks user_id r
  if is_decision r.citizen_completion_decision confirmed then ok keep else do
    assert_no_active_completion_blockers r
    ok (write (citizen_confirmed env rating feedback user user_id r))

-- `notifyAuthoritativeCompletionClosure`
unfoldable pub notify_completion_closure : ℕ → Report → List Effect
notify_completion_closure id r =
    notify_status_change id r.status r
    ++ (if is_id r.assigned_provider_id
        then notification (get_or r.assigned_provider_id 0) id "completion_confirmed"
            "Completion confirmed"
            (mention "Completion for " r.title " has been confirmed and the report is closed.")
          ∷ []
        else [])

confirm_effects : Env → ℕ → Option String → JwtUser → Report → Report → List Effect
confirm_effects env id feedback user r r' =
    (if same_status r'.status closed
      then notify_completion_closure id r'
      else notify_organization_operators env r'.organization_id id "citizen_completion_confirmed"
          "Citizen confirmed completion"
          (mention "Citizen confirmed " r'.title ". Organization verification is still required."))
    ++ audited "Citizen Confirmed Completion" user id none
      ∷ activity id user "CITIZEN_CONFIRMED_COMPLETION" r'.organization_id (r.status, r'.status)
          (r'.assigned_provider_id, none, trimmed feedback)
      ∷ []

-- `workflowOrchestrator.citizenConfirmedCompletion`, where this call closed the report. What it
-- throws comes after the update.
confirm_finish : Env → Report → Report → Action Report
confirm_finish env r r' =
    and_then
      (lift (
        if same_status r'.status closed && same_status r.status completed_by_provider
        then env.maintenance_answer
        else ok tt))
      (λ _. lift (ok r'))

-- `confirmCitizenCompletion`
unfoldable pub confirm_citizen_completion : Env → ℕ → ℕ → Option String → JwtUser → Action Report
unfolding confirm_effects confirm_finish
confirm_citizen_completion env id rating feedback user =
    and_then (lift (get_user_id user)) (λ user_id.
      and_then
        (lift
          (throw_if (not (is_citizen user.role)) (forbidden "Only citizens can review completion")))
        (λ _. and_then (find_report id) (λ r.
          and_then
            (with_report id (confirm_checks env rating feedback user user_id)
              (confirm_effects env id feedback user))
            (confirm_finish env r))))

-- `assertCitizenCanRequestCompletionRework`
unfoldable pub assert_citizen_can_request_rework : Report → Result (Unit {0})
assert_citizen_can_request_rework r = do
  throw_if (is_decision r.citizen_completion_decision confirmed)
      (conflict "Citizen completion decision has already been submitted for this attempt")
  throw_if (is_decision r.citizen_completion_decision rework_requested)
      (conflict "Citizen completion rework has already been requested for this attempt")

-- The checks and the update of `rejectCitizenCompletion`.
unfoldable pub citizen_rework_checks : Env → Option String → ℕ → Report → Result Change
citizen_rework_checks env reason user_id r = do
  citizen_review_checks user_id r
  assert_citizen_can_request_rework r
  why ← required_reason reason "Reason is required"
  ok (
      write (record r {
        status = assigned;
        completion_rejection_reason = some why;
        citizen_completion_decision = some rework_requested;
        citizen_completion_decided_at = some env.now;
        completion_review_state = some in_rework;
        completion_dispute_reason = some why;
      }))

citizen_rework_effects : Env → ℕ → Option String → JwtUser → Report → Report → List Effect
citizen_rework_effects env id reason user r r' =
    notify_status_change id r'.status r'
    ++ audited "Citizen Requested Completion Review" user id none
      ∷ activity id user "CITIZEN_MARKED_WORK_INCOMPLETE" r'.organization_id (r.status, r'.status)
          (r'.assigned_provider_id, trimmed reason, none)
      ∷ notify_organization_operators env r'.organization_id id "completion_review_requested"
          "Citizen requested review" (mention "Citizen marked " r'.title " as still incomplete.")

-- `rejectCitizenCompletion`; the orchestrator is called last.
unfoldable pub reject_citizen_completion : Env → ℕ → Option String → JwtUser → Action Report
unfolding citizen_rework_effects
reject_citizen_completion env id reason user = and_then (lift (get_user_id user)) (λ user_id.
    and_then
      (lift
        (throw_if (not (is_citizen user.role)) (forbidden "Only citizens can review completion")))
      (λ _.
        and_then
          (with_report id (citizen_rework_checks env reason user_id)
            (citizen_rework_effects env id reason user))
          (λ r'. and_then (lift env.maintenance_answer) (λ _. lift (ok r')))))
