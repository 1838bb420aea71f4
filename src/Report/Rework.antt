-- ===== src/Report/Rework.antt =====
-- What becomes of a report that is returned for rework, and of one that is reopened.
use fixzone_enterprise_api.Base.{
  ℕ, ◌<◌, String, ◌≡◌, ap, ◌∙◌, ◌≢◌, true, false, Option, some, arith, is_id,
}
use fixzone_enterprise_api.Base.Result.{ok, err, conflict}
use fixzone_enterprise_api.Report.Types.{ReportStatus, assigned, completed_by_provider, confirmed}
use fixzone_enterprise_api.Report.Model.{Report, JwtUser, Env}
use fixzone_enterprise_api.Report.Effects.{keep, write}
use fixzone_enterprise_api.Report.Assignment.{AssignOptions, assign_checks, cancel_checks}
use fixzone_enterprise_api.Report.Expiry.{Scope, is_overdue}
use fixzone_enterprise_api.Report.Completion.{
  confirm_checks, citizen_review_checks, citizen_rework_checks, assert_citizen_can_request_rework,
}
use fixzone_enterprise_api.Report.Verification.{organization_rework_checks}
use fixzone_enterprise_api.Report.Governance.{return_for_rework_checks, reopen_checks}
use fixzone_enterprise_api.Report.Assignment.Laws.{assign_checks-MayAssign}

-- The three calls that send a report back for rework.
pub data ReturnedForRework (env : Env) (user : JwtUser) (r r' : Report) : Type 0 where
  by_citizen :
      (reason : Option String) (user_id : ℕ)
      → citizen_rework_checks env reason user_id r ≡ ok (write r')
      → ReturnedForRework env user r r'
  by_organization :
      (reason : Option String) (organization : ℕ)
      → organization_rework_checks env reason user organization r ≡ ok (write r')
      → ReturnedForRework env user r r'
  by_platform :
      (reason : Option String)
      → return_for_rework_checks reason r ≡ ok (write r')
      → ReturnedForRework env user r r'

-- The report is assigned to the provider it had, with the deadline of its first assignment.
abbrev KeepsAssignment : Report → Report → Type 0
KeepsAssignment r r' =
    (r'.status ≡ assigned)
    × (r'.assigned_provider_id ≡ r.assigned_provider_id)
    × (r'.assignment_deadline_at ≡ r.assignment_deadline_at)

citizen_rework_keeps :
    (env : Env) (reason : Option String) (user_id : ℕ) (r r' : Report)
    → citizen_rework_checks env reason user_id r ≡ ok (write r')
    → KeepsAssignment r r'
unfolding citizen_rework_checks
citizen_rework_keeps env reason user_id r r' h = ground arith

organization_rework_keeps :
    (env : Env) (reason : Option String) (user : JwtUser) (organization : ℕ) (r r' : Report)
    → organization_rework_checks env reason user organization r ≡ ok (write r')
    → KeepsAssignment r r'
unfolding organization_rework_checks
organization_rework_keeps env reason user organization r r' h = ground arith

return_for_rework_keeps :
    (reason : Option String) (r r' : Report)
    → return_for_rework_checks reason r ≡ ok (write r')
    → KeepsAssignment r r'
unfolding return_for_rework_checks
return_for_rework_keeps reason r r' h = ground arith

returned_keeps :
    {env : Env} {user : JwtUser} {r r' : Report}
    → ReturnedForRework env user r r'
    → KeepsAssignment r r'
returned_keeps (ReturnedForRework.by_citizen reason user_id h) =
    citizen_rework_keeps _ reason user_id _ _ h
returned_keeps (ReturnedForRework.by_organization reason organization h) =
    organization_rework_keeps _ reason _ organization _ _ h
returned_keeps (ReturnedForRework.by_platform reason h) = return_for_rework_keeps reason _ _ h

-- A report that is returned for rework is assigned to the provider it had, and is still due by the
-- first assignment's deadline: once that has passed, it is overdue for a sweep over all providers and
-- organizations.
pub returned_is_overdue :
    (env later : Env) (user : JwtUser) (r r' : Report) (deadline : ℕ) (scope : Scope)
    → ReturnedForRework env user r r'
    → r.assignment_deadline_at ≡ some deadline
    → deadline < later.now
    → is_id scope.provider_id ≡ false
    → is_id scope.organization_id ≡ false
    → (r'.status ≡ assigned)
      × (r'.assigned_provider_id ≡ r.assigned_provider_id)
      × (is_overdue later scope r' ≡ true)
returned_is_overdue env later user r r' deadline scope h d l p o =
    let (s, a, e) = returned_keeps h in (s, a, ground arith)

assigned_cannot_be_assigned :
    (env : Env) (provider_id : ℕ) (user : JwtUser) (options : AssignOptions) (r r' : Report)
    → r.status ≡ assigned
    → assign_checks env provider_id user options r ≢ ok (write r')
assigned_cannot_be_assigned env provider_id user options r r' s h =
    let (m, _) = assign_checks-MayAssign env provider_id user options r r' h in
    let (pending_now, _, _, _) = m in two_statuses r s pending_now
  where
    two_statuses : (r : Report) → r.status ≡ assigned → r.status ≢ ReportStatus.pending
    two_statuses r s p = ground arith

assigned_cannot_be_cancelled :
    (env : Env) (reason : Option String) (user : JwtUser) (r r' : Report)
    → is_id r.assigned_provider_id ≡ false
    → cancel_checks env reason user r ≢ ok (write r')
unfolding cancel_checks
assigned_cannot_be_cancelled env reason user r r' n h = ground arith

-- A report without a provider that the platform returns for rework is assigned to nobody, and
-- the checks of assigning a provider and of cancelling refuse it whoever calls.
pub returned_without_provider :
    (env : Env) (reason : Option String) (r r' : Report)
    → return_for_rework_checks reason r ≡ ok (write r')
    → is_id r.assigned_provider_id ≡ false
    → (r'.status ≡ assigned)
      × (is_id r'.assigned_provider_id ≡ false)
      × ((provider_id : ℕ) (user : JwtUser) (options : AssignOptions) (next : Report)
          → assign_checks env provider_id user options r' ≢ ok (write next))
      × ((why : Option String) (user : JwtUser) (next : Report)
          → cancel_checks env why user r' ≢ ok (write next))
returned_without_provider env reason r r' h n =
    let (s, a, _) = return_for_rework_keeps reason r r' h in
    let none_there : is_id r'.assigned_provider_id ≡ false = ap is_id a ∙ n in
    (
      s,
      none_there,
      λ provider_id user options next.
          assigned_cannot_be_assigned env provider_id user options r' next s,
      λ why user next. assigned_cannot_be_cancelled env why user r' next none_there,
    )

reopened_keeps :
    (env : Env) (reason : Option String) (r r' : Report)
    → reopen_checks env reason r ≡ ok (write r')
    → (r'.status ≡ completed_by_provider)
      × (r'.citizen_id ≡ r.citizen_id)
      × (r'.citizen_completion_decision ≡ r.citizen_completion_decision)
unfolding reopen_checks
reopened_keeps env reason r r' h = ground arith

confirm_is_kept :
    (env : Env) (rating : ℕ) (feedback : Option String) (user : JwtUser) (r : Report)
    → r.status ≡ completed_by_provider
    → r.citizen_completion_decision ≡ some confirmed
    → confirm_checks env rating feedback user r.citizen_id r ≡ ok keep
unfolding confirm_checks citizen_review_checks
confirm_is_kept env rating feedback user r s d = ground arith

rework_is_refused :
    (env : Env) (reason : Option String) (r : Report)
    → r.status ≡ completed_by_provider
    → r.citizen_completion_decision ≡ some confirmed
    → citizen_rework_checks env reason r.citizen_id r
      ≡ err (conflict "Citizen completion decision has already been submitted for this attempt")
unfolding citizen_rework_checks citizen_review_checks assert_citizen_can_request_rework
rework_is_refused env reason r s d = ground arith

-- A report that its citizen had confirmed, and that the platform reopens, is open to no decision of
-- the citizen: the citizen's confirmation succeeds and changes nothing, and a request for rework is
-- refused.
pub reopened_is_stuck :
    (env later : Env) (reason : Option String) (user : JwtUser) (r r' : Report)
    → reopen_checks env reason r ≡ ok (write r')
    → r.citizen_completion_decision ≡ some confirmed
    → (r'.status ≡ completed_by_provider)
      × ((rating : ℕ) (feedback : Option String)
          → confirm_checks later rating feedback user r'.citizen_id r' ≡ ok keep)
      × ((why : Option String)
          → citizen_rework_checks later why r'.citizen_id r'
            ≡ err (
                conflict "Citizen completion decision has already been submitted for this attempt"))
reopened_is_stuck env later reason user r r' h c =
    let (s, _, d) = reopened_keeps env reason r r' h in
    (
      s,
      λ rating feedback. confirm_is_kept later rating feedback user r' s (d ∙ c),
      λ why. rework_is_refused later why r' s (d ∙ c),
    )
