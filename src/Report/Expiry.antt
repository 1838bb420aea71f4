-- ===== src/Report/Expiry.antt =====
-- Assignments that were not accepted in time: `expireOverdueAssignments`,
-- `assertAssignmentStillAcceptable`, `processOverdueAssignments` and `rejectAssignment`
-- (src/report/report.service.ts).
pub mod Laws
use fixzone_enterprise_api.Base.{
  ℕ, String, Bool, true, false, not, ◌&&◌, ◌||◌, Option, none, some, List, [], ◌∷◌, ◌++◌, map, ◌==◌,
  ltb, same_id, is_id, get_or, any, str_append, trim, find_many, find, put, Table, if◌then◌else◌,
}
use fixzone_enterprise_api.Base.Result.{Result, ok, err, forbidden, conflict, ◌>>=◌, ◌>>◌, throw_if}
use fixzone_enterprise_api.Report.Types.{
  ReportStatus, pending, assigned, rejected, timed_out, dispatch_officer, same_status,
  is_super_admin, is_provider, is_suspended,
}
use fixzone_enterprise_api.Report.Model.{Report, JwtUser, User, Env, get_user_id}
use fixzone_enterprise_api.Report.Effects.{
  World, Effect, perform_all, Change, keep, write, Action, with_report, and_then, lift, find_report,
  notify_organization_operators, notification, activity, audited, mention,
}
use fixzone_enterprise_api.Report.Assignment.{unassigned, may_dispatch}

-- The filter of `expireOverdueAssignments`: an empty identifier filters nothing.
pub record Scope : Type 0 where
  pub provider_id : Option ℕ
  pub organization_id : Option ℕ
  pub actor : JwtUser

-- The `where` of the query.
abbrev pub is_overdue : Env → Scope → Report → Bool
is_overdue env scope r =
    same_status r.status assigned
    && elim r.assignment_deadline_at [ none ↦ false | some deadline ↦ ltb deadline env.now ]
    && (not (is_id scope.provider_id) || same_id r.assigned_provider_id scope.provider_id)
    && (not (is_id scope.organization_id) || same_id (some r.organization_id) scope.organization_id)

abbrev pub expired : Env → Report → Report
expired env r =
    unassigned env timed_out "Assignment acceptance window expired" r.assigned_provider_id r

expiry_effects : Env → JwtUser → ℕ → Report → List Effect
expiry_effects env actor id r =
    activity id actor "ASSIGNMENT_TIMED_OUT" r.organization_id (assigned, pending)
      (r.assigned_provider_id, some "Assignment acceptance window expired", none)
    ∷ (notify_organization_operators env r.organization_id id "assignment_timeout"
          "Assignment timed out"
          (mention "Assignment for " r.title " timed out and returned to dispatch.")
        ++ ((if is_id r.assigned_provider_id
              then notification (get_or r.assigned_provider_id 0) id "assignment_timeout"
                  "Assignment timed out"
                  (mention "Your assignment for " r.title " expired and was returned to dispatch.")
                ∷ []
              else [])
            ++ (notification r.citizen_id id "assignment_timeout" "Assignment update" (
                  mention "The provider assignment for " r.title
                    " timed out. Dispatch will reassign it.")
                ∷ audited "Assignment Timed Out" actor id (some r.organization_id)
                ∷ [])))

-- One round of the loop.
expire_one : Env → JwtUser → ℕ → Report → World → World
expire_one env actor id r w =
    perform_all (expiry_effects env actor id r)
      (record w { reports = put id (expired env r) w.reports })

expire_each : Env → JwtUser → Table Report → World → World
expire_each env actor [] w = w
expire_each env actor ((id, r) ∷ rows) w = expire_each env actor rows (expire_one env actor id r w)

-- `expireOverdueAssignments`: the rows that were overdue, and the tables after the loop.
unfoldable pub expire_overdue_assignments : Env → Scope → World → Table Report × World
unfolding expire_each expire_one expiry_effects
expire_overdue_assignments env scope w =
    let rows = find_many (is_overdue env scope) w.reports in
    (rows, expire_each env scope.actor rows w)

-- `processOverdueAssignments`: a super administrator's run covers every organization.
unfoldable pub process_overdue_assignments : Env → JwtUser → World → Result (Table Report) × World
process_overdue_assignments env user w =
    elim (throw_if (not (may_dispatch user)) (forbidden "Not allowed")) [
      | err e ↦ (err e, w)
      | ok _ ↦
          let (rows, w') =
            expire_overdue_assignments env
              (record {
                provider_id = none;
                organization_id = if is_super_admin user.role then none else user.organization_id;
                actor = user;
              })
              w in
          (ok rows, w')
    ]

-- The early return of `assertAssignmentStillAcceptable`, negated.
abbrev pub acceptance_expired : Env → ℕ → Report → Bool
acceptance_expired env user_id r =
    same_status r.status assigned
    && same_id r.assigned_provider_id (some user_id)
    && elim r.assignment_deadline_at [ none ↦ false | some deadline ↦ ltb deadline env.now ]

-- `assertAssignmentStillAcceptable`: past the deadline it expires what the provider has overdue, and
-- throws.
unfoldable pub assert_assignment_still_acceptable : Env → Report → JwtUser → ℕ → Action (Unit {0})
assert_assignment_still_acceptable env r user user_id w =
    if acceptance_expired env user_id r
    then (
      err (conflict "Assignment acceptance window expired"),
      (expire_overdue_assignments env
          (record { provider_id = some user_id; organization_id = none; actor = user }) w).1,
    )
    else (ok tt, w)

-- `assertActiveProvider`
unfoldable pub assert_active_provider : Env → ℕ → Result (Unit {0})
assert_active_provider env user_id = elim (find user_id env.users) [
  | none ↦ err (forbidden "Provider account not found")
  | some u ↦ do
    throw_if (not (is_provider u.role)) (forbidden "Provider account not found")
    throw_if (is_suspended u.account_status) (forbidden "Provider account is suspended")
]

-- `authorizedProviderOrganizationIds` and the test of membership in it.
abbrev links_of : Env → ℕ → List (ℕ × Bool)
links_of env user_id = elim (find user_id env.users) [
  | none ↦ []
  | some u ↦ u.provider_organizations
]

authorized_for : Env → JwtUser → ℕ → ℕ → Bool
authorized_for env user user_id organization =
    (is_id user.organization_id && same_id user.organization_id (some organization))
    || any (λ link. ltb 0 link.0 && link.0 == organization && link.1) (links_of env user_id)

-- `assertProviderCanAccessReport`
unfoldable pub assert_provider_can_access_report : Env → JwtUser → ℕ → Report → Result (Unit {0})
unfolding authorized_for
assert_provider_can_access_report env user user_id r =
    throw_if
      (is_provider user.role
        && not (is_id r.assigned_provider_id && same_id r.assigned_provider_id (some user_id))
        && not (authorized_for env user user_id r.organization_id))
      (forbidden "Provider organization access denied")

-- The checks of `rejectAssignment` on the report, before and after the acceptance window.
unfoldable pub reject_checks : Env → JwtUser → ℕ → Report → Result (Unit {0})
reject_checks env user user_id r = do
  throw_if (not (same_id r.assigned_provider_id (some user_id))) (forbidden "Not your report")
  assert_provider_can_access_report env user user_id r

unfoldable pub reject_update : Env → String → ℕ → Report → Result Change
reject_update env reason user_id r = do
  throw_if (not (same_status r.status assigned)) (forbidden "Only new assignments can be rejected")
  ok (write (unassigned env rejected (trim reason) (some user_id) r))

reject_effects : Env → ℕ → String → JwtUser → ℕ → Report → Report → List Effect
reject_effects env id reason user user_id r r' =
    audited "Provider Rejected Assignment" user id none
    ∷ activity id user "PROVIDER_REJECTED" r'.organization_id (r.status, r'.status)
        (some user_id, some (trim reason), none)
    ∷ notify_organization_operators env r'.organization_id id "assignment_rejected"
        "Assignment rejected"
        (str_append (mention "Provider rejected " r'.title ". Reason: ") (trim reason))

-- `rejectAssignment`
unfoldable pub reject_assignment : Env → ℕ → String → JwtUser → Action Report
unfolding reject_effects
reject_assignment env id reason user = and_then (lift (get_user_id user)) (λ user_id.
    and_then
      (lift (
        throw_if (not (is_provider user.role)) (forbidden "Only providers can reject assignments")))
      (λ _. and_then (lift (assert_active_provider env user_id)) (λ _.
        and_then (find_report id) (λ r. and_then (lift (reject_checks env user user_id r)) (λ _.
          and_then (assert_assignment_still_acceptable env r user user_id) (λ _.
            with_report id (reject_update env reason user_id)
              (reject_effects env id reason user user_id)))))))
