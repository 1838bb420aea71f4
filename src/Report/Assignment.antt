-- ===== src/Report/Assignment.antt =====
-- Assigning a provider: `assignProviderById`, `cancelAssignment`, `reassignProvider`,
-- `rejectAssignment`, and the expiry of assignments that nobody accepted
-- (src/report/report.service.ts).
pub mod Laws
use fixzone_enterprise_api.Base.{
  ℕ, ◌+◌, ◌*◌, String, Bool, true, false, not, ◌&&◌, ◌||◌, Option, none, some, List, [], ◌∷◌, ◌++◌,
  ◌==◌, ltb, same_id, is_id, is_some, is_text, get_or, or_else, any, str_append, trim, trimmed,
  optional_trim, find, put, Table, if◌then◌else◌,
}
use fixzone_enterprise_api.Base.Result.{
  Result, ok, err, forbidden, not_found, conflict, ◌>>=◌, ◌>>◌, throw_if,
}
use fixzone_enterprise_api.Report.Types.{
  ReportStatus, pending, assigned, AssignmentOutcome, rejected, timed_out, UserRole,
  dispatch_officer, same_status, is_super_admin, is_admin, is_dispatch, is_provider, is_active,
  is_suspended,
}
use fixzone_enterprise_api.Report.Model.{Report, JwtUser, User, Env, actor_id, get_user_id}
use fixzone_enterprise_api.Report.Effects.{
  World, Effect, perform_all, Change, keep, write, Action, with_report, and_then, lift, find_report,
  notify_organization_operators, notification, activity, audited, mention,
}

-- The data that takes the provider off a report and returns it to the dispatch queue.
abbrev pub unassigned : Env → AssignmentOutcome → String → Option ℕ → Report → Report
unassigned env outcome reason provider r = record r {
  status = pending;
  assigned_provider_id = none;
  assigned_at = none;
  assignment_deadline_at = none;
  last_assignment_outcome = some outcome;
  last_assignment_reason = some reason;
  last_assignment_at = some env.now;
  last_assignment_provider_id = provider;
}

-- `isAdmin(user) || isDispatch(user) || isSuperAdmin(user)`
abbrev pub may_dispatch : JwtUser → Bool
may_dispatch user = is_admin user.role || is_dispatch user.role || is_super_admin user.role

-- The checks of `cancelAssignment` on the report, and its update.
unfoldable pub cancel_checks : Env → Option String → JwtUser → Report → Result Change
cancel_checks env reason user r = do
  throw_if
      (not (is_super_admin user.role)
        && not (same_id (some r.organization_id) user.organization_id))
      (forbidden "Wrong org")
  throw_if (not (is_id r.assigned_provider_id) || same_status r.status pending)
      (forbidden "Report has no active assignment")
  ok (
      write (
        unassigned env rejected (get_or (trimmed reason) "Assignment cancelled by administrator")
          r.assigned_provider_id r))

cancel_effects : Env → ℕ → Option String → JwtUser → Report → Report → List Effect
cancel_effects env id reason user r r' =
    let why = get_or (trimmed reason) "Assignment cancelled by administrator" in
    let previous = get_or r.assigned_provider_id 0 in
    audited "Assignment Cancelled" user id (some r'.organization_id)
    ∷ activity id user "ASSIGNMENT_CANCELLED" r'.organization_id (r.status, r'.status)
        (some previous, some why, none)
    ∷ notification previous id "assignment_cancelled" "Assignment cancelled"
        (str_append (mention "Your assignment for " r'.title " was cancelled. Reason: ") why)
    ∷ notify_organization_operators env r'.organization_id id "assignment_cancelled"
        "Assignment returned to dispatch"
        (mention "" r'.title " was returned to the dispatch queue.")

-- `cancelAssignment`
unfoldable pub cancel_assignment : Env → ℕ → Option String → JwtUser → Action Report
unfolding cancel_effects
cancel_assignment env id reason user =
    and_then (lift (throw_if (not (may_dispatch user)) (forbidden "Not allowed")))
      (λ _. with_report id (cancel_checks env reason user) (cancel_effects env id reason user))

-- `providerBelongsToReportOrg`: the provider's own organization, or an active link.
abbrev is_linked : ℕ → User → Bool
is_linked organization provider =
    any (λ link. link.0 == organization && link.1) provider.provider_organizations

abbrev pub belongs_to : ℕ → User → Bool
belongs_to organization provider =
    same_id provider.organization_id (some organization) || is_linked organization provider

-- The provider that is to be assigned, if the user is one and active.
unfoldable pub active_provider : Env → ℕ → Result User
active_provider env provider_id = elim (find provider_id env.users) [
  | none ↦ err (forbidden "Invalid provider")
  | some u ↦
      if not (is_provider u.role)
      then err (forbidden "Invalid provider")
      else if is_active u.account_status
      then ok u
      else err (forbidden "Provider account is not active")
]

-- `assertAssignmentAllowed`
unfoldable pub assert_assignment_allowed : Report → User → JwtUser → Result (Unit {0})
assert_assignment_allowed r provider user = do
  throw_if (not (same_status r.status pending))
      (forbidden "Report cannot be assigned in its current status")
  throw_if (is_id r.assigned_provider_id) (forbidden "Report already has an assigned provider")
  throw_if
      (not (is_super_admin user.role)
        && not (same_id (some r.organization_id) user.organization_id))
      (forbidden "Cross-org not allowed")
  throw_if
      (not (is_super_admin user.role)
        && not (same_id provider.organization_id user.organization_id)
        && not (is_linked r.organization_id provider))
      (forbidden "Provider must be same org")

-- `AssignProviderDto`
pub record AssignOptions : Type 0 where
  pub override_organization_routing : Bool
  pub override_reason : Option String

-- The update of `assignProviderById`: the provider has the timeout's minutes to accept.
abbrev pub assigned_to : Env → ℕ → Report → Report
assigned_to env provider_id r = record r {
  assigned_provider_id = some provider_id;
  status = assigned;
  assigned_at = some env.now;
  assignment_deadline_at = some (env.now + env.assignment_timeout_minutes * 60 * 1000);
  last_assignment_outcome = none;
  last_assignment_reason = none;
  last_assignment_at = none;
  last_assignment_provider_id = none;
}

-- The checks of `assignProviderById` on the report and the provider. Of an exception that is thrown as
-- an object, here and in other checks, the model keeps the `code`.
unfoldable pub assign_checks : Env → ℕ → JwtUser → AssignOptions → Report → Result Change
unfolding active_provider
assign_checks env provider_id user options r = do
  provider ← active_provider env provider_id
  throw_if
      (is_super_admin user.role
        && not (belongs_to r.organization_id provider)
        && (not options.override_organization_routing
            || not (is_some (trimmed options.override_reason))))
      (forbidden "ORGANIZATION_ROUTING_OVERRIDE_REQUIRED")
  assert_assignment_allowed r provider user
  throw_if (not (is_super_admin user.role) && not (belongs_to r.organization_id provider))
      (forbidden "Provider must have active membership in the report organization")
  ok (write (assigned_to env provider_id r))

assign_effects : Env → ℕ → ℕ → JwtUser → AssignOptions → Report → Report → List Effect
assign_effects env id provider_id user options r r' =
    notification r'.citizen_id id "assigned" "Report assigned"
      (mention "Your report " r'.title " has been assigned to a provider.")
    ∷ (notify_organization_operators env r'.organization_id id "assignment" "Provider assigned"
          (mention "A provider was assigned to " r'.title ".")
        ++ (notification provider_id id "assignment" "New assignment" (
              str_append (mention "You have been assigned " r'.title ". Accept before ") (
                str_append
                  (elim r'.assignment_deadline_at [
                    | none ↦ "the timeout window expires"
                    | some deadline ↦ env.iso deadline
                  ])
                  "."))
            ∷ audited "Report Assigned" user id (some r'.organization_id)
            ∷ activity id user "PROVIDER_ASSIGNED" r'.organization_id (r.status, r'.status)
                (some provider_id, optional_trim options.override_reason, none)
            ∷ []))

-- `assignProviderById`
unfoldable pub assign_provider_by_id : Env → ℕ → ℕ → JwtUser → AssignOptions → Action Report
unfolding assign_effects
assign_provider_by_id env id provider_id user options =
    and_then (lift (throw_if (not (may_dispatch user)) (forbidden "Not allowed"))) (λ _.
      with_report id (assign_checks env provider_id user options)
        (assign_effects env id provider_id user options))

-- `reassignProvider`: the running assignment is cancelled first, then the provider is assigned.
reassign_effects : ℕ → ℕ → Option String → JwtUser → Option ℕ → Report → List Effect
reassign_effects id provider_id reason user previous r' =
    audited "Report Reassigned" user id (some r'.organization_id)
    ∷ activity id user "PROVIDER_REASSIGNED" r'.organization_id (pending, r'.status)
        (some provider_id, trimmed reason, none)
    ∷ ((if is_id previous
          then notification (get_or previous 0) id "assignment_reassigned" "Assignment reassigned"
              (mention "" r'.title " was reassigned to another provider.")
            ∷ []
          else [])
        ++ notification provider_id id "assignment" "New assignment"
            (mention "You have been assigned " r'.title ".")
          ∷ [])

unfoldable pub cancel_running : Env → ℕ → Option String → JwtUser → Report → Action Report
cancel_running env id reason user r =
    if is_id r.assigned_provider_id
    then cancel_assignment env id (some (get_or (trimmed reason) "Reassigned by administrator"))
        user
    else lift (ok r)

abbrev pub no_options : AssignOptions
no_options = record { override_organization_routing = false; override_reason = none }

unfoldable pub report_reassigned :
    ℕ → ℕ → Option String → JwtUser → Option ℕ → Report → Action Report
unfolding reassign_effects
report_reassigned id provider_id reason user previous r' w =
    (ok r', perform_all (reassign_effects id provider_id reason user previous r') w)

unfoldable pub reassign_provider : Env → ℕ → ℕ → Option String → JwtUser → Action Report
unfolding cancel_running report_reassigned reassign_effects
reassign_provider env id provider_id reason user = and_then (find_report id) (λ r.
    and_then (cancel_running env id reason user r) (λ _.
      and_then (assign_provider_by_id env id provider_id user no_options)
        (report_reassigned id provider_id reason user r.assigned_provider_id)))
