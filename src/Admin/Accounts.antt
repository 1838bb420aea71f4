-- ===== src/Admin/Accounts.antt =====
-- Acceptance of invitations, removal of roles, the states of administrators' accounts
-- (src/internal-admin/internal-admin.service.ts), and the requests that the controller passes on.
pub mod Changes
use fixzone_enterprise_api.Base.{
  ℕ, String, Bool, true, false, not, ◌&&◌, ◌||◌, Option, none, some, [], ◌∷◌, ◌++◌, ◌+◌, suc, ◌==◌,
  ltb, leb, str_eq, is_text, trimmed, or_else, Table, find, put, if◌then◌else◌,
}
use fixzone_enterprise_api.Base.Result.{Result, ok, err, Error, bad_request, forbidden, database}
use fixzone_enterprise_api.Report.Types.{UserRole, AccountStatus}
use fixzone_enterprise_api.Admin.Catalog.{
  InternalRoleDefinition, internal_admin_assign_role, internal_admin_suspend,
  internal_admin_revoke_sessions,
}
use fixzone_enterprise_api.Admin.Office.{
  InternalAdminUser, Account, AssignmentStatus, InternalRoleAssignment, InvitationStatus,
  Invitation, InternalScope, Office, AdminEnv, AdminCall, fail, lift, found, unless, modify, ◌>>=◌,
  actor_id, write_audit,
}
use fixzone_enterprise_api.Admin.Authority.{
  is_any_super, assert_permission, require_enabled_role, effective_permissions_for_user, Effective,
}
use fixzone_enterprise_api.Admin.Scopes.{scope_from_metadata}
use fixzone_enterprise_api.Admin.Approvals.{
  ApprovalDto, create_approval_request, decide_approval_request,
}
use fixzone_enterprise_api.Admin.Delegation.{
  InviteDto, AssignDto, invite_administrator, assign_role, new_assignment, is_text_of,
}

-- `user.update({ where: { id }, data })`; the client throws where the row is missing.
unfoldable pub update_account : ℕ → (Account → Account) → AdminCall Account
update_account id change o = elim (find id o.accounts) [
  | none ↦ (err (database "An operation failed because it depends on records not found"), o)
  | some a ↦ (ok (change a), record o { accounts = put id (change a) o.accounts })
]

abbrev pub is_open_status : InvitationStatus → Bool
is_open_status InvitationStatus.pending = true
is_open_status _ = false

abbrev pub is_past : ℕ → Option ℕ → Bool
is_past now none = false
is_past now (some expiry) = leb expiry now

-- Both texts are there, and they differ in more than case.
abbrev pub is_for_other : AdminEnv → Option String → Option String → Bool
is_for_other env (some a) (some b) =
    is_text (some a) && is_text (some b) && not (str_eq (env.lower a) (env.lower b))
is_for_other env _ _ = false

abbrev pub accepted_account : UserRole → InternalScope → Account → Account
accepted_account role scope a = record a {
  role = role;
  account_status = AccountStatus.active;
  organization_id = or_else scope.organization_id a.organization_id;
}

abbrev pub accepted_invitation : ℕ → ℕ → Invitation → Invitation
accepted_invitation now user i = record i {
  status = InvitationStatus.accepted;
  accepted_user_id = some user;
  accepted_at = some now;
}

-- What the transaction writes where the user's row is `a`.
abbrev pub with_acceptance :
    AdminEnv → ℕ → ℕ → Invitation → InternalRoleDefinition → Account → Office → Office
with_acceptance env user id i d a o =
    let scope = scope_from_metadata i.scope in
    record o {
      accounts = put user (accepted_account i.role scope a) o.accounts;
      assignments =
          o.assignments
          ++ (
            env.new_id,
            new_assignment user i.role d scope i.invited_by_id (some "Invitation accepted.") env.now
                i.expires_at,
          )
            ∷ [];
      invitations = put id (accepted_invitation env.now user i) o.invitations;
    }

-- The transaction of `acceptInvitation`, which writes nothing where the user is missing.
unfoldable pub accept_in_transaction :
    AdminEnv → ℕ → ℕ → Invitation → InternalRoleDefinition → AdminCall (Unit {0})
accept_in_transaction env user id i d o = elim (find user o.accounts) [
  | none ↦ (err (database "An operation failed because it depends on records not found"), o)
  | some a ↦ (ok tt, with_acceptance env user id i d a o)
]

abbrev pub with_expired : ℕ → Invitation → Office → Office
with_expired id i o = record o {
  invitations = put id (record i { status = InvitationStatus.expired }) o.invitations;
}

-- What is done with an invitation that has expired.
unfoldable pub expire_invitation : ℕ → Invitation → InternalAdminUser → AdminCall (Unit {0})
expire_invitation id i user = do
  _ ← modify (with_expired id i)
  _ ← write_audit user "Internal Admin Invitation Expired" (some id)
  fail (bad_request "Invitation has expired.")

-- `acceptInvitation`
unfoldable pub accept_invitation : AdminEnv → ℕ → InternalAdminUser → AdminCall Effective
accept_invitation env id user = do
  actor ← lift (actor_id user)
  i ← found id (λ o. o.invitations) "Invitation not found"
  _ ← unless (not (is_open_status i.status)) (fail (bad_request "Invitation is no longer pending."))
  _ ← unless (is_past env.now i.expires_at) (expire_invitation id i user)
  _ ←
      unless (is_for_other env i.email user.email)
        (fail (forbidden "Invitation is not assigned to this user."))
  d ← lift (require_enabled_role env i.role)
  _ ← accept_in_transaction env actor id i d
  _ ← write_audit user "Internal Admin Invitation Accepted" (some id)
  λ o. (effective_permissions_for_user env actor o, o)

abbrev pub is_active_super : Account → Bool
is_active_super a = elim a.account_status [
  | AccountStatus.active ↦ is_any_super (some a.role)
  | _ ↦ false
]

-- `user.count` of the active super administrators other than a user.
unfoldable pub other_super_admins : ℕ → Table Account → ℕ
other_super_admins user [] = 0
other_super_admins user ((id, a) ∷ rows) =
    let rest = other_super_admins user rows in
    if not (id == user) && is_active_super a then suc rest else rest

-- `assertNotFinalActiveSuperAdmin`
unfoldable pub assert_not_final_active_super_admin : ℕ → AdminCall (Unit {0})
unfolding other_super_admins
assert_not_final_active_super_admin user o =
    unless (ltb (other_super_admins user o.accounts) 1)
      (fail (forbidden "Cannot remove the final active platform super administrator.")) o

-- What `removeRole` writes on the assignment's row.
abbrev pub revoked_assignment :
    ℕ → ℕ → Option String → InternalRoleAssignment → InternalRoleAssignment
revoked_assignment now by reason a = record a {
  status = AssignmentStatus.revoked;
  revoked_at = some now;
  revoked_by_id = some by;
  revocation_reason = trimmed reason;
}

abbrev pub with_revocation : ℕ → InternalRoleAssignment → Office → Office
with_revocation id a o = record o { assignments = put id a o.assignments }

-- `removeRole`
unfoldable pub remove_role : AdminEnv → ℕ → Option String → InternalAdminUser → AdminCall (Unit {0})
remove_role env id reason user = do
  _ ← assert_permission env user internal_admin_assign_role none
  a ← found id (λ o. o.assignments) "Role assignment not found"
  _ ← unless (is_any_super (some a.role)) (assert_not_final_active_super_admin a.user_id)
  actor ← lift (actor_id user)
  _ ← modify (with_revocation id (revoked_assignment env.now actor reason a))
  write_audit user "Internal Admin Role Removed" (some id)

abbrev pub with_status : AccountStatus → Account → Account
with_status status a = record a { account_status = status }

-- `suspendAdministrator`
unfoldable pub suspend_administrator : AdminEnv → ℕ → InternalAdminUser → AdminCall (Unit {0})
suspend_administrator env target user = do
  _ ← assert_permission env user internal_admin_suspend none
  actor ← lift (actor_id user)
  _ ← unless (actor == target) (fail (forbidden "Administrators cannot suspend themselves."))
  _ ← assert_not_final_active_super_admin target
  _ ← update_account target (with_status AccountStatus.suspended)
  write_audit user "Internal Admin Suspended" (some target)

-- `reactivateAdministrator`
unfoldable pub reactivate_administrator : AdminEnv → ℕ → InternalAdminUser → AdminCall (Unit {0})
reactivate_administrator env target user = do
  _ ← assert_permission env user internal_admin_suspend none
  _ ← update_account target (with_status AccountStatus.active)
  write_audit user "Internal Admin Reactivated" (some target)

abbrev pub signed_out : Account → Account
signed_out a = record a { token_version = a.token_version + 1 }

-- `revokeSessions`; the answer is the new token version.
unfoldable pub revoke_sessions : AdminEnv → ℕ → InternalAdminUser → AdminCall ℕ
revoke_sessions env target user = do
  _ ← assert_permission env user internal_admin_revoke_sessions none
  actor ← lift (actor_id user)
  _ ←
      unless (actor == target)
        (fail (forbidden "Use account security settings for self-session changes."))
  _ ← found target (λ o. o.accounts) "Administrator not found"
  updated ← update_account target signed_out
  _ ← write_audit user "Internal Admin Sessions Revocation Requested" (some target)
  lift (ok updated.token_version)

-- The requests that change the tables (src/internal-admin/internal-admin.controller.ts).
pub data AdminRequest : Type 0 where
  invite : InviteDto → AdminRequest
  accept : ℕ → AdminRequest
  assign : ℕ → AssignDto → AdminRequest
  remove : ℕ → Option String → AdminRequest
  suspend reactivate sign_out : ℕ → AdminRequest
  ask_approval : ApprovalDto → AdminRequest
  decide : ℕ → String → Option String → AdminRequest

abbrev pub is_acceptance : AdminRequest → Bool
is_acceptance (AdminRequest.accept id) = true
is_acceptance _ = false

-- The tables that a request leaves, whether it was answered or refused.
unfoldable pub serve_admin : AdminEnv → AdminRequest → InternalAdminUser → Office → Office
serve_admin env (AdminRequest.invite dto) user o = (invite_administrator env dto user o).1
serve_admin env (AdminRequest.accept id) user o = (accept_invitation env id user o).1
serve_admin env (AdminRequest.assign target dto) user o = (assign_role env target dto user o).1
serve_admin env (AdminRequest.remove id reason) user o = (remove_role env id reason user o).1
serve_admin env (AdminRequest.suspend id) user o = (suspend_administrator env id user o).1
serve_admin env (AdminRequest.reactivate id) user o = (reactivate_administrator env id user o).1
serve_admin env (AdminRequest.sign_out id) user o = (revoke_sessions env id user o).1
serve_admin env (AdminRequest.ask_approval dto) user o =
    (create_approval_request env dto user "High-risk operation requires dual approval." o).1
serve_admin env (AdminRequest.decide id decision reason) user o =
    (decide_approval_request env id decision reason user o).1
