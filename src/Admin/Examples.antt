-- ===== src/Admin/Examples.antt =====
-- Internal administration on concrete tables.
use fixzone_enterprise_api.Base.{
  ℕ, ◌≡◌, ◌≢◌, ◌↔◌, ◌≤◌, refl, true, false, none, some, [], ◌∷◌, find, arith, any, put, find_many,
  trimmed, trim,
}
use fixzone_enterprise_api.Base.Result.{ok}
use fixzone_enterprise_api.Report.Types.{UserRole, AccountStatus}
use fixzone_enterprise_api.Admin.Catalog.{
  same_permission, organization_scope, provider_manage, internal_role_catalog, find_definition,
  resolve_internal_role_definition, role_definition_enabled,
}
use fixzone_enterprise_api.Admin.Office.{
  InternalAdminUser, Account, Invitation, InvitationStatus, ApprovalStatus,
  payment_configuration_change, ApprovalRequest, Office, AdminEnv, ◌>>=◌, found, actor_id,
  write_audit, deny,
}
use fixzone_enterprise_api.Admin.Authority.{
  Effective, permissions_for_role, effective_of, effective_permissions, has_permission,
  assert_permission, assert_grant_ceiling, require_enabled_role, required_text, parse_internal_role,
}
use fixzone_enterprise_api.Admin.Scopes.{resolve_scope}
use fixzone_enterprise_api.Admin.Approvals.{
  decide_approval_request, approval_decision_eligibility, can_decide, decided,
}
use fixzone_enterprise_api.Admin.Delegation.{
  AssignDto, granted, optional_date, grant_role, assign_role,
}
use fixzone_enterprise_api.Admin.Accounts.{
  AdminRequest, accept_invitation, accept_in_transaction, suspend_administrator,
  assert_not_final_active_super_admin, other_super_admins, update_account, serve_admin,
}
use fixzone_enterprise_api.Admin.Runs.{Runs, begin, next}
use fixzone_enterprise_api.Admin.Runs.Approved.{Runs-IsSeparated}
use fixzone_enterprise_api.Admin.Runs.Supers.{active_supers, Runs-active_supers}
use fixzone_enterprise_api.Admin.Limits.Ceiling.{Gives, assign_role-Gives}
use fixzone_enterprise_api.Admin.Limits.Reach.{role_permission-has_permission}
use fixzone_enterprise_api.Admin.Limits.Deciding.{reopened, decide-eligible}

abbrev env : AdminEnv
env = record {
  now = 1000;
  upper = λ s. s;
  lower = λ s. s;
  parse_date = λ s. none;
  flag = λ s. false;
  new_id = 90;
  new_code = "code";
}

abbrev caller : ℕ → UserRole → InternalAdminUser
caller id role = record {
  id = some id;
  user_id = none;
  sub = none;
  email = none;
  role = some role;
  organization_id = none;
  account_status = some AccountStatus.active;
}

abbrev account : UserRole → Account
account role = record {
  email = none;
  role = role;
  organization_id = none;
  account_status = AccountStatus.active;
  token_version = 0;
}

abbrev request : ApprovalRequest
request = record {
  operation_type = payment_configuration_change;
  status = ApprovalStatus.pending;
  requester_id = 1;
  approver_id = none;
  target_user_id = none;
  organization_id = none;
  requested_role = none;
  blocked_reason = "dual approval";
  reason = none;
  decision_reason = none;
  decided_at = none;
  execution_blocked = true;
}

abbrev invitation : Invitation
invitation = record {
  email = none;
  full_name = "Ada";
  role = UserRole.provider_admin;
  status = InvitationStatus.pending;
  invite_code = "code";
  organization_id = some 7;
  invited_by_id = 1;
  accepted_user_id = none;
  scope = some (record {
    type = organization_scope;
    reference = none;
    organization_id = some 7;
    module_key = none;
  });
  expires_at = some 2000;
  accepted_at = none;
}

-- A super administrator, a platform super administrator and a citizen, with a request of approval and
-- an invitation.
abbrev office : Office
office = record {
  accounts =
      (1, account UserRole.super_admin)
      ∷ (2, account UserRole.platform_super_admin)
      ∷ (3, account UserRole.citizen)
      ∷ [];
  assignments = [];
  invitations = (20, invitation) ∷ [];
  approvals = (10, request) ∷ [];
  notified = [];
  audit_log = [];
}

abbrev decision : AdminRequest
decision = AdminRequest.decide 10 "APPROVE" none

abbrev second : InternalAdminUser
second = caller 2 UserRole.platform_super_admin

abbrev decided_request : ApprovalRequest
decided_request = decided 1000 2 true none request

served_decision : find 10 (serve_admin env decision second office).approvals ≡ some decided_request
unfolding serve_admin decide_approval_request ◌>>=◌ found find actor_id assert_permission
    has_permission effective_permissions effective_of permissions_for_role
    resolve_internal_role_definition role_definition_enabled write_audit deny put find_many trimmed
    trim
served_decision = refl

abbrev after_decision : Office
after_decision = serve_admin env decision second office

decision_run : Runs false office after_decision
decision_run = next env decision second begin (λ e. e)

Runs-IsSeparated_example :
    (decided_request.approver_id ≢ some decided_request.requester_id)
    × (decided_request.execution_blocked ≡ true)
    × (decided_request.status ≢ ApprovalStatus.approved)
Runs-IsSeparated_example =
    Runs-IsSeparated false office after_decision 10 decided_request decision_run
      (((λ e. absurd (cc e)), refl, (λ e. absurd (cc e))), tt) served_decision

abbrev acceptance : AdminRequest
acceptance = AdminRequest.accept 20

abbrev after_acceptance : Office
after_acceptance = serve_admin env acceptance (caller 3 UserRole.citizen) office

-- The acceptance of an invitation takes the role of a super administrator from the one who accepts.
demoted : active_supers (serve_admin env acceptance second office).accounts ≡ 1
unfolding serve_admin accept_invitation accept_in_transaction ◌>>=◌ found find actor_id
    require_enabled_role resolve_internal_role_definition role_definition_enabled write_audit put
demoted = refl

abbrev suspension : AdminRequest
suspension = AdminRequest.suspend 1

Runs-active_supers_example : 1 ≤ active_supers (serve_admin env suspension second office).accounts
Runs-active_supers_example =
    Runs-active_supers office (serve_admin env suspension second office)
      (next env suspension second begin (λ e. e)) (omega arith)

suspended : active_supers (serve_admin env suspension second office).accounts ≡ 1
unfolding serve_admin suspend_administrator assert_permission has_permission effective_permissions
    effective_of permissions_for_role resolve_internal_role_definition role_definition_enabled ◌>>=◌
    actor_id assert_not_final_active_super_admin other_super_admins update_account find put
    write_audit
suspended = refl

abbrev providers : AssignDto
providers = record {
  role = some "PROVIDER_ADMIN";
  scope = record {
    scope_type = none;
    scope_ref = none;
    organization_id = some 7;
    module_key = none;
  };
  starts_at = none;
  expires_at = none;
  reason = none;
}

abbrev after_assignment : Office
after_assignment = (assign_role env 3 providers second office).1

granting_run : assign_role env 3 providers second office ≡ (ok (granted 90), after_assignment)
unfolding assign_role assert_permission has_permission effective_permissions effective_of
    permissions_for_role resolve_internal_role_definition find_definition role_definition_enabled
    ◌>>=◌ actor_id parse_internal_role required_text trimmed trim internal_role_catalog
    require_enabled_role assert_grant_ceiling grant_role found find resolve_scope optional_date
    write_audit find_many
granting_run = refl

assign_role-Gives_example : Gives env 3 second office after_assignment
assign_role-Gives_example =
    assign_role-Gives env 3 providers second office after_assignment 90 granting_run

second_known : actor_id second ≡ ok 2
unfolding actor_id
second_known = refl

abbrev overseer : InternalAdminUser
overseer = caller 4 UserRole.provider_admin

overseer_known : actor_id overseer ≡ ok 4
unfolding actor_id
overseer_known = refl

overseer_permission :
    any (same_permission provider_manage) (permissions_for_role env overseer.role) ≡ true
unfolding permissions_for_role resolve_internal_role_definition role_definition_enabled
overseer_permission = refl

role_permission-has_permission_example :
    has_permission env overseer provider_manage (some 8) office ≡ true
role_permission-has_permission_example =
    role_permission-has_permission env overseer 4 provider_manage (some 8) office overseer_known
      refl overseer_permission

abbrev powers : Effective
powers = effective_of env office 2 second.role none second.account_status

effective_lookup : effective_permissions env second office ≡ ok powers
unfolding effective_permissions actor_id
effective_lookup = refl

stored_request : find 10 office.approvals ≡ some request
unfolding find
stored_request = refl

decide-eligible_example :
    ((decide_approval_request env 10 "APPROVE" none second office).0 ≡ ok 10)
    ↔ (approval_decision_eligibility (reopened request) second powers ≡ ok can_decide)
decide-eligible_example =
    decide-eligible env second 10 "APPROVE" none request office powers stored_request
      effective_lookup
