-- ===== src/Admin/Delegation.antt =====
-- Delegation of administration (src/internal-admin/internal-admin.service.ts): invitations, roles of
-- users, and the states of administrators' accounts. A call answers the identifier of the row it wrote.
use fixzone_enterprise_api.Base.{
  ℕ, String, Bool, true, false, ◌&&◌, Option, none, some, [], ◌∷◌, ◌++◌, ◌+◌, ◌*◌, get_or, is_some,
  ◌==◌, str_eq, trimmed, find_first, if◌then◌else◌,
}
use fixzone_enterprise_api.Base.Result.{Result, ok, err, bad_request, conflict}
use fixzone_enterprise_api.Report.Types.{UserRole}
use fixzone_enterprise_api.Admin.Catalog.{
  InternalRoleDefinition, same_role, internal_admin_invite, internal_admin_assign_role,
}
use fixzone_enterprise_api.Admin.Office.{
  InternalAdminUser, Account, AssignmentStatus, InternalRoleAssignment, InvitationStatus,
  Invitation, InternalScope, Office, AdminEnv, AdminCall, fail, lift, found, unless, modify, ◌>>=◌,
  actor_id, write_audit, deny,
}
use fixzone_enterprise_api.Admin.Authority.{
  assert_permission, assert_grant_ceiling, require_enabled_role, required_text, parse_internal_role,
}
use fixzone_enterprise_api.Admin.Scopes.{ScopeRequest, resolve_scope}
use fixzone_enterprise_api.Admin.Emails.{normalize_email}
use fixzone_enterprise_api.Admin.Approvals.{create_approval_request}

-- `optionalDate`
unfoldable pub optional_date : AdminEnv → Option String → Result (Option ℕ)
optional_date env raw = elim (trimmed raw) [
  | none ↦ ok none
  | some text ↦ elim (env.parse_date text) [
    | none ↦ err (bad_request "Invalid date.")
    | some date ↦ ok (some date)
  ]
]

-- `defaultExpiry`: seven days, in milliseconds.
abbrev pub default_expiry : AdminEnv → ℕ
default_expiry env = env.now + 7 * 24 * 60 * 60000

-- The answer of a call that grants a role, or asks for approval of the grant.
pub data Delegated : Type 0 where
  granted awaiting_approval : ℕ → Delegated

-- The request of approval in place of a grant of a role of high risk.
abbrev pub awaiting :
    AdminEnv
    → InternalRoleDefinition
    → Option ℕ
    → Option String
    → String
    → InternalAdminUser
    → AdminCall Delegated
awaiting env d target reason message user = do
  id ←
      create_approval_request env
        (record {
          operation_type = some "PLATFORM_SUPER_ADMIN_GRANT";
          target_user_id = target;
          organization_id = none;
          requested_role = some d.canonical_name;
          reason = reason;
        })
        user message
  lift (ok (awaiting_approval id))

-- `InviteInternalAdminDto`
pub record InviteDto : Type 0 where
  pub full_name : Option String
  pub email : Option String
  pub role : Option String
  pub scope : ScopeRequest
  pub reason : Option String
  pub expires_at : Option String

-- A test of an optional text against a text.
abbrev pub is_text_of : String → Option String → Bool
is_text_of text none = false
is_text_of text (some other) = str_eq other text

abbrev pub has_email : String → Account → Bool
has_email email a = is_text_of email a.email

abbrev pub is_open_invitation : InvitationStatus → Bool
is_open_invitation InvitationStatus.pending = true
is_open_invitation _ = false

abbrev pub is_duplicate : String → UserRole → Invitation → Bool
is_duplicate email role i =
    is_text_of email i.email && is_open_invitation i.status && same_role i.role role

abbrev pub new_invitation :
    AdminEnv → String → String → UserRole → ℕ → InternalScope → ℕ → Invitation
new_invitation env email name role actor scope expiry = record {
  email = some email;
  full_name = name;
  role = role;
  status = InvitationStatus.pending;
  invite_code = env.new_code;
  organization_id = scope.organization_id;
  invited_by_id = actor;
  accepted_user_id = none;
  scope = some scope;
  expires_at = some expiry;
  accepted_at = none;
}

abbrev pub with_invitation : ℕ → Invitation → Office → Office
with_invitation id i o = record o { invitations = o.invitations ++ (id, i) ∷ [] }

abbrev pub with_notice : ℕ → Office → Office
with_notice user o = record o { notified = o.notified ++ user ∷ [] }

-- `inviteAdministrator` where no pending invitation is there yet.
unfoldable pub create_invitation :
    AdminEnv
    → InviteDto
    → InternalAdminUser
    → ℕ
    → UserRole
    → InternalRoleDefinition
    → String
    → AdminCall Delegated
create_invitation env dto user actor role d email = do
  scope ← lift (resolve_scope env dto.scope d.default_scope_type user)
  name ← lift (required_text dto.full_name "fullName is required.")
  expiry ← lift (optional_date env dto.expires_at)
  _ ← modify (
      with_invitation env.new_id
        (new_invitation env email name role actor scope (get_or expiry (default_expiry env))))
  _ ← write_audit user "Internal Admin Invitation Created" (some env.new_id)
  _ ← modify (with_notice actor)
  lift (ok (granted env.new_id))

abbrev pub pending_invitation : String → UserRole → AdminCall (Option ℕ)
pending_invitation email role o = (
  ok (elim (find_first (is_duplicate email role) o.invitations) [
    | none ↦ none
    | some (id, i) ↦ some id
  ]),
  o,
)

abbrev pub no_account : String → AdminCall (Unit {0})
no_account email o =
    unless (is_some (find_first (has_email email) o.accounts))
      (fail (conflict "A user already exists with this email.")) o

-- `inviteAdministrator` after the checks of the caller and of the role.
unfoldable pub invite_by_email :
    AdminEnv
    → InviteDto
    → InternalAdminUser
    → ℕ
    → UserRole
    → InternalRoleDefinition
    → AdminCall Delegated
invite_by_email env dto user actor role d = do
  email ← lift (normalize_email env dto.email)
  _ ← no_account email
  duplicate ← pending_invitation email role
  elim duplicate [
    | some id ↦ lift (ok (granted id))
    | none ↦ create_invitation env dto user actor role d email
  ]

-- `inviteAdministrator`
unfoldable pub invite_administrator : AdminEnv → InviteDto → InternalAdminUser → AdminCall Delegated
invite_administrator env dto user = do
  _ ← assert_permission env user internal_admin_invite none
  actor ← lift (actor_id user)
  role ← lift (parse_internal_role env dto.role)
  d ← lift (require_enabled_role env role)
  _ ← lift (assert_grant_ceiling env user d.permissions)
  if d.high_risk_grant
      then awaiting env d none dto.reason "Platform super-admin invitation requires dual approval."
          user
      else invite_by_email env dto user actor role d

-- `AssignInternalRoleDto`
pub record AssignDto : Type 0 where
  pub role : Option String
  pub scope : ScopeRequest
  pub starts_at : Option String
  pub expires_at : Option String
  pub reason : Option String

-- The row of an assignment that nobody has revoked.
abbrev pub new_assignment :
    ℕ
    → UserRole
    → InternalRoleDefinition
    → InternalScope
    → ℕ
    → Option String
    → ℕ
    → Option ℕ
    → InternalRoleAssignment
new_assignment user role d scope by reason start expiry = record {
  user_id = user;
  role = role;
  status = AssignmentStatus.active;
  scope = scope;
  permissions_snapshot = d.permissions;
  assigned_by_id = by;
  reason = reason;
  starts_at = start;
  expires_at = expiry;
  revoked_at = none;
  revoked_by_id = none;
  revocation_reason = none;
}

abbrev pub with_assignment : ℕ → InternalRoleAssignment → Office → Office
with_assignment id a o = record o { assignments = o.assignments ++ (id, a) ∷ [] }

-- `assignRole` after the checks of the caller and of the role.
unfoldable pub grant_role :
    AdminEnv
    → ℕ
    → AssignDto
    → InternalAdminUser
    → ℕ
    → UserRole
    → InternalRoleDefinition
    → AdminCall Delegated
grant_role env target dto user actor role d = do
  _ ← found target (λ o. o.accounts) "Administrator not found"
  scope ← lift (resolve_scope env dto.scope d.default_scope_type user)
  start ← lift (optional_date env dto.starts_at)
  expiry ← lift (optional_date env dto.expires_at)
  _ ← modify (
      with_assignment env.new_id (
        new_assignment target role d scope actor (trimmed dto.reason) (get_or start env.now)
          expiry))
  _ ← write_audit user "Internal Admin Role Assigned" (some env.new_id)
  lift (ok (granted env.new_id))

-- `assignRole`
unfoldable pub assign_role : AdminEnv → ℕ → AssignDto → InternalAdminUser → AdminCall Delegated
assign_role env target dto user = do
  _ ← assert_permission env user internal_admin_assign_role none
  actor ← lift (actor_id user)
  _ ← unless (actor == target) (deny user "Administrators cannot promote themselves.")
  role ← lift (parse_internal_role env dto.role)
  d ← lift (require_enabled_role env role)
  _ ← lift (assert_grant_ceiling env user d.permissions)
  if d.high_risk_grant
      then awaiting env d (some target) dto.reason
          "Platform super-admin grant requires dual approval." user
      else grant_role env target dto user actor role d
