-- ===== src/Admin/Authority.antt =====
-- Who may do what (src/internal-admin/internal-admin.service.ts): effective permissions, the checks on
-- them, the ceiling of grants, and the scopes of a grant.
use fixzone_enterprise_api.Base.{
  ℕ, String, Bool, true, false, not, ◌&&◌, ◌||◌, Option, none, some, List, [], ◌∷◌, ◌++◌, map, any,
  same_id, is_id, ◌==◌, ltb, leb, str_eq, str_append, trimmed, Table, find, find_many,
  if◌then◌else◌,
}
use fixzone_enterprise_api.Base.Result.{Result, ok, err, forbidden, not_found, bad_request}
use fixzone_enterprise_api.Report.Types.{UserRole, AccountStatus}
use fixzone_enterprise_api.Admin.Catalog.{
  Permission, internal_admin_assign_role, backup_restore_request, release_readiness_manage,
  payment_configuration_manage, payment_refund_approve, permission_key, includes,
  internal_admin_permission_keys, InternalScopeType, platform_scope, InternalRoleDefinition,
  internal_role_catalog, find_definition, resolve_internal_role_definition, role_definition_enabled,
}
use fixzone_enterprise_api.Admin.Office.{
  InternalAdminUser, AssignmentStatus, InternalScope, InternalRoleAssignment,
  PrivilegedOperationType, platform_super_admin_grant, role_definition_change,
  production_restore_authorization, enterprise_feature_enablement, payment_configuration_change,
  high_value_refund_approval, Office, AdminEnv, AdminCall, actor_id, deny,
}

-- `highRiskOperationPermissions`
abbrev pub high_risk_operation_permission : PrivilegedOperationType → Permission
high_risk_operation_permission platform_super_admin_grant = internal_admin_assign_role
high_risk_operation_permission role_definition_change = internal_admin_assign_role
high_risk_operation_permission production_restore_authorization = backup_restore_request
high_risk_operation_permission enterprise_feature_enablement = release_readiness_manage
high_risk_operation_permission payment_configuration_change = payment_configuration_manage
high_risk_operation_permission high_value_refund_approval = payment_refund_approve

abbrev pub is_super : Option UserRole → Bool
is_super (some UserRole.super_admin) = true
is_super _ = false

-- `role === SUPER_ADMIN || role === PLATFORM_SUPER_ADMIN`
abbrev pub is_any_super : Option UserRole → Bool
is_any_super (some UserRole.super_admin) = true
is_any_super (some UserRole.platform_super_admin) = true
is_any_super _ = false

-- The permissions of a role that the catalogue has and that is enabled.
abbrev enabled_permissions : AdminEnv → Option InternalRoleDefinition → List Permission
enabled_permissions env none = []
enabled_permissions env (some d) = if role_definition_enabled env.flag d then d.permissions else []

-- `permissionsForRole`
unfoldable pub permissions_for_role : AdminEnv → Option UserRole → List Permission
permissions_for_role env none = []
permissions_for_role env (some role) =
    if is_super (some role)
    then internal_admin_permission_keys
    else enabled_permissions env (resolve_internal_role_definition role)

-- `EffectivePermissionResult`; a permission may stand twice.
pub record Effective : Type 0 where
  pub permissions : List Permission
  pub scopes : List InternalScope

abbrev pub is_suspended : Option AccountStatus → Bool
is_suspended (some AccountStatus.suspended) = true
is_suspended _ = false

abbrev is_active_assignment : AssignmentStatus → Bool
is_active_assignment AssignmentStatus.active = true
is_active_assignment _ = false

abbrev is_unexpired : ℕ → Option ℕ → Bool
is_unexpired now none = true
is_unexpired now (some expiry) = ltb now expiry

-- The `where` of the assignments that count.
abbrev pub counts_for : AdminEnv → ℕ → InternalRoleAssignment → Bool
counts_for env user a =
    a.user_id == user
    && is_active_assignment a.status
    && leb a.starts_at env.now
    && is_unexpired env.now a.expires_at

-- `assignments.flatMap(a => a.permissionsSnapshot)`
abbrev pub snapshots : Table InternalRoleAssignment → List Permission
snapshots [] = []
snapshots ((id, a) ∷ rows) = a.permissions_snapshot ++ snapshots rows

abbrev pub role_scopes : List Permission → Option ℕ → List InternalScope
role_scopes [] organization = []
role_scopes (p ∷ permissions) organization =
    record {
      type = platform_scope;
      reference = none;
      organization_id = organization;
      module_key = none;
    }
    ∷ []

-- The rest of `effectivePermissionsForUser`, on the user that was found.
unfoldable pub effective_of :
    AdminEnv → Office → ℕ → Option UserRole → Option ℕ → Option AccountStatus → Effective
effective_of env o id role organization status =
    if is_suspended status
    then record { permissions = []; scopes = [] }
    else let own = permissions_for_role env role in
      let assignments = find_many (counts_for env id) o.assignments in
      record {
        permissions = own ++ snapshots assignments;
        scopes = role_scopes own organization ++ map (λ row. row.1.scope) assignments;
      }

-- `effectivePermissions`: the caller's role and status are those that the caller came with.
unfoldable pub effective_permissions : AdminEnv → InternalAdminUser → Office → Result Effective
unfolding effective_of
effective_permissions env user o = elim (actor_id user) [
  | err e ↦ err e
  | ok id ↦ ok (effective_of env o id user.role user.organization_id user.account_status)
]

-- `effectivePermissionsForUser` for a user of the table, as `viewEffectiveAccess` has it.
unfoldable pub effective_permissions_for_user : AdminEnv → ℕ → Office → Result Effective
unfolding effective_of
effective_permissions_for_user env id o = elim (find id o.accounts) [
  | none ↦ err (not_found "Administrator not found")
  | some a ↦ ok (effective_of env o id (some a.role) a.organization_id (some a.account_status))
]

abbrev is_platform_type : InternalScopeType → Bool
is_platform_type platform_scope = true
is_platform_type _ = false

abbrev pub covers : ℕ → InternalScope → Bool
covers organization scope =
    is_platform_type scope.type
    || same_id scope.organization_id (some organization)
    || same_id scope.reference (some organization)

-- `hasPermission`; no organization, or the empty text for one, asks for the permission alone.
unfoldable pub has_permission : AdminEnv → InternalAdminUser → Permission → Option ℕ → Office → Bool
unfolding effective_permissions
has_permission env user permission organization o = elim (effective_permissions env user o) [
  | err e ↦ false
  | ok effective ↦ includes effective.permissions permission && elim organization [
    | none ↦ true
    | some id ↦
        not (is_id (some id))
        || any (covers id) effective.scopes
        || same_id user.organization_id (some id)
  ]
]

-- `assertPermission`
unfoldable pub assert_permission :
    AdminEnv → InternalAdminUser → Permission → Option ℕ → AdminCall (Unit {0})
unfolding has_permission
assert_permission env user permission organization o =
    if has_permission env user permission organization o
    then (ok tt, o)
    else deny user (str_append "Permission required: " (permission_key permission)) o

-- `assertGrantCeiling`
unfoldable pub assert_grant_ceiling :
    AdminEnv → InternalAdminUser → List Permission → Result (Unit {0})
assert_grant_ceiling env user requested =
    if is_any_super user.role
      || not (any (λ p. not (includes (permissions_for_role env user.role) p)) requested)
    then ok tt
    else err (forbidden "Cannot grant permissions outside your effective authority.")

-- `requireEnabledRole`
unfoldable pub require_enabled_role : AdminEnv → UserRole → Result InternalRoleDefinition
require_enabled_role env role = elim (resolve_internal_role_definition role) [
  | none ↦ err (bad_request "Invalid internal administrator role.")
  | some d ↦
      if role_definition_enabled env.flag d
      then ok d
      else err (forbidden "INTERNAL_ROLE_FEATURE_DISABLED")
]

-- `requiredText`
unfoldable pub required_text : Option String → String → Result String
required_text raw message = elim (trimmed raw) [ none ↦ err (bad_request message) | some s ↦ ok s ]

-- `parseInternalRole`
unfoldable pub parse_internal_role : AdminEnv → Option String → Result UserRole
unfolding required_text
parse_internal_role env raw = elim (required_text raw "role is required.") [
  | err e ↦ err e
  | ok text ↦
      elim (find_definition (λ d. str_eq d.canonical_name (env.upper text)) internal_role_catalog) [
        | none ↦ err (bad_request "Invalid internal administrator role.")
        | some d ↦ ok d.role
      ]
]
