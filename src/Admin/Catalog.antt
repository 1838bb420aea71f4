-- ===== src/Admin/Catalog.antt =====
-- src/internal-admin/internal-role-catalog.ts, and the permissions of
-- src/internal-admin/internal-admin.types.ts. Names and descriptions for display are left out.
use fixzone_enterprise_api.Base.{
  ℕ, String, Bool, true, false, ◌&&◌, Option, none, some, List, [], ◌∷◌, any, ◌==◌, str_append,
  if◌then◌else◌,
}
use fixzone_enterprise_api.Report.Types.{UserRole}

-- `InternalPermissionKey`
pub data Permission : Type 0 where
  internal_admin_read internal_admin_invite internal_admin_assign_role : Permission
  internal_admin_change_scope internal_admin_suspend internal_admin_revoke_sessions : Permission
  internal_admin_view_audit organization_review organization_manage : Permission
  provider_review provider_manage report_operations support_account_assistance : Permission
  compliance_audit_read investigation_manage asset_intelligence_manage : Permission
  security_session_manage release_readiness_manage backup_verify : Permission
  backup_restore_request payment_plan_read payment_plan_manage : Permission
  payment_transaction_read payment_reconciliation_manage payment_refund_request : Permission
  payment_refund_approve payment_configuration_manage : Permission

abbrev pub permission_index : Permission → ℕ
permission_index internal_admin_read = 0
permission_index internal_admin_invite = 1
permission_index internal_admin_assign_role = 2
permission_index internal_admin_change_scope = 3
permission_index internal_admin_suspend = 4
permission_index internal_admin_revoke_sessions = 5
permission_index internal_admin_view_audit = 6
permission_index organization_review = 7
permission_index organization_manage = 8
permission_index provider_review = 9
permission_index provider_manage = 10
permission_index report_operations = 11
permission_index support_account_assistance = 12
permission_index compliance_audit_read = 13
permission_index investigation_manage = 14
permission_index asset_intelligence_manage = 15
permission_index security_session_manage = 16
permission_index release_readiness_manage = 17
permission_index backup_verify = 18
permission_index backup_restore_request = 19
permission_index payment_plan_read = 20
permission_index payment_plan_manage = 21
permission_index payment_transaction_read = 22
permission_index payment_reconciliation_manage = 23
permission_index payment_refund_request = 24
permission_index payment_refund_approve = 25
permission_index payment_configuration_manage = 26

-- The text of a permission.
abbrev pub permission_key : Permission → String
permission_key internal_admin_read = "internal_admin.read"
permission_key internal_admin_invite = "internal_admin.invite"
permission_key internal_admin_assign_role = "internal_admin.assign_role"
permission_key internal_admin_change_scope = "internal_admin.change_scope"
permission_key internal_admin_suspend = "internal_admin.suspend"
permission_key internal_admin_revoke_sessions = "internal_admin.revoke_sessions"
permission_key internal_admin_view_audit = "internal_admin.view_audit"
permission_key organization_review = "organization.review"
permission_key organization_manage = "organization.manage"
permission_key provider_review = "provider.review"
permission_key provider_manage = "provider.manage"
permission_key report_operations = "report.operations"
permission_key support_account_assistance = "support.account_assistance"
permission_key compliance_audit_read = "compliance.audit_read"
permission_key investigation_manage = "investigation.manage"
permission_key asset_intelligence_manage = "asset_intelligence.manage"
permission_key security_session_manage = "security.session_manage"
permission_key release_readiness_manage = "release.readiness_manage"
permission_key backup_verify = "backup.verify"
permission_key backup_restore_request = "backup.restore_request"
permission_key payment_plan_read = "payment.plan_read"
permission_key payment_plan_manage = "payment.plan_manage"
permission_key payment_transaction_read = "payment.transaction_read"
permission_key payment_reconciliation_manage = "payment.reconciliation_manage"
permission_key payment_refund_request = "payment.refund_request"
permission_key payment_refund_approve = "payment.refund_approve"
permission_key payment_configuration_manage = "payment.configuration_manage"

abbrev pub same_permission : Permission → Permission → Bool
same_permission p q = permission_index p == permission_index q

-- `permissions.includes(p)`
abbrev pub includes : List Permission → Permission → Bool
includes permissions p = any (same_permission p) permissions

-- `internalAdminPermissionKeys`
unfoldable pub internal_admin_permission_keys : List Permission
internal_admin_permission_keys =
    internal_admin_read ∷ internal_admin_invite ∷ internal_admin_assign_role
    ∷ internal_admin_change_scope ∷ internal_admin_suspend ∷ internal_admin_revoke_sessions
    ∷ internal_admin_view_audit ∷ organization_review ∷ organization_manage ∷ provider_review
    ∷ provider_manage ∷ report_operations ∷ support_account_assistance ∷ compliance_audit_read
    ∷ investigation_manage ∷ asset_intelligence_manage ∷ security_session_manage
    ∷ release_readiness_manage ∷ backup_verify ∷ backup_restore_request ∷ payment_plan_read
    ∷ payment_plan_manage ∷ payment_transaction_read ∷ payment_reconciliation_manage
    ∷ payment_refund_request ∷ payment_refund_approve ∷ payment_configuration_manage ∷ []

pub data InternalScopeType : Type 0 where
  platform_scope module_scope organization_scope jurisdiction_scope : InternalScopeType

-- `InternalRoleDefinition`; the text of a role is its canonical name.
pub record InternalRoleDefinition : Type 0 where
  pub role : UserRole
  pub canonical_name : String
  pub permissions : List Permission
  pub default_scope_type : InternalScopeType
  pub requires_enterprise_feature : Option String
  pub high_risk_grant : Bool

abbrev role_definition :
    UserRole → String → InternalScopeType → List Permission → InternalRoleDefinition
role_definition role name scope permissions = record {
  role = role;
  canonical_name = name;
  permissions = permissions;
  default_scope_type = scope;
  requires_enterprise_feature = none;
  high_risk_grant = false;
}

abbrev reserved : String → InternalRoleDefinition → InternalRoleDefinition
reserved feature definition = record definition { requires_enterprise_feature = some feature }

-- `internalRoleCatalog`
unfoldable pub internal_role_catalog : List InternalRoleDefinition
unfolding internal_admin_permission_keys
internal_role_catalog =
    record (role_definition UserRole.platform_super_admin "PLATFORM_SUPER_ADMIN" platform_scope
      internal_admin_permission_keys) { high_risk_grant = true }
    ∷ role_definition UserRole.operations_admin "OPERATIONS_ADMIN" module_scope
        (report_operations ∷ organization_review ∷ [])
    ∷ role_definition UserRole.organization_onboarding_admin "ORGANIZATION_ONBOARDING_ADMIN"
        organization_scope (organization_review ∷ organization_manage ∷ [])
    ∷ role_definition UserRole.provider_admin "PROVIDER_ADMIN" organization_scope
        (provider_review ∷ provider_manage ∷ [])
    ∷ role_definition UserRole.finance_billing_admin "FINANCE_BILLING_ADMIN" platform_scope (
        payment_plan_read ∷ payment_transaction_read ∷ payment_reconciliation_manage
        ∷ payment_refund_request ∷ [])
    ∷ role_definition UserRole.support_admin "SUPPORT_ADMIN" platform_scope
        (support_account_assistance ∷ internal_admin_read ∷ [])
    ∷ role_definition UserRole.compliance_audit_admin "COMPLIANCE_AUDIT_ADMIN" platform_scope
        (compliance_audit_read ∷ internal_admin_view_audit ∷ [])
    ∷ role_definition UserRole.security_admin "SECURITY_ADMIN" platform_scope
        (security_session_manage ∷ internal_admin_revoke_sessions ∷ internal_admin_view_audit ∷ [])
    ∷ reserved "INVESTIGATION" (
        role_definition UserRole.investigation_admin "INVESTIGATION_ADMIN" module_scope
          (investigation_manage ∷ []))
    ∷ reserved "ASSET_INTELLIGENCE" (
        role_definition UserRole.asset_intelligence_admin "ASSET_INTELLIGENCE_ADMIN" module_scope
          (asset_intelligence_manage ∷ []))
    ∷ role_definition UserRole.release_operations_admin "RELEASE_OPERATIONS_ADMIN" platform_scope
        (release_readiness_manage ∷ backup_verify ∷ [])
    ∷ role_definition UserRole.backup_recovery_admin "BACKUP_RECOVERY_ADMIN" platform_scope
        (backup_verify ∷ backup_restore_request ∷ [])
    ∷ []

abbrev pub role_index : UserRole → ℕ
role_index UserRole.platform_super_admin = 0
role_index UserRole.platform_owner = 1
role_index UserRole.executive_super_admin = 2
role_index UserRole.technical_admin = 3
role_index UserRole.operations_admin = 4
role_index UserRole.organization_onboarding_admin = 5
role_index UserRole.provider_admin = 6
role_index UserRole.finance_billing_admin = 7
role_index UserRole.billing_admin = 8
role_index UserRole.legal_admin = 9
role_index UserRole.assignment_admin = 10
role_index UserRole.asset_admin = 11
role_index UserRole.asset_intelligence_admin = 12
role_index UserRole.compliance_admin = 13
role_index UserRole.compliance_audit_admin = 14
role_index UserRole.regulatory_admin = 15
role_index UserRole.security_admin = 16
role_index UserRole.investigation_admin = 17
role_index UserRole.release_operations_admin = 18
role_index UserRole.backup_recovery_admin = 19
role_index UserRole.support_admin = 20
role_index UserRole.super_admin = 21
role_index UserRole.org_admin = 22
role_index UserRole.dispatch_officer = 23
role_index UserRole.provider = 24
role_index UserRole.pending_provider = 25
role_index UserRole.citizen = 26

abbrev pub same_role : UserRole → UserRole → Bool
same_role a b = role_index a == role_index b

-- `catalog.find(test)`
unfoldable pub find_definition :
    (InternalRoleDefinition → Bool) → List InternalRoleDefinition → Option InternalRoleDefinition
find_definition test [] = none
find_definition test (d ∷ ds) =
    let later = find_definition test ds in if test d then some d else later

-- `resolveInternalRoleDefinition`
unfoldable pub resolve_internal_role_definition : UserRole → Option InternalRoleDefinition
unfolding find_definition internal_role_catalog
resolve_internal_role_definition role =
    find_definition (λ d. same_role d.role role) internal_role_catalog

-- `roleDefinitionEnabled`; `flag` is `enterpriseFlagEnabled` of a variable of the process environment,
-- and the feature stands in the catalogue as in the variable's name.
unfoldable pub role_definition_enabled : (String → Bool) → InternalRoleDefinition → Bool
role_definition_enabled flag definition = elim definition.requires_enterprise_feature [
  | none ↦ true
  | some feature ↦
      flag "SECUREZONE_ENTERPRISE_FOUNDATIONS_ENABLED"
      && flag (str_append "SECUREZONE_" (str_append feature "_ENABLED"))
]
