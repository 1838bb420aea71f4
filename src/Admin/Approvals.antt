-- ===== src/Admin/Approvals.antt =====
-- Requests of two-person approval (src/internal-admin/internal-admin.service.ts): how they are made and
-- decided, who may decide one, and who may read them.
use fixzone_enterprise_api.Base.{
  ℕ, String, Bool, true, false, ◌||◌, Option, none, some, List, [], ◌∷◌, ◌++◌, ◌==◌, str_eq,
  is_empty, trimmed, put, if◌then◌else◌,
}
use fixzone_enterprise_api.Base.Result.{Result, ok, err, bad_request}
use fixzone_enterprise_api.Report.Types.{UserRole}
use fixzone_enterprise_api.Admin.Catalog.{includes, internal_admin_view_audit}
use fixzone_enterprise_api.Admin.Office.{
  InternalAdminUser, PrivilegedOperationType, platform_super_admin_grant, role_definition_change,
  production_restore_authorization, enterprise_feature_enablement, payment_configuration_change,
  high_value_refund_approval, ApprovalStatus, ApprovalRequest, Office, AdminEnv, AdminCall, lift,
  found, unless, modify, ◌>>=◌, actor_id, write_audit, deny,
}
use fixzone_enterprise_api.Admin.Authority.{
  high_risk_operation_permission, is_any_super, Effective, assert_permission, required_text,
  parse_internal_role,
}
use fixzone_enterprise_api.Admin.Scopes.{normal_id}

abbrev operation_named : String → Option PrivilegedOperationType
operation_named text =
    if str_eq text "PLATFORM_SUPER_ADMIN_GRANT"
    then some platform_super_admin_grant
    else if str_eq text "ROLE_DEFINITION_CHANGE"
    then some role_definition_change
    else if str_eq text "PRODUCTION_RESTORE_AUTHORIZATION"
    then some production_restore_authorization
    else if str_eq text "ENTERPRISE_FEATURE_ENABLEMENT"
    then some enterprise_feature_enablement
    else if str_eq text "PAYMENT_CONFIGURATION_CHANGE"
    then some payment_configuration_change
    else if str_eq text "HIGH_VALUE_REFUND_APPROVAL"
    then some high_value_refund_approval
    else none

-- `parseOperationType`
unfoldable pub parse_operation_type : AdminEnv → Option String → Result PrivilegedOperationType
unfolding required_text
parse_operation_type env raw = elim (required_text raw "operationType is required.") [
  | err e ↦ err e
  | ok text ↦ elim (operation_named (env.upper text)) [
    | none ↦ err (bad_request "Invalid privileged operation type.")
    | some operation ↦ ok operation
  ]
]

-- `CreatePrivilegedApprovalDto`
pub record ApprovalDto : Type 0 where
  pub operation_type : Option String
  pub target_user_id : Option ℕ
  pub organization_id : Option ℕ
  pub requested_role : Option String
  pub reason : Option String

-- The role that a request names, where it names one.
abbrev requested_role_of : AdminEnv → Option String → Result (Option UserRole)
requested_role_of env none = ok none
requested_role_of env (some text) =
    if is_empty text
    then ok none
    else elim (parse_internal_role env (some text)) [ err e ↦ err e | ok role ↦ ok (some role) ]

-- The row that `createApprovalRequest` creates.
abbrev pub new_approval :
    PrivilegedOperationType → ℕ → Option UserRole → ApprovalDto → String → ApprovalRequest
new_approval operation actor role dto blocked_reason = record {
  operation_type = operation;
  status = ApprovalStatus.pending;
  requester_id = actor;
  approver_id = none;
  target_user_id = normal_id dto.target_user_id;
  organization_id = normal_id dto.organization_id;
  requested_role = role;
  blocked_reason = blocked_reason;
  reason = trimmed dto.reason;
  decision_reason = none;
  decided_at = none;
  execution_blocked = true;
}

abbrev pub with_approval : ℕ → ApprovalRequest → Office → Office
with_approval id r o = record o { approvals = o.approvals ++ (id, r) ∷ [] }

-- `createApprovalRequest`; the answer is the new row's identifier.
unfoldable pub create_approval_request :
    AdminEnv → ApprovalDto → InternalAdminUser → String → AdminCall ℕ
create_approval_request env dto user blocked_reason = do
  operation ← lift (parse_operation_type env dto.operation_type)
  _ ← assert_permission env user (high_risk_operation_permission operation) none
  actor ← lift (actor_id user)
  role ← lift (requested_role_of env dto.requested_role)
  _ ← modify (with_approval env.new_id (new_approval operation actor role dto blocked_reason))
  _ ← write_audit user "Privileged Approval Requested" (some env.new_id)
  lift (ok env.new_id)

-- What a decision writes on the request's row.
abbrev pub decided : ℕ → ℕ → Bool → Option String → ApprovalRequest → ApprovalRequest
decided now actor approve reason r = record r {
  status = if approve then ApprovalStatus.execution_blocked else ApprovalStatus.rejected;
  approver_id = some actor;
  decided_at = some now;
  decision_reason = trimmed reason;
  execution_blocked = true;
}

abbrev pub is_approval : AdminEnv → String → Bool
is_approval env decision = str_eq (env.upper decision) "APPROVE"

abbrev pub decision_action : Bool → String
decision_action true = "Privileged Approval Decision Blocked Execution"
decision_action false = "Privileged Approval Rejected"

abbrev pub with_decision : ℕ → ApprovalRequest → Office → Office
with_decision id r o = record o { approvals = put id r o.approvals }

-- `decideApprovalRequest`; the answer is the row's identifier.
unfoldable pub decide_approval_request :
    AdminEnv → ℕ → String → Option String → InternalAdminUser → AdminCall ℕ
decide_approval_request env id decision reason user = do
  request ← found id (λ o. o.approvals) "Approval request not found"
  actor ← lift (actor_id user)
  _ ←
      unless (request.requester_id == actor)
        (deny user "Requester cannot approve their own request.")
  _ ← assert_permission env user (high_risk_operation_permission request.operation_type) none
  let approve = is_approval env decision
  _ ← modify (with_decision id (decided env.now actor approve reason request))
  _ ← write_audit user (decision_action approve) (some id)
  lift (ok id)

-- The reasons of `approvalDecisionEligibility`.
pub data Eligibility : Type 0 where
  can_decide not_pending self_approval_denied permission_denied : Eligibility

abbrev pub is_pending : ApprovalStatus → Bool
is_pending ApprovalStatus.pending = true
is_pending _ = false

-- `approvalDecisionEligibility`
unfoldable pub approval_decision_eligibility :
    ApprovalRequest → InternalAdminUser → Effective → Result Eligibility
approval_decision_eligibility r user effective =
    if is_pending r.status
    then elim (actor_id user) [
      | err e ↦ err e
      | ok actor ↦
          if r.requester_id == actor
          then ok self_approval_denied
          else if includes effective.permissions (high_risk_operation_permission r.operation_type)
          then ok can_decide
          else ok permission_denied
    ]
    else ok not_pending

-- `Object.values(PrivilegedOperationType)`
abbrev operations : List PrivilegedOperationType
operations =
    platform_super_admin_grant ∷ role_definition_change ∷ production_restore_authorization
    ∷ enterprise_feature_enablement ∷ payment_configuration_change ∷ high_value_refund_approval ∷ []

abbrev requiring : Effective → List PrivilegedOperationType → List PrivilegedOperationType
requiring effective [] = []
requiring effective (x ∷ xs) =
    let rest = requiring effective xs in
    if includes effective.permissions (high_risk_operation_permission x) then x ∷ rest else rest

-- `readableApprovalOperations`
unfoldable pub readable_approval_operations :
    InternalAdminUser → Effective → List PrivilegedOperationType
readable_approval_operations user effective =
    if is_any_super user.role || includes effective.permissions internal_admin_view_audit
    then operations
    else requiring effective operations

-- `executionState`
abbrev pub execution_state : ApprovalRequest → String
execution_state r = elim r.status [
  | ApprovalStatus.pending ↦ "PENDING"
  | ApprovalStatus.rejected ↦ "NOT_APPLICABLE"
  | ApprovalStatus.cancelled ↦ "NOT_APPLICABLE"
  | _ ↦ "BLOCKED"
]
