-- ===== src/Admin/Office.antt =====
-- The tables that internal administration reads and writes (prisma/schema.prisma), the caller, and
-- calls on them: a call answers or throws, and leaves new tables either way. Identifiers are numbers,
-- with 0 for the empty text; the metadata of audit rows is left out.
use fixzone_enterprise_api.Base.{
  ℕ, String, Bool, Option, none, some, List, [], ◌∷◌, ◌++◌, Table, find, is_id, or_else,
  if◌then◌else◌,
}
use fixzone_enterprise_api.Base.Result.{Result, ok, err, Error, forbidden, not_found}
use fixzone_enterprise_api.Report.Types.{UserRole, AccountStatus}
use fixzone_enterprise_api.Admin.Catalog.{Permission, InternalScopeType}

-- `InternalAdminUser`
pub record InternalAdminUser : Type 0 where
  pub id : Option ℕ
  pub user_id : Option ℕ
  pub sub : Option ℕ
  pub email : Option String
  pub role : Option UserRole
  pub organization_id : Option ℕ
  pub account_status : Option AccountStatus

-- The columns of a user.
pub record Account : Type 0 where
  pub email : Option String
  pub role : UserRole
  pub organization_id : Option ℕ
  pub account_status : AccountStatus
  pub token_version : ℕ

pub data AssignmentStatus : Type 0 where
  active inactive revoked expired pending_approval : AssignmentStatus

-- `InternalScope`; the jurisdiction is left out.
pub record InternalScope : Type 0 where
  pub type : InternalScopeType
  pub reference : Option ℕ
  pub organization_id : Option ℕ
  pub module_key : Option String

pub record InternalRoleAssignment : Type 0 where
  pub user_id : ℕ
  pub role : UserRole
  pub status : AssignmentStatus
  pub scope : InternalScope
  pub permissions_snapshot : List Permission
  pub assigned_by_id : ℕ
  pub reason : Option String
  pub starts_at : ℕ
  pub expires_at : Option ℕ
  pub revoked_at : Option ℕ
  pub revoked_by_id : Option ℕ
  pub revocation_reason : Option String

pub data InvitationStatus : Type 0 where
  pending accepted declined cancelled revoked expired : InvitationStatus

-- An invitation; `scope` is what its metadata has under this name.
pub record Invitation : Type 0 where
  pub email : Option String
  pub full_name : String
  pub role : UserRole
  pub status : InvitationStatus
  pub invite_code : String
  pub organization_id : Option ℕ
  pub invited_by_id : ℕ
  pub accepted_user_id : Option ℕ
  pub scope : Option InternalScope
  pub expires_at : Option ℕ
  pub accepted_at : Option ℕ

pub data PrivilegedOperationType : Type 0 where
  platform_super_admin_grant role_definition_change : PrivilegedOperationType
  production_restore_authorization enterprise_feature_enablement : PrivilegedOperationType
  payment_configuration_change high_value_refund_approval : PrivilegedOperationType

pub data ApprovalStatus : Type 0 where
  pending approved rejected cancelled execution_blocked : ApprovalStatus

pub record ApprovalRequest : Type 0 where
  pub operation_type : PrivilegedOperationType
  pub status : ApprovalStatus
  pub requester_id : ℕ
  pub approver_id : Option ℕ
  pub target_user_id : Option ℕ
  pub organization_id : Option ℕ
  pub requested_role : Option UserRole
  pub blocked_reason : String
  pub reason : Option String
  pub decision_reason : Option String
  pub decided_at : Option ℕ
  pub execution_blocked : Bool

pub record AdminAudit : Type 0 where
  pub actor_id : ℕ
  pub actor_role : Option UserRole
  pub organization_id : Option ℕ
  pub action : String
  pub entity_id : Option ℕ

pub record Office : Type 0 where
  pub accounts : Table Account
  pub assignments : Table InternalRoleAssignment
  pub invitations : Table Invitation
  pub approvals : Table ApprovalRequest
  pub notified : List ℕ
  pub audit_log : List AdminAudit

-- What a call reads and does not change, or draws: the clock, JavaScript's upper and lower case and
-- `Date` of a text, the enterprise flags, a fresh identifier and a fresh invitation code.
pub record AdminEnv : Type 0 where
  pub now : ℕ
  pub upper : String → String
  pub lower : String → String
  pub parse_date : String → Option ℕ
  pub flag : String → Bool
  pub new_id : ℕ
  pub new_code : String

abbrev pub AdminCall : Type 0 → Type 0
AdminCall A = Office → Result A × Office

abbrev pub fail : {A : Type 0} → Error → AdminCall A
fail e o = (err e, o)

abbrev pub lift : {A : Type 0} → Result A → AdminCall A
lift r o = (r, o)

-- The statements after a call run where it answers, on the tables that it left.
infixl 5 ◌>>=◌ ◌>>◌
unfoldable pub ◌>>=◌ : {A B : Type 0} → AdminCall A → (A → AdminCall B) → AdminCall B
(m >>= f) o = let (r, o') = m o in elim r [ err e ↦ (err e, o') | ok a ↦ f a o' ]

abbrev pub ◌>>◌ : {A B : Type 0} → AdminCall A → AdminCall B → AdminCall B
m >> n = m >>= (λ _. n)

-- `findUnique`, where a missing row is an error.
unfoldable pub found : {A : Type 0} → ℕ → (Office → Table A) → String → AdminCall A
found id rows message o = elim (find id (rows o)) [
  | none ↦ (err (not_found message), o)
  | some a ↦ (ok a, o)
]

-- `if (refused) …`, where what follows the test throws.
abbrev pub unless : Bool → AdminCall (Unit {0}) → AdminCall (Unit {0})
unless refused throws = if refused then throws else lift (ok tt)

abbrev pub modify : (Office → Office) → AdminCall (Unit {0})
modify change o = (ok tt, change o)

-- `actorId`
unfoldable pub actor_id : InternalAdminUser → Result ℕ
actor_id user = elim (or_else user.id (or_else user.user_id user.sub)) [
  | none ↦ err (forbidden "Actor missing.")
  | some id ↦ if is_id (some id) then ok id else err (forbidden "Actor missing.")
]

-- `audit`
unfoldable pub write_audit : InternalAdminUser → String → Option ℕ → AdminCall (Unit {0})
write_audit user action entity = do
  actor ← lift (actor_id user)
  λ o. (
    ok tt,
    record o {
      audit_log =
          o.audit_log
          ++ record {
            actor_id = actor;
            actor_role = user.role;
            organization_id = user.organization_id;
            action = action;
            entity_id = entity;
          }
            ∷ [];
    },
  )

-- `auditDenied`, and what is thrown then.
unfoldable pub deny : {A : Type 0} → InternalAdminUser → String → AdminCall A
deny user message =
    write_audit user "Internal Admin Privilege Denied" none >> fail (forbidden message)
