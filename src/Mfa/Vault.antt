-- ===== src/Mfa/Vault.antt =====
-- The tables that the second factor reads and writes (prisma/schema.prisma), and which roles need it
-- (src/auth/privileged-mfa.policy.ts). The metadata of audit rows is left out.
use fixzone_enterprise_api.Base.{ℕ, String, Bool, true, false, Option, List, Table}
use fixzone_enterprise_api.Base.Result.{Result}
use fixzone_enterprise_api.Report.Types.{UserRole, AccountStatus}

pub data EnrollmentStatus : Type 0 where
  pending active disabled : EnrollmentStatus

pub data PreAuthPurpose : Type 0 where
  enrollment challenge : PreAuthPurpose

pub record Enrollment : Type 0 where
  pub user_id : ℕ
  pub status : EnrollmentStatus
  pub encrypted_totp_secret : String
  pub enabled_at : Option ℕ
  pub enforced_at : Option ℕ
  pub last_verified_at : Option ℕ
  pub last_verified_step : Option ℕ
  pub disabled_at : Option ℕ
  pub created_at : ℕ

pub record BackupCode : Type 0 where
  pub enrollment_id : ℕ
  pub user_id : ℕ
  pub code_digest : String
  pub used_at : Option ℕ

pub record PreAuthSession : Type 0 where
  pub user_id : ℕ
  pub token_digest : String
  pub purpose : PreAuthPurpose
  pub expires_at : ℕ
  pub consumed_at : Option ℕ
  pub failed_attempts : ℕ
  pub locked_at : Option ℕ

-- `MfaUser`
pub record MfaUser : Type 0 where
  pub email : Option String
  pub role : UserRole
  pub organization_id : Option ℕ
  pub account_status : AccountStatus

-- A row of `complianceAuditLog`.
pub record MfaAudit : Type 0 where
  pub actor_id : ℕ
  pub actor_role : UserRole
  pub organization_id : Option ℕ
  pub action : String

pub record Vault : Type 0 where
  pub sessions : Table PreAuthSession
  pub enrollments : Table Enrollment
  pub backup_codes : Table BackupCode
  pub audit_log : List MfaAudit

-- What a call reads and does not change, or draws: the clock in milliseconds, the users, the digest
-- and the cipher of node:crypto, `toUpperCase`, the HMAC of a counter under a key as bytes, and the
-- random values and fresh identifiers.
pub record MfaEnv : Type 0 where
  pub now : ℕ
  pub users : Table MfaUser
  pub digest : String → String
  pub encrypt : String → Result String
  pub decrypt : String → Result String
  pub upper : String → String
  pub hmac_sha1 : List ℕ → ℕ → List ℕ
  pub new_token : String
  pub new_secret : List ℕ
  pub new_session_id : ℕ
  pub new_enrollment_id : ℕ
  pub recovery_codes : List (ℕ × String)

-- `requiresPrivilegedMfa`
unfoldable pub requires_privileged_mfa : UserRole → Bool
requires_privileged_mfa UserRole.org_admin = false
requires_privileged_mfa UserRole.dispatch_officer = false
requires_privileged_mfa UserRole.provider = false
requires_privileged_mfa UserRole.pending_provider = false
requires_privileged_mfa UserRole.citizen = false
requires_privileged_mfa _ = true
