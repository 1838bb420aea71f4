-- ===== src/Auth/Registry.antt =====
-- The tables that authentication reads and writes (prisma/schema.prisma), and what it uses besides. The
-- metadata of audit rows is left out.
use fixzone_enterprise_api.Base.{
  ℕ, String, Bool, true, false, not, ◌&&◌, Option, none, some, List, [], ◌∷◌, ◌++◌, is_text, str_eq,
  Table,
}
use fixzone_enterprise_api.Base.Result.{Result, Error, unauthorized}
use fixzone_enterprise_api.Report.Types.{UserRole, AccountStatus}
use fixzone_enterprise_api.Mfa.Vault.{Vault, MfaEnv}

-- The columns of a user that authentication uses.
pub record UserRow : Type 0 where
  pub email : Option String
  pub phone : Option String
  pub firebase_uid : Option String
  pub provider_id : Option String
  pub password_hash : Option String
  pub role : UserRole
  pub account_status : AccountStatus
  pub organization_id : Option ℕ
  pub token_version : ℕ

pub record PasswordResetToken : Type 0 where
  pub user_id : ℕ
  pub token_digest : String
  pub expires_at : ℕ
  pub used_at : Option ℕ
  pub superseded_at : Option ℕ
  pub requested_by_id : Option ℕ
  pub delivery_status : String
  pub created_at : ℕ

-- A row of the audit log; nobody is 'anonymous'.
pub record AuthAudit : Type 0 where
  pub action : String
  pub actor_user_id : Option ℕ

-- What is passed to `trustService.recordLogin`.
pub record LoginRecord : Type 0 where
  pub user_id : Option ℕ
  pub success : Bool
  pub failure_reason : Option String

pub record Registry : Type 0 where
  pub users : Table UserRow
  pub reset_tokens : Table PasswordResetToken
  pub logins : List LoginRecord
  pub audit_log : List AuthAudit
  pub vault : Vault

pub record DeliveryResult : Type 0 where
  pub delivered : Bool
  pub status : String

-- `PasswordResetDeliveryService`: its configuration, and what it answers for an address, a token and a
-- route.
pub record DeliveryService : Type 0 where
  pub enabled : Bool
  pub cooldown_seconds : ℕ
  pub daily_limit : ℕ
  pub deliver_to : String → String → Option String → DeliveryResult

-- The clock in milliseconds, SHA-256, bcrypt, lower case, a fresh token with a fresh identifier, the
-- lifetime of tokens that is configured where it is a whole number, the services that may be missing,
-- and the trust service's `ensureIdentity`.
pub record AuthEnv : Type 0 where
  pub now : ℕ
  pub digest : String → String
  pub hash_password : String → String
  pub compare_password : String → String → Bool
  pub lower : String → String
  pub new_token : String
  pub new_id : ℕ
  pub ttl_minutes : Option ℕ
  pub delivery : Option DeliveryService
  pub mfa : Option MfaEnv
  pub ensure_identity : ℕ → Result (Unit {0})

abbrev pub AuthCall : Type 0 → Type 0
AuthCall A = Registry → Result A × Registry

-- `audit`
abbrev pub log : String → Option ℕ → Registry → Registry
log action actor g = record g {
  audit_log = g.audit_log ++ record { action = action; actor_user_id = actor } ∷ [];
}

-- `genericAuthFailure`
abbrev pub generic_auth_failure : Error
generic_auth_failure = unauthorized "Authentication failed"

abbrev pub is_active_status : AccountStatus → Bool
is_active_status AccountStatus.active = true
is_active_status _ = false

abbrev is_citizen : UserRole → Bool
is_citizen UserRole.citizen = true
is_citizen _ = false

-- `isFirebaseOwnedCitizen`
abbrev pub is_firebase_owned_citizen : UserRow → Bool
is_firebase_owned_citizen u = is_citizen u.role && is_text u.firebase_uid

-- The user has a password and an active account that Firebase does not own.
abbrev pub can_recover : UserRow → Bool
can_recover u =
    is_text u.password_hash
    && is_active_status u.account_status
    && not (is_firebase_owned_citizen u)

-- A nullable column that has a text.
abbrev pub has_text : String → Option String → Bool
has_text text none = false
has_text text (some other) = str_eq other text
