-- ===== src/Mfa/Enrolling.antt =====
-- `createPreAuthSession`, `startEnrollment` and `confirmEnrollment`
-- (src/auth/privileged-mfa.service.ts), and the calls of the service as one function over requests.
pub mod Touches
pub mod Guards
pub mod Limits
pub mod Phases
use fixzone_enterprise_api.Base.{
  ℕ, zero, suc, ◌+◌, ◌-◌, ◌*◌, String, Bool, true, false, not, ◌&&◌, ◌||◌, Option, none, some, List,
  take, [], ◌∷◌, ◌++◌, map, any, ◌==◌, is_some, str_eq, str_append, text_length, take_chars,
  drop_chars, Table, find, put, find_many, update_many, if◌then◌else◌,
}
use fixzone_enterprise_api.Base.Result.{Result, ok, err, database}
use fixzone_enterprise_api.Mfa.Base32.{base32_encode}
use fixzone_enterprise_api.Mfa.Vault.{
  EnrollmentStatus, PreAuthPurpose, enrollment, challenge, Enrollment, BackupCode, PreAuthSession,
  MfaUser, Vault, MfaEnv, requires_privileged_mfa,
}
use fixzone_enterprise_api.Mfa.Totp.{match_totp_step}
use fixzone_enterprise_api.Mfa.Sessions.{
  MfaCall, mfa_failed, PreAuth, has_digest, validate_pre_auth, audited, record_failed_attempt,
  consume_session, active_enrollment, pending_enrollment, keep_alphanumeric, digest_recovery_code,
}
use fixzone_enterprise_api.Mfa.Challenge.{MfaMethod, complete_challenge}

abbrev pub new_session : MfaEnv → ℕ → PreAuthPurpose → PreAuthSession
new_session env user purpose = record {
  user_id = user;
  token_digest = env.digest env.new_token;
  purpose = purpose;
  expires_at = env.now + 10 * 60000;
  consumed_at = none;
  failed_attempts = 0;
  locked_at = none;
}

-- `createPreAuthSession`; a digest of a token stands once.
unfoldable pub create_pre_auth_session : MfaEnv → ℕ → MfaUser → MfaCall PreAuth
create_pre_auth_session env user_id user v =
    if not (requires_privileged_mfa user.role)
    then (err mfa_failed, v)
    else if any (λ row. has_digest (env.digest env.new_token) row.1) v.sessions
    then (err (database "Unique constraint failed"), v)
    else let purpose = if is_some (active_enrollment user_id v) then challenge else enrollment in
      let session = new_session env user_id purpose in
      let p : PreAuth = record { id = env.new_session_id; session = session; user = user } in
      (
        ok p,
        audited "Privileged Login Password Accepted MFA Pending" p
            (record v { sessions = v.sessions ++ (env.new_session_id, session) ∷ [] }),
      )

abbrev disabled : MfaEnv → Enrollment → Enrollment
disabled env e = record e { status = EnrollmentStatus.disabled; disabled_at = some env.now }

abbrev is_pending_of : ℕ → Enrollment → Bool
is_pending_of user e =
    e.user_id == user && elim e.status [ EnrollmentStatus.pending ↦ true | _ ↦ false ]

abbrev new_enrollment : MfaEnv → ℕ → String → Enrollment
new_enrollment env user secret = record {
  user_id = user;
  status = EnrollmentStatus.pending;
  encrypted_totp_secret = secret;
  enabled_at = none;
  enforced_at = none;
  last_verified_at = none;
  last_verified_step = none;
  disabled_at = none;
  created_at = env.now;
}

-- The rows of the enrollments behind `startEnrollment`.
abbrev pub enrollment_started : MfaEnv → PreAuth → String → Vault → Vault
enrollment_started env p encrypted v = audited "Privileged MFA Enrollment Started" p (record v {
  enrollments =
      update_many (is_pending_of p.session.user_id) (disabled env) v.enrollments
      ++ (env.new_enrollment_id, new_enrollment env p.session.user_id encrypted) ∷ [];
})

-- `startEnrollment`; it answers the secret. `generateTotpSecret` encodes random bytes.
unfoldable pub start_enrollment : MfaEnv → String → MfaCall String
start_enrollment env token v = elim (validate_pre_auth env token enrollment v) [
  | err x ↦ (err x, v)
  | ok p ↦
      let secret = base32_encode env.new_secret in
      elim (env.encrypt secret) [
        | err x ↦ (err x, v)
        | ok encrypted ↦ (ok secret, enrollment_started env p encrypted v)
      ]
]

-- A text of twelve characters in groups of four, and a shorter one as it is.
abbrev grouped : String → String
grouped s =
    if text_length s == 12
    then str_append (take_chars 4 s) (
        str_append "-"
          (str_append (take_chars 4 (drop_chars 4 s)) (str_append "-" (drop_chars 8 s))))
    else s

-- One of `generateRecoveryCodes`, from its random text.
unfoldable pub new_recovery_code : MfaEnv → String → String
new_recovery_code env random = grouped (take_chars 12 (env.upper (keep_alphanumeric random)))

abbrev new_backup_code : MfaEnv → ℕ → ℕ → ℕ × String → ℕ × BackupCode
new_backup_code env user entry (id, random) = (
  id,
  record {
    enrollment_id = entry;
    user_id = user;
    code_digest = digest_recovery_code env (new_recovery_code env random);
    used_at = none;
  },
)

-- The digests of the codes are unique.
abbrev pub are_distinct : Table BackupCode → Bool
are_distinct [] = true
are_distinct ((id, b) ∷ rows) =
    not (any (λ row. str_eq row.1.code_digest b.code_digest) rows) && are_distinct rows

abbrev activated : MfaEnv → Enrollment → Enrollment
activated env e = record e {
  status = EnrollmentStatus.active;
  enabled_at = some env.now;
  enforced_at = some env.now;
  last_verified_at = some env.now;
  last_verified_step = none;
}

abbrev backup_code_count : ℕ
backup_code_count = 10

-- `generateRecoveryCodes`: ten of the draws that the environment holds.
abbrev pub drawn_codes : MfaEnv → List (ℕ × String)
drawn_codes env = take backup_code_count env.recovery_codes

-- The user's backup codes are replaced by the new ones.
abbrev pub new_codes : MfaEnv → ℕ → ℕ → Table BackupCode → Table BackupCode
new_codes env user entry rows =
    find_many (λ b. not (b.user_id == user)) rows
    ++ map (new_backup_code env user entry) (drawn_codes env)

-- The writes of `confirmEnrollment` for a code that is right.
abbrev pub enrollment_completed : MfaEnv → PreAuth → ℕ → Enrollment → Vault → Vault
enrollment_completed env p id e v = audited "Privileged MFA Enrollment Completed" p (
    consume_session env p (record v {
      enrollments = put id (activated env e) v.enrollments;
      backup_codes = new_codes env p.session.user_id id v.backup_codes;
    }))

unfoldable pub confirm_step :
    MfaEnv → PreAuth → ℕ → Enrollment → Result (Option ℕ) → MfaCall (List String)
unfolding new_recovery_code
confirm_step env p id e (err x) v = (err x, v)
confirm_step env p id e (ok none) v = (
  err mfa_failed,
  audited "Privileged MFA Enrollment Confirmation Failed" p (record_failed_attempt env p v),
)
confirm_step env p id e (ok (some step)) v =
    if are_distinct (new_codes env p.session.user_id id v.backup_codes)
    then (
      ok (map (λ row. new_recovery_code env row.1) (drawn_codes env)),
      enrollment_completed env p id e v,
    )
    else (err (database "Unique constraint failed"), v)

unfoldable pub confirm_by :
    MfaEnv → PreAuth → String → Option (ℕ × Enrollment) → MfaCall (List String)
unfolding confirm_step
confirm_by env p code none v = (err mfa_failed, record_failed_attempt env p v)
confirm_by env p code (some (id, e)) v = elim (env.decrypt e.encrypted_totp_secret) [
  | err x ↦ (err x, v)
  | ok secret ↦ confirm_step env p id e (match_totp_step env code secret) v
]

-- `confirmEnrollment`; it answers the recovery codes.
unfoldable pub confirm_enrollment : MfaEnv → String → String → MfaCall (List String)
unfolding confirm_by
confirm_enrollment env token code v = elim (validate_pre_auth env token enrollment v) [
  | err x ↦ (err x, v)
  | ok p ↦ confirm_by env p code (pending_enrollment p.session.user_id v) v
]

pub data MfaRequest : Type 0 where
  log_in : ℕ → MfaUser → MfaRequest
  enroll : String → MfaRequest
  confirm : String → String → MfaRequest
  pass : String → MfaMethod → String → MfaRequest

-- The tables behind a call.
unfoldable pub serve_mfa : MfaEnv → MfaRequest → Vault → Vault
serve_mfa env (log_in id user) v = (create_pre_auth_session env id user v).1
serve_mfa env (enroll token) v = (start_enrollment env token v).1
serve_mfa env (confirm token code) v = (confirm_enrollment env token code v).1
serve_mfa env (pass token method code) v = (complete_challenge env token method code v).1
