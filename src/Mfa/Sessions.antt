-- ===== src/Mfa/Sessions.antt =====
-- The pre-authentication sessions of the second factor (src/auth/privileged-mfa.service.ts): the
-- checks of a token, and what a wrong code writes.
use Prim.Native.Char.{Char, code}
use fixzone_enterprise_api.Base.{
  ℕ, ◌+◌, String, Bool, true, false, not, ◌&&◌, ◌||◌, Option, none, some, [], ◌∷◌, ◌++◌, ◌==◌, ltb,
  leb, is_some, str_eq, trim, Table, find, put, find_first, find_many, if◌then◌else◌,
}
use fixzone_enterprise_api.Base.Result.{Result, ok, err, Error, unauthorized, database}
use fixzone_enterprise_api.Report.Types.{AccountStatus}
use fixzone_enterprise_api.Mfa.Vault.{
  EnrollmentStatus, PreAuthPurpose, enrollment, challenge, Enrollment, PreAuthSession, MfaUser,
  Vault, MfaEnv, requires_privileged_mfa,
}

abbrev pub MfaCall : Type 0 → Type 0
MfaCall A = Vault → Result A × Vault

-- `invalidMfaCode` and `invalidMfaState`
abbrev pub mfa_failed : Error
mfa_failed = unauthorized "MFA verification failed"

abbrev pub same_purpose : PreAuthPurpose → PreAuthPurpose → Bool
same_purpose enrollment enrollment = true
same_purpose challenge challenge = true
same_purpose _ _ = false

abbrev pub is_active_account : AccountStatus → Bool
is_active_account AccountStatus.active = true
is_active_account _ = false

-- `maxAttempts`
abbrev pub max_attempts : ℕ
max_attempts = 5

-- The conditions of `validatePreAuth`, that is, the negation of those that it throws for.
unfoldable pub is_open : MfaEnv → PreAuthPurpose → PreAuthSession → MfaUser → Bool
is_open env purpose session user =
    same_purpose session.purpose purpose
    && not (is_some session.consumed_at)
    && not (is_some session.locked_at)
    && ltb env.now session.expires_at
    && ltb session.failed_attempts max_attempts
    && is_active_account user.account_status
    && requires_privileged_mfa user.role

abbrev pub has_digest : String → PreAuthSession → Bool
has_digest digest session = str_eq session.token_digest digest

-- A session that passes: its identifier, its row and its user.
pub record PreAuth : Type 0 where
  pub id : ℕ
  pub session : PreAuthSession
  pub user : MfaUser

-- `validatePreAuth`; the user of a session is there, by the foreign key.
unfoldable pub validate_pre_auth : MfaEnv → String → PreAuthPurpose → Vault → Result PreAuth
unfolding is_open
validate_pre_auth env token purpose v =
    elim (find_first (has_digest (env.digest (trim token))) v.sessions) [
      | none ↦ err mfa_failed
      | some (id, session) ↦ elim (find session.user_id env.users) [
        | none ↦ err (database "Inconsistent query result")
        | some user ↦
            if is_open env purpose session user
            then ok (record { id = id; session = session; user = user })
            else err mfa_failed
      ]
    ]

abbrev pub audited : String → PreAuth → Vault → Vault
audited action p v = record v {
  audit_log =
      v.audit_log
      ++ record {
        actor_id = p.session.user_id;
        actor_role = p.user.role;
        organization_id = p.user.organization_id;
        action = action;
      }
        ∷ [];
}

-- The row that `recordFailedAttempt` leaves.
abbrev pub attempted : MfaEnv → PreAuthSession → PreAuthSession
attempted env session = record session {
  failed_attempts = session.failed_attempts + 1;
  locked_at =
      if leb max_attempts (session.failed_attempts + 1) then some env.now else session.locked_at;
}

-- `recordFailedAttempt`
abbrev pub record_failed_attempt : MfaEnv → PreAuth → Vault → Vault
record_failed_attempt env p v = record v {
  sessions = put p.id (attempted env p.session) v.sessions;
}

abbrev pub consumed : MfaEnv → PreAuthSession → PreAuthSession
consumed env session = record session { consumed_at = some env.now }

abbrev pub consume_session : MfaEnv → PreAuth → Vault → Vault
consume_session env p v = record v { sessions = put p.id (consumed env p.session) v.sessions }

-- A time before another in a descending order, in which a missing one comes first.
abbrev is_later : Option ℕ → Option ℕ → Bool
is_later none _ = true
is_later (some a) none = false
is_later (some a) (some b) = leb b a

-- The first row in the descending order of a time.
unfoldable pub newest : (Enrollment → Option ℕ) → Table Enrollment → Option (ℕ × Enrollment)
newest time [] = none
newest time ((id, e) ∷ rows) = elim (newest time rows) [
  | none ↦ some (id, e)
  | some (j, f) ↦ if is_later (time e) (time f) then some (id, e) else some (j, f)
]

abbrev same_enrollment_status : EnrollmentStatus → EnrollmentStatus → Bool
same_enrollment_status EnrollmentStatus.pending EnrollmentStatus.pending = true
same_enrollment_status EnrollmentStatus.active EnrollmentStatus.active = true
same_enrollment_status EnrollmentStatus.disabled EnrollmentStatus.disabled = true
same_enrollment_status _ _ = false

abbrev is_enrolled : ℕ → EnrollmentStatus → Enrollment → Bool
is_enrolled user status e =
    e.user_id == user && same_enrollment_status e.status status && not (is_some e.disabled_at)

-- `activeEnrollment`
unfoldable pub active_enrollment : ℕ → Vault → Option (ℕ × Enrollment)
unfolding newest
active_enrollment user v =
    newest (λ e. e.enabled_at) (find_many (is_enrolled user EnrollmentStatus.active) v.enrollments)

-- `pendingEnrollment`
unfoldable pub pending_enrollment : ℕ → Vault → Option (ℕ × Enrollment)
unfolding newest
pending_enrollment user v =
    newest (λ e. some e.created_at)
      (find_many (is_enrolled user EnrollmentStatus.pending) v.enrollments)

abbrev is_alphanumeric : Char → Bool
is_alphanumeric c =
    (leb 48 (code c) && leb (code c) 57)
    || (leb 65 (code c) && leb (code c) 90)
    || (leb 97 (code c) && leb (code c) 122)

-- `replace(/[^A-Z0-9]/gi, '')`
unfoldable pub keep_alphanumeric : String → String
keep_alphanumeric String.[] = ""
keep_alphanumeric (String.◌∷◌ c s) =
    let rest = keep_alphanumeric s in if is_alphanumeric c then String.◌∷◌ c rest else rest

-- `digestRecoveryCode`
unfoldable pub digest_recovery_code : MfaEnv → String → String
unfolding keep_alphanumeric
digest_recovery_code env text = env.digest (env.upper (keep_alphanumeric text))
