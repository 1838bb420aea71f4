-- ===== src/Mfa/Challenge.antt =====
-- `completeChallenge` with its two methods (src/auth/privileged-mfa.service.ts).
pub mod Cases
pub mod Once
pub mod Spent
use fixzone_enterprise_api.Base.{
  ℕ, String, Bool, true, false, not, ◌&&◌, ◌||◌, Option, none, some, List, [], ◌∷◌, ◌++◌, ◌==◌, ltb,
  leb, is_some, str_eq, Table, find, put, find_first, if◌then◌else◌,
}
use fixzone_enterprise_api.Base.Result.{Result, ok, err}
use fixzone_enterprise_api.Mfa.Vault.{
  challenge, Enrollment, BackupCode, PreAuthSession, MfaUser, Vault, MfaEnv,
}
use fixzone_enterprise_api.Mfa.Totp.{match_totp_step}
use fixzone_enterprise_api.Mfa.Sessions.{
  MfaCall, mfa_failed, PreAuth, validate_pre_auth, audited, record_failed_attempt, consume_session,
  active_enrollment, digest_recovery_code,
}

pub data MfaMethod : Type 0 where
  totp recovery_code : MfaMethod

-- `matchedStep <= BigInt(enrollment.lastVerifiedStep)` where there is such a step.
abbrev pub is_replayed : ℕ → Option ℕ → Bool
is_replayed step none = false
is_replayed step (some last) = leb step last

abbrev pub verified : MfaEnv → ℕ → Enrollment → Enrollment
verified env step e = record e { last_verified_at = some env.now; last_verified_step = some step }

-- The writes for a code that is accepted. The update has the condition that the step is greater than
-- the last one, which the row that was read passes already.
abbrev pub accept_step : MfaEnv → PreAuth → ℕ → Enrollment → ℕ → Vault → Vault
accept_step env p id e step v =
    audited "Privileged MFA Challenge Succeeded" p (
      consume_session env p (record v { enrollments = put id (verified env step e) v.enrollments }))

unfoldable pub answer_step :
    MfaEnv → PreAuth → ℕ → Enrollment → Result (Option ℕ) → MfaCall (Unit {0})
answer_step env p id e (err x) v = (err x, v)
answer_step env p id e (ok none) v =
    (err mfa_failed, audited "Privileged MFA Challenge Failed" p (record_failed_attempt env p v))
answer_step env p id e (ok (some step)) v =
    if is_replayed step e.last_verified_step
    then (err mfa_failed, record_failed_attempt env p v)
    else (ok tt, accept_step env p id e step v)

-- `completeTotpChallenge`
unfoldable pub complete_totp_challenge :
    MfaEnv → PreAuth → ℕ → Enrollment → String → MfaCall (Unit {0})
unfolding answer_step
complete_totp_challenge env p id e code v = elim (env.decrypt e.encrypted_totp_secret) [
  | err x ↦ (err x, v)
  | ok secret ↦ answer_step env p id e (match_totp_step env code secret) v
]

abbrev pub has_code_digest : String → BackupCode → Bool
has_code_digest digest b = str_eq b.code_digest digest

-- A row that `completeRecoveryCodeChallenge` takes.
abbrev pub is_usable : ℕ → ℕ → BackupCode → Bool
is_usable user enrollment b =
    b.user_id == user && b.enrollment_id == enrollment && not (is_some b.used_at)

abbrev pub used : MfaEnv → BackupCode → BackupCode
used env b = record b { used_at = some env.now }

-- The writes for a recovery code that is accepted; again the row that was read passes the update's
-- own condition.
abbrev pub accept_code : MfaEnv → PreAuth → ℕ → BackupCode → Vault → Vault
accept_code env p id b v =
    audited "Privileged MFA Recovery Code Used" p
      (consume_session env p (record v { backup_codes = put id (used env b) v.backup_codes }))

abbrev refuse_code : MfaEnv → PreAuth → Vault → Result (Unit {0}) × Vault
refuse_code env p v =
    (err mfa_failed, audited "Privileged MFA Challenge Failed" p (record_failed_attempt env p v))

-- `completeRecoveryCodeChallenge`, on the row with the digest of the code.
unfoldable pub answer_code : MfaEnv → PreAuth → ℕ → Option (ℕ × BackupCode) → MfaCall (Unit {0})
answer_code env p enrollment none v = refuse_code env p v
answer_code env p enrollment (some (id, b)) v =
    if is_usable p.session.user_id enrollment b
    then (ok tt, accept_code env p id b v)
    else refuse_code env p v

unfoldable pub complete_recovery_code_challenge : MfaEnv → PreAuth → ℕ → String → MfaCall (Unit {0})
unfolding answer_code
complete_recovery_code_challenge env p enrollment code v =
    answer_code env p enrollment
      (find_first (has_code_digest (digest_recovery_code env code)) v.backup_codes) v

unfoldable pub complete_by :
    MfaEnv → PreAuth → MfaMethod → String → Option (ℕ × Enrollment) → MfaCall (Unit {0})
unfolding complete_totp_challenge complete_recovery_code_challenge
complete_by env p method code none v = (err mfa_failed, record_failed_attempt env p v)
complete_by env p totp code (some (id, e)) v = complete_totp_challenge env p id e code v
complete_by env p recovery_code code (some (id, e)) v =
    complete_recovery_code_challenge env p id code v

-- `completeChallenge`; it answers the session and its user.
unfoldable pub complete_challenge : MfaEnv → String → MfaMethod → String → MfaCall PreAuth
unfolding complete_by
complete_challenge env token method code v = elim (validate_pre_auth env token challenge v) [
  | err x ↦ (err x, v)
  | ok p ↦
      let (answer, v') = complete_by env p method code (active_enrollment p.session.user_id v) v in
      elim answer [ err x ↦ (err x, v') | ok _ ↦ (ok p, v') ]
]
