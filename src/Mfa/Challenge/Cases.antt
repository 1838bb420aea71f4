-- ===== src/Mfa/Challenge/Cases.antt =====
-- How a challenge ends.
use mathlib.Core.Path.{subst}
use fixzone_enterprise_api.Base.{
  ℕ, String, ◌≡◌, refl, inl, inr, true, false, Option, none, some, Option-cases, Bool-cases, trim,
  find, find_first, put,
}
use fixzone_enterprise_api.Base.Result.{Result, ok, err, Error, database, Result-cases}
use fixzone_enterprise_api.Mfa.Vault.{
  PreAuthPurpose, challenge, Enrollment, BackupCode, Vault, MfaEnv,
}
use fixzone_enterprise_api.Mfa.Totp.{match_totp_step}
use fixzone_enterprise_api.Mfa.Sessions.{
  PreAuth, is_open, has_digest, validate_pre_auth, attempted, active_enrollment,
  digest_recovery_code, mfa_failed,
}
use fixzone_enterprise_api.Mfa.Challenge.{
  MfaMethod, totp, recovery_code, is_replayed, accept_step, answer_step, complete_totp_challenge,
  has_code_digest, is_usable, accept_code, answer_code, complete_recovery_code_challenge,
  complete_by, complete_challenge,
}

-- A session that a token opens for a purpose: the first one with the token's digest, whose user is
-- there, and which is open.
pub record Opens (env : MfaEnv) (token : String) (purpose : PreAuthPurpose) (v : Vault)
    (p : PreAuth) : Type 0 where
  pub stored : find_first (has_digest (env.digest (trim token))) v.sessions ≡ some (p.id, p.session)
  pub known : find p.session.user_id env.users ≡ some p.user
  pub passes : is_open env purpose p.session p.user ≡ true

pub validate_pre_auth-Opens :
    (env : MfaEnv) (token : String) (purpose : PreAuthPurpose) (v : Vault) (p : PreAuth)
    → validate_pre_auth env token purpose v ≡ ok p
    → Opens env token purpose v p
unfolding validate_pre_auth
validate_pre_auth-Opens env token purpose v p h =
    elim (Option-cases (find_first (has_digest (env.digest (trim token))) v.sessions)) [
      | inl e ↦
          let no : validate_pre_auth env token purpose v ≡ err mfa_failed =
            rw (e, validate_pre_auth) refl in
          absurd (cc (no, h))
      | inr ((id, s), e) ↦ elim (Option-cases (find s.user_id env.users)) [
        | inl f ↦
            let no : validate_pre_auth env token purpose v
                ≡ err (database "Inconsistent query result") =
              rw (e, validate_pre_auth) (rw (f, validate_pre_auth) refl) in
            absurd (cc (no, h))
        | inr (u, f) ↦ elim (Bool-cases (is_open env purpose s u)) [
          | inr g ↦
              let no : validate_pre_auth env token purpose v ≡ err mfa_failed =
                rw (e, validate_pre_auth)
                  (rw (f, validate_pre_auth) (rw (g, validate_pre_auth) refl)) in
              absurd (cc (no, h))
          | inl g ↦
              let found : PreAuth = record { id = id; session = s; user = u } in
              let yes : validate_pre_auth env token purpose v ≡ ok found =
                rw (e, validate_pre_auth)
                  (rw (f, validate_pre_auth) (rw (g, validate_pre_auth) refl)) in
              let same : found ≡ p = cc (yes, h) in
              rw (← same) (record { stored = e; known = f; passes = g })
        ]
      ]
    ]

-- The last step of a challenge: what is answered, and what is written.
pub data Answer (env : MfaEnv) (p : PreAuth) (method : MfaMethod) (code : String) (v : Vault)
    : Result (Unit {0}) × Vault → Type 0 where
  threw : (x : Error) → Answer env p method code v (err x, v)
  missed :
      (x : Error) (w : Vault)
      → w.sessions ≡ put p.id (attempted env p.session) v.sessions
      → w.enrollments ≡ v.enrollments
      → w.backup_codes ≡ v.backup_codes
      → Answer env p method code v (err x, w)
  by_step :
      (id : ℕ) (e : Enrollment) (secret : String) (step : ℕ)
      → method ≡ totp
      → active_enrollment p.session.user_id v ≡ some (id, e)
      → env.decrypt e.encrypted_totp_secret ≡ ok secret
      → match_totp_step env code secret ≡ ok (some step)
      → is_replayed step e.last_verified_step ≡ false
      → Answer env p method code v (ok tt, accept_step env p id e step v)
  by_code :
      (enrollment : ℕ) (e : Enrollment) (id : ℕ) (b : BackupCode)
      → method ≡ recovery_code
      → active_enrollment p.session.user_id v ≡ some (enrollment, e)
      → find_first (has_code_digest (digest_recovery_code env code)) v.backup_codes ≡ some (id, b)
      → is_usable p.session.user_id enrollment b ≡ true
      → Answer env p method code v (ok tt, accept_code env p id b v)

module _ (env : MfaEnv) (p : PreAuth) (code : String) (v : Vault) (id : ℕ) (e : Enrollment)
    (active : active_enrollment p.session.user_id v ≡ some (id, e)) where
  answer_step-Answer :
      (secret : String) (r : Result (Option ℕ))
      → env.decrypt e.encrypted_totp_secret ≡ ok secret
      → match_totp_step env code secret ≡ r
      → Answer env p totp code v (answer_step env p id e r v)
  unfolding answer_step
  answer_step-Answer secret (err x) d m = Answer.threw x
  answer_step-Answer secret (ok none) d m = Answer.missed mfa_failed _ refl refl refl
  answer_step-Answer secret (ok (some step)) d m =
      elim (Bool-cases (is_replayed step e.last_verified_step)) [
        | inl r ↦ rw (r, answer_step) (Answer.missed mfa_failed _ refl refl refl)
        | inr r ↦ rw (r, answer_step) (Answer.by_step id e secret step refl active d m r)
      ]

  totp-Answer : Answer env p totp code v (complete_totp_challenge env p id e code v)
  unfolding complete_totp_challenge
  totp-Answer = elim (Result-cases (env.decrypt e.encrypted_totp_secret)) [
    | inl (secret, d) ↦
        rw (d, complete_totp_challenge)
          (answer_step-Answer secret (match_totp_step env code secret) d refl)
    | inr (x, d) ↦ rw (d, complete_totp_challenge) (Answer.threw x)
  ]

  answer_code-Answer :
      (row : Option (ℕ × BackupCode))
      → find_first (has_code_digest (digest_recovery_code env code)) v.backup_codes ≡ row
      → Answer env p recovery_code code v (answer_code env p id row v)
  unfolding answer_code
  answer_code-Answer none f = Answer.missed mfa_failed _ refl refl refl
  answer_code-Answer (some (j, b)) f = elim (Bool-cases (is_usable p.session.user_id id b)) [
    | inl u ↦ rw (u, answer_code) (Answer.by_code id e j b refl active f u)
    | inr u ↦ rw (u, answer_code) (Answer.missed mfa_failed _ refl refl refl)
  ]

  code-Answer : Answer env p recovery_code code v (complete_recovery_code_challenge env p id code v)
  unfolding complete_recovery_code_challenge
  code-Answer =
      answer_code-Answer
        (find_first (has_code_digest (digest_recovery_code env code)) v.backup_codes) refl

complete_by-Answer :
    (env : MfaEnv) (p : PreAuth) (method : MfaMethod) (code : String) (v : Vault)
    (row : Option (ℕ × Enrollment))
    → active_enrollment p.session.user_id v ≡ row
    → Answer env p method code v (complete_by env p method code row v)
unfolding complete_by
complete_by-Answer env p method code v none a = Answer.missed mfa_failed _ refl refl refl
complete_by-Answer env p totp code v (some (id, e)) a = totp-Answer env p code v id e a
complete_by-Answer env p recovery_code code v (some (id, e)) a = code-Answer env p code v id e a

-- What a call of `completeChallenge` comes to: the token opens no session and nothing is written, or
-- it opens one, and the challenge is answered.
pub data Challenges (env : MfaEnv) (token : String) (method : MfaMethod) (code : String) (v : Vault)
    : Result PreAuth × Vault → Type 0 where
  refused : (x : Error) → Challenges env token method code v (err x, v)
  failed :
      (p : PreAuth) (x : Error) (w : Vault)
      → Opens env token challenge v p
      → Answer env p method code v (err x, w)
      → Challenges env token method code v (err x, w)
  passed :
      (p : PreAuth) (w : Vault)
      → Opens env token challenge v p
      → Answer env p method code v (ok tt, w)
      → Challenges env token method code v (ok p, w)

pub complete_challenge-Challenges :
    (env : MfaEnv) (token : String) (method : MfaMethod) (code : String) (v : Vault)
    → Challenges env token method code v (complete_challenge env token method code v)
unfolding complete_challenge
complete_challenge-Challenges env token method code v =
    elim (Result-cases (validate_pre_auth env token challenge v)) [
      | inr (x, h) ↦ rw (h, complete_challenge) (Challenges.refused x)
      | inl (p, h) ↦
          let opens = validate_pre_auth-Opens env token challenge v p h in
          let row = active_enrollment p.session.user_id v in
          let answer = complete_by-Answer env p method code v row refl in
          let end = complete_by env p method code row v in
          elim (Result-cases end.0) [
            | inr (x, f) ↦
                rw (h, complete_challenge)
                  (rw (f, complete_challenge)
                    (Challenges.failed p x end.1 opens
                      (subst (λ r. Answer env p method code v (r, end.1)) f answer)))
            | inl (u, f) ↦
                rw (h, complete_challenge)
                  (rw (f, complete_challenge)
                    (Challenges.passed p end.1 opens
                      (subst (λ r. Answer env p method code v (r, end.1)) f answer)))
          ]
    ]
