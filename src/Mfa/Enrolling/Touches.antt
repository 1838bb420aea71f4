-- ===== src/Mfa/Enrolling/Touches.antt =====
-- What a request does to the sessions.
use fixzone_enterprise_api.Base.{
  ℕ, ◌≡◌, refl, inl, inr, String, Option, none, some, is_some, Bool-cases, [], ◌∷◌, ◌++◌, any, put,
  if◌then◌else◌,
}
use fixzone_enterprise_api.Base.Result.{Result, ok, err, Result-cases}
use fixzone_enterprise_api.Mfa.Base32.{base32_encode}
use fixzone_enterprise_api.Mfa.Vault.{
  PreAuthPurpose, enrollment, challenge, Enrollment, MfaUser, Vault, MfaEnv,
  requires_privileged_mfa,
}
use fixzone_enterprise_api.Mfa.Totp.{match_totp_step}
use fixzone_enterprise_api.Mfa.Sessions.{
  PreAuth, has_digest, validate_pre_auth, attempted, consumed, active_enrollment,
  pending_enrollment,
}
use fixzone_enterprise_api.Mfa.Challenge.{MfaMethod}
use fixzone_enterprise_api.Mfa.Challenge.Cases.{
  Opens, validate_pre_auth-Opens, Answer, Challenges, complete_challenge-Challenges,
}
use fixzone_enterprise_api.Mfa.Enrolling.{
  new_session, create_pre_auth_session, start_enrollment, are_distinct, new_codes, confirm_step,
  confirm_by, confirm_enrollment, MfaRequest, log_in, enroll, confirm, pass, serve_mfa,
}

-- The sessions stay, or one that is open counts a failed attempt or is consumed, or a new one is added.
pub data Touches (env : MfaEnv) (v w : Vault) : Type 0 where
  kept : w.sessions ≡ v.sessions → Touches env v w
  failed :
      (token : String) (purpose : PreAuthPurpose) (p : PreAuth)
      → Opens env token purpose v p
      → w.sessions ≡ put p.id (attempted env p.session) v.sessions
      → Touches env v w
  used_up :
      (token : String) (purpose : PreAuthPurpose) (p : PreAuth)
      → Opens env token purpose v p
      → w.sessions ≡ put p.id (consumed env p.session) v.sessions
      → Touches env v w
  added :
      (user : ℕ) (purpose : PreAuthPurpose)
      → w.sessions ≡ v.sessions ++ (env.new_session_id, new_session env user purpose) ∷ []
      → Touches env v w

module _ (env : MfaEnv) (token : String) (purpose : PreAuthPurpose) (v : Vault) (p : PreAuth)
    (opens : Opens env token purpose v p) where
  confirm_step-Touches :
      (id : ℕ) (e : Enrollment) (r : Result (Option ℕ))
      → Touches env v (confirm_step env p id e r v).1
  unfolding confirm_step
  confirm_step-Touches id e (err x) = Touches.kept refl
  confirm_step-Touches id e (ok none) = Touches.failed token purpose p opens refl
  confirm_step-Touches id e (ok (some step)) =
      elim (Bool-cases (are_distinct (new_codes env p.session.user_id id v.backup_codes))) [
        | inl d ↦ rw (d, confirm_step) (Touches.used_up token purpose p opens refl)
        | inr d ↦ rw (d, confirm_step) (Touches.kept refl)
      ]

  confirm_by-Touches :
      (code : String) (row : Option (ℕ × Enrollment))
      → Touches env v (confirm_by env p code row v).1
  unfolding confirm_by
  confirm_by-Touches code none = Touches.failed token purpose p opens refl
  confirm_by-Touches code (some (id, e)) =
      elim (Result-cases (env.decrypt e.encrypted_totp_secret)) [
        | inl (secret, d) ↦
            rw (d, confirm_by) (confirm_step-Touches id e (match_totp_step env code secret))
        | inr (x, d) ↦ rw (d, confirm_by) (Touches.kept refl)
      ]

  Answer-Touches :
      (method : MfaMethod) (code : String) {end : Result (Unit {0}) × Vault}
      → Answer env p method code v end
      → Touches env v end.1
  Answer-Touches method code (Answer.threw x) = Touches.kept refl
  Answer-Touches method code (Answer.missed x w s e b) = Touches.failed token purpose p opens s
  Answer-Touches method code (Answer.by_step id e secret step m a d t r) =
      Touches.used_up token purpose p opens refl
  Answer-Touches method code (Answer.by_code j e k b m a f u) =
      Touches.used_up token purpose p opens refl

Challenges-Touches :
    (env : MfaEnv) (token : String) (method : MfaMethod) (code : String) (v : Vault)
    {end : Result PreAuth × Vault}
    → Challenges env token method code v end
    → Touches env v end.1
Challenges-Touches env token method code v (Challenges.refused x) = Touches.kept refl
Challenges-Touches env token method code v (Challenges.failed p x w o a) =
    Answer-Touches env token challenge v p o method code a
Challenges-Touches env token method code v (Challenges.passed p w o a) =
    Answer-Touches env token challenge v p o method code a

log_in-Touches :
    (env : MfaEnv) (id : ℕ) (user : MfaUser) (v : Vault)
    → Touches env v (create_pre_auth_session env id user v).1
unfolding create_pre_auth_session
log_in-Touches env id user v = elim (Bool-cases (requires_privileged_mfa user.role)) [
  | inr e ↦ rw (e, create_pre_auth_session) (Touches.kept refl)
  | inl e ↦
      elim (Bool-cases (any (λ row. has_digest (env.digest env.new_token) row.1) v.sessions)) [
        | inl f ↦
            rw (e, create_pre_auth_session) (rw (f, create_pre_auth_session) (Touches.kept refl))
        | inr f ↦
            rw (e, create_pre_auth_session)
              (rw (f, create_pre_auth_session)
                (Touches.added id
                  (if is_some (active_enrollment id v) then challenge else enrollment) refl))
      ]
]

enroll-Touches :
    (env : MfaEnv) (token : String) (v : Vault) → Touches env v (start_enrollment env token v).1
unfolding start_enrollment
enroll-Touches env token v = elim (Result-cases (validate_pre_auth env token enrollment v)) [
  | inr (x, e) ↦ rw (e, start_enrollment) (Touches.kept refl)
  | inl (p, e) ↦ elim (Result-cases (env.encrypt (base32_encode env.new_secret))) [
    | inr (x, f) ↦ rw (e, start_enrollment) (rw (f, start_enrollment) (Touches.kept refl))
    | inl (t, f) ↦ rw (e, start_enrollment) (rw (f, start_enrollment) (Touches.kept refl))
  ]
]

confirm-Touches :
    (env : MfaEnv) (token code : String) (v : Vault)
    → Touches env v (confirm_enrollment env token code v).1
unfolding confirm_enrollment
confirm-Touches env token code v = elim (Result-cases (validate_pre_auth env token enrollment v)) [
  | inr (x, e) ↦ rw (e, confirm_enrollment) (Touches.kept refl)
  | inl (p, e) ↦
      rw (e, confirm_enrollment)
        (confirm_by-Touches env token enrollment v p
          (validate_pre_auth-Opens env token enrollment v p e) code
          (pending_enrollment p.session.user_id v))
]

pub serve_mfa-Touches :
    (env : MfaEnv) (request : MfaRequest) (v : Vault) → Touches env v (serve_mfa env request v)
unfolding serve_mfa
serve_mfa-Touches env (log_in id user) v = log_in-Touches env id user v
serve_mfa-Touches env (enroll token) v = enroll-Touches env token v
serve_mfa-Touches env (confirm token code) v = confirm-Touches env token code v
serve_mfa-Touches env (pass token method code) v =
    Challenges-Touches env token method code v
      (complete_challenge-Challenges env token method code v)
