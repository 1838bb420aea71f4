-- ===== src/Mfa/Challenge/Once.antt =====
-- What a challenge that is passed needs, and that neither its session nor its recovery code passes
-- again.
use fixzone_enterprise_api.Base.{
  ℕ, String, ◌≡◌, refl, inl, inr, true, false, ◌<◌, Option, none, some, is_some, Option-cases, trim,
  find, find_first, find_first-find, find_first-put, HasDistinctKeys, put, arith,
}
use fixzone_enterprise_api.Base.Result.{Result, ok, err, Error, database}
use fixzone_enterprise_api.Mfa.Vault.{
  PreAuthPurpose, challenge, Enrollment, BackupCode, PreAuthSession, MfaUser, Vault, MfaEnv,
}
use fixzone_enterprise_api.Mfa.Totp.{match_totp_step}
use fixzone_enterprise_api.Mfa.Sessions.{
  PreAuth, is_open, has_digest, validate_pre_auth, consumed, active_enrollment,
  digest_recovery_code, mfa_failed,
}
use fixzone_enterprise_api.Mfa.Challenge.{
  MfaMethod, totp, recovery_code, is_replayed, has_code_digest, is_usable, complete_challenge,
}
use fixzone_enterprise_api.Mfa.Challenge.Cases.{
  Opens, Answer, Challenges, complete_challenge-Challenges,
}

-- A step that is later than the last one, where there is one.
abbrev pub IsLater : ℕ → Option ℕ → Type 0
IsLater step none = Unit {0}
IsLater step (some last) = last < step

-- A code of the authenticator that is accepted: it matches a step of the active enrollment's secret,
-- and this step is later than the last one recorded on the enrollment, where one is recorded.
pub record IsFresh (env : MfaEnv) (p : PreAuth) (code : String) (v : Vault) : Type 0 where
  pub id : ℕ
  pub entry : Enrollment
  pub secret : String
  pub step : ℕ
  pub active : active_enrollment p.session.user_id v ≡ some (id, entry)
  pub decrypted : env.decrypt entry.encrypted_totp_secret ≡ ok secret
  pub matched : match_totp_step env code secret ≡ ok (some step)
  pub later : IsLater step entry.last_verified_step

-- A recovery code that is accepted: a row with its digest is the user's, belongs to the active
-- enrollment, and is not used.
pub record IsUnused (env : MfaEnv) (p : PreAuth) (code : String) (v : Vault) : Type 0 where
  pub enrollment_id : ℕ
  pub entry : Enrollment
  pub id : ℕ
  pub row : BackupCode
  pub active : active_enrollment p.session.user_id v ≡ some (enrollment_id, entry)
  pub stored :
      find_first (has_code_digest (digest_recovery_code env code)) v.backup_codes ≡ some (id, row)
  pub usable : is_usable p.session.user_id enrollment_id row ≡ true

-- What is accepted by each method.
abbrev pub Accepts : MfaEnv → PreAuth → MfaMethod → String → Vault → Type 0
Accepts env p totp code v = IsFresh env p code v
Accepts env p recovery_code code v = IsUnused env p code v

fresh : (step : ℕ) (last : Option ℕ) → is_replayed step last ≡ false → IsLater step last
fresh step none h = tt
fresh step (some last) h = ground (arith, h)

Answer-Accepts :
    (env : MfaEnv) (p : PreAuth) (method : MfaMethod) (code : String) (v : Vault)
    {end : Result (Unit {0}) × Vault}
    → Answer env p method code v end
    → end.0 ≡ ok tt
    → Accepts env p method code v × (end.1.sessions ≡ put p.id (consumed env p.session) v.sessions)
Answer-Accepts env p method code v (Answer.threw x) h = absurd (cc h)
Answer-Accepts env p method code v (Answer.missed x w s e b) h = absurd (cc h)
Answer-Accepts env p method code v (Answer.by_step id e secret step m a d t r) h = (
  rw m (record {
    id = id;
    entry = e;
    secret = secret;
    step = step;
    active = a;
    decrypted = d;
    matched = t;
    later = fresh step e.last_verified_step r;
  }),
  refl,
)
Answer-Accepts env p method code v (Answer.by_code j e id b m a f u) h = (
  rw m (record {
    enrollment_id = j;
    entry = e;
    id = id;
    row = b;
    active = a;
    stored = f;
    usable = u;
  }),
  refl,
)

challenges-Accepts :
    (env : MfaEnv) (token : String) (method : MfaMethod) (code : String) (v : Vault)
    {end : Result PreAuth × Vault} (p : PreAuth)
    → Challenges env token method code v end
    → end.0 ≡ ok p
    → Opens env token challenge v p
      × Accepts env p method code v
      × (end.1.sessions ≡ put p.id (consumed env p.session) v.sessions)
challenges-Accepts env token method code v p (Challenges.refused x) h = absurd (cc h)
challenges-Accepts env token method code v p (Challenges.failed q x w o a) h = absurd (cc h)
challenges-Accepts env token method code v p (Challenges.passed q w o a) h =
    let same : q ≡ p = cc h in
    let (accepts, sessions) = Answer-Accepts env q method code v a refl in
    rw (← same) (o, accepts, sessions)

-- A challenge is passed only with the token of a session that is open for challenges, that is, one
-- of an active privileged account, not consumed, not locked, not expired and with less than five
-- failed attempts, and with a code that its method accepts: a recovery code of the active enrollment
-- that is not used, or one of the authenticator that matches a step later than the last one recorded
-- on the active enrollment, where one is recorded. The session is then consumed.
pub complete_challenge-Accepts :
    (env : MfaEnv) (token : String) (method : MfaMethod) (code : String) (v : Vault) (p : PreAuth)
    → (complete_challenge env token method code v).0 ≡ ok p
    → Opens env token challenge v p
      × Accepts env p method code v
      × ((complete_challenge env token method code v).1.sessions
          ≡ put p.id (consumed env p.session) v.sessions)
complete_challenge-Accepts env token method code v p h =
    challenges-Accepts env token method code v p
      (complete_challenge-Challenges env token method code v) h

-- A session that is consumed opens nothing.
consumed_is_closed :
    (env : MfaEnv) (purpose : PreAuthPurpose) (s : PreAuthSession) (u : MfaUser)
    → is_some s.consumed_at ≡ true
    → is_open env purpose s u ≡ false
unfolding is_open
consumed_is_closed env purpose s u h = ground (arith, h)

closed_token :
    (env : MfaEnv) (token : String) (purpose : PreAuthPurpose) (w : Vault) (id : ℕ)
    (s : PreAuthSession)
    → find_first (has_digest (env.digest (trim token))) w.sessions ≡ some (id, s)
    → is_some s.consumed_at ≡ true
    → (x : Error) × (validate_pre_auth env token purpose w ≡ err x)
unfolding validate_pre_auth
closed_token env token purpose w id s f c = elim (Option-cases (find s.user_id env.users)) [
  | inl n ↦ (
    database "Inconsistent query result",
    rw (f, validate_pre_auth) (rw (n, validate_pre_auth) refl),
  )
  | inr (u, n) ↦ (
    mfa_failed,
    rw (f, validate_pre_auth)
        (rw (n, validate_pre_auth)
          (rw (consumed_is_closed env purpose s u c, validate_pre_auth) refl)),
  )
]

closed_challenge :
    (env : MfaEnv) (token : String) (method : MfaMethod) (code : String) (w : Vault) (x : Error)
    → validate_pre_auth env token challenge w ≡ err x
    → complete_challenge env token method code w ≡ (err x, w)
unfolding complete_challenge
closed_challenge env token method code w x h = rw (h, complete_challenge) refl

-- A token that has passed a challenge passes no other one: whatever method and code come with it
-- then, at any time, the call throws and writes nothing, where no session stands twice and the
-- digest of tokens is the same.
pub complete_challenge_twice :
    (env later : MfaEnv) (token : String) (method again : MfaMethod) (code other : String)
    (v : Vault) (p : PreAuth)
    → later.digest ≡ env.digest
    → HasDistinctKeys v.sessions
    → (complete_challenge env token method code v).0 ≡ ok p
    → let w = (complete_challenge env token method code v).1 in
      (x : Error) × (complete_challenge later token again other w ≡ (err x, w))
complete_challenge_twice env later token method again code other v p same d h =
    let w = (complete_challenge env token method code v).1 in
    let (opens, accepts, sessions) = complete_challenge-Accepts env token method code v p h in
    let test = has_digest (env.digest (trim token)) in
    let there = find_first-find test v.sessions p.id p.session d opens.stored in
    let found : find_first (has_digest (later.digest (trim token))) w.sessions
        ≡ some (p.id, consumed env p.session) =
      rw (same, sessions)
        (find_first-put test v.sessions p.id p.session (consumed env p.session) d opens.stored
          there.1) in
    let (x, closed) =
      closed_token later token challenge w p.id (consumed env p.session) found refl in
    (x, closed_challenge later token again other w x closed)
