-- ===== src/Auth/SecondFactor.antt =====
-- The session after a second factor: `completeMfaChallenge` (src/auth/auth.service.ts) over
-- `completeChallenge` (src/auth/privileged-mfa.service.ts), which reads the same users.
pub mod Passed
use mathlib.Core.Path.{subst}
use fixzone_enterprise_api.Base.{
  ℕ, String, ◌≡◌, refl, sym, ◌∙◌, ap, Bool, true, false, not, ltb, is_some, ◌&&◌, Option, none,
  some, List, [], ◌∷◌, inl, inr, Option-cases, Bool-cases, Table, find, find_first, ◌==◌, ==_iff,
  arith, if◌then◌else◌,
}
use fixzone_enterprise_api.Base.Result.{Result, ok, err, Error, database, Result-cases}
use fixzone_enterprise_api.Report.Types.{AccountStatus}
use fixzone_enterprise_api.Mfa.Vault.{
  challenge, MfaUser, Vault, MfaEnv, PreAuthPurpose, PreAuthSession, requires_privileged_mfa,
}
use fixzone_enterprise_api.Mfa.Sessions.{
  PreAuth, same_purpose, max_attempts, is_active_account, is_open, mfa_failed,
}
use fixzone_enterprise_api.Mfa.Challenge.{MfaMethod, complete_challenge}
use fixzone_enterprise_api.Mfa.Challenge.Cases.{Opens}
use fixzone_enterprise_api.Mfa.Challenge.Once.{Accepts, complete_challenge-Accepts}
use fixzone_enterprise_api.Auth.Registry.{
  UserRow, Registry, AuthEnv, AuthCall, log, is_active_status,
}
use fixzone_enterprise_api.Auth.Login.{Claims, issue_tokens, record_login, validate_session}

-- The columns of a user that the second factor reads.
abbrev pub mfa_user : UserRow → MfaUser
mfa_user u = record {
  email = u.email;
  role = u.role;
  organization_id = u.organization_id;
  account_status = u.account_status;
}

abbrev pub mfa_users : Table UserRow → Table MfaUser
mfa_users [] = []
mfa_users ((id, u) ∷ rows) = (id, mfa_user u) ∷ mfa_users rows

-- The second factor's surroundings, with the users of the tables.
abbrev pub over_users : MfaEnv → Registry → MfaEnv
over_users mfa g = record mfa { users = mfa_users g.users }

-- The session of a user who has passed the second factor, with the user's row.
unfoldable pub confirmed_login : ℕ → ℕ → AuthCall Claims
confirmed_login now id g = elim (find id g.users) [
  | none ↦ (err (database "Inconsistent query result"), g)
  | some u ↦
      (ok (issue_tokens now id u), record_login (some id) true none (log "Login" (some id) g))
]

-- `completeMfaChallenge` with the second factor's service.
unfoldable pub pass_challenge : ℕ → MfaEnv → String → MfaMethod → String → AuthCall Claims
pass_challenge now mfa token method code g =
    let (answer, vault) = complete_challenge (over_users mfa g) token method code g.vault in
    elim answer [
      | err e ↦ (err e, record g { vault = vault })
      | ok p ↦ confirmed_login now p.session.user_id (record g { vault = vault })
    ]

-- `completeMfaChallenge`
unfoldable pub complete_mfa_challenge : AuthEnv → String → MfaMethod → String → AuthCall Claims
complete_mfa_challenge env token method code g = elim env.mfa [
  | none ↦ (err mfa_failed, g)
  | some mfa ↦ pass_challenge env.now mfa token method code g
]
