-- ===== src/Auth/Login.antt =====
-- Login with a password (src/auth/auth.service.ts), the claims of a session, and the check of them on
-- every request (src/auth/strategies/jwt.strategy.ts). The signature of claims is not modelled: a
-- session is its claims, with the expiry that the library for tokens sets and checks.
pub mod Admits
use Prim.Native.Nat.{◌/◌}
use fixzone_enterprise_api.Base.{
  ltb, ◌+◌, ◌*◌, ℕ, String, Bool, true, false, not, ◌&&◌, ◌||◌, Option, none, some, List, [], ◌∷◌,
  ◌++◌, ◌==◌, is_some, is_text, trim, trimmed, str_eq, Table, find, find_first, if◌then◌else◌,
}
use fixzone_enterprise_api.Base.Result.{Result, ok, err, bad_request, unauthorized}
use fixzone_enterprise_api.Report.Types.{UserRole, AccountStatus}
use fixzone_enterprise_api.Mfa.Vault.{MfaUser, MfaEnv, Vault, requires_privileged_mfa}
use fixzone_enterprise_api.Mfa.Sessions.{PreAuth}
use fixzone_enterprise_api.Mfa.Enrolling.{create_pre_auth_session}
use fixzone_enterprise_api.Auth.Registry.{
  UserRow, LoginRecord, Registry, AuthEnv, AuthCall, log, generic_auth_failure, is_active_status,
  has_text,
}
use fixzone_enterprise_api.Auth.Recovery.{has_identifier}

-- The claims that `issueTokens` signs and the strategy reads.
pub record Claims : Type 0 where
  pub sub : ℕ
  pub role : UserRole
  pub organization_id : Option ℕ
  pub token_version : ℕ
  pub expires_at : ℕ

-- What a login answers: a session, or the session before the second factor.
pub data LoginAnswer : Type 0 where
  tokens : Claims → LoginAnswer
  mfa_pending : PreAuth → LoginAnswer

pub record LoginDto : Type 0 where
  pub email : Option String
  pub phone : Option String
  pub provider_id : Option String
  pub password : String

-- `expiresIn: '1d'` on claims signed at a time in milliseconds; claims count whole seconds.
abbrev pub a_day_from : ℕ → ℕ
a_day_from now = now / 1000 + 24 * 60 * 60

-- `issueTokens`
abbrev pub issue_tokens : ℕ → ℕ → UserRow → Claims
issue_tokens now id u = record {
  sub = id;
  role = u.role;
  organization_id = u.organization_id;
  token_version = u.token_version;
  expires_at = a_day_from now;
}

abbrev pub record_login : Option ℕ → Bool → Option String → Registry → Registry
record_login user success reason g = record g {
  logins = g.logins ++ record { user_id = user; success = success; failure_reason = reason } ∷ [];
}

-- A login that is refused: an audit row, a record, and the same answer for every reason.
abbrev refused_login : String → Option ℕ → String → AuthCall LoginAnswer
refused_login action user reason g =
    (err generic_auth_failure, record_login user false (some reason) (log action user g))

abbrev inactive_reason : AccountStatus → String
inactive_reason AccountStatus.pending_invite = "account_pending_invite"
inactive_reason AccountStatus.pending_approval = "account_pending_approval"
inactive_reason AccountStatus.active = "account_active"
inactive_reason AccountStatus.suspended = "account_suspended"
inactive_reason AccountStatus.deactivated = "account_deactivated"

abbrev is_provider_role : UserRole → Bool
is_provider_role UserRole.provider = true
is_provider_role _ = false

-- The provider that the login names, where it names one, is the user.
unfoldable pub is_named_provider : Option String → UserRow → Bool
is_named_provider requested u = elim (trimmed requested) [
  | none ↦ true
  | some id ↦ is_provider_role u.role && has_text id u.provider_id
]

abbrev pub pending_answer : Result PreAuth → Result LoginAnswer
pending_answer (err e) = err e
pending_answer (ok p) = ok (mfa_pending p)

-- `login` for a role with a second factor: the session before it, from the tables of the second factor.
unfoldable pub start_second_factor : AuthEnv → ℕ → UserRow → AuthCall LoginAnswer
start_second_factor env id u g = elim env.mfa [
  | none ↦ (err generic_auth_failure, log "Privileged Login MFA Foundation Missing" (some id) g)
  | some mfa ↦
      let g' = record_login (some id) false (some "mfa_pending") g in
      let user : MfaUser = record {
        email = u.email;
        role = u.role;
        organization_id = u.organization_id;
        account_status = u.account_status;
      } in
      let (answer, vault) = create_pre_auth_session mfa id user g'.vault in
      (pending_answer answer, record g' { vault = vault })
]

-- `login` after the checks of the user.
unfoldable pub admit : AuthEnv → ℕ → UserRow → AuthCall LoginAnswer
unfolding start_second_factor requires_privileged_mfa
admit env id u g = elim (env.ensure_identity id) [
  | err e ↦ (err e, g)
  | ok _ ↦ if requires_privileged_mfa u.role then start_second_factor env id u g else (
    ok (tokens (issue_tokens env.now id u)),
    record_login (some id) true none (log "Login" (some id) g),
  )
]

abbrev pub identifies : AuthEnv → LoginDto → UserRow → Bool
identifies env dto u =
    if is_text dto.email || is_text dto.phone
    then has_identifier env dto.email dto.phone u
    else elim dto.provider_id [ none ↦ false | some p ↦ has_text (trim p) u.provider_id ]

-- `login` for the user that was found, with the hash of the user's password.
unfoldable pub login_as : AuthEnv → LoginDto → ℕ → UserRow → String → AuthCall LoginAnswer
login_as env dto id u hash g =
    if not (env.compare_password dto.password hash)
    then refused_login "Failed Login" (some id) "invalid_password" g
    else if not (is_active_status u.account_status)
    then refused_login "Inactive Login Blocked" (some id) (inactive_reason u.account_status) g
    else if not (is_named_provider dto.provider_id u)
    then refused_login "Provider Login ID Mismatch" (some id) "provider_id_mismatch" g
    else admit env id u g

abbrev pub password_hash_of : UserRow → Option String
password_hash_of u = if is_text u.password_hash then u.password_hash else none

abbrev unknown_login : AuthCall LoginAnswer
unknown_login g = refused_login "Failed Login" none "user_not_found" g

-- `login`
unfoldable pub login : AuthEnv → LoginDto → AuthCall LoginAnswer
login env dto g =
    if not (is_text dto.email || is_text dto.phone || is_text dto.provider_id)
    then (err (bad_request "Email, phone or provider ID is required"), g)
    else elim (find_first (identifies env dto) g.users) [
      | none ↦ unknown_login g
      | some (id, u) ↦ elim (password_hash_of u) [
        | none ↦ unknown_login g
        | some hash ↦ login_as env dto id u hash g
      ]
    ]

-- `ignoreExpiration: false`: claims are refused from the second in which they expire.
abbrev pub is_current : ℕ → Claims → Bool
is_current now claims = ltb (now / 1000) claims.expires_at

-- `JwtStrategy.validate`: what every request with a session passes; it answers the user's row.
unfoldable pub validate : Claims → Registry → Result UserRow
validate claims g = elim (find claims.sub g.users) [
  | none ↦ err (unauthorized "Unauthorized")
  | some u ↦
      if is_active_status u.account_status && claims.token_version == u.token_version
      then ok u
      else err (unauthorized "Unauthorized")
]

-- `JwtStrategy`, with the expiry that it has checked before.
unfoldable pub validate_session : ℕ → Claims → Registry → Result UserRow
unfolding validate
validate_session now claims g =
    if is_current now claims then validate claims g else err (unauthorized "Unauthorized")
