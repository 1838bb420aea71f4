-- ===== src/Auth/Examples.antt =====
-- Authentication on concrete tables.
use Prim.Native.Nat.{◌/◌}
use fixzone_enterprise_api.Base.{
  String, ltb, ◌+◌, ◌*◌, arith, ◌≡◌, ◌≢◌, ◌⊎◌, refl, true, none, some, [], ◌∷◌, ◌==◌, str_eq, trim,
  trimmed, text_length, find, find_first, HasDistinctKeys, length, find_many, update_many,
  if◌then◌else◌,
}
use fixzone_enterprise_api.Base.Result.{ok, err, unauthorized}
use fixzone_enterprise_api.Report.Types.{UserRole, AccountStatus}
use fixzone_enterprise_api.Mfa.Vault.{MfaEnv, requires_privileged_mfa}
use fixzone_enterprise_api.Mfa.Examples.{clock, vault}
use fixzone_enterprise_api.Mfa.Sessions.{
  is_open, validate_pre_auth, newest, active_enrollment, keep_alphanumeric, digest_recovery_code,
}
use fixzone_enterprise_api.Mfa.Challenge.{
  recovery_code, answer_code, complete_recovery_code_challenge, complete_by, complete_challenge,
}
use fixzone_enterprise_api.Auth.SecondFactor.{
  confirmed_login, pass_challenge, complete_mfa_challenge,
}
use fixzone_enterprise_api.Auth.SecondFactor.Passed.{Confirms, complete_mfa_challenge-Confirms}
use fixzone_enterprise_api.Auth.Registry.{
  UserRow, PasswordResetToken, Registry, DeliveryService, AuthEnv, is_active_status,
}
use fixzone_enterprise_api.Auth.Recovery.{
  has_reset_digest, create_password_reset_token, password_reset_rate_limited, issue_reset_token,
  is_compliant_password, accepts_reset, complete_password_reset,
}
use fixzone_enterprise_api.Auth.Recovery.Resets.{complete-validate_session, complete-once}
use fixzone_enterprise_api.Auth.Recovery.Issues.{Issues, create-Issues}
use fixzone_enterprise_api.Auth.Login.{
  Claims, tokens, LoginDto, issue_tokens, is_named_provider, admit, identifies, login_as, login,
  validate, validate_session,
}
use fixzone_enterprise_api.Auth.Login.Admits.{Admits, login-Admits, login-validate_session}

abbrev service : DeliveryService
service = record {
  enabled = true;
  cooldown_seconds = 120;
  daily_limit = 5;
  deliver_to = λ email token route. record { delivered = true; status = "DELIVERY_ACCEPTED" };
}

abbrev env : AuthEnv
env = record {
  now = 1000;
  digest = λ s. s;
  hash_password = λ s. s;
  compare_password = str_eq;
  lower = λ s. s;
  new_token = "fresh";
  new_id = 9;
  ttl_minutes = none;
  delivery = some service;
  mfa = none;
  ensure_identity = λ id. ok tt;
}

abbrev user : UserRow
user = record {
  email = some "ada@example.org";
  phone = none;
  firebase_uid = none;
  provider_id = none;
  password_hash = some "Passw0rd";
  role = UserRole.org_admin;
  account_status = AccountStatus.active;
  organization_id = some 7;
  token_version = 3;
}

abbrev reset_row : PasswordResetToken
reset_row = record {
  user_id = 1;
  token_digest = "reset";
  expires_at = 2000;
  used_at = none;
  superseded_at = none;
  requested_by_id = none;
  delivery_status = "DELIVERY_ACCEPTED";
  created_at = 500;
}

abbrev registry : Registry
registry = record {
  users = (1, user) ∷ [];
  reset_tokens = (5, reset_row) ∷ [];
  logins = [];
  audit_log = [];
  vault = record { sessions = []; enrollments = []; backup_codes = []; audit_log = [] };
}

abbrev credentials : LoginDto
credentials = record {
  email = some "ada@example.org";
  phone = none;
  provider_id = none;
  password = "Passw0rd";
}

abbrev claims : Claims
claims = issue_tokens env.now 1 user

abbrev logged_in : Registry
logged_in = (login env credentials registry).1

login_run : login env credentials registry ≡ (ok (tokens claims), logged_in)
unfolding login find_first trim login_as is_named_provider admit requires_privileged_mfa trimmed
login_run = refl

one_user : HasDistinctKeys registry.users
unfolding find
one_user = (refl, tt)

one_token : HasDistinctKeys registry.reset_tokens
unfolding find
one_token = (refl, tt)

login-Admits_example : Admits env credentials claims registry logged_in
login-Admits_example = login-Admits env credentials claims registry logged_in one_user login_run

login-validate_session_example :
    (u : UserRow) × (hash : String) × (validate_session 5000 claims logged_in ≡ (
      if ltb (5000 / 1000) (env.now / 1000 + 24 * 60 * 60)
      then ok u
      else err (unauthorized "Unauthorized")))
    × (identifies env credentials u ≡ true)
    × (u.password_hash ≡ some hash)
    × (env.compare_password credentials.password hash ≡ true)
    × (is_active_status u.account_status ≡ true)
    × (claims.role ≡ u.role)
login-validate_session_example =
    login-validate_session env credentials claims registry logged_in 5000 one_user login_run

abbrev after_reset : Registry
after_reset = (complete_password_reset env "reset" "N3wPassword" registry).1

reset_run : complete_password_reset env "reset" "N3wPassword" registry ≡ (ok tt, after_reset)
unfolding complete_password_reset is_compliant_password text_length trim find_first find
    accepts_reset
reset_run = refl

stored_token :
    find_first (has_reset_digest (env.digest (trim "reset"))) registry.reset_tokens
    ≡ some (5, reset_row)
unfolding find_first trim
stored_token = refl

own_session : validate_session 5000 claims registry ≡ ok user
unfolding validate_session validate find
own_session = refl

complete-validate_session_example :
    validate_session 5000 claims after_reset
    ≡ (if 1 == 1 then err (unauthorized "Unauthorized") else ok user)
complete-validate_session_example =
    complete-validate_session env "reset" "N3wPassword" registry after_reset 5000 claims user 5
      reset_row reset_run stored_token own_session

complete-once_example : (complete_password_reset env "reset" "Oth3rPassword" after_reset).0 ≢ ok tt
complete-once_example =
    complete-once env "reset" "N3wPassword" registry after_reset env "Oth3rPassword" one_token refl
      reset_run

-- A time after the cooldown of the first token.
abbrev later : AuthEnv
later = record env { now = 200000 }

abbrev after_request : Registry
after_request = (create_password_reset_token later 1 none none registry).1

create-Issues_example :
    (after_request.reset_tokens ≡ registry.reset_tokens) ⊎ Issues later 1 registry after_request
create-Issues_example = create-Issues later 1 none none registry

-- Then the second token is made, and the first one is no longer open.
issued : length after_request.reset_tokens ≡ 2
unfolding create_password_reset_token find password_reset_rate_limited find_many issue_reset_token
    update_many
issued = refl

abbrev privileged : UserRow
privileged = record user { role = UserRole.super_admin }

-- The tables with an administrator, who has a session of the second factor and a recovery code.
abbrev guarded : Registry
guarded = record registry { users = (3, privileged) ∷ []; vault = vault }

abbrev guarding : AuthEnv
guarding = record env { mfa = some clock }

abbrev confirmed : Registry
confirmed = (complete_mfa_challenge guarding "token-1" recovery_code "ABCD-1234" guarded).1

confirming :
    complete_mfa_challenge guarding "token-1" recovery_code "ABCD-1234" guarded
    ≡ (ok (issue_tokens guarding.now 3 privileged), confirmed)
unfolding complete_mfa_challenge pass_challenge confirmed_login complete_challenge validate_pre_auth
    is_open complete_by complete_recovery_code_challenge answer_code active_enrollment newest
    digest_recovery_code keep_alphanumeric trim find find_first find_many requires_privileged_mfa
confirming = refl

complete_mfa_challenge-Confirms_example :
    (mfa : MfaEnv) × (guarding.mfa ≡ some mfa)
    × Confirms mfa "token-1" recovery_code "ABCD-1234" guarded confirmed
        (issue_tokens guarding.now 3 privileged)
        5000
complete_mfa_challenge-Confirms_example =
    complete_mfa_challenge-Confirms guarding "token-1" recovery_code "ABCD-1234" guarded confirmed
      (issue_tokens guarding.now 3 privileged) 5000 (omega arith) confirming
