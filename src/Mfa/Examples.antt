-- ===== src/Mfa/Examples.antt =====
-- A small vault on which the theorems on the second factor are applied: an administrator with an
-- active enrollment, a recovery code and a session.
use fixzone_enterprise_api.Mfa.Enrolling.Phases.{Follows, serve_mfa-Follows}
use fixzone_enterprise_api.Mfa.Base32.Ends.{drain_terminates}
use fixzone_enterprise_api.Mfa.Base32.{drain}
use fixzone_enterprise_api.Base.{length, ◌<◌, ◌*◌, ◌+◌}
use fixzone_enterprise_api.Base.{
  ℕ, ◌≤◌, ◌≡◌, ◌≢◌, refl, ◌⊎◌, String, true, Option, none, some, is_some, List, [], ◌∷◌,
  HasDistinctKeys, find, find_first, find_many, put, trim, arith, sym, ◌∙◌,
}
use fixzone_enterprise_api.Base.Result.{ok}
use fixzone_enterprise_api.Report.Types.{UserRole, AccountStatus}
use fixzone_enterprise_api.Mfa.Base32.{base32_encode, base32_decode}
use fixzone_enterprise_api.Mfa.Base32.RoundTrip.{base32_decode-base32_encode}
use fixzone_enterprise_api.Mfa.Vault.{
  EnrollmentStatus, challenge, BackupCode, PreAuthSession, MfaUser, Vault, MfaEnv,
  requires_privileged_mfa,
}
use fixzone_enterprise_api.Mfa.Totp.{match_totp_step}
use fixzone_enterprise_api.Mfa.Totp.Window.{Answers, match_totp_step-Answers}
use fixzone_enterprise_api.Mfa.Sessions.{
  PreAuth, is_open, validate_pre_auth, newest, active_enrollment, keep_alphanumeric,
  digest_recovery_code, consumed, attempted,
}
use fixzone_enterprise_api.Mfa.Challenge.{
  recovery_code, answer_code, complete_recovery_code_challenge, complete_by, complete_challenge,
}
use fixzone_enterprise_api.Mfa.Challenge.Cases.{Opens}
use fixzone_enterprise_api.Mfa.Challenge.Once.{Accepts, complete_challenge-Accepts}
use fixzone_enterprise_api.Mfa.Challenge.Spent.{AreUnique, attempt_all, recovery_code_once}
use fixzone_enterprise_api.Mfa.Enrolling.{pass, serve_mfa}
use fixzone_enterprise_api.Mfa.Enrolling.Guards.{AreGuarded}
use fixzone_enterprise_api.Mfa.Enrolling.Limits.{begin, next, Serves-IsGuarded}

base32_decode-base32_encode_example :
    base32_decode (λ s. s) (base32_encode (255 ∷ 0 ∷ 7 ∷ [])) ≡ ok (255 ∷ 0 ∷ 7 ∷ [])
base32_decode-base32_encode_example =
    base32_decode-base32_encode (λ s. s) (255 ∷ 0 ∷ 7 ∷ [])
      (omega arith, (omega arith, (omega arith, tt))) refl

abbrev pub admin : MfaUser
admin = record {
  email = none;
  role = UserRole.super_admin;
  organization_id = none;
  account_status = AccountStatus.active;
}

abbrev pub clock : MfaEnv
clock = record {
  now = 90000;
  users = (3, admin) ∷ [];
  digest = λ s. s;
  encrypt = λ s. ok s;
  decrypt = λ s. ok s;
  upper = λ s. s;
  hmac_sha1 = λ _ n. n ∷ n ∷ n ∷ n ∷ n ∷ n ∷ n ∷ n ∷ [];
  new_token = "token-2";
  new_secret = 1 ∷ 2 ∷ [];
  new_session_id = 9;
  new_enrollment_id = 9;
  recovery_codes = [];
}

abbrev pub secret : String
secret = "AEBA"

abbrev key : List ℕ
key = 32 ∷ 32 ∷ []

decoding : (key : List ℕ) × (base32_decode clock.upper secret ≡ ok key)
unfolding base32_decode
decoding = (_, refl)

match_totp_step-Answers_example :
    (r : Option ℕ) × (match_totp_step clock " 123456 " secret ≡ ok r)
    × Answers clock secret (trim " 123456 ") r
match_totp_step-Answers_example =
    match_totp_step-Answers clock " 123456 " secret decoding.0 decoding.1

abbrev pub session : PreAuthSession
session = record {
  user_id = 3;
  token_digest = "token-1";
  purpose = challenge;
  expires_at = 100000;
  consumed_at = none;
  failed_attempts = 0;
  locked_at = none;
}

abbrev pub vault : Vault
vault = record {
  sessions = (1, session) ∷ [];
  enrollments =
      (
        4,
        record {
          user_id = 3;
          status = EnrollmentStatus.active;
          encrypted_totp_secret = secret;
          enabled_at = some 5;
          enforced_at = some 5;
          last_verified_at = none;
          last_verified_step = none;
          disabled_at = none;
          created_at = 4;
        },
      )
      ∷ [];
  backup_codes =
      (6, record { enrollment_id = 4; user_id = 3; code_digest = "ABCD1234"; used_at = none }) ∷ [];
  audit_log = [];
}

abbrev passing : PreAuth
passing = record { id = 1; session = session; user = admin }

passing_lem : (complete_challenge clock "token-1" recovery_code "ABCD-1234" vault).0 ≡ ok passing
unfolding complete_challenge validate_pre_auth is_open complete_by complete_recovery_code_challenge
    answer_code active_enrollment newest digest_recovery_code keep_alphanumeric trim find find_first
    find_many requires_privileged_mfa
passing_lem = refl

complete_challenge-Accepts_example :
    Opens clock "token-1" challenge vault passing
    × Accepts clock passing recovery_code "ABCD-1234" vault
    × ((complete_challenge clock "token-1" recovery_code "ABCD-1234" vault).1.sessions
        ≡ put 1 (consumed clock session) vault.sessions)
complete_challenge-Accepts_example =
    complete_challenge-Accepts clock "token-1" recovery_code "ABCD-1234" vault passing passing_lem

abbrev passed : Vault
passed = (complete_challenge clock "token-1" recovery_code "ABCD-1234" vault).1

one_session : HasDistinctKeys vault.sessions
unfolding find
one_session = (refl, tt)

one_code : HasDistinctKeys vault.backup_codes
unfolding find
one_code = (refl, tt)

only_code : (i : ℕ) (a : BackupCode) → find i vault.backup_codes ≡ some a → i ≡ 6
unfolding find
only_code i a e = ground (arith, e)

unique_codes : AreUnique vault
unique_codes i j a b e f s = only_code i a e ∙ sym (only_code j b f)

same_digest : digest_recovery_code clock "ABCD1234" ≡ digest_recovery_code clock "ABCD-1234"
unfolding digest_recovery_code keep_alphanumeric
same_digest = refl

recovery_code_once_example :
    (complete_challenge clock "token-2" recovery_code "ABCD1234" (attempt_all [] passed)).0
    ≢ ok passing
recovery_code_once_example =
    recovery_code_once clock "token-1" "ABCD-1234" vault passing [] clock "token-2" "ABCD1234"
      passing one_code unique_codes passing_lem same_digest

only_session :
    (id : ℕ) (s : PreAuthSession) → find id vault.sessions ≡ some s → s.failed_attempts ≡ 0
unfolding find
only_session id s e = ground (arith, e)

guarded : AreGuarded vault.sessions
guarded = (
  one_session,
  λ id s e.
      let zero_attempts = only_session id s e in
      (omega (arith, zero_attempts), λ f. absurd (omega (arith, zero_attempts, f))),
)

abbrev wronged : Vault
wronged = serve_mfa clock (pass "token-1" recovery_code "0000") vault

wronging : find 1 wronged.sessions ≡ some (attempted clock session)
unfolding serve_mfa complete_challenge validate_pre_auth is_open complete_by
    complete_recovery_code_challenge answer_code active_enrollment newest digest_recovery_code
    keep_alphanumeric trim find find_first find_many requires_privileged_mfa put
wronging = refl

fresh_session : find clock.new_session_id vault.sessions ≡ none
unfolding find
fresh_session = refl

abbrev wrong : PreAuthSession
wrong = attempted clock session

Serves-IsGuarded_example :
    (wrong.failed_attempts ≤ 5) × ((wrong.failed_attempts ≢ 5) ⊎ (is_some wrong.locked_at ≡ true))
Serves-IsGuarded_example =
    Serves-IsGuarded vault wronged 1 (attempted clock session)
      (next clock (pass "token-1" recovery_code "0000") begin fresh_session) guarded wronging

serve_mfa-Follows_example : Follows (some session) (find 1 wronged.sessions)
unfolding find
serve_mfa-Follows_example =
    serve_mfa-Follows clock (pass "token-1" recovery_code "0000") vault 1 one_session fresh_session

drain_terminates_example :
    ((drain 9 8 200).1 < 5)
    × (8 ≡ 5 * length (drain 9 8 200).0 + (drain 9 8 200).1)
    × (drain 8 8 200 ≡ drain 9 8 200)
drain_terminates_example = drain_terminates 9 8 8 200 (omega arith) (omega arith)
