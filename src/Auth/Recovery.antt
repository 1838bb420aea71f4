-- ===== src/Auth/Recovery.antt =====
-- The recovery of accounts (src/auth/auth.service.ts): requestPasswordReset, completePasswordReset and
-- createPasswordResetToken.
pub mod Resets
pub mod Issues
use fixzone_enterprise_api.Base.{
  ℕ, suc, String, Bool, true, false, not, ◌&&◌, ◌||◌, Option, none, some, List, [], ◌∷◌, ◌++◌, ◌+◌,
  ◌-◌, ◌*◌, ◌==◌, is_some, or_else, is_text, ltb, leb, trim, str_eq, text_length, Table, find, put,
  find_first, update_many, any, length, find_many, if◌then◌else◌,
}
use Prim.Native.Char.{code}
use fixzone_enterprise_api.Base.Result.{Result, ok, err, bad_request, database}
use fixzone_enterprise_api.Auth.Registry.{
  UserRow, PasswordResetToken, Registry, DeliveryService, AuthEnv, AuthCall, log,
  generic_auth_failure, is_active_status, is_firebase_owned_citizen, can_recover, has_text,
}

-- The test of a pattern that is one range of characters.
abbrev has_between : ℕ → ℕ → String → Bool
has_between low high String.[] = false
has_between low high (String.◌∷◌ c s) =
    let rest = has_between low high s in (leb low (code c) && leb (code c) high) || rest

-- `isCompliantPassword`: eight characters, a lower and an upper case letter, and a digit.
unfoldable pub is_compliant_password : String → Bool
unfolding text_length
is_compliant_password password =
    leb 8 (text_length password)
    && has_between 97 122 password
    && has_between 65 90 password
    && has_between 48 57 password

-- `passwordResetTtlMs`: at most an hour, and fifteen minutes where the setting is out of range.
unfoldable pub password_reset_ttl_ms : AuthEnv → ℕ
password_reset_ttl_ms env = elim env.ttl_minutes [
  | none ↦ 15 * 60000
  | some minutes ↦ if ltb 0 minutes && leb minutes 60 then minutes * 60000 else 15 * 60000
]

-- `safePasswordResetReturnTo`
unfoldable pub safe_return_to : Option String → Option String
unfolding trim
safe_return_to none = none
safe_return_to (some route) =
    let r = trim route in
    if str_eq r "/citizen-login" || str_eq r "/provider-login" || str_eq r "/admin-login"
    then some r
    else none

-- The user's tokens that were made since a time.
abbrev pub made_since : ℕ → ℕ → PasswordResetToken → Bool
made_since since user t = t.user_id == user && leb since t.created_at

abbrev cooldown_of : AuthEnv → ℕ
cooldown_of env = elim env.delivery [ none ↦ 120 | some d ↦ d.cooldown_seconds ]

abbrev daily_limit_of : AuthEnv → ℕ
daily_limit_of env = elim env.delivery [ none ↦ 5 | some d ↦ d.daily_limit ]

-- `passwordResetRateLimited`
unfoldable pub password_reset_rate_limited : AuthEnv → ℕ → Registry → Option String
password_reset_rate_limited env user g =
    if ltb 0
      (length (find_many (made_since (env.now - cooldown_of env * 1000) user) g.reset_tokens))
    then some "cooldown_limited"
    else if leb (daily_limit_of env)
        (length (find_many (made_since (env.now - 24 * 60 * 60 * 1000) user) g.reset_tokens))
    then some "daily_limited"
    else none

-- A token that can still be used.
abbrev pub is_open_token : ℕ → ℕ → PasswordResetToken → Bool
is_open_token now user t =
    t.user_id == user
    && not (is_some t.used_at)
    && not (is_some t.superseded_at)
    && ltb now t.expires_at

abbrev pub superseded : ℕ → PasswordResetToken → PasswordResetToken
superseded now t = record t { superseded_at = some now }

-- The token's row after its delivery was tried.
abbrev pub new_reset_token : AuthEnv → ℕ → Option ℕ → Bool → String → PasswordResetToken
new_reset_token env user by delivered status = record {
  user_id = user;
  token_digest = env.digest env.new_token;
  expires_at = env.now + password_reset_ttl_ms env;
  used_at = none;
  superseded_at = if delivered then none else some env.now;
  requested_by_id = by;
  delivery_status = status;
  created_at = env.now;
}

-- The transaction and the delivery of `createPasswordResetToken`; a digest stands once, and what the
-- delivery reports is written on the row that the transaction made.
unfoldable pub issue_reset_token :
    AuthEnv → DeliveryService → ℕ → Option ℕ → String → Option String → AuthCall (Unit {0})
issue_reset_token env service user by email return_to g =
    if any (λ row. str_eq row.1.token_digest (env.digest env.new_token)) g.reset_tokens
    then (err (database "Unique constraint failed"), g)
    else let result = service.deliver_to email env.new_token (safe_return_to return_to) in
      (
        ok tt,
        log "Password Reset Requested" (or_else by (some user)) (
            log "Password Reset Delivery Attempted" (or_else by (some user)) (record g {
              reset_tokens =
                  update_many (is_open_token env.now user) (superseded env.now) g.reset_tokens
                  ++ (env.new_id, new_reset_token env user by result.delivered result.status) ∷ [];
            })),
      )

-- The answer of every request of a reset, with an audit row.
abbrev not_delivered : ℕ → Option ℕ → AuthCall (Unit {0})
not_delivered user by g = (ok tt, log "Password Reset Requested" (or_else by (some user)) g)

abbrev pub enabled_service : Option DeliveryService → Option DeliveryService
enabled_service none = none
enabled_service (some service) = if service.enabled then some service else none

-- `createPasswordResetToken`
unfoldable pub create_password_reset_token :
    AuthEnv → ℕ → Option ℕ → Option String → AuthCall (Unit {0})
create_password_reset_token env user by return_to g = elim (find user g.users) [
  | none ↦ not_delivered user by g
  | some u ↦
      if not (can_recover u) then not_delivered user by g else elim (enabled_service env.delivery) [
        | none ↦ not_delivered user by g
        | some service ↦ elim u.email [
          | none ↦ not_delivered user by g
          | some email ↦
              if not (is_text (some email)) || is_some (password_reset_rate_limited env user g)
              then not_delivered user by g
              else issue_reset_token env service user by email return_to g
        ]
      ]
]

-- One of the alternatives of the query: an address in lower case, or a phone number.
abbrev pub has_identifier : AuthEnv → Option String → Option String → UserRow → Bool
has_identifier env email phone u =
    (is_text email && elim email [ none ↦ false | some e ↦ has_text (trim (env.lower e)) u.email ])
    || (is_text phone && elim phone [ none ↦ false | some p ↦ has_text (trim p) u.phone ])

-- `requestPasswordReset`
unfoldable pub request_password_reset :
    AuthEnv → Option String → Option String → Option String → AuthCall (Unit {0})
request_password_reset env email phone return_to g =
    if not (is_text email || is_text phone)
    then (err (bad_request "Email or phone is required"), g)
    else elim (find_first (λ u. has_identifier env email phone u) g.users) [
      | none ↦ (ok tt, log "Password Reset Request" none g)
      | some (id, u) ↦
          if can_recover u
          then create_password_reset_token env id none return_to g
          else (ok tt, log "Password Reset Request" (some id) g)
    ]

-- `issueAdministrativePasswordReset`
unfoldable pub issue_administrative_password_reset : AuthEnv → ℕ → ℕ → AuthCall (Unit {0})
issue_administrative_password_reset env target actor =
    create_password_reset_token env target (some actor) none

abbrev pub has_reset_digest : String → PasswordResetToken → Bool
has_reset_digest digest t = str_eq t.token_digest digest

-- What `completePasswordReset` asks of a token and its user.
unfoldable pub accepts_reset : ℕ → PasswordResetToken → UserRow → Bool
accepts_reset now t u =
    not (is_some t.used_at)
    && not (is_some t.superseded_at)
    && ltb now t.expires_at
    && is_active_status u.account_status
    && not (is_firebase_owned_citizen u)

abbrev pub with_password : String → UserRow → UserRow
with_password hash u = record u { password_hash = some hash; token_version = u.token_version + 1 }

-- What the transaction of `completePasswordReset` writes, with the audit row.
abbrev pub password_reset :
    AuthEnv → ℕ → PasswordResetToken → UserRow → String → Registry → Registry
password_reset env id t u password g = log "Password Reset Completed" (some t.user_id) (record g {
  reset_tokens = put id (record t { used_at = some env.now }) g.reset_tokens;
  users = put t.user_id (with_password (env.hash_password password) u) g.users;
})

abbrev reset_rejected : Option ℕ → AuthCall (Unit {0})
reset_rejected actor g = (err generic_auth_failure, log "Password Reset Rejected" actor g)

-- `completePasswordReset`
unfoldable pub complete_password_reset : AuthEnv → String → String → AuthCall (Unit {0})
unfolding trim
complete_password_reset env token raw g =
    let password = trim raw in
    if not (is_compliant_password password)
    then (err (bad_request "Password does not meet requirements"), g)
    else elim (find_first (has_reset_digest (env.digest (trim token))) g.reset_tokens) [
      | none ↦ reset_rejected none g
      | some (id, t) ↦ elim (find t.user_id g.users) [
        | none ↦ (err (database "Inconsistent query result"), g)
        | some u ↦
            if accepts_reset env.now t u
            then (ok tt, password_reset env id t u password g)
            else reset_rejected (some t.user_id) g
      ]
    ]
