-- ===== src/Auth/Recovery/Issues.antt =====
-- When a token for a reset is made, and how many of a user's tokens are open then.
use fixzone_enterprise_api.Base.{
  ℕ, suc, ◌-◌, ◌*◌, ◌≤◌, String, ◌≡◌, ◌⊎◌, refl, ◌∙◌, ap, Bool, true, false, not, ◌||◌, Option,
  none, some, is_some, inl, inr, Option-cases, Bool-cases, ltb, leb, [], ◌∷◌, ◌++◌, is_text, any,
  str_eq, length, Table, find, find_many, update_many, arith,
}
use fixzone_enterprise_api.Auth.Registry.{
  UserRow, PasswordResetToken, Registry, DeliveryService, AuthEnv, can_recover,
}
use fixzone_enterprise_api.Auth.Recovery.{
  made_since, password_reset_rate_limited, is_open_token, superseded, issue_reset_token,
  enabled_service, create_password_reset_token,
}

-- How many rows of a table pass a test.
abbrev count : (PasswordResetToken → Bool) → Table PasswordResetToken → ℕ
count p t = length (find_many p t)

count-append :
    (p : PasswordResetToken → Bool) (id : ℕ) (a : PasswordResetToken) (t : Table PasswordResetToken)
    → count p (t ++ (id, a) ∷ []) ≤ suc (count p t)
unfolding find_many
count-append p id a [] = elim (Bool-cases (p a)) [
  | inl e ↦ rw e (omega arith)
  | inr e ↦ rw e (omega arith)
]
count-append p id a ((j, b) ∷ t) =
    let rest = count-append p id a t in
    elim (Bool-cases (p b)) [ inl e ↦ rw e (omega arith) | inr e ↦ rw e (omega arith) ]

superseded_is_closed :
    (now user : ℕ) (a : PasswordResetToken) → is_open_token now user (superseded now a) ≡ false
superseded_is_closed now user a = ground arith

-- After the user's open tokens are superseded, none is open.
count-superseded :
    (now user : ℕ) (t : Table PasswordResetToken)
    → count (is_open_token now user) (update_many (is_open_token now user) (superseded now) t) ≡ 0
unfolding find_many update_many
count-superseded now user [] = refl
count-superseded now user ((j, a) ∷ t) = elim (Bool-cases (is_open_token now user a)) [
  | inl e ↦ rw e (rw (superseded_is_closed now user a) (count-superseded now user t))
  | inr e ↦ rw e (rw e (count-superseded now user t))
]

-- Superseding changes neither whose a token is nor when it was made.
count-made :
    (since user now : ℕ) (p : PasswordResetToken → Bool) (t : Table PasswordResetToken)
    → count (made_since since user) (update_many p (superseded now) t)
      ≡ count (made_since since user) t
unfolding find_many update_many
count-made since user now p [] = refl
count-made since user now p ((j, a) ∷ t) =
    let rest = count-made since user now p t in
    let made = Bool-cases (made_since since user a) in
    elim (Bool-cases (p a)) [
      | inl e ↦ rw e (elim made [ inl f ↦ rw f (ap suc rest) | inr f ↦ rw f rest ])
      | inr e ↦ rw e (elim made [ inl f ↦ rw f (ap suc rest) | inr f ↦ rw f rest ])
    ]

-- A token was made for a user: the user is stored and can recover, no token was made for the user
-- within the delivery's cooldown, and afterwards at most one of the user's tokens is open and the day's
-- number of tokens is within the delivery's limit.
pub record Issues (env : AuthEnv) (user : ℕ) (g g' : Registry) : Type 0 where
  pub account : UserRow
  pub service : DeliveryService
  pub stored : find user g.users ≡ some account
  pub recoverable : can_recover account ≡ true
  pub configured : env.delivery ≡ some service
  pub quiet :
      length
        (find_many (made_since (env.now - service.cooldown_seconds * 1000) user) g.reset_tokens)
      ≡ 0
  pub daily :
      length (find_many (made_since (env.now - 24 * 60 * 60 * 1000) user) g'.reset_tokens)
      ≤ service.daily_limit
  pub single : length (find_many (is_open_token env.now user) g'.reset_tokens) ≤ 1

below_limit : {a b c : ℕ} → a ≤ suc b → suc b ≤ c → a ≤ c
below_limit e f = omega (arith, e, f)

none_above : {n : ℕ} → ltb 0 n ≡ false → n ≡ 0
none_above e = ground arith

above_limit : {a b : ℕ} → leb a b ≡ false → suc b ≤ a
above_limit e = ground arith

-- The limits that a request passes.
rate_limited_lem :
    (env : AuthEnv) (user : ℕ) (g : Registry) (service : DeliveryService)
    → env.delivery ≡ some service
    → is_some (password_reset_rate_limited env user g) ≡ false
    → (count (made_since (env.now - service.cooldown_seconds * 1000) user) g.reset_tokens ≡ 0)
      × (suc (count (made_since (env.now - 24 * 60 * 60 * 1000) user) g.reset_tokens)
          ≤ service.daily_limit)
unfolding password_reset_rate_limited
rate_limited_lem env user g service d =
    let recent = made_since (env.now - service.cooldown_seconds * 1000) user in
    let daily = made_since (env.now - 24 * 60 * 60 * 1000) user in
    elim (Bool-cases (ltb 0 (count recent g.reset_tokens))) [
      | inl e ↦ rw (d, e) (λ h. absurd (cc h))
      | inr e ↦ elim (Bool-cases (leb service.daily_limit (count daily g.reset_tokens))) [
        | inl f ↦ rw (d, e, f) (λ h. absurd (cc h))
        | inr f ↦ rw (d, e, f) (λ h. (none_above e, above_limit f))
      ]
    ]

-- What the transaction of a request leaves of the tokens.
issue-reset_tokens :
    (env : AuthEnv) (service : DeliveryService) (user : ℕ) (by : Option ℕ) (email : String)
    (return_to : Option String) (g : Registry)
    → ((issue_reset_token env service user by email return_to g).1.reset_tokens ≡ g.reset_tokens)
      ⊎ ((row : PasswordResetToken) × ((issue_reset_token env service user by email return_to
              g).1.reset_tokens
            ≡ update_many (is_open_token env.now user) (superseded env.now) g.reset_tokens
              ++ (env.new_id, row) ∷ []))
unfolding issue_reset_token
issue-reset_tokens env service user by email return_to g =
    elim (Bool-cases
      (any (λ row. str_eq row.1.token_digest (env.digest env.new_token)) g.reset_tokens)) [
        | inl e ↦ rw e (inl refl)
        | inr e ↦ rw e (inr (_, refl))
      ]

-- The rows after a request with a new token: at most one of the user's is open, and at most one more
-- was made.
issued-counts :
    (now user id since : ℕ) (row : PasswordResetToken) (t : Table PasswordResetToken)
    (after : Table PasswordResetToken)
    → after ≡ update_many (is_open_token now user) (superseded now) t ++ (id, row) ∷ []
    → (count (is_open_token now user) after ≤ 1)
      × (count (made_since since user) after ≤ suc (count (made_since since user) t))
issued-counts now user id since row t after e =
    let kept = update_many (is_open_token now user) (superseded now) t in
    rw e (
      omega (arith, count-append (is_open_token now user) id row kept, count-superseded now user t),
      omega (
        arith,
        count-append (made_since since user) id row kept,
        count-made since user now (is_open_token now user) t,
      ),
    )

second_false : (a b : Bool) → (a || b) ≡ false → b ≡ false
second_false true b h = absurd (cc h)
second_false false b h = h

enabled_service_lem :
    (delivery : Option DeliveryService) (service : DeliveryService)
    → enabled_service delivery ≡ some service
    → delivery ≡ some service
enabled_service_lem none service = λ h. absurd (cc h)
enabled_service_lem (some d) service = elim (Bool-cases d.enabled) [
  | inl e ↦ rw e (λ h. h)
  | inr e ↦ rw e (λ h. absurd (cc h))
]

-- A request that reaches the transaction has passed the checks of the user, the delivery and the limits.
create-cases :
    (env : AuthEnv) (user : ℕ) (by : Option ℕ) (return_to : Option String) (g : Registry)
    → ((create_password_reset_token env user by return_to g).1.reset_tokens ≡ g.reset_tokens)
      ⊎ ((u : UserRow) × (service : DeliveryService) × (email : String) × (find user g.users
            ≡ some u)
          × (can_recover u ≡ true)
          × (enabled_service env.delivery ≡ some service)
          × ((not (is_text (some email)) || is_some (password_reset_rate_limited env user g))
              ≡ false)
          × (create_password_reset_token env user by return_to g
              ≡ issue_reset_token env service user by email return_to g))
unfolding create_password_reset_token
create-cases env user by return_to g = elim (Option-cases (find user g.users)) [
  | inl e ↦ rw (e, create_password_reset_token) (inl refl)
  | inr (u, e) ↦ elim (Bool-cases (can_recover u)) [
    | inr r ↦ rw (e, create_password_reset_token) (rw r (inl refl))
    | inl r ↦ elim (Option-cases (enabled_service env.delivery)) [
      | inl d ↦ rw (e, create_password_reset_token) (rw (r, d) (inl refl))
      | inr (service, d) ↦ elim (Option-cases u.email) [
        | inl m ↦ rw (e, create_password_reset_token) (rw (r, d, m) (inl refl))
        | inr (email, m) ↦
            elim (Bool-cases
              (not (is_text (some email)) || is_some (password_reset_rate_limited env user g))) [
                | inl l ↦ rw (e, create_password_reset_token) (rw (r, d, m, l) (inl refl))
                | inr l ↦
                    let run : create_password_reset_token env user by return_to g
                        ≡ issue_reset_token env service user by email return_to g =
                      rw (e, create_password_reset_token) (rw (r, d, m, l) refl) in
                    inr (u, service, email, e, r, d, l, run)
              ]
      ]
    ]
  ]
]

-- A request of a reset, whoever makes it, leaves the tokens as they are, or it makes a token within the
-- limits: the user is stored and can recover, no token of theirs was made within the cooldown, and then
-- at most one of their tokens is open and the day's tokens are no more than the daily limit.
pub create-Issues :
    (env : AuthEnv) (user : ℕ) (by : Option ℕ) (return_to : Option String) (g : Registry)
    → ((create_password_reset_token env user by return_to g).1.reset_tokens ≡ g.reset_tokens)
      ⊎ Issues env user g (create_password_reset_token env user by return_to g).1
create-Issues env user by return_to g = elim (create-cases env user by return_to g) [
  | inl e ↦ inl e
  | inr (u, service, email, stored, recoverable, enabled, passed, run) ↦
      elim (issue-reset_tokens env service user by email return_to g) [
        | inl e ↦ inl (ap (λ r. r.1.reset_tokens) run ∙ e)
        | inr (row, e) ↦
            let configured = enabled_service_lem env.delivery service enabled in
            let (quiet, below) =
              rate_limited_lem env user g service configured (second_false _ _ passed) in
            let (single, more) =
              issued-counts env.now user env.new_id (env.now - 24 * 60 * 60 * 1000) row
                g.reset_tokens _ (ap (λ r. r.1.reset_tokens) run ∙ e) in
            inr (record {
              account = u;
              service = service;
              stored = stored;
              recoverable = recoverable;
              configured = configured;
              quiet = quiet;
              daily = below_limit more below;
              single = single;
            })
      ]
]
