-- ===== src/Auth/Login/Admits.antt =====
-- Who gets a session from a login, and what the session is worth.
use Prim.Native.Nat.{◌/◌}
use fixzone_enterprise_api.Base.{
  ltb, ◌+◌, ◌*◌, if◌then◌else◌, ℕ, String, ◌≡◌, ◌≢◌, refl, sym, ◌∙◌, ap, true, false, ◌||◌, some,
  inl, inr, Option-cases, Bool-cases, is_text, find, find_first, find_first-find, HasDistinctKeys,
  ◌==◌, ==_iff, arith,
}
use fixzone_enterprise_api.Base.Result.{Result, ok, err, unauthorized, Result-cases}
use fixzone_enterprise_api.Mfa.Vault.{requires_privileged_mfa}
use fixzone_enterprise_api.Mfa.Sessions.{PreAuth}
use fixzone_enterprise_api.Auth.Registry.{UserRow, Registry, AuthEnv, is_active_status}
use fixzone_enterprise_api.Auth.Login.{
  Claims, LoginAnswer, tokens, LoginDto, issue_tokens, is_named_provider, pending_answer,
  start_second_factor, admit, identifies, login_as, password_hash_of, login, validate,
  validate_session,
}

-- The user to whom a login gives a session: one that the login names, whose password it has, who is
-- active and has no second factor, and who is the provider that the login names, where it names one.
pub record Admits (env : AuthEnv) (dto : LoginDto) (c : Claims) (g g' : Registry) : Type 0 where
  pub id : ℕ
  pub user : UserRow
  pub hash : String
  pub stored : find id g.users ≡ some user
  pub named : identifies env dto user ≡ true
  pub hashed : user.password_hash ≡ some hash
  pub password : env.compare_password dto.password hash ≡ true
  pub active : is_active_status user.account_status ≡ true
  pub provider : is_named_provider dto.provider_id user ≡ true
  pub single : requires_privileged_mfa user.role ≡ false
  pub claims : c ≡ issue_tokens env.now id user
  pub kept : g'.users ≡ g.users

pending-tokens : (r : Result PreAuth) (c : Claims) → pending_answer r ≢ ok (tokens c)
pending-tokens (err x) c h = absurd (cc h)
pending-tokens (ok p) c h = absurd (cc h)

-- The second factor gives no session yet.
second_factor-tokens :
    (env : AuthEnv) (id : ℕ) (u : UserRow) (g g' : Registry) (c : Claims)
    → start_second_factor env id u g ≢ (ok (tokens c), g')
unfolding start_second_factor
second_factor-tokens env id u g g' c = elim (Option-cases env.mfa) [
  | inl e ↦ rw (e, start_second_factor) (λ h. absurd (cc (ap (λ r. r.0) h)))
  | inr (mfa, e) ↦ rw (e, start_second_factor) (λ h. pending-tokens _ c (ap (λ r. r.0) h))
]

abbrev session : Claims → Result LoginAnswer
session c = ok (tokens c)

same_claims : (a b : Claims) → session a ≡ session b → b ≡ a
same_claims a b h = ground arith

admit-tokens :
    (env : AuthEnv) (id : ℕ) (u : UserRow) (g g' : Registry) (c : Claims)
    → admit env id u g ≡ (ok (tokens c), g')
    → (requires_privileged_mfa u.role ≡ false)
      × (c ≡ issue_tokens env.now id u)
      × (g'.users ≡ g.users)
unfolding admit
admit-tokens env id u g g' c = elim (Result-cases (env.ensure_identity id)) [
  | inr (x, e) ↦ rw (e, admit) (λ h. absurd (cc (ap (λ r. r.0) h)))
  | inl (_, e) ↦ elim (Bool-cases (requires_privileged_mfa u.role)) [
    | inl f ↦ rw (e, admit) (rw f (λ h. absurd (second_factor-tokens env id u g g' c h)))
    | inr f ↦
        rw (e, admit)
          (rw f (λ h. (refl, same_claims _ c (ap (λ r. r.0) h), ap (λ r. r.1.users) (sym h))))
  ]
]

login_as-tokens :
    (env : AuthEnv) (dto : LoginDto) (id : ℕ) (u : UserRow) (hash : String) (g g' : Registry)
    (c : Claims)
    → login_as env dto id u hash g ≡ (ok (tokens c), g')
    → (env.compare_password dto.password hash ≡ true)
      × (is_active_status u.account_status ≡ true)
      × (is_named_provider dto.provider_id u ≡ true)
      × (admit env id u g ≡ (ok (tokens c), g'))
unfolding login_as
login_as-tokens env dto id u hash g g' c =
    elim (Bool-cases (env.compare_password dto.password hash)) [
      | inr e ↦ rw e (λ h. absurd (cc (ap (λ r. r.0) h)))
      | inl e ↦ elim (Bool-cases (is_active_status u.account_status)) [
        | inr f ↦ rw (e, f) (λ h. absurd (cc (ap (λ r. r.0) h)))
        | inl f ↦ elim (Bool-cases (is_named_provider dto.provider_id u)) [
          | inr k ↦ rw (e, f, k) (λ h. absurd (cc (ap (λ r. r.0) h)))
          | inl k ↦ rw (e, f, k) (λ h. (refl, refl, refl, h))
        ]
      ]
    ]

password_hash_of_lem :
    (u : UserRow) (hash : String) → password_hash_of u ≡ some hash → u.password_hash ≡ some hash
password_hash_of_lem u hash = elim (Bool-cases (is_text u.password_hash)) [
  | inl e ↦ rw e (λ h. h)
  | inr e ↦ rw e (λ h. absurd (cc h))
]

-- A login gives a session only to a stored user that it names, whose password it has, who is active,
-- needs no second factor and is the provider that it names, if it names one; the session's claims are
-- the user's, and the users stay as they are, where no identifier stands twice.
pub login-Admits :
    (env : AuthEnv) (dto : LoginDto) (c : Claims) (g g' : Registry)
    → HasDistinctKeys g.users
    → login env dto g ≡ (ok (tokens c), g')
    → Admits env dto c g g'
unfolding login
login-Admits env dto c g g' distinct =
    elim (Bool-cases (is_text dto.email || is_text dto.phone || is_text dto.provider_id)) [
      | inr e ↦ rw e (λ h. absurd (cc (ap (λ r. r.0) h)))
      | inl e ↦ elim (Option-cases (find_first (identifies env dto) g.users)) [
        | inl f ↦ rw (e, f) (λ h. absurd (cc (ap (λ r. r.0) h)))
        | inr ((id, u), f) ↦ elim (Option-cases (password_hash_of u)) [
          | inl k ↦ rw (e, f, k) (λ h. absurd (cc (ap (λ r. r.0) h)))
          | inr (hash, k) ↦
              rw (e, f, k)
                (λ h.
                  let (password, active, provider, rest) =
                    login_as-tokens env dto id u hash g g' c h in
                  let (single, claims, kept) = admit-tokens env id u g g' c rest in
                  let (stored, named) =
                    find_first-find (identifies env dto) g.users id u distinct f in
                  record {
                    id = id;
                    user = u;
                    hash = hash;
                    stored = stored;
                    named = named;
                    hashed = password_hash_of_lem u hash k;
                    password = password;
                    active = active;
                    provider = provider;
                    single = single;
                    claims = claims;
                    kept = kept;
                  })
        ]
      ]
    ]

-- Where no identifier stands twice: the session that a login gives is accepted by every request that
-- comes on the same tables within a day, counted in whole seconds. The check of its claims answers an
-- active user whom the login named and whose password the login has, in that user's role; and from
-- the end of the day it refuses them.
pub login-validate_session :
    (env : AuthEnv) (dto : LoginDto) (c : Claims) (g g' : Registry) (later : ℕ)
    → HasDistinctKeys g.users
    → login env dto g ≡ (ok (tokens c), g')
    → (u : UserRow) × (hash : String) × (validate_session later c g' ≡ (
        if ltb (later / 1000) (env.now / 1000 + 24 * 60 * 60)
        then ok u
        else err (unauthorized "Unauthorized")))
      × (identifies env dto u ≡ true)
      × (u.password_hash ≡ some hash)
      × (env.compare_password dto.password hash ≡ true)
      × (is_active_status u.account_status ≡ true)
      × (c.role ≡ u.role)
unfolding validate_session validate
login-validate_session env dto c g g' later distinct h =
    let admitted = login-Admits env dto c g g' distinct h in
    let u = admitted.user in
    let here : find c.sub g'.users ≡ some u =
      ap (λ x. find x.sub g'.users) admitted.claims
      ∙ ap (find admitted.id) admitted.kept
      ∙ admitted.stored in
    let current : (c.token_version == u.token_version) ≡ true =
      (==_iff c.token_version u.token_version).1 (ap (λ x. x.token_version) admitted.claims) in
    let accepted : validate c g' ≡ ok u =
      rw (here, validate) (rw (admitted.active, current) refl) in
    (
      u,
      admitted.hash,
      rw (← ap (λ x. x.expires_at) admitted.claims) (rw accepted refl),
      admitted.named,
      admitted.hashed,
      admitted.password,
      admitted.active,
      ap (λ x. x.role) admitted.claims,
    )
