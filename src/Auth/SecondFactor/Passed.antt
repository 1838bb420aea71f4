-- ===== src/Auth/SecondFactor/Passed.antt =====
-- What a session after a second factor took, and what it is worth.
use mathlib.Core.Path.{subst}
use Prim.Native.Nat.{◌/◌}
use fixzone_enterprise_api.Base.{
  ◌<◌, ◌+◌, ◌*◌, ℕ, String, ◌≡◌, refl, sym, ◌∙◌, ap, Bool, true, false, not, ltb, is_some, ◌&&◌,
  some, [], ◌∷◌, inl, inr, Option-cases, Bool-cases, Table, find, ◌==◌, ==_iff, arith,
}
use fixzone_enterprise_api.Base.Result.{ok, Result-cases}
use fixzone_enterprise_api.Report.Types.{AccountStatus}
use fixzone_enterprise_api.Mfa.Vault.{
  challenge, MfaUser, MfaEnv, PreAuthPurpose, PreAuthSession, requires_privileged_mfa,
}
use fixzone_enterprise_api.Mfa.Sessions.{
  PreAuth, same_purpose, max_attempts, is_active_account, is_open,
}
use fixzone_enterprise_api.Mfa.Challenge.{MfaMethod, complete_challenge}
use fixzone_enterprise_api.Mfa.Challenge.Cases.{Opens}
use fixzone_enterprise_api.Mfa.Challenge.Once.{Accepts, complete_challenge-Accepts}
use fixzone_enterprise_api.Auth.Registry.{UserRow, Registry, AuthEnv, is_active_status}
use fixzone_enterprise_api.Auth.Login.{Claims, issue_tokens, is_current, validate, validate_session}
use fixzone_enterprise_api.Auth.SecondFactor.{
  mfa_user, mfa_users, over_users, confirmed_login, pass_challenge, complete_mfa_challenge,
}

find-mfa_users :
    (id : ℕ) (t : Table UserRow) (u : UserRow)
    → find id t ≡ some u
    → find id (mfa_users t) ≡ some (mfa_user u)
unfolding find
find-mfa_users id [] u = λ h. absurd (cc h)
find-mfa_users id ((j, v) ∷ t) u = elim (Bool-cases (j == id)) [
  | inl e ↦ rw e (λ h. let same : v ≡ u = ground arith in ap (λ x. some (mfa_user x)) same)
  | inr e ↦ rw e (λ h. find-mfa_users id t u h)
]

confirmed_login_lem :
    (now id : ℕ) (g g' : Registry) (c : Claims)
    → confirmed_login now id g ≡ (ok c, g')
    → (u : UserRow) × (find id g.users ≡ some u)
      × (c ≡ issue_tokens now id u)
      × (g'.users ≡ g.users)
unfolding confirmed_login
confirmed_login_lem now id g g' c = elim (Option-cases (find id g.users)) [
  | inl e ↦ rw (e, confirmed_login) (λ h. absurd (cc (ap (λ r. r.0) h)))
  | inr (u, e) ↦
      rw (e, confirmed_login)
        (λ h. (u, refl, sym (let f = ap (λ r. r.0) h in ground arith), ap (λ r. r.1.users) (sym h)))
]

and_both : (a b : Bool) → (a && b) ≡ true → (a ≡ true) × (b ≡ true)
and_both true b h = (refl, h)
and_both false b h = absurd (cc h)

last_two :
    (a b c d e f g : Bool) → (a && b && c && d && e && f && g) ≡ true → (f ≡ true) × (g ≡ true)
last_two a b c d e f g h =
    let (front, last) = and_both (a && b && c && d && e && f) g h in
    ((and_both (a && b && c && d && e) f front).1, last)

active_status : (s : AccountStatus) → is_active_account s ≡ true → is_active_status s ≡ true
active_status AccountStatus.active h = refl
active_status _ h = absurd (cc h)

-- What an open session of the second factor says of its user.
is_open-active :
    (env : MfaEnv) (purpose : PreAuthPurpose) (s : PreAuthSession) (u : MfaUser)
    → is_open env purpose s u ≡ true
    → (is_active_status u.account_status ≡ true) × (requires_privileged_mfa u.role ≡ true)
unfolding is_open
is_open-active env purpose s u h =
    let status = is_active_account u.account_status in
    let (active, privileged) =
      last_two (same_purpose s.purpose purpose) (not (is_some s.consumed_at))
        (not (is_some s.locked_at)) (ltb env.now s.expires_at) (ltb s.failed_attempts max_attempts)
        status (requires_privileged_mfa u.role) h in
    (active_status u.account_status active, privileged)

-- The claims of an active user's current version pass the check of a session.
accepted_session :
    (later : ℕ) (c : Claims) (g : Registry) (u : UserRow)
    → is_current later c ≡ true
    → find c.sub g.users ≡ some u
    → is_active_status u.account_status ≡ true
    → (c.token_version == u.token_version) ≡ true
    → validate_session later c g ≡ ok u
unfolding validate_session validate
accepted_session later c g u fresh here active current =
    rw fresh (rw (here, validate) (rw (active, current) refl))

-- Claims are current for a day.
current_claims :
    (now later id : ℕ) (u : UserRow) (c : Claims)
    → c ≡ issue_tokens now id u
    → later / 1000 < now / 1000 + 24 * 60 * 60
    → is_current later c ≡ true
current_claims now later id u c e soon = rw e (ground arith)

-- A session that a passed challenge gives: the token's session was open for challenges, the method
-- accepts the code, and the claims are those of the session's user, whom a later request accepts,
-- and whose role needs the second factor.
abbrev pub Confirms :
    MfaEnv → String → MfaMethod → String → Registry → Registry → Claims → ℕ → Type 0
Confirms mfa token method code g g' c later =
    (p : PreAuth) × Opens (over_users mfa g) token challenge g.vault p
    × Accepts (over_users mfa g) p method code g.vault
    × (c.sub ≡ p.session.user_id)
    × (u : UserRow) × (validate_session later c g' ≡ ok u)
    × (requires_privileged_mfa u.role ≡ true)

pass_challenge-Confirms :
    (now : ℕ) (mfa : MfaEnv) (token : String) (method : MfaMethod) (code : String) (g g' : Registry)
    (c : Claims) (later : ℕ)
    → later / 1000 < now / 1000 + 24 * 60 * 60
    → pass_challenge now mfa token method code g ≡ (ok c, g')
    → Confirms mfa token method code g g' c later
unfolding pass_challenge
pass_challenge-Confirms now mfa token method code g g' c later soon =
    elim (Result-cases (complete_challenge (over_users mfa g) token method code g.vault).0) [
      | inr (x, e) ↦ rw (e, pass_challenge) (λ h. absurd (cc (ap (λ r. r.0) h)))
      | inl (p, e) ↦
          rw (e, pass_challenge)
            (λ h.
              let (opens, accepts, _) =
                complete_challenge-Accepts (over_users mfa g) token method code g.vault p e in
              let w = record g {
                vault = (complete_challenge (over_users mfa g) token method code g.vault).1;
              } in
              let (u, stored, claims, kept) = confirmed_login_lem now p.session.user_id w g' c h in
              let same : p.user ≡ mfa_user u =
                let known = opens.known in
                let seen = find-mfa_users p.session.user_id g.users u stored in ground arith in
              let (active, privileged) =
                is_open-active (over_users mfa g) challenge p.session p.user opens.passes in
              let here : find c.sub g'.users ≡ some u =
                ap (λ x. find x.sub g'.users) claims ∙ ap (find p.session.user_id) kept ∙ stored in
              let current : (c.token_version == u.token_version) ≡ true =
                (==_iff c.token_version u.token_version).1 (ap (λ x. x.token_version) claims) in
              let open_account : is_active_status u.account_status ≡ true =
                subst (λ x. is_active_status x.account_status ≡ true) same active in
              (
                p,
                opens,
                accepts,
                ap (λ x. x.sub) claims,
                u,
                accepted_session later c g' u
                    (current_claims now later p.session.user_id u c claims soon) here open_account
                    current,
                subst (λ x. requires_privileged_mfa x.role ≡ true) same privileged,
              ))
    ]

-- A user who completes the challenge of the second factor has passed it on the tables as they were,
-- with the token of an open session and a code that the method accepts, and gets a session of their
-- own: every request that follows within a day, counted in whole seconds, accepts its claims and
-- answers the row of an active account whose role needs the second factor.
pub complete_mfa_challenge-Confirms :
    (env : AuthEnv) (token : String) (method : MfaMethod) (code : String) (g g' : Registry)
    (c : Claims) (later : ℕ)
    → later / 1000 < env.now / 1000 + 24 * 60 * 60
    → complete_mfa_challenge env token method code g ≡ (ok c, g')
    → (mfa : MfaEnv) × (env.mfa ≡ some mfa) × Confirms mfa token method code g g' c later
unfolding complete_mfa_challenge
complete_mfa_challenge-Confirms env token method code g g' c later soon =
    elim (Option-cases env.mfa) [
      | inl e ↦ rw (e, complete_mfa_challenge) (λ h. absurd (cc (ap (λ r. r.0) h)))
      | inr (mfa, e) ↦
          rw (e, complete_mfa_challenge)
            (λ h. (
              mfa,
              refl,
              pass_challenge-Confirms env.now mfa token method code g g' c later soon h,
            ))
    ]
