-- ===== src/Auth/Recovery/Resets.antt =====
-- What a completed reset of a password does to the token, to the sessions and to the next login.
use mathlib.Core.Path.{subst}
use mathlib.Core.Bool.{false≢true}
use fixzone_enterprise_api.Base.{
  ℕ, String, ◌≡◌, ◌≢◌, refl, sym, ◌∙◌, ap, true, false, some, inl, inr, Option-cases, Bool-cases,
  trim, find, find-put, find_first, find_first-find, find_first-put, HasDistinctKeys, ◌==◌, ==_iff,
  arith, if◌then◌else◌,
}
use fixzone_enterprise_api.Base.Result.{ok, err, unauthorized}
use fixzone_enterprise_api.Auth.Registry.{
  UserRow, PasswordResetToken, Registry, AuthEnv, is_active_status,
}
use fixzone_enterprise_api.Auth.Recovery.{
  is_compliant_password, has_reset_digest, accepts_reset, with_password, password_reset,
  complete_password_reset,
}
use fixzone_enterprise_api.Auth.Login.{Claims, is_current, validate, validate_session}

-- What a completed reset went through.
pub record Resets (env : AuthEnv) (token raw : String) (g g' : Registry) : Type 0 where
  pub id : ℕ
  pub row : PasswordResetToken
  pub user : UserRow
  pub compliant : is_compliant_password (trim raw) ≡ true
  pub first :
      find_first (has_reset_digest (env.digest (trim token))) g.reset_tokens ≡ some (id, row)
  pub known : find row.user_id g.users ≡ some user
  pub accepted : accepts_reset env.now row user ≡ true
  pub written : g' ≡ password_reset env id row user (trim raw) g

pub complete-Resets :
    (env : AuthEnv) (token raw : String) (g g' : Registry)
    → complete_password_reset env token raw g ≡ (ok tt, g')
    → Resets env token raw g g'
unfolding complete_password_reset
complete-Resets env token raw g g' = elim (Bool-cases (is_compliant_password (trim raw))) [
  | inr e ↦ rw e (λ h. absurd (cc (ap (λ r. r.0) h)))
  | inl e ↦
      elim (Option-cases (find_first (has_reset_digest (env.digest (trim token))) g.reset_tokens)) [
        | inl f ↦ rw (e, f) (λ h. absurd (cc (ap (λ r. r.0) h)))
        | inr ((id, t), f) ↦ elim (Option-cases (find t.user_id g.users)) [
          | inl k ↦ rw (e, f, k) (λ h. absurd (cc (ap (λ r. r.0) h)))
          | inr (u, k) ↦ elim (Bool-cases (accepts_reset env.now t u)) [
            | inr l ↦ rw (e, f, k, l) (λ h. absurd (cc (ap (λ r. r.0) h)))
            | inl l ↦
                rw (e, f, k, l)
                  (λ h. record {
                    id = id;
                    row = t;
                    user = u;
                    compliant = e;
                    first = f;
                    known = k;
                    accepted = l;
                    written = sym (ap (λ r. r.1) h);
                  })
          ]
        ]
      ]
]

-- A session that is accepted has not expired.
current_session :
    (now : ℕ) (c : Claims) (g : Registry) (u : UserRow)
    → validate_session now c g ≡ ok u
    → (is_current now c ≡ true) × (validate c g ≡ ok u)
unfolding validate_session
current_session now c g u = elim (Bool-cases (is_current now c)) [
  | inl e ↦ rw e (λ h. (refl, h))
  | inr e ↦ rw e (λ h. absurd (cc h))
]

-- What the check of a session says of the user's row.
validate_lem :
    (c : Claims) (g : Registry) (u : UserRow)
    → validate c g ≡ ok u
    → (find c.sub g.users ≡ some u) × (c.token_version ≡ u.token_version)
unfolding validate
validate_lem c g u = elim (Option-cases (find c.sub g.users)) [
  | inl e ↦ rw (e, validate) (λ h. absurd (cc h))
  | inr (v, e) ↦ elim (Bool-cases (is_active_status v.account_status)) [
    | inr k ↦ rw (e, validate) (rw k (λ h. absurd (cc h)))
    | inl k ↦ elim (Bool-cases (c.token_version == v.token_version)) [
      | inr f ↦ rw (e, validate) (rw (k, f) (λ h. absurd (cc h)))
      | inl f ↦
          rw (e, validate)
            (rw (k, f)
              (λ h.
                let same : v ≡ u = ground arith in
                (
                  ap (λ x. some x) same,
                  (==_iff c.token_version v.token_version).0 f ∙ ap (λ x. x.token_version) same,
                )))
    ]
  ]
]

-- A session of another version than the row's is refused.
validate-stale :
    (c : Claims) (g : Registry) (v : UserRow)
    → find c.sub g.users ≡ some v
    → (c.token_version == v.token_version) ≡ false
    → validate c g ≡ err (unauthorized "Unauthorized")
unfolding validate
validate-stale c g v e f = elim (Bool-cases (is_active_status v.account_status)) [
  | inl k ↦ rw (e, validate) (rw (k, f) refl)
  | inr k ↦ rw (e, validate) (rw k refl)
]

validate-same :
    (c : Claims) (g g' : Registry)
    → find c.sub g'.users ≡ find c.sub g.users
    → validate c g' ≡ validate c g
unfolding validate
validate-same c g g' e = rw (e, validate) refl

used_is_refused :
    (now used : ℕ) (t : PasswordResetToken) (u : UserRow)
    → accepts_reset now (record t { used_at = some used }) u ≡ false
unfolding accepts_reset
used_is_refused now used t u = refl

module _ (env : AuthEnv) (token raw : String) (g g' : Registry) where
  -- A completed reset ends every session of the user whose token it was, at once, and no session of
  -- anybody else.
  pub complete-validate_session :
      (now : ℕ) (c : Claims) (u : UserRow) (id : ℕ) (t : PasswordResetToken)
      → complete_password_reset env token raw g ≡ (ok tt, g')
      → find_first (has_reset_digest (env.digest (trim token))) g.reset_tokens ≡ some (id, t)
      → validate_session now c g ≡ ok u
      → validate_session now c g'
        ≡ (if t.user_id == c.sub then err (unauthorized "Unauthorized") else ok u)
  unfolding validate_session
  complete-validate_session now c u id t h first before =
      let (fresh, valid) = current_session now c g u before in
      let r = complete-Resets env token raw g g' h in
      let row : r.row ≡ t = let e = r.first in ground arith in
      let (stored, version) = validate_lem c g u valid in
      let new = with_password (env.hash_password (trim raw)) r.user in
      let after : find c.sub g'.users
          ≡ (if r.row.user_id == c.sub then some new else find c.sub g.users) =
        ap (λ w. find c.sub w.users) r.written
        ∙ find-put r.row.user_id c.sub new r.user g.users r.known in
      rw fresh (
        rw (← row) (elim (Bool-cases (r.row.user_id == c.sub)) [
          | inl e ↦
              let own : find c.sub g.users ≡ some r.user =
                subst (λ x. find x g.users ≡ some r.user) ((==_iff r.row.user_id c.sub).0 e)
                  r.known in
              let same : u ≡ r.user = ground arith in
              let stale : (c.token_version == new.token_version) ≡ false =
                let v : c.token_version ≡ r.user.token_version =
                  version ∙ ap (λ x. x.token_version) same in
                ground arith in
              let found : find c.sub g'.users ≡ some new = after ∙ rw e refl in
              rw e (validate-stale c g' new found stale)
          | inr e ↦
              let kept : find c.sub g'.users ≡ find c.sub g.users = after ∙ rw e refl in
              rw e (validate-same c g g' kept ∙ valid)
        ]))

  -- A token completes one reset: whatever password is asked for, and however soon, a second reset with
  -- the same token is refused, where no identifier of a token stands twice.
  pub complete-once :
      (later : AuthEnv) (again : String)
      → HasDistinctKeys g.reset_tokens
      → later.digest ≡ env.digest
      → complete_password_reset env token raw g ≡ (ok tt, g')
      → (complete_password_reset later token again g').0 ≢ ok tt
  complete-once later again distinct digests h second =
      let r = complete-Resets env token raw g g' h in
      let s =
        complete-Resets later token again g' (complete_password_reset later token again g').1
          (ap (λ x. (x, (complete_password_reset later token again g').1)) second) in
      let used = record (r.row) { used_at = some env.now } in
      let (stored, matches) =
        find_first-find (has_reset_digest (env.digest (trim token))) g.reset_tokens r.id r.row
          distinct r.first in
      let there : find_first (has_reset_digest (env.digest (trim token))) g'.reset_tokens
          ≡ some (r.id, used) =
        ap (λ w. find_first (has_reset_digest (env.digest (trim token))) w.reset_tokens) r.written
        ∙ find_first-put (has_reset_digest (env.digest (trim token))) g.reset_tokens r.id r.row used
            distinct r.first matches in
      let first : find_first (has_reset_digest (env.digest (trim token))) g'.reset_tokens
          ≡ some (s.id, s.row) =
        subst
          (λ d. find_first (has_reset_digest (d (trim token))) g'.reset_tokens ≡ some (s.id, s.row))
          digests s.first in
      let same : s.row ≡ used = let e = sym there ∙ first in ground arith in
      let open_again : accepts_reset later.now used s.user ≡ true =
        subst (λ x. accepts_reset later.now x s.user ≡ true) same s.accepted in
      false≢true (sym (used_is_refused later.now env.now r.row s.user) ∙ open_again)
