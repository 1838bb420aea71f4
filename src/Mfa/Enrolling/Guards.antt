-- ===== src/Mfa/Enrolling/Guards.antt =====
-- How many wrong codes a session takes.
use fixzone_enterprise_api.Mfa.Enrolling.Touches.{Touches, serve_mfa-Touches}
use fixzone_enterprise_api.Mfa.Enrolling.{new_session, MfaRequest, serve_mfa}
use fixzone_enterprise_api.Base.{
  ℕ, ◌≤◌, ◌<◌, ◌≡◌, refl, sym, ◌∙◌, inl, inr, String, true, none, some, is_some, Bool-cases, trim,
  [], ◌∷◌, ◌++◌, arith, ◌==◌, Table, find, find_first-find, find-put, put, put-HasDistinctKeys,
  HasDistinctKeys, find-append_new, append_new-HasDistinctKeys,
}
use fixzone_enterprise_api.Mfa.Vault.{PreAuthPurpose, PreAuthSession, MfaUser, Vault, MfaEnv}
use fixzone_enterprise_api.Mfa.Sessions.{PreAuth, is_open, has_digest, attempted, consumed}
use fixzone_enterprise_api.Mfa.Challenge.Cases.{Opens}

-- A session has at most five failed attempts, and is locked where it has five.
abbrev pub IsGuarded : PreAuthSession → Type 0
IsGuarded s = (s.failed_attempts ≤ 5) × (s.failed_attempts ≡ 5 → is_some s.locked_at ≡ true)

abbrev pub AreGuarded : Table PreAuthSession → Type 0
AreGuarded rows =
    HasDistinctKeys rows × ((id : ℕ) (s : PreAuthSession) → find id rows ≡ some s → IsGuarded s)

put-AreGuarded :
    (k : ℕ) (s t : PreAuthSession) (rows : Table PreAuthSession)
    → find k rows ≡ some s
    → IsGuarded t
    → AreGuarded rows
    → AreGuarded (put k t rows)
put-AreGuarded k s t rows f g (d, h) = (
  put-HasDistinctKeys k t rows d,
  λ id u e.
      let step = find-put k id t s rows f in
      elim (Bool-cases (k == id)) [
        | inl here ↦ let same : t ≡ u = cc (sym step ∙ e, here) in rw (← same) g
        | inr other ↦ h id u (sym (step ∙ rw other refl) ∙ e)
      ],
)

open_attempts :
    (env : MfaEnv) (purpose : PreAuthPurpose) (s : PreAuthSession) (u : MfaUser)
    → is_open env purpose s u ≡ true
    → s.failed_attempts < 5
unfolding is_open
open_attempts env purpose s u h = ground (arith, h)

attempted-IsGuarded :
    (env : MfaEnv) (s : PreAuthSession) → s.failed_attempts < 5 → IsGuarded (attempted env s)
attempted-IsGuarded env s l = (omega (arith, l), λ e. ground (arith, e))

module _ (env : MfaEnv) (token : String) (purpose : PreAuthPurpose) (v : Vault) (p : PreAuth)
    (opens : Opens env token purpose v p) (guarded : AreGuarded v.sessions) where
  there : find p.id v.sessions ≡ some p.session
  there =
      (find_first-find (has_digest (env.digest (trim token))) v.sessions p.id p.session guarded.0
        opens.stored).0

  failed-AreGuarded : AreGuarded (put p.id (attempted env p.session) v.sessions)
  failed-AreGuarded =
      put-AreGuarded p.id p.session (attempted env p.session) v.sessions there
        (attempted-IsGuarded env p.session
          (open_attempts env purpose p.session p.user opens.passes))
        guarded

  consumed-AreGuarded : AreGuarded (put p.id (consumed env p.session) v.sessions)
  consumed-AreGuarded =
      put-AreGuarded p.id p.session (consumed env p.session) v.sessions there
        (guarded.1 p.id p.session there) guarded

new_session-AreGuarded :
    (env : MfaEnv) (user : ℕ) (purpose : PreAuthPurpose) (rows : Table PreAuthSession)
    → find env.new_session_id rows ≡ none
    → AreGuarded rows
    → AreGuarded (rows ++ (env.new_session_id, new_session env user purpose) ∷ [])
new_session-AreGuarded env user purpose rows n (d, h) =
    let s = new_session env user purpose in
    let k = env.new_session_id in
    (
      append_new-HasDistinctKeys k s rows n d,
      λ id u e.
          let step = find-append_new k id s rows n in
          elim (Bool-cases (k == id)) [
            | inl here ↦
                let same : s ≡ u = cc (sym step ∙ e, here) in
                rw (← same) (omega arith, λ e. absurd (omega (arith, e)))
            | inr other ↦ h id u (sym (step ∙ rw other refl) ∙ e)
          ],
    )

Touches-AreGuarded :
    (env : MfaEnv) (v w : Vault)
    → Touches env v w
    → find env.new_session_id v.sessions ≡ none
    → AreGuarded v.sessions
    → AreGuarded w.sessions
Touches-AreGuarded env v w (Touches.kept e) n g = rw e g
Touches-AreGuarded env v w (Touches.failed token purpose p o e) n g =
    rw e (failed-AreGuarded env token purpose v p o g)
Touches-AreGuarded env v w (Touches.used_up token purpose p o e) n g =
    rw e (consumed-AreGuarded env token purpose v p o g)
Touches-AreGuarded env v w (Touches.added user purpose e) n g =
    rw e (new_session-AreGuarded env user purpose v.sessions n g)

pub serve_mfa-AreGuarded :
    (env : MfaEnv) (request : MfaRequest) (v : Vault)
    → find env.new_session_id v.sessions ≡ none
    → AreGuarded v.sessions
    → AreGuarded (serve_mfa env request v).sessions
serve_mfa-AreGuarded env request v =
    Touches-AreGuarded env v (serve_mfa env request v) (serve_mfa-Touches env request v)
