-- ===== src/Mfa/Enrolling/Limits.antt =====
-- Every request keeps the limit of wrong codes.
use mathlib.Core.Bool.{false≢true}
use fixzone_enterprise_api.Base.{
  ℕ, ◌≤◌, ◌≡◌, ◌≢◌, sym, ◌∙◌, ◌⊎◌, inl, inr, true, none, some, is_some, Bool-cases, ◌==◌, ==_iff,
  find,
}
use fixzone_enterprise_api.Mfa.Vault.{PreAuthSession, Vault, MfaEnv}
use fixzone_enterprise_api.Mfa.Enrolling.{MfaRequest, serve_mfa}
use fixzone_enterprise_api.Mfa.Enrolling.Guards.{AreGuarded, serve_mfa-AreGuarded}

-- The tables that requests lead to, each with surroundings of its own and an identifier for a session
-- that is not in use.
pub data Serves (u : Vault) : Vault → Type 0 where
  begin : Serves u u
  next :
      {v : Vault} (env : MfaEnv) (request : MfaRequest)
      → Serves u v
      → find env.new_session_id v.sessions ≡ none
      → Serves u (serve_mfa env request v)

Serves-AreGuarded : (u v : Vault) → Serves u v → AreGuarded u.sessions → AreGuarded v.sessions
Serves-AreGuarded u _ begin g = g
Serves-AreGuarded u _ (next {v} env request before n) g =
    serve_mfa-AreGuarded env request v n (Serves-AreGuarded u v before g)

-- Whatever requests are served, in any order, at any times and for whatever users, no session counts
-- more than five failed attempts, and one that counts five is locked, where this is so at first and
-- each new session gets an identifier that is not in use.
pub Serves-IsGuarded :
    (u v : Vault) (id : ℕ) (s : PreAuthSession)
    → Serves u v
    → AreGuarded u.sessions
    → find id v.sessions ≡ some s
    → (s.failed_attempts ≤ 5) × ((s.failed_attempts ≢ 5) ⊎ (is_some s.locked_at ≡ true))
Serves-IsGuarded u v id s r g f =
    let (bound, locked) = (Serves-AreGuarded u v r g).1 id s f in
    (
      bound,
      elim (Bool-cases (s.failed_attempts == 5)) [
        | inl e ↦ inr (locked ((==_iff s.failed_attempts 5).0 e))
        | inr e ↦ inl (λ x. absurd (false≢true (sym e ∙ (==_iff s.failed_attempts 5).1 x)))
      ],
    )
