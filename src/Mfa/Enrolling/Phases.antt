-- ===== src/Mfa/Enrolling/Phases.antt =====
-- The life of a session as an abstract machine: it counts wrong codes, is locked by the fifth, and is
-- used up by a challenge or an enrollment that succeeds.
use fixzone_enterprise_api.Base.{
  ℕ, ◌+◌, ◌<◌, ◌≡◌, refl, inl, inr, true, false, Option, none, some, is_some, Bool-cases, trim, [],
  ◌∷◌, ◌++◌, arith, ◌==◌, ==_iff, leb, Table, find, find_first-find, find-put, put, HasDistinctKeys,
  find-append_new, if◌then◌else◌,
}
use fixzone_enterprise_api.Mfa.Vault.{PreAuthPurpose, PreAuthSession, MfaUser, Vault, MfaEnv}
use fixzone_enterprise_api.Mfa.Sessions.{is_open, has_digest, attempted, consumed}
use fixzone_enterprise_api.Mfa.Enrolling.{new_session, MfaRequest, serve_mfa}
use fixzone_enterprise_api.Mfa.Enrolling.Touches.{Touches, serve_mfa-Touches}

pub data Phase : Type 0 where
  taking : ℕ → Phase
  locked finished : Phase

-- The phase of a row.
abbrev pub phase : PreAuthSession → Phase
phase s =
    if is_some s.consumed_at
    then finished
    else if is_some s.locked_at
    then locked
    else taking s.failed_attempts

-- The steps of the machine.
pub data Goes : Phase → Phase → Type 0 where
  rest : (p : Phase) → Goes p p
  miss : (n : ℕ) → n < 4 → Goes (taking n) (taking (n + 1))
  lock : Goes (taking 4) locked
  finish : (n : ℕ) → n < 5 → Goes (taking n) finished

open_phase :
    (env : MfaEnv) (purpose : PreAuthPurpose) (s : PreAuthSession) (u : MfaUser)
    → is_open env purpose s u ≡ true
    → (is_some s.consumed_at ≡ false) × (is_some s.locked_at ≡ false) × (s.failed_attempts < 5)
unfolding is_open
open_phase env purpose s u h = ground (arith, h)

attempted-Goes :
    (env : MfaEnv) (s : PreAuthSession)
    → is_some s.consumed_at ≡ false
    → is_some s.locked_at ≡ false
    → s.failed_attempts < 5
    → Goes (phase s) (phase (attempted env s))
attempted-Goes env s c l f = elim (Bool-cases (leb 5 (s.failed_attempts + 1))) [
  | inl e ↦ let four : s.failed_attempts ≡ 4 = ground (arith, e, f) in rw c (rw l (rw four lock))
  | inr e ↦ rw c (rw l (rw e (rw l (miss s.failed_attempts (ground (arith, e, f))))))
]

consumed-Goes :
    (env : MfaEnv) (s : PreAuthSession)
    → is_some s.consumed_at ≡ false
    → is_some s.locked_at ≡ false
    → s.failed_attempts < 5
    → Goes (phase s) (phase (consumed env s))
consumed-Goes env s c l f = rw c (rw l (finish s.failed_attempts f))

-- The row of a session before and behind a request: a new one takes codes, and counts none, one that
-- is there goes a step of the machine, and none is removed.
abbrev pub Follows : Option PreAuthSession → Option PreAuthSession → Type 0
Follows none none = Unit {0}
Follows none (some t) = phase t ≡ taking 0
Follows (some s) none = ⊥
Follows (some s) (some t) = Goes (phase s) (phase t)

stays : (o : Option PreAuthSession) → Follows o o
stays none = tt
stays (some s) = rest (phase s)

put-Follows :
    (k id : ℕ) (s t : PreAuthSession) (rows : Table PreAuthSession)
    → find k rows ≡ some s
    → Goes (phase s) (phase t)
    → Follows (find id rows) (find id (put k t rows))
put-Follows k id s t rows f g = rw (find-put k id t s rows f) (elim (Bool-cases (k == id)) [
  | inr other ↦ rw other (stays (find id rows))
  | inl here ↦
      let there : find id rows ≡ some s = rw (← (==_iff k id).0 here) f in rw here (rw there g)
])

new-Follows :
    (env : MfaEnv) (user : ℕ) (purpose : PreAuthPurpose) (id : ℕ) (rows : Table PreAuthSession)
    → find env.new_session_id rows ≡ none
    → Follows
        (find id rows)
        (find id (rows ++ (env.new_session_id, new_session env user purpose) ∷ []))
new-Follows env user purpose id rows n =
    let k = env.new_session_id in
    rw (find-append_new k id (new_session env user purpose) rows n) (elim (Bool-cases (k == id)) [
      | inr other ↦ rw other (stays (find id rows))
      | inl here ↦
          let missing : find id rows ≡ none = rw (← (==_iff k id).0 here) n in
          rw here (rw missing refl)
    ])

Touches-Follows :
    (env : MfaEnv) (v w : Vault) (id : ℕ)
    → Touches env v w
    → HasDistinctKeys v.sessions
    → find env.new_session_id v.sessions ≡ none
    → Follows (find id v.sessions) (find id w.sessions)
Touches-Follows env v w id (Touches.kept e) d n = rw e (stays (find id v.sessions))
Touches-Follows env v w id (Touches.failed token purpose p o e) d n =
    let there =
      find_first-find (has_digest (env.digest (trim token))) v.sessions p.id p.session d o.stored in
    let (c, l, f) = open_phase env purpose p.session p.user o.passes in
    rw e (
      put-Follows p.id id p.session (attempted env p.session) v.sessions there.0
        (attempted-Goes env p.session c l f))
Touches-Follows env v w id (Touches.used_up token purpose p o e) d n =
    let there =
      find_first-find (has_digest (env.digest (trim token))) v.sessions p.id p.session d o.stored in
    let (c, l, f) = open_phase env purpose p.session p.user o.passes in
    rw e (
      put-Follows p.id id p.session (consumed env p.session) v.sessions there.0
        (consumed-Goes env p.session c l f))
Touches-Follows env v w id (Touches.added user purpose e) d n =
    rw e (new-Follows env user purpose id v.sessions n)

-- The service refines an abstract machine of a session that takes up to five wrong codes: whatever
-- request is served, each session that is there stays as it is in the machine, counts one more wrong
-- code below the fifth, is locked by the fifth, or is finished from a phase in which it takes codes;
-- one that is locked or finished never moves, a new one counts no wrong code, and none is removed,
-- where no session stands twice and the identifier of a new one is not in use.
pub serve_mfa-Follows :
    (env : MfaEnv) (request : MfaRequest) (v : Vault) (id : ℕ)
    → HasDistinctKeys v.sessions
    → find env.new_session_id v.sessions ≡ none
    → Follows (find id v.sessions) (find id (serve_mfa env request v).sessions)
serve_mfa-Follows env request v id =
    Touches-Follows env v (serve_mfa env request v) id (serve_mfa-Touches env request v)
