-- ===== src/Report/Expiry/Laws.antt =====
-- The expiry of overdue assignments, row by row.
use mathlib.Core.Bool.{false≢true}
use fixzone_enterprise_api.Base.{
  not, ◌||◌, Option, ◌<◌, ◌⊎◌, ◌↔◌, sym, false, Option-cases, is_id, same_id, ==_iff, ℕ, ◌≡◌, refl,
  ap, ◌∙◌, inl, inr, true, none, some, [], ◌∷◌, arith, Bool-cases, Table, HasDistinctKeys, find,
  put, put_each, find_many, find-put_each_many, put_each-HasDistinctKeys, if◌then◌else◌,
}
use fixzone_enterprise_api.Report.Types.{pending, assigned, timed_out}
use fixzone_enterprise_api.Report.Model.{Report, JwtUser, Env}
use fixzone_enterprise_api.Report.Effects.{World}
use fixzone_enterprise_api.Report.Effects.Laws.{Evolves, perform_all-reports}
use fixzone_enterprise_api.Report.Expiry.{
  Scope, is_overdue, expired, expiry_effects, expire_one, expire_each, expire_overdue_assignments,
}

expire_each-reports :
    (env : Env) (actor : JwtUser) (rows : Table Report) (w : World)
    → (expire_each env actor rows w).reports ≡ put_each (expired env) rows w.reports
unfolding expire_each put_each expire_one
expire_each-reports env actor [] w = refl
expire_each-reports env actor ((id, r) ∷ rows) w =
    expire_each-reports env actor rows (expire_one env actor id r w)
    ∙ ap (put_each (expired env) rows) (
        perform_all-reports (expiry_effects env actor id r)
          (record w { reports = put id (expired env r) w.reports }))

-- The row of each report after the sweep.
expired_row :
    (env : Env) (scope : Scope) (w : World) (id : ℕ)
    → HasDistinctKeys w.reports
    → find id (expire_overdue_assignments env scope w).1.reports ≡ elim (find id w.reports) [
      | none ↦ none
      | some r ↦ some (if is_overdue env scope r then expired env r else r)
    ]
unfolding expire_overdue_assignments
expired_row env scope w id k =
    ap (find id)
      (expire_each-reports env scope.actor (find_many (is_overdue env scope) w.reports) w)
    ∙ find-put_each_many (expired env) (is_overdue env scope) id w.reports k

-- An assignment whose deadline is past, of the provider and the organization that the scope names,
-- where it names any.
abbrev IsOverdue : Env → Scope → Report → Type 0
IsOverdue env scope r =
    (r.status ≡ assigned)
    × ((deadline : ℕ) × (r.assignment_deadline_at ≡ some deadline) × (deadline < env.now))
    × ((is_id scope.provider_id ≡ false) ⊎ (r.assigned_provider_id ≡ scope.provider_id))
    × ((is_id scope.organization_id ≡ false) ⊎ (some r.organization_id ≡ scope.organization_id))

-- The report waits for dispatch with no provider, and its last assignment has timed out.
abbrev TimedOut : Env → Report → Report → Type 0
TimedOut env r r' =
    (r'.status ≡ pending)
    × (r'.assigned_provider_id ≡ none)
    × (r'.assigned_at ≡ none)
    × (r'.assignment_deadline_at ≡ none)
    × (r'.last_assignment_outcome ≡ some timed_out)
    × (r'.last_assignment_provider_id ≡ r.assigned_provider_id)
    × (r'.last_assignment_at ≡ some env.now)

-- What a sweep makes of a report.
pub data Sweeps (env : Env) (scope : Scope) (r r' : Report) : Type 0 where
  times_out : IsOverdue env scope r → TimedOut env r r' → Sweeps env scope r r'
  leaves : ¬ IsOverdue env scope r → r' ≡ r → Sweeps env scope r r'

same_id_iff : (a b : Option ℕ) → (same_id a b ≡ true) ↔ (a ≡ b)
same_id_iff none none = (λ h. refl, λ h. refl)
same_id_iff none (some b) = (λ h. ground arith, λ h. ground arith)
same_id_iff (some a) none = (λ h. ground arith, λ h. ground arith)
same_id_iff (some a) (some b) = (λ h. ground (arith, ==_iff a b), λ h. ground (arith, ==_iff a b))

named : (a b : Option ℕ) → (not (is_id a) || same_id b a) ≡ true → (is_id a ≡ false) ⊎ (b ≡ a)
named a b h = elim (Bool-cases (is_id a)) [
  | inl e ↦ inr ((same_id_iff b a).0 (ground arith))
  | inr e ↦ inl e
]

is_overdue-IsOverdue :
    (env : Env) (scope : Scope) (r : Report) → is_overdue env scope r ≡ true → IsOverdue env scope r
is_overdue-IsOverdue env scope r h = elim (Option-cases r.assignment_deadline_at) [
  | inl e ↦ absurd (ground arith)
  | inr (deadline, e) ↦ (
    ground arith,
    (deadline, e, ground arith),
    named scope.provider_id r.assigned_provider_id (ground arith),
    named scope.organization_id (some r.organization_id) (ground arith),
  )
]

IsOverdue-is_overdue :
    (env : Env) (scope : Scope) (r : Report) → IsOverdue env scope r → is_overdue env scope r ≡ true
IsOverdue-is_overdue env scope r (s, (deadline, e, l), p, o) = ground (
  arith,
  (same_id_iff r.assigned_provider_id scope.provider_id).1,
  (same_id_iff (some r.organization_id) scope.organization_id).1,
)

-- Where no identifier stands twice, a sweep over a provider's reports, an organization's, both or
-- all of them takes the provider off every assignment in it whose deadline is past, returns the
-- report to dispatch and notes down who let it time out and when; every other report is as it was.
pub expire_overdue_assignments_lem :
    (env : Env) (scope : Scope) (w : World) (id : ℕ) (r : Report)
    → HasDistinctKeys w.reports
    → find id w.reports ≡ some r
    → (r' : Report) × (find id (expire_overdue_assignments env scope w).1.reports ≡ some r')
      × Sweeps env scope r r'
expire_overdue_assignments_lem env scope w id r k f = rw (expired_row env scope w id k) (
    rw f (elim (Bool-cases (is_overdue env scope r)) [
      | inl e ↦ rw e (
        _,
        refl,
        times_out (is_overdue-IsOverdue env scope r e) (refl, refl, refl, refl, refl, refl, refl),
      )
      | inr e ↦
          rw e (_, refl, leaves (λ o. false≢true (sym e ∙ IsOverdue-is_overdue env scope r o)) refl)
    ]))

pub expire_overdue_assignments-HasDistinctKeys :
    (env : Env) (scope : Scope) (w : World)
    → HasDistinctKeys w.reports
    → HasDistinctKeys (expire_overdue_assignments env scope w).1.reports
unfolding expire_overdue_assignments
expire_overdue_assignments-HasDistinctKeys env scope w k =
    rw (expire_each-reports env scope.actor (find_many (is_overdue env scope) w.reports) w) (
      put_each-HasDistinctKeys (expired env) (find_many (is_overdue env scope) w.reports) w.reports
        k)

-- Where no identifier stands twice, a second sweep at the same time, over the same provider and
-- organization, changes no report.
pub expire_overdue_assignments_twice :
    (env : Env) (scope again : Scope) (w : World) (id : ℕ)
    → HasDistinctKeys w.reports
    → let swept = (expire_overdue_assignments env scope w).1 in
      again.provider_id ≡ scope.provider_id
      → again.organization_id ≡ scope.organization_id
      → find id (expire_overdue_assignments env again swept).1.reports ≡ find id swept.reports
expire_overdue_assignments_twice env scope again w id k p o =
    let swept = (expire_overdue_assignments env scope w).1 in
    ground (
      arith,
      expired_row env again swept id (expire_overdue_assignments-HasDistinctKeys env scope w k),
      expired_row env scope w id k,
    )

pub expire_overdue_assignments-Evolves :
    (P : Report → Report → Type 0) (env : Env) (scope : Scope)
    → ((r : Report) → is_overdue env scope r ≡ true → P r (expired env r))
    → (w : World) → HasDistinctKeys w.reports
    → Evolves P w.reports (expire_overdue_assignments env scope w).1.reports
expire_overdue_assignments-Evolves P env scope allowed w k id r h =
    rw (expired_row env scope w id k) (
      rw h (elim (Bool-cases (is_overdue env scope r)) [
        | inl e ↦ rw e (expired env r, refl, inr (allowed r e))
        | inr e ↦ rw e (r, refl, inl refl)
      ]))
