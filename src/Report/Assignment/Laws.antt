-- ===== src/Report/Assignment/Laws.antt =====
-- When a provider is assigned, and when an assignment is cancelled.
use fixzone_enterprise_api.Base.{
  ℕ, String, ◌≡◌, refl, ◌≢◌, ◌⊎◌, ◌↔◌, inl, inr, true, false, Option, none, get_or, some,
  Option-cases, arith, same_id, is_id, is_some, trimmed, find,
}
use fixzone_enterprise_api.Base.Result.{ok, err, Error, Result-cases}
use fixzone_enterprise_api.Report.Types.{
  pending, closed, rejected, provider, active, is_super_admin, is_provider,
}
use fixzone_enterprise_api.Report.Model.{Report, JwtUser, User, Env}
use fixzone_enterprise_api.Report.Effects.{write}
use fixzone_enterprise_api.Report.Workflow.{can_transition}
use fixzone_enterprise_api.Report.Assignment.{
  cancel_checks, belongs_to, active_provider, assert_assignment_allowed, AssignOptions,
  assign_checks, assigned_to, unassigned,
}

-- The caller may assign this provider across organizations, or the provider is of the report's.
abbrev pub IsRouted : JwtUser → AssignOptions → ℕ → User → Type 0
IsRouted user options organization p =
    (belongs_to organization p ≡ true)
    ⊎ ((is_super_admin user.role ≡ true)
        × (options.override_organization_routing ≡ true)
        × (is_some (trimmed options.override_reason) ≡ true))

active_provider_lem :
    (env : Env) (provider_id : ℕ) (p : User)
    → active_provider env provider_id ≡ ok p
    → (find provider_id env.users ≡ some p) × (p.role ≡ provider) × (p.account_status ≡ active)
unfolding active_provider is_provider
active_provider_lem env provider_id p h = elim (Option-cases (find provider_id env.users)) [
  | inl e ↦ absurd (ground arith)
  | inr (q, e) ↦ ground arith
]

-- What the checks of `assignProviderById` ask of the caller, the provider and the report.
abbrev pub MayAssign : Env → ℕ → JwtUser → AssignOptions → Report → Type 0
MayAssign env provider_id user options r =
    (r.status ≡ pending)
    × (is_id r.assigned_provider_id ≡ false)
    × ((p : User) × (find provider_id env.users ≡ some p)
        × (p.role ≡ provider)
        × (p.account_status ≡ active)
        × IsRouted user options r.organization_id p)
    × ((is_super_admin user.role ≡ true)
        ⊎ (same_id (some r.organization_id) user.organization_id ≡ true))

module _ (env : Env) (provider_id : ℕ) (user : JwtUser) (options : AssignOptions)
    (r r' : Report) where
  assign_written :
      (p : User)
      → active_provider env provider_id ≡ ok p
      → assign_checks env provider_id user options r ≡ ok (write r')
      → (r.status ≡ pending)
        × (is_id r.assigned_provider_id ≡ false)
        × IsRouted user options r.organization_id p
        × ((is_super_admin user.role ≡ true)
            ⊎ (same_id (some r.organization_id) user.organization_id ≡ true))
        × (r' ≡ assigned_to env provider_id r)
  unfolding assign_checks assert_assignment_allowed
  assign_written p e h = (ground arith, ground arith, ground arith, ground arith, ground arith)

  assign_unknown :
      (x : Error)
      → active_provider env provider_id ≡ err x
      → assign_checks env provider_id user options r ≢ ok (write r')
  unfolding assign_checks
  assign_unknown x e h = ground arith

  -- A provider is assigned only to a pending report that has none, only if the provider is an active
  -- one of the report's organization, or a super administrator has overridden the routing and given
  -- a reason, and only by a caller of the report's organization or a super administrator; the update
  -- names the provider and the deadline for accepting.
  pub assign_checks-MayAssign :
      assign_checks env provider_id user options r ≡ ok (write r')
      → MayAssign env provider_id user options r × (r' ≡ assigned_to env provider_id r)
  assign_checks-MayAssign h = elim (Result-cases (active_provider env provider_id)) [
    | inl (p, e) ↦
        let (s, n, o, c, w) = assign_written p e h in
        let (f, q, a) = active_provider_lem env provider_id p e in ((s, n, (p, f, q, a, o), c), w)
    | inr (x, e) ↦ absurd (assign_unknown x e h)
  ]

-- The caller may end the report's assignment, and there is one.
abbrev pub MayCancel : JwtUser → Report → Type 0
MayCancel user r =
    ((is_super_admin user.role ≡ true)
      ⊎ (same_id (some r.organization_id) user.organization_id ≡ true))
    × (is_id r.assigned_provider_id ≡ true)
    × (r.status ≢ pending)

cancel_needs :
    (env : Env) (reason : Option String) (user : JwtUser) (r r' : Report)
    → cancel_checks env reason user r ≡ ok (write r')
    → MayCancel user r
unfolding cancel_checks
cancel_needs env reason user r r' h = ground arith

cancel_gives :
    (env : Env) (reason : Option String) (user : JwtUser) (r : Report)
    → MayCancel user r
    → (r' : Report) × (cancel_checks env reason user r ≡ ok (write r'))
      × (r'.status ≡ pending)
      × (r'.assigned_provider_id ≡ none)
unfolding cancel_checks
cancel_gives env reason user r (a, p, s) = (
  unassigned env rejected (get_or (trimmed reason) "Assignment cancelled by administrator")
      r.assigned_provider_id r,
  ground arith,
  refl,
  refl,
)

-- The checks of `cancelAssignment` on a report let its assignment be cancelled exactly when the
-- caller is a super administrator or of the report's organization, the report has a provider and it
-- is not pending. The report is pending then, without a provider, and so is one that was closed,
-- although the transition table has no step from closed to pending.
pub cancel_checks_iff :
    (env : Env) (reason : Option String) (user : JwtUser) (r : Report)
    → (((r' : Report) × (cancel_checks env reason user r ≡ ok (write r'))
          × (r'.status ≡ pending)
          × (r'.assigned_provider_id ≡ none))
        ↔ MayCancel user r)
      × (can_transition closed pending ≡ false)
unfolding can_transition
cancel_checks_iff env reason user r =
    ((λ (r', h, _, _). cancel_needs env reason user r r' h, cancel_gives env reason user r), refl)
