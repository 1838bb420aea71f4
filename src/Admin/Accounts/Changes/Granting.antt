-- ===== src/Admin/Accounts/Changes/Granting.antt =====
-- The calls that give roles make changes of those kinds, and give no super administrator's role.
use mathlib.Core.Bool.{false≢true}
use fixzone_enterprise_api.Base.{
  ℕ, String, Bool, true, false, ◌≡◌, refl, sym, ◌∙◌, inl, inr, Option, none, some, Option-cases,
  Bool-cases, arith, ap,
}
use fixzone_enterprise_api.Base.Result.{ok, Error}
use fixzone_enterprise_api.Report.Types.{UserRole}
use fixzone_enterprise_api.Admin.Catalog.{
  InternalRoleDefinition, resolve_internal_role_definition, role_definition_enabled,
}
use fixzone_enterprise_api.Admin.Office.{InternalAdminUser, Office, AdminEnv, fail, lift, unless}
use fixzone_enterprise_api.Admin.Authority.{is_any_super, require_enabled_role}
use fixzone_enterprise_api.Admin.Delegation.{
  InviteDto, AssignDto, invite_administrator, invite_by_email, create_invitation, assign_role,
  grant_role, granted, awaiting, pending_invitation, no_account,
}
use fixzone_enterprise_api.Admin.Accounts.Changes.{
  notifies, invites, grants, unchanged, Makes, bind-Makes, lift-Makes, found-Makes, Reads,
  read-Makes, unless-Makes, if-Makes, modify-Makes,
}
use fixzone_enterprise_api.Admin.Accounts.Changes.Calls.{
  then_audit-Makes, deny-Makes, deny-Throws, permitted-Makes, create_approval_request-Makes,
}

abbrev is_high_risk : Option InternalRoleDefinition → Bool
is_high_risk none = false
is_high_risk (some d) = d.high_risk_grant

-- In the catalogue only the platform super administrator is of high risk, and the super administrator
-- has no entry.
pub resolve-ordinary :
    (role : UserRole) (d : InternalRoleDefinition)
    → resolve_internal_role_definition role ≡ some d
    → d.high_risk_grant ≡ false
    → is_any_super (some role) ≡ false
unfolding resolve_internal_role_definition
resolve-ordinary UserRole.platform_super_admin d e h =
    absurd (false≢true (sym h ∙ sym (ap is_high_risk e)))
resolve-ordinary UserRole.super_admin d e h = absurd (cc e)
resolve-ordinary _ d e h = refl

pub require_enabled_role_lem :
    (env : AdminEnv) (role : UserRole) (d : InternalRoleDefinition)
    → require_enabled_role env role ≡ ok d
    → resolve_internal_role_definition role ≡ some d
unfolding require_enabled_role
require_enabled_role_lem env role d = elim (Option-cases (resolve_internal_role_definition role)) [
  | inl e ↦ rw (e, require_enabled_role) (λ h. absurd (cc h))
  | inr (b, e) ↦ elim (Bool-cases (role_definition_enabled env.flag b)) [
    | inl f ↦ rw (e, require_enabled_role) (rw (f, require_enabled_role) (λ h. ground arith))
    | inr f ↦ rw (e, require_enabled_role) (rw (f, require_enabled_role) (λ h. absurd (cc h)))
  ]
]

pub unless-Reads : (b : Bool) (x : Error) → Reads (unless b (fail x))
unless-Reads true x o = refl
unless-Reads false x o = refl

module _ {accepting : Bool} (env : AdminEnv) (user : InternalAdminUser) where
  awaiting-Makes :
      (d : InternalRoleDefinition) (target : Option ℕ) (reason : Option String) (message : String)
      (o : Office)
      → Makes accepting (awaiting env d target reason message user) o
  awaiting-Makes d target reason message o =
      bind-Makes _ _ o (create_approval_request-Makes env user _ message o) (λ a e. unchanged)

  create_invitation-Makes :
      (dto : InviteDto) (actor : ℕ) (role : UserRole) (d : InternalRoleDefinition) (email : String)
      (o : Office)
      → is_any_super (some role) ≡ false
      → Makes accepting (create_invitation env dto user actor role d email) o
  unfolding create_invitation
  create_invitation-Makes dto actor role d email o h = lift-Makes _ _ o λ scope _.
      lift-Makes _ _ o λ name _. lift-Makes _ _ o λ expiry _.
        modify-Makes _ _ o (invites _ _ h)
          (then_audit-Makes user _ _ _ _ (λ o'. modify-Makes _ _ o' (notifies _) unchanged))

  invite_by_email-Makes :
      (dto : InviteDto) (actor : ℕ) (role : UserRole) (d : InternalRoleDefinition) (o : Office)
      → is_any_super (some role) ≡ false
      → Makes accepting (invite_by_email env dto user actor role d) o
  unfolding invite_by_email
  invite_by_email-Makes dto actor role d o h = lift-Makes _ _ o λ email _.
      read-Makes (no_account email) _ o (λ o'. unless-Reads _ _ o')
        λ _ _.
          read-Makes (pending_invitation email role) _ o (λ o'. refl)
            λ duplicate _.
              elim duplicate
                as (λ x.
                  Makes accepting
                    (elim x [
                      | some id ↦ lift (ok (granted id))
                      | none ↦ create_invitation env dto user actor role d email
                    ])
                    o) [
                      | some id ↦ unchanged
                      | none ↦ create_invitation-Makes dto actor role d email o h
                    ]

  pub invite_administrator-Makes :
      (dto : InviteDto) (o : Office) → Makes accepting (invite_administrator env dto user) o
  unfolding invite_administrator
  invite_administrator-Makes dto o = permitted-Makes env user _ _ o (
      lift-Makes _ _ o λ actor _. lift-Makes _ _ o λ role _. lift-Makes _ _ o λ d e.
        lift-Makes _ _ o λ _ _.
          if-Makes d.high_risk_grant _ _ o (λ _. awaiting-Makes d none _ _ o)
            λ h.
              invite_by_email-Makes dto actor role d o
                (resolve-ordinary role d (require_enabled_role_lem env role d e) h))

  grant_role-Makes :
      (target : ℕ) (dto : AssignDto) (actor : ℕ) (role : UserRole) (d : InternalRoleDefinition)
      (o : Office)
      → is_any_super (some role) ≡ false
      → Makes accepting (grant_role env target dto user actor role d) o
  unfolding grant_role
  grant_role-Makes target dto actor role d o h = found-Makes target _ _ _ o λ a _.
      lift-Makes _ _ o λ scope _. lift-Makes _ _ o λ start _. lift-Makes _ _ o λ expiry _.
        modify-Makes _ _ o (grants _ _ h) (then_audit-Makes user _ _ _ _ (λ o'. unchanged))

  pub assign_role-Makes :
      (target : ℕ) (dto : AssignDto) (o : Office)
      → Makes accepting (assign_role env target dto user) o
  unfolding assign_role
  assign_role-Makes target dto o = permitted-Makes env user _ _ o (
      lift-Makes _ _ o λ actor _.
        unless-Makes _ _ _ o (deny-Throws user _) (deny-Makes user _ o) λ other.
          lift-Makes _ _ o λ role _. lift-Makes _ _ o λ d e. lift-Makes _ _ o λ _ _.
            if-Makes d.high_risk_grant _ _ o (λ _. awaiting-Makes d (some target) _ _ o)
              λ h.
                grant_role-Makes target dto actor role d o
                  (resolve-ordinary role d (require_enabled_role_lem env role d e) h))
