-- ===== src/Admin/Limits/Ceiling.antt =====
-- Nobody gives away more than they have.
use mathlib.Core.Bool.{false≢true}
use fixzone_enterprise_api.Base.{
  ℕ, String, ◌≡◌, ◌≢◌, refl, true, false, Bool, not, Option, none, some, List, [], ◌∷◌, ◌++◌, any,
  inl, inr, Bool-cases, arith, if◌then◌else◌, ==_iff, ◌∙◌, sym, ap, trimmed, get_or,
}
use fixzone_enterprise_api.Base.Result.{ok, Result-cases}
use fixzone_enterprise_api.Report.Types.{UserRole}
use fixzone_enterprise_api.Admin.Catalog.{
  Permission, includes, internal_admin_permission_keys, internal_admin_assign_role,
  InternalRoleDefinition, resolve_internal_role_definition, role_definition_enabled,
  internal_admin_read, internal_admin_invite, internal_admin_change_scope, internal_admin_suspend,
  internal_admin_revoke_sessions, internal_admin_view_audit, organization_review,
  organization_manage, provider_review, provider_manage, report_operations,
  support_account_assistance, compliance_audit_read, investigation_manage,
  asset_intelligence_manage, security_session_manage, release_readiness_manage, backup_verify,
  backup_restore_request, payment_plan_read, payment_plan_manage, payment_transaction_read,
  payment_reconciliation_manage, payment_refund_request, payment_refund_approve,
  payment_configuration_manage,
}
use fixzone_enterprise_api.Admin.Office.{
  InternalAdminUser, InternalRoleAssignment, Office, AdminEnv, actor_id, write_audit, AdminCall,
  ◌>>=◌,
}
use fixzone_enterprise_api.Admin.Authority.{
  is_any_super, permissions_for_role, has_permission, assert_grant_ceiling,
}
use fixzone_enterprise_api.Admin.Delegation.{
  AssignDto, Delegated, granted, awaiting, new_assignment, with_assignment, grant_role, assign_role,
}
use fixzone_enterprise_api.Admin.Accounts.Changes.{found_lem}
use fixzone_enterprise_api.Admin.Accounts.Changes.Calls.{assert_permission_lem, deny-Throws}
use fixzone_enterprise_api.Admin.Accounts.Changes.Granting.{
  resolve-ordinary, require_enabled_role_lem,
}
use fixzone_enterprise_api.Admin.Limits.{bind-answers, read-answers, lift-answers, unless-answers}
use fixzone_enterprise_api.Admin.Limits.Reach.{role_permission-has_permission, has_permission-known}

includes-all : (p : Permission) → includes internal_admin_permission_keys p ≡ true
unfolding internal_admin_permission_keys
includes-all internal_admin_read = refl
includes-all internal_admin_invite = refl
includes-all internal_admin_assign_role = refl
includes-all internal_admin_change_scope = refl
includes-all internal_admin_suspend = refl
includes-all internal_admin_revoke_sessions = refl
includes-all internal_admin_view_audit = refl
includes-all organization_review = refl
includes-all organization_manage = refl
includes-all provider_review = refl
includes-all provider_manage = refl
includes-all report_operations = refl
includes-all support_account_assistance = refl
includes-all compliance_audit_read = refl
includes-all investigation_manage = refl
includes-all asset_intelligence_manage = refl
includes-all security_session_manage = refl
includes-all release_readiness_manage = refl
includes-all backup_verify = refl
includes-all backup_restore_request = refl
includes-all payment_plan_read = refl
includes-all payment_plan_manage = refl
includes-all payment_transaction_read = refl
includes-all payment_reconciliation_manage = refl
includes-all payment_refund_request = refl
includes-all payment_refund_approve = refl
includes-all payment_configuration_manage = refl

-- The two roles of super administrators have every permission.
super-includes :
    (env : AdminEnv) (role : Option UserRole) (p : Permission)
    → is_any_super role ≡ true
    → includes (permissions_for_role env role) p ≡ true
unfolding permissions_for_role resolve_internal_role_definition role_definition_enabled
super-includes env none p h = absurd (cc h)
super-includes env (some UserRole.super_admin) p h = includes-all p
super-includes env (some UserRole.platform_super_admin) p h = includes-all p
super-includes env (some _) p h = absurd (cc h)

-- A test that fails nowhere on a list, and one that holds where that holds.
any-weaken :
    (f g : Permission → Bool) (ps : List Permission)
    → ((p : Permission) → f p ≡ true → g p ≡ true)
    → any (λ p. not (f p)) ps ≡ false
    → any (λ p. not (g p)) ps ≡ false
any-weaken f g [] up h = refl
any-weaken f g (p ∷ ps) up h = elim (Bool-cases (f p)) [
  | inl e ↦ rw (up p e) (any-weaken f g ps up (ground arith))
  | inr e ↦ ground arith
]

any-never : (ps : List Permission) → any (λ p. not true) ps ≡ false
any-never [] = refl
any-never (p ∷ ps) = any-never ps

-- What passes the ceiling is among the permissions of the role of the one who asks.
assert_grant_ceiling_lem :
    (env : AdminEnv) (user : InternalAdminUser) (ps : List Permission) (a : Unit {0})
    → assert_grant_ceiling env user ps ≡ ok a
    → any (λ p. not (includes (permissions_for_role env user.role) p)) ps ≡ false
unfolding assert_grant_ceiling
assert_grant_ceiling_lem env user ps a =
    let own = permissions_for_role env user.role in
    elim (Bool-cases (is_any_super user.role)) [
      | inl e ↦ λ h.
          any-weaken (λ p. true) (includes own) ps (λ p x. super-includes env user.role p e)
            (any-never ps)
      | inr e ↦ elim (Bool-cases (any (λ p. not (includes own p)) ps)) [
        | inl f ↦ rw (e, assert_grant_ceiling) (rw (f, assert_grant_ceiling) (λ h. absurd (cc h)))
        | inr f ↦ λ h. f
      ]
    ]

-- The row that a role given directly leaves: it is for the target, given by the caller, who is
-- somebody else, it is of no super administrator's role, and its permissions are all the caller's.
pub record Gives (env : AdminEnv) (target : ℕ) (user : InternalAdminUser) (o o' : Office)
    : Type 0 where
  pub giver : ℕ
  pub row : InternalRoleAssignment
  pub identified : actor_id user ≡ ok giver
  pub other : giver ≢ target
  pub written : o'.assignments ≡ o.assignments ++ (env.new_id, row) ∷ []
  pub given : (row.user_id ≡ target) × (row.assigned_by_id ≡ giver)
  pub ordinary : is_any_super (some row.role) ≡ false
  pub within : any (λ p. not (has_permission env user p none o)) row.permissions_snapshot ≡ false

write_audit-assignments :
    (user : InternalAdminUser) (action : String) (entity : Option ℕ) (o : Office)
    → (write_audit user action entity o).1.assignments ≡ o.assignments
unfolding write_audit ◌>>=◌
write_audit-assignments user action entity o = elim (Result-cases (actor_id user)) [
  | inl (a, e) ↦ rw (e, write_audit) refl
  | inr (x, e) ↦ rw (e, write_audit) refl
]

-- The other branch is taken where the first one would not lead to the answer.
directly :
    (risky : Bool) (m n : AdminCall Delegated) (o o' : Office) (id : ℕ)
    → m o ≢ (ok (granted id), o')
    → (if risky then m else n) o ≡ (ok (granted id), o')
    → (risky ≡ false) × (n o ≡ (ok (granted id), o'))
directly true m n o o' id never h = absurd (never h)
directly false m n o o' id never h = (refl, h)

module _ (env : AdminEnv) (target : ℕ) (dto : AssignDto) (user : InternalAdminUser) where
  -- `grant_role` writes one row.
  grant_role_lem :
      (actor : ℕ) (role : UserRole) (d : InternalRoleDefinition) (o o' : Office) (id : ℕ)
      → grant_role env target dto user actor role d o ≡ (ok (granted id), o')
      → (row : InternalRoleAssignment) × (o'.assignments ≡ o.assignments ++ (env.new_id, row) ∷ [])
        × (row.user_id ≡ target)
        × (row.assigned_by_id ≡ actor)
        × (row.role ≡ role)
        × (row.permissions_snapshot ≡ d.permissions)
  unfolding grant_role
  grant_role_lem actor role d o o' id h =
      let (a, _, h1) = read-answers _ _ o o' _ (λ a e. (found_lem target _ _ o).0) h in
      let (scope, _, h2) = lift-answers _ _ o o' _ h1 in
      let (start, _, h3) = lift-answers _ _ o o' _ h2 in
      let (expiry, _, h4) = lift-answers _ _ o o' _ h3 in
      let (_, _, h5) = bind-answers _ _ o o' _ h4 in
      let (_, _, h6) = bind-answers _ _ _ o' _ h5 in
      let row =
        new_assignment target role d scope actor (trimmed dto.reason) (get_or start env.now)
          expiry in
      (
        row,
        ap (λ r. r.1.assignments) (sym h6)
            ∙ write_audit-assignments user "Internal Admin Role Assigned" (some env.new_id)
                (with_assignment env.new_id row o),
        refl,
        refl,
        refl,
        refl,
      )

  -- A request of approval is not the answer that a role was given.
  awaiting-answers :
      (d : InternalRoleDefinition) (reason : Option String) (message : String) (o o' : Office)
      (id : ℕ)
      → awaiting env d (some target) reason message user o ≢ (ok (granted id), o')
  awaiting-answers d reason message o o' id h =
      let (a, _, rest) = bind-answers _ _ o o' _ h in absurd (cc (ap (λ r. r.0) rest))

  -- A role is given directly only to somebody else, by a caller who has each of its permissions, and it
  -- is never a super administrator's: the row of the assignment is the target's, from the caller.
  pub assign_role-Gives :
      (o o' : Office) (id : ℕ)
      → assign_role env target dto user o ≡ (ok (granted id), o')
      → Gives env target user o o'
  unfolding assign_role
  assign_role-Gives o o' id h =
      let (p, permitted, h1) =
        read-answers _ _ o o' _
          (λ a e. (assert_permission_lem env user internal_admin_assign_role none o a e).1) h in
      let may = (assert_permission_lem env user internal_admin_assign_role none o p permitted).0 in
      let (actor, known, h2) = lift-answers _ _ o o' _ h1 in
      let (other, h3) = unless-answers _ _ _ o o' _ (deny-Throws user _) h2 in
      let (role, _, h4) = lift-answers _ _ o o' _ h3 in
      let (d, enabled, h5) = lift-answers _ _ o o' _ h4 in
      let (c, ceiling, h6) = lift-answers _ _ o o' _ h5 in
      let (h7, direct) = directly _ _ _ o o' id (awaiting-answers d _ _ o o' id) h6 in
      let (row, written, whose, whom, what, which) = grant_role_lem actor role d o o' id direct in
      let (_, _, free) = has_permission-known env user internal_admin_assign_role none o may in
      record {
        giver = actor;
        row = row;
        identified = known;
        other = λ e. false≢true (sym other ∙ (==_iff actor target).1 e);
        written = written;
        given = (whose, whom);
        ordinary =
            ap (λ r. is_any_super (some r)) what
            ∙ resolve-ordinary role d (require_enabled_role_lem env role d enabled) h7;
        within =
            ap (any (λ p. not (has_permission env user p none o))) which
            ∙ any-weaken (includes (permissions_for_role env user.role))
                (λ p. has_permission env user p none o) d.permissions
                (λ p. role_permission-has_permission env user actor p none o known free)
                (assert_grant_ceiling_lem env user d.permissions c ceiling);
      }
