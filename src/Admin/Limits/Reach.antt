-- ===== src/Admin/Limits/Reach.antt =====
-- How far the permissions of a role reach.
use fixzone_enterprise_api.Base.{
  ℕ, ◌≡◌, refl, true, false, Bool, not, ◌||◌, Option, none, some, List, [], ◌∷◌, ◌++◌, any, inl,
  inr, Bool-cases, find_many, map, is_id, same_id,
}
use fixzone_enterprise_api.Base.Result.{ok, Result-cases}
use fixzone_enterprise_api.Admin.Catalog.{Permission, includes}
use fixzone_enterprise_api.Admin.Office.{
  InternalAdminUser, InternalScope, Office, AdminEnv, actor_id,
}
use fixzone_enterprise_api.Admin.Authority.{
  is_suspended, permissions_for_role, counts_for, snapshots, role_scopes, effective_of,
  effective_permissions, covers, has_permission,
}
use fixzone_enterprise_api.Admin.Limits.{includes-append}

-- The effective permissions of a caller who is known and not suspended.
effective_permissions_lem :
    (env : AdminEnv) (user : InternalAdminUser) (id : ℕ) (o : Office)
    → actor_id user ≡ ok id
    → is_suspended user.account_status ≡ false
    → effective_permissions env user o
      ≡ ok (record {
        permissions =
            permissions_for_role env user.role
            ++ snapshots (find_many (counts_for env id) o.assignments);
        scopes =
            role_scopes (permissions_for_role env user.role) user.organization_id
            ++ map (λ row. row.1.scope) (find_many (counts_for env id) o.assignments);
      })
unfolding effective_permissions effective_of
effective_permissions_lem env user id o known free =
    rw (known, effective_permissions) (rw (free, effective_of) refl)

-- The scopes of a caller whose role has a permission include the platform.
any-role_scopes :
    (own : List Permission) (p : Permission) (of : Option ℕ) (more : List InternalScope)
    (organization : ℕ)
    → includes own p ≡ true
    → any (covers organization) (role_scopes own of ++ more) ≡ true
any-role_scopes [] p of more organization h = absurd (cc h)
any-role_scopes (q ∷ own) p of more organization h = refl

or_true : (a b : Bool) → (a || true || b) ≡ true
or_true true b = refl
or_true false b = refl

-- A caller who is known and not suspended, and whose role is enabled and has a permission, has the
-- permission for every organization, whatever scopes the assignments of the caller have.
pub role_permission-has_permission :
    (env : AdminEnv) (user : InternalAdminUser) (id : ℕ) (p : Permission) (organization : Option ℕ)
    (o : Office)
    → actor_id user ≡ ok id
    → is_suspended user.account_status ≡ false
    → includes (permissions_for_role env user.role) p ≡ true
    → has_permission env user p organization o ≡ true
unfolding has_permission
role_permission-has_permission env user id p none o known free own =
    let held = snapshots (find_many (counts_for env id) o.assignments) in
    rw (effective_permissions_lem env user id o known free, has_permission)
      (rw (includes-append (permissions_for_role env user.role) held p own) refl)
role_permission-has_permission env user id p (some organization) o known free own =
    let rows = find_many (counts_for env id) o.assignments in
    let scopes = map (λ row. row.1.scope) rows in
    rw (effective_permissions_lem env user id o known free, has_permission)
      (rw (includes-append (permissions_for_role env user.role) (snapshots rows) p own) (
        rw
          (any-role_scopes (permissions_for_role env user.role) p user.organization_id scopes
            organization own)
          (or_true (not (is_id (some organization)))
            (same_id user.organization_id (some organization)))))

-- Conversely, a caller who has any permission is known and not suspended.
pub has_permission-known :
    (env : AdminEnv) (user : InternalAdminUser) (p : Permission) (organization : Option ℕ)
    (o : Office)
    → has_permission env user p organization o ≡ true
    → (id : ℕ) × (actor_id user ≡ ok id) × (is_suspended user.account_status ≡ false)
unfolding has_permission effective_permissions effective_of
has_permission-known env user p organization o = elim (Result-cases (actor_id user)) [
  | inr (x, e) ↦ rw (e, has_permission) (λ h. absurd (cc h))
  | inl (id, e) ↦ elim (Bool-cases (is_suspended user.account_status)) [
    | inl f ↦ rw (e, has_permission) (rw (f, effective_of) (λ h. absurd (cc h)))
    | inr f ↦ λ h. (id, e, f)
  ]
]
