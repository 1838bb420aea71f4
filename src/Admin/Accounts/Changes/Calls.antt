-- ===== src/Admin/Accounts/Changes/Calls.antt =====
-- Each call of internal administration makes changes of those kinds only.
use fixzone_enterprise_api.Base.{
  ℕ, String, Bool, true, ◌≡◌, refl, inl, inr, Option, none, Bool-cases,
}
use fixzone_enterprise_api.Base.Result.{ok, Error, Result-cases}
use fixzone_enterprise_api.Admin.Catalog.{Permission}
use fixzone_enterprise_api.Admin.Office.{
  InternalAdminUser, Office, AdminEnv, AdminCall, fail, ◌>>=◌, actor_id, write_audit, deny,
}
use fixzone_enterprise_api.Admin.Authority.{has_permission, assert_permission}
use fixzone_enterprise_api.Admin.Approvals.{
  ApprovalDto, create_approval_request, decide_approval_request,
}
use fixzone_enterprise_api.Admin.Accounts.Changes.{
  logs, asks, decides, unchanged, one, Makes, bind-Makes, lift-Makes, found-Makes, Throws,
  unless-Makes, modify-Makes,
}

module _ {accepting : Bool} where
  pub write_audit-Makes :
      (user : InternalAdminUser) (action : String) (entity : Option ℕ) (o : Office)
      → Makes accepting (write_audit user action entity) o
  unfolding write_audit
  write_audit-Makes user action entity o = lift-Makes (actor_id user) _ o (λ actor e. one (logs _))

  -- An audit row, and an answer.
  pub then_audit-Makes :
      {A : Type 0} (user : InternalAdminUser) (action : String) (entity : Option ℕ)
      (f : Unit {0} → AdminCall A) (o : Office)
      → ((o' : Office) → Makes accepting (f tt) o')
      → Makes accepting (write_audit user action entity >>= f) o
  then_audit-Makes user action entity f o rest =
      bind-Makes (write_audit user action entity) f o (write_audit-Makes user action entity o)
        (λ a e. rest _)

  pub deny-Makes :
      (user : InternalAdminUser) (message : String) (o : Office)
      → Makes accepting (deny {A = Unit {0}} user message) o
  unfolding deny
  deny-Makes user message o = then_audit-Makes user _ none _ o (λ o'. unchanged)

pub fail-Throws : (x : Error) → Throws (fail x)
fail-Throws x o a e = absurd (cc e)

-- What ends by throwing never answers.
pub then-Throws :
    {A : Type 0} (m : AdminCall A) (n : A → AdminCall (Unit {0}))
    → ((a : A) → Throws (n a))
    → Throws (m >>= n)
unfolding ◌>>=◌
then-Throws m n never o a = elim (Result-cases (m o).0) [
  | inl (b, f) ↦ rw (f, ◌>>=◌) (never b (m o).1 a)
  | inr (x, f) ↦ rw (f, ◌>>=◌) (λ e. absurd (cc e))
]

pub deny-Throws : (user : InternalAdminUser) (message : String) → Throws (deny user message)
unfolding deny
deny-Throws user message = then-Throws _ _ (λ a. fail-Throws _)

-- A check that is passed: the caller has the permission, and nothing is written.
pub assert_permission_lem :
    (env : AdminEnv) (user : InternalAdminUser) (permission : Permission) (organization : Option ℕ)
    (o : Office) (a : Unit {0})
    → (assert_permission env user permission organization o).0 ≡ ok a
    → (has_permission env user permission organization o ≡ true)
      × ((assert_permission env user permission organization o).1 ≡ o)
unfolding assert_permission
assert_permission_lem env user permission organization o a =
    elim (Bool-cases (has_permission env user permission organization o)) [
      | inl e ↦ rw (e, assert_permission) (λ h. (refl, refl))
      | inr e ↦ rw (e, assert_permission) (λ h. absurd (deny-Throws user _ o a h))
    ]

module _ {accepting : Bool} where
  assert_permission-Makes :
      (env : AdminEnv) (user : InternalAdminUser) (permission : Permission) (o : Office)
      → Makes accepting (assert_permission env user permission none) o
  unfolding assert_permission
  assert_permission-Makes env user permission o =
      elim (Bool-cases (has_permission env user permission none o)) [
        | inl e ↦ rw (e, assert_permission) unchanged
        | inr e ↦ rw (e, assert_permission) (deny-Makes user _ o)
      ]

  -- A check of a permission, and what follows where the permission is there.
  pub permitted-Makes :
      {A : Type 0} (env : AdminEnv) (user : InternalAdminUser) (permission : Permission)
      (f : Unit {0} → AdminCall A) (o : Office)
      → Makes accepting (f tt) o
      → Makes accepting (assert_permission env user permission none >>= f) o
  permitted-Makes env user permission f o rest =
      bind-Makes (assert_permission env user permission none) f o
        (assert_permission-Makes env user permission o)
        (λ a e. rw ((assert_permission_lem env user permission none o a e).1) rest)

module _ {accepting : Bool} (env : AdminEnv) (user : InternalAdminUser) where
  pub create_approval_request-Makes :
      (dto : ApprovalDto) (message : String) (o : Office)
      → Makes accepting (create_approval_request env dto user message) o
  unfolding create_approval_request
  create_approval_request-Makes dto message o = lift-Makes _ _ o λ operation e.
      permitted-Makes env user _ _ o (
        lift-Makes _ _ o λ actor e. lift-Makes _ _ o λ role e.
          modify-Makes _ _ o (asks _ _ refl refl refl)
            (then_audit-Makes user _ _ _ _ (λ o'. unchanged)))

  pub decide_approval_request-Makes :
      (id : ℕ) (decision : String) (reason : Option String) (o : Office)
      → Makes accepting (decide_approval_request env id decision reason user) o
  unfolding decide_approval_request
  decide_approval_request-Makes id decision reason o = found-Makes id _ _ _ o λ r there.
      lift-Makes _ _ o λ actor e.
        unless-Makes _ _ _ o (deny-Throws user _) (deny-Makes user _ o) λ other.
          permitted-Makes env user _ _ o (
            modify-Makes _ _ o (decides _ _ _ _ _ _ there other)
              (then_audit-Makes user _ _ _ _ (λ o'. unchanged)))
