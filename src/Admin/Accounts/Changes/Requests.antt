-- ===== src/Admin/Accounts/Changes/Requests.antt =====
-- Each request makes changes of those kinds only, and the acceptance of an invitation is the only one
-- that gives a user another role.
use fixzone_enterprise_api.Base.{
  ℕ, String, Bool, true, false, ◌≡◌, refl, ◌⊎◌, inl, inr, ◌≤◌, Option, some, Option-cases,
  Bool-cases, find, arith, ltb,
}
use fixzone_enterprise_api.Base.Result.{ok}
use fixzone_enterprise_api.Admin.Catalog.{InternalRoleDefinition}
use fixzone_enterprise_api.Admin.Office.{
  InternalAdminUser, Account, Invitation, Office, AdminEnv, AdminCall, unless, ◌>>=◌,
}
use fixzone_enterprise_api.Admin.Authority.{is_any_super}
use fixzone_enterprise_api.Admin.Accounts.{
  update_account, expire_invitation, accept_invitation, accept_in_transaction, is_active_super,
  other_super_admins, assert_not_final_active_super_admin, remove_role, suspend_administrator,
  reactivate_administrator, revoke_sessions, AdminRequest, is_acceptance, serve_admin,
}
use fixzone_enterprise_api.Admin.Accounts.Changes.{
  revokes, updates, expires, accepts, Changes, unchanged, one, Makes, bind-Makes, lift-Makes,
  found-Makes, Reads, read-Makes, Throws, unless-Makes, modify-Makes,
}
use fixzone_enterprise_api.Admin.Accounts.Changes.Calls.{
  write_audit-Makes, then_audit-Makes, fail-Throws, then-Throws, permitted-Makes,
  create_approval_request-Makes, decide_approval_request-Makes,
}
use fixzone_enterprise_api.Admin.Accounts.Changes.Granting.{
  unless-Reads, invite_administrator-Makes, assign_role-Makes,
}

assert_not_final-Reads : (target : ℕ) → Reads (assert_not_final_active_super_admin target)
unfolding assert_not_final_active_super_admin
assert_not_final-Reads target o = unless-Reads _ _ o

-- A user whose suspension passes the check is not the last active super administrator.
assert_not_final_lem :
    (target : ℕ) (o : Office) (a : Unit {0})
    → (assert_not_final_active_super_admin target o).0 ≡ ok a
    → 1 ≤ other_super_admins target o.accounts
unfolding assert_not_final_active_super_admin
assert_not_final_lem target o a = elim (Bool-cases (ltb (other_super_admins target o.accounts) 1)) [
  | inl e ↦ rw (e, assert_not_final_active_super_admin) (λ h. absurd (cc h))
  | inr e ↦ λ h. ground arith
]

check-Reads : (b : Bool) (m : AdminCall (Unit {0})) → Reads m → Reads (unless b m)
check-Reads true m same o = same o
check-Reads false m same o = refl

active-is_any_super : (a : Account) → is_active_super a ≡ true → is_any_super (some a.role) ≡ true
active-is_any_super a h = elim (Bool-cases (is_any_super (some a.role))) [
  | inl e ↦ e
  | inr e ↦ ground arith
]

module _ {accepting : Bool} (env : AdminEnv) (user : InternalAdminUser) where
  remove_role-Makes :
      (id : ℕ) (reason : Option String) (o : Office)
      → Makes accepting (remove_role env id reason user) o
  unfolding remove_role
  remove_role-Makes id reason o = permitted-Makes env user _ _ o (
      found-Makes id _ _ _ o λ a there.
        read-Makes _ _ o (check-Reads _ _ (assert_not_final-Reads a.user_id)) λ _ _.
          lift-Makes _ _ o
            λ actor _. modify-Makes _ _ o (revokes _ _ _ _ _ there) (write_audit-Makes user _ _ _))

  update_account-Makes :
      {A : Type 0} (id : ℕ) (change : Account → Account) (f : Account → AdminCall A) (o : Office)
      → ((a : Account) → (change a).role ≡ a.role)
      → ((a : Account)
          → (is_active_super a ≡ true → is_active_super (change a) ≡ true)
            ⊎ (1 ≤ other_super_admins id o.accounts))
      → ((b : Account) (o' : Office) → Makes accepting (f b) o')
      → Makes accepting (update_account id change >>= f) o
  unfolding update_account
  update_account-Makes id change f o same keeps rest =
      bind-Makes (update_account id change) f o
        (elim (Option-cases (find id o.accounts)) [
          | inl e ↦ rw (e, update_account) unchanged
          | inr (a, e) ↦ rw (e, update_account) (one (updates id a (change a) e (same a) (keeps a)))
        ])
        (λ b e. rest b _)

  suspend_administrator-Makes :
      (target : ℕ) (o : Office) → Makes accepting (suspend_administrator env target user) o
  unfolding suspend_administrator
  suspend_administrator-Makes target o = permitted-Makes env user _ _ o (
      lift-Makes _ _ o λ actor _. unless-Makes _ _ _ o (fail-Throws _) unchanged λ other.
        read-Makes _ _ o (assert_not_final-Reads target) λ a passed.
          update_account-Makes target _ _ o (λ a. refl)
            (λ b. inr (assert_not_final_lem target o a passed))
            (λ b o'. write_audit-Makes user _ _ o'))

  reactivate_administrator-Makes :
      (target : ℕ) (o : Office) → Makes accepting (reactivate_administrator env target user) o
  unfolding reactivate_administrator
  reactivate_administrator-Makes target o = permitted-Makes env user _ _ o (
      update_account-Makes target _ _ o (λ a. refl) (λ a. inl (active-is_any_super a))
        (λ b o'. write_audit-Makes user _ _ o'))

  revoke_sessions-Makes :
      (target : ℕ) (o : Office) → Makes accepting (revoke_sessions env target user) o
  unfolding revoke_sessions
  revoke_sessions-Makes target o = permitted-Makes env user _ _ o (
      lift-Makes _ _ o λ actor _. unless-Makes _ _ _ o (fail-Throws _) unchanged λ other.
        found-Makes target _ _ _ o λ a _.
          update_account-Makes target _ _ o (λ a. refl) (λ a. inl (λ h. h))
            (λ b o'. then_audit-Makes user _ _ _ o' (λ _. unchanged)))

expire_invitation-Throws :
    (id : ℕ) (i : Invitation) (user : InternalAdminUser) → Throws (expire_invitation id i user)
unfolding expire_invitation
expire_invitation-Throws id i user = then-Throws _ _ (λ a. then-Throws _ _ (λ b. fail-Throws _))

module _ (env : AdminEnv) (user : InternalAdminUser) where
  expire_invitation-Makes :
      (id : ℕ) (i : Invitation) (o : Office)
      → find id o.invitations ≡ some i
      → Makes true (expire_invitation id i user) o
  unfolding expire_invitation
  expire_invitation-Makes id i o there =
      modify-Makes _ _ o (expires id i there) (then_audit-Makes user _ _ _ _ (λ o'. unchanged))

  accept_in_transaction-Makes :
      (actor id : ℕ) (i : Invitation) (d : InternalRoleDefinition) (o : Office)
      → find id o.invitations ≡ some i
      → Makes true (accept_in_transaction env actor id i d) o
  unfolding accept_in_transaction
  accept_in_transaction-Makes actor id i d o there = elim (Option-cases (find actor o.accounts)) [
    | inl e ↦ rw (e, accept_in_transaction) unchanged
    | inr (a, e) ↦ rw (e, accept_in_transaction) (one (accepts env actor id i d a refl e there))
  ]

  accept_invitation-Makes : (id : ℕ) (o : Office) → Makes true (accept_invitation env id user) o
  unfolding accept_invitation
  accept_invitation-Makes id o = lift-Makes _ _ o λ actor _. found-Makes id _ _ _ o λ i there.
      unless-Makes _ _ _ o (fail-Throws _) unchanged λ _.
        unless-Makes _ _ _ o (expire_invitation-Throws id i user)
          (expire_invitation-Makes id i o there)
          λ _. unless-Makes _ _ _ o (fail-Throws _) unchanged λ _. lift-Makes _ _ o λ d _.
            bind-Makes _ _ o (accept_in_transaction-Makes actor id i d o there)
              λ a _. then_audit-Makes user _ _ _ _ (λ o'. unchanged)

pub serve_admin-Changes :
    (env : AdminEnv) (request : AdminRequest) (user : InternalAdminUser) (o : Office)
    → Changes (is_acceptance request) o (serve_admin env request user o)
unfolding serve_admin
serve_admin-Changes env (AdminRequest.invite dto) user o = invite_administrator-Makes env user dto o
serve_admin-Changes env (AdminRequest.accept id) user o = accept_invitation-Makes env user id o
serve_admin-Changes env (AdminRequest.assign target dto) user o =
    assign_role-Makes env user target dto o
serve_admin-Changes env (AdminRequest.remove id reason) user o =
    remove_role-Makes env user id reason o
serve_admin-Changes env (AdminRequest.suspend id) user o = suspend_administrator-Makes env user id o
serve_admin-Changes env (AdminRequest.reactivate id) user o =
    reactivate_administrator-Makes env user id o
serve_admin-Changes env (AdminRequest.sign_out id) user o = revoke_sessions-Makes env user id o
serve_admin-Changes env (AdminRequest.ask_approval dto) user o =
    create_approval_request-Makes env user dto _ o
serve_admin-Changes env (AdminRequest.decide id decision reason) user o =
    decide_approval_request-Makes env user id decision reason o
