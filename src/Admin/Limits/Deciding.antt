-- ===== src/Admin/Limits/Deciding.antt =====
-- Who can decide a request of approval, and who is shown to be able to.
use mathlib.Core.Path.{subst}
use fixzone_enterprise_api.Base.{
  ℕ, String, ◌≡◌, ◌↔◌, refl, true, false, Option, none, some, inl, inr, find, Bool-cases, arith,
  ◌==◌, ◌∙◌, sym, ap,
}
use fixzone_enterprise_api.Base.Result.{ok, Result-cases}
use fixzone_enterprise_api.Admin.Catalog.{Permission, includes}
use fixzone_enterprise_api.Admin.Office.{
  InternalAdminUser, ApprovalStatus, ApprovalRequest, Office, AdminEnv, actor_id, found, unless,
  deny, write_audit, ◌>>=◌,
}
use fixzone_enterprise_api.Admin.Authority.{
  high_risk_operation_permission, Effective, effective_permissions, has_permission,
  assert_permission,
}
use fixzone_enterprise_api.Admin.Approvals.{
  can_decide, approval_decision_eligibility, decide_approval_request, decided, is_approval,
  with_decision, decision_action,
}
use fixzone_enterprise_api.Admin.Accounts.Changes.{found_lem}
use fixzone_enterprise_api.Admin.Accounts.Changes.Calls.{assert_permission_lem, deny-Throws}
use fixzone_enterprise_api.Admin.Limits.{bind-run, read-answers, lift-answers, unless-answers}

-- The check of a permission alone is whether the effective permissions include it.
has_permission_lem :
    (env : AdminEnv) (user : InternalAdminUser) (p : Permission) (o : Office)
    (effective : Effective)
    → effective_permissions env user o ≡ ok effective
    → has_permission env user p none o ≡ includes effective.permissions p
unfolding has_permission
has_permission_lem env user p o effective e =
    rw (e, has_permission)
      (elim (Bool-cases (includes effective.permissions p)) [
        | inl f ↦ rw f refl
        | inr f ↦ rw f refl
      ])

-- A request as if it were undecided.
abbrev pub reopened : ApprovalRequest → ApprovalRequest
reopened r = record r { status = ApprovalStatus.pending }

-- The three conditions of a decision.
record MayDecide (env : AdminEnv) (user : InternalAdminUser) (r : ApprovalRequest) (o : Office)
    : Type 0 where
  actor : ℕ
  known : actor_id user ≡ ok actor
  other : (r.requester_id == actor) ≡ false
  permitted :
      has_permission env user (high_risk_operation_permission r.operation_type) none o ≡ true

write_audit-run :
    (env : AdminEnv) (user : InternalAdminUser) (action : String) (entity : Option ℕ) (o : Office)
    (actor : ℕ)
    → actor_id user ≡ ok actor
    → write_audit user action entity o ≡ (ok tt, (write_audit user action entity o).1)
unfolding write_audit ◌>>=◌
write_audit-run env user action entity o actor known = rw (known, write_audit) refl

module _ (env : AdminEnv) (user : InternalAdminUser) (id : ℕ) (r : ApprovalRequest) (o : Office)
    (there : find id o.approvals ≡ some r) where
  decide-MayDecide :
      (decision : String) (reason : Option String) (o' : Office)
      → decide_approval_request env id decision reason user o ≡ (ok id, o')
      → MayDecide env user r o
  unfolding decide_approval_request
  decide-MayDecide decision reason o' h =
      let (r', stored, h1) = read-answers _ _ o o' _ (λ a e. (found_lem id _ _ o).0) h in
      let row : r' ≡ r =
        let e = (found_lem id (λ w. w.approvals) "Approval request not found" o).1 r' stored in
        ground arith in
      let (actor, known, h2) = lift-answers _ _ o o' _ h1 in
      let (other, h3) = unless-answers _ _ _ o o' _ (deny-Throws user _) h2 in
      let (a, permitted, h4) =
        read-answers _ _ o o' _ (λ a e. (assert_permission_lem env user _ none o a e).1) h3 in
      record {
        actor = actor;
        known = known;
        other = subst (λ x. (x.requester_id == actor) ≡ false) row other;
        permitted =
            subst
              (λ x.
                has_permission env user (high_risk_operation_permission x.operation_type) none o
                ≡ true)
              row (assert_permission_lem env user _ none o a permitted).0;
      }

  found-run : found id (λ w. w.approvals) "Approval request not found" o ≡ (ok r, o)
  unfolding found
  found-run = rw (there, found) refl

  permitted-run :
      (p : Permission)
      → has_permission env user p none o ≡ true
      → assert_permission env user p none o ≡ (ok tt, o)
  unfolding assert_permission
  permitted-run p e = rw (e, assert_permission) refl

  MayDecide-decide :
      (decision : String) (reason : Option String)
      → MayDecide env user r o
      → (decide_approval_request env id decision reason user o).0 ≡ ok id
  unfolding decide_approval_request
  MayDecide-decide decision reason may =
      let refuse = deny user "Requester cannot approve their own request." in
      let approve = is_approval env decision in
      let o' = with_decision id (decided env.now may.actor approve reason r) o in
      ap (λ x. x.0)
        (bind-run _ _ o o r found-run
          ∙ bind-run _ _ o o may.actor (ap (λ x. (x, o)) may.known)
          ∙ bind-run _ _ o o tt (ap (λ b. unless b refuse o) may.other)
          ∙ bind-run _ _ o o tt (permitted-run _ may.permitted)
          ∙ bind-run _ _ o o' tt refl
          ∙ bind-run _ _ o' _ tt
              (write_audit-run env user (decision_action approve) (some id) o' may.actor may.known))

  eligible-MayDecide :
      (effective : Effective)
      → effective_permissions env user o ≡ ok effective
      → approval_decision_eligibility (reopened r) user effective ≡ ok can_decide
      → MayDecide env user r o
  unfolding approval_decision_eligibility
  eligible-MayDecide effective e = elim (Result-cases (actor_id user)) [
    | inr (x, f) ↦ rw (f, approval_decision_eligibility) (λ h. absurd (cc h))
    | inl (actor, f) ↦ elim (Bool-cases (r.requester_id == actor)) [
      | inl g ↦ rw (f, approval_decision_eligibility) (rw g (λ h. absurd (cc h)))
      | inr g ↦
          let required = high_risk_operation_permission r.operation_type in
          elim (Bool-cases (includes effective.permissions required)) [
            | inr k ↦ rw (f, approval_decision_eligibility) (rw g (rw k (λ h. absurd (cc h))))
            | inl k ↦ λ h. record {
              actor = actor;
              known = f;
              other = g;
              permitted = has_permission_lem env user required o effective e ∙ k;
            }
          ]
    ]
  ]

  MayDecide-eligible :
      (effective : Effective)
      → effective_permissions env user o ≡ ok effective
      → MayDecide env user r o
      → approval_decision_eligibility (reopened r) user effective ≡ ok can_decide
  unfolding approval_decision_eligibility
  MayDecide-eligible effective e may =
      rw (may.known, approval_decision_eligibility)
        (rw may.other (rw (sym (has_permission_lem env user _ o effective e) ∙ may.permitted) refl))

-- A decision on a stored request is recorded exactly where the caller would be shown to be eligible to
-- decide the request if it were pending: the request's status makes no difference.
pub decide-eligible :
    (env : AdminEnv) (user : InternalAdminUser) (id : ℕ) (decision : String)
    (reason : Option String) (r : ApprovalRequest) (o : Office) (effective : Effective)
    → find id o.approvals ≡ some r
    → effective_permissions env user o ≡ ok effective
    → ((decide_approval_request env id decision reason user o).0 ≡ ok id)
      ↔ (approval_decision_eligibility (reopened r) user effective ≡ ok can_decide)
decide-eligible env user id decision reason r o effective there e = (
  λ h. MayDecide-eligible env user id r o there effective e (
      decide-MayDecide env user id r o there decision reason _
        (ap (λ x. (x, (decide_approval_request env id decision reason user o).1)) h)),
  λ h.
      MayDecide-decide env user id r o there decision reason
        (eligible-MayDecide env user id r o there effective e h),
)
