-- ===== src/Report/Service/Dispatch.antt =====
-- The handlers of assignment, intake and status keep what their checks' writes keep.
use fixzone_enterprise_api.Base.{
  ◌≡◌, true, ℕ, String, Bool-cases, ◌&&◌, inl, inr, Bool, Option, arith, HasDistinctKeys,
}
use fixzone_enterprise_api.Base.Result.{ok}
use fixzone_enterprise_api.Report.Types.{assigned, same_status}
use fixzone_enterprise_api.Report.Model.{Report, JwtUser, Env}
use fixzone_enterprise_api.Report.Effects.{World, lift, write}
use fixzone_enterprise_api.Report.Effects.Laws.{Evolves, Evolves-refl}
use fixzone_enterprise_api.Report.Effects.Keeps.{
  Keeps, IsQuiet, IsQuietOk, lift-IsQuiet, emit-IsQuiet, and_then-IsQuiet, Keeps-quiet,
  and_then-Keeps, and_then-Keeps_quiet, with_report-Keeps, lift-Keeps, find_report-Keeps,
}
use fixzone_enterprise_api.Report.Assignment.{
  may_dispatch, cancel_checks, assign_checks, cancel_assignment, assign_provider_by_id,
  AssignOptions,
}
use fixzone_enterprise_api.Report.Expiry.{
  reject_assignment, assert_assignment_still_acceptable, acceptance_expired, Scope,
  expire_overdue_assignments, process_overdue_assignments,
}
use fixzone_enterprise_api.Report.Expiry.Laws.{
  expire_overdue_assignments-Evolves, expire_overdue_assignments-HasDistinctKeys,
}
use fixzone_enterprise_api.Report.Intake.{
  Resolution, accept_organization_report, reject_organization_report,
}
use fixzone_enterprise_api.Report.Status.{
  update_status, acceptance_check, starts_work, status_finish, StatusRequest, PolicySources,
}
use fixzone_enterprise_api.Report.Service.Allows.{Allows, throw_if_passed}

module _ (P : Report → Report → Type 0) (env : Env) (user : JwtUser) (id : ℕ) where
  pub cancelled-Keeps :
      (reason : Option String)
      → ((r r' : Report)
          → may_dispatch user ≡ true
          → cancel_checks env reason user r ≡ ok (write r')
          → P r r')
      → Keeps P (cancel_assignment env id reason user)
  unfolding cancel_assignment
  cancelled-Keeps reason allowed =
      lift-Keeps P _ _
        (λ _ role. with_report-Keeps P id _ _ (λ r r' h. allowed r r' (throw_if_passed _ _ role) h))

  pub assigned-Keeps :
      (provider_id : ℕ) (options : AssignOptions)
      → ((r r' : Report)
          → may_dispatch user ≡ true
          → assign_checks env provider_id user options r ≡ ok (write r')
          → P r r')
      → Keeps P (assign_provider_by_id env id provider_id user options)
  unfolding assign_provider_by_id
  assigned-Keeps provider_id options allowed =
      lift-Keeps P _ _
        (λ _ role. with_report-Keeps P id _ _ (λ r r' h. allowed r r' (throw_if_passed _ _ role) h))

module _ {P : Report → Report → Type 0} {env : Env} {user : JwtUser}
    (allows : Allows P env user) where
  expire_overdue_assignments-Keeps :
      (scope : Scope) (w : World)
      → HasDistinctKeys w.reports
      → Evolves P w.reports (expire_overdue_assignments env scope w).1.reports
        × HasDistinctKeys (expire_overdue_assignments env scope w).1.reports
  expire_overdue_assignments-Keeps scope w k = (
    expire_overdue_assignments-Evolves P env scope (allows.expires scope) w k,
    expire_overdue_assignments-HasDistinctKeys env scope w k,
  )

  pub process_overdue_assignments-Keeps : Keeps P (process_overdue_assignments env user)
  unfolding process_overdue_assignments
  process_overdue_assignments-Keeps w k = elim (Bool-cases (may_dispatch user)) [
    | inl e ↦ rw (e, process_overdue_assignments) (expire_overdue_assignments-Keeps _ w k)
    | inr e ↦ rw (e, process_overdue_assignments) (Evolves-refl P w.reports, k)
  ]

  module _ (id : ℕ) where
    pub cancel_assignment-Keeps :
        (reason : Option String) → Keeps P (cancel_assignment env id reason user)
    cancel_assignment-Keeps reason = cancelled-Keeps P env user id reason (allows.cancels reason)

    pub assign_provider_by_id-Keeps :
        (provider_id : ℕ) (options : AssignOptions)
        → Keeps P (assign_provider_by_id env id provider_id user options)
    assign_provider_by_id-Keeps provider_id options =
        assigned-Keeps P env user id provider_id options (allows.assigns provider_id options)

    pub accept_organization_report-Keeps :
        (remark : Option String) (resolution : Option Resolution)
        → Keeps P (accept_organization_report env id remark resolution user)
    unfolding accept_organization_report
    accept_organization_report-Keeps remark resolution = lift-Keeps P _ _ (λ organization o.
        lift-Keeps P _ _ (λ _ _.
          with_report-Keeps P id _ _ (λ r r' h. allows.accepts organization resolution r r' o h)))

    pub reject_organization_report-Keeps :
        (exists : ℕ → Bool) (reason : Option String) (suggested : Option ℕ)
        (resolution : Option Resolution)
        → Keeps P (reject_organization_report env exists id reason suggested resolution user)
    unfolding reject_organization_report
    reject_organization_report-Keeps exists reason suggested resolution =
        lift-Keeps P _ _ (λ organization o. lift-Keeps P _ _ (λ _ _. lift-Keeps P _ _ (λ text _.
          with_report-Keeps P id _ _
            (λ r r' h. allows.turns_down exists text suggested organization resolution r r' o h))))

    acceptable-Keeps :
        (r : Report) (user_id : ℕ) → Keeps P (assert_assignment_still_acceptable env r user user_id)
    unfolding assert_assignment_still_acceptable
    acceptable-Keeps r user_id w k = elim (Bool-cases (acceptance_expired env user_id r)) [
      | inl e ↦ rw e (expire_overdue_assignments-Keeps _ w k)
      | inr e ↦ rw e (Evolves-refl P w.reports, k)
    ]

    acceptable-IsQuietOk :
        (r : Report) (user_id : ℕ)
        → IsQuietOk (assert_assignment_still_acceptable env r user user_id)
    unfolding assert_assignment_still_acceptable
    acceptable-IsQuietOk r user_id a w h = ground arith

    pub reject_assignment-Keeps : (reason : String) → Keeps P (reject_assignment env id reason user)
    unfolding reject_assignment
    reject_assignment-Keeps reason = lift-Keeps P _ _ (λ user_id u. lift-Keeps P _ _ (λ _ _.
        lift-Keeps P _ _ (λ _ _. find_report-Keeps P id _ (λ q. lift-Keeps P _ _ (λ _ _.
          and_then-Keeps P _ _ (acceptable-Keeps q user_id) (acceptable-IsQuietOk q user_id) (λ _.
            with_report-Keeps P id _ _ (λ r r' h. allows.refuses reason user_id r r' u h)))))))

    acceptance_check-Keeps :
        (dto : StatusRequest) (user_id : ℕ) (r : Report)
        → Keeps P (acceptance_check env dto user user_id r)
    unfolding acceptance_check
    acceptance_check-Keeps dto user_id r =
        elim (Bool-cases (starts_work dto user && same_status r.status assigned)) [
          | inl e ↦ rw e (acceptable-Keeps r user_id)
          | inr e ↦ rw e (Keeps-quiet P (lift {A = Unit {0}} (ok tt)) (lift-IsQuiet _))
        ]

    acceptance_check-IsQuietOk :
        (dto : StatusRequest) (user_id : ℕ) (r : Report)
        → IsQuietOk (acceptance_check env dto user user_id r)
    unfolding acceptance_check
    acceptance_check-IsQuietOk dto user_id r =
        elim (Bool-cases (starts_work dto user && same_status r.status assigned)) [
          | inl e ↦ rw e (acceptable-IsQuietOk r user_id)
          | inr e ↦ rw e (λ a w h. lift-IsQuiet _ w)
        ]

    status_finish-IsQuiet :
        (dto : StatusRequest) (r r' : Report) → IsQuiet (status_finish env id dto user r r')
    unfolding status_finish
    status_finish-IsQuiet dto r r' =
        and_then-IsQuiet _ _ (lift-IsQuiet _)
          (λ _. and_then-IsQuiet _ _ (emit-IsQuiet _) (λ _. lift-IsQuiet _))

    pub update_status-Keeps :
        (sources : PolicySources) (hours : ℕ) (dto : StatusRequest)
        → Keeps P (update_status env sources hours id dto user)
    unfolding update_status
    update_status-Keeps sources hours dto = lift-Keeps P _ _ (λ user_id u.
        find_report-Keeps P id _ (λ q. lift-Keeps P _ _ (λ _ _.
          and_then-Keeps P _ _ (acceptance_check-Keeps dto user_id q)
            (acceptance_check-IsQuietOk dto user_id q)
            (λ _. lift-Keeps P _ _ (λ _ _.
              and_then-Keeps_quiet P _ _
                (with_report-Keeps P id _ _
                  (λ r r' h. allows.updates sources hours id dto user_id r r' u h))
                (status_finish-IsQuiet dto q))))))
