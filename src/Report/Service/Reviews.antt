-- ===== src/Report/Service/Reviews.antt =====
-- The handlers of completion reviews and governance keep what their checks' writes keep.
use fixzone_enterprise_api.Base.{ℕ, String, ◌≡◌, true, Option, List}
use fixzone_enterprise_api.Base.Result.{Result, ok}
use fixzone_enterprise_api.Report.Types.{CompletionPolicy, is_super_admin}
use fixzone_enterprise_api.Report.Model.{Report, JwtUser, Env}
use fixzone_enterprise_api.Report.Effects.{Effect, Change, write}
use fixzone_enterprise_api.Report.Effects.Keeps.{
  Keeps, lift-IsQuiet, emit-IsQuiet, and_then-IsQuiet, and_then-Keeps_quiet, with_report-Keeps,
  lift-Keeps, find_report-Keeps,
}
use fixzone_enterprise_api.Report.Completion.{confirm_citizen_completion, reject_citizen_completion}
use fixzone_enterprise_api.Report.Verification.{
  verify_organization_completion, request_organization_completion_rework,
}
use fixzone_enterprise_api.Report.Governance.{
  Names, govern, admin_resolve_and_close, admin_return_for_completion_rework,
  admin_place_completion_hold, admin_remove_completion_hold, admin_reopen_completion,
  admin_override_completion_policy,
}
use fixzone_enterprise_api.Report.Service.Allows.{Allows, throw_if_passed}

module _ {P : Report → Report → Type 0} {env : Env} {user : JwtUser} (allows : Allows P env user)
    (id : ℕ) where
  pub confirm_citizen_completion-Keeps :
      (rating : ℕ) (feedback : Option String)
      → Keeps P (confirm_citizen_completion env id rating feedback user)
  unfolding confirm_citizen_completion
  confirm_citizen_completion-Keeps rating feedback = lift-Keeps P _ _ (λ user_id u.
      lift-Keeps P _ _ (λ _ _. find_report-Keeps P id _ (λ q.
        and_then-Keeps_quiet P _ _
          (with_report-Keeps P id _ _ (λ r r' h. allows.confirms rating feedback user_id r r' u h))
          (λ r'. and_then-IsQuiet _ _ (lift-IsQuiet _) (λ _. lift-IsQuiet _)))))

  pub reject_citizen_completion-Keeps :
      (reason : Option String) → Keeps P (reject_citizen_completion env id reason user)
  unfolding reject_citizen_completion
  reject_citizen_completion-Keeps reason = lift-Keeps P _ _ (λ user_id u. lift-Keeps P _ _ (λ _ _.
      and_then-Keeps_quiet P _ _
        (with_report-Keeps P id _ _ (λ r r' h. allows.asks_rework reason user_id r r' u h))
        (λ r'. and_then-IsQuiet _ _ (lift-IsQuiet _) (λ _. lift-IsQuiet _))))

  pub verify_organization_completion-Keeps :
      (reason : Option String) → Keeps P (verify_organization_completion env id reason user)
  unfolding verify_organization_completion
  verify_organization_completion-Keeps reason = lift-Keeps P _ _ (λ organization o.
      with_report-Keeps P id _ _ (λ r r' h. allows.verifies reason organization r r' o h))

  pub request_organization_completion_rework-Keeps :
      (reason : Option String) → Keeps P (request_organization_completion_rework env id reason user)
  unfolding request_organization_completion_rework
  request_organization_completion_rework-Keeps reason = lift-Keeps P _ _ (λ organization o.
      with_report-Keeps P id _ _ (λ r r' h. allows.orders_rework reason organization r r' o h))

  govern-Keeps :
      (names : Names) (reason : Option String) (checks : Report → Result Change)
      (after : Report → List Effect)
      → ((r r' : Report) → is_super_admin user.role ≡ true → checks r ≡ ok (write r') → P r r')
      → Keeps P (govern env id names reason user checks after)
  unfolding govern
  govern-Keeps names reason checks after allowed = lift-Keeps P _ _ (λ _ role.
      find_report-Keeps P id _ (λ q.
        and_then-Keeps_quiet P _ _
          (with_report-Keeps P id _ _ (λ r r' h. allowed r r' (throw_if_passed _ _ role) h))
          (λ r'.
            and_then-IsQuiet _ _ (lift-IsQuiet _)
              (λ _. and_then-IsQuiet _ _ (emit-IsQuiet _) (λ _. lift-IsQuiet _)))))

  module _ (reason : Option String) where
    pub admin_resolve_and_close-Keeps : Keeps P (admin_resolve_and_close env id reason user)
    unfolding admin_resolve_and_close
    admin_resolve_and_close-Keeps = govern-Keeps _ reason _ _ (allows.resolves reason)

    pub admin_return_for_completion_rework-Keeps :
        Keeps P (admin_return_for_completion_rework env id reason user)
    unfolding admin_return_for_completion_rework
    admin_return_for_completion_rework-Keeps = govern-Keeps _ reason _ _ (allows.returns reason)

    pub admin_place_completion_hold-Keeps : Keeps P (admin_place_completion_hold env id reason user)
    unfolding admin_place_completion_hold
    admin_place_completion_hold-Keeps = govern-Keeps _ reason _ _ (allows.holds reason)

    pub admin_remove_completion_hold-Keeps :
        Keeps P (admin_remove_completion_hold env id reason user)
    unfolding admin_remove_completion_hold
    admin_remove_completion_hold-Keeps = govern-Keeps _ reason _ _ (allows.releases reason)

    pub admin_reopen_completion-Keeps : Keeps P (admin_reopen_completion env id reason user)
    unfolding admin_reopen_completion
    admin_reopen_completion-Keeps = govern-Keeps _ reason _ _ (allows.reopens reason)

    pub admin_override_completion_policy-Keeps :
        (policy : CompletionPolicy)
        → Keeps P (admin_override_completion_policy env id policy reason user)
    unfolding admin_override_completion_policy
    admin_override_completion_policy-Keeps policy =
        govern-Keeps _ reason _ _ (allows.overrides policy reason)
