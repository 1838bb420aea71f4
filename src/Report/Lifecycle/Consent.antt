-- ===== src/Report/Lifecycle/Consent.antt =====
-- Who decides on a completion: no handler writes the citizen's confirmation or the organization's
-- verification but the one that this party calls.
use fixzone_enterprise_api.Base.{
  ℕ, String, ◌≡◌, ◌⊎◌, inl, inr, Bool, Option, some, arith, HasDistinctKeys,
}
use fixzone_enterprise_api.Base.Result.{ok}
use fixzone_enterprise_api.Report.Types.{CompletionPolicy, confirmed, verified}
use fixzone_enterprise_api.Report.Model.{Report, JwtUser, Env, get_user_id}
use fixzone_enterprise_api.Report.Effects.{World, write}
use fixzone_enterprise_api.Report.Effects.Laws.{Evolves}
use fixzone_enterprise_api.Report.Assignment.{cancel_checks, assign_checks, AssignOptions}
use fixzone_enterprise_api.Report.Expiry.{expired, reject_update}
use fixzone_enterprise_api.Report.Intake.{Resolution, accept_checks, reject_report_checks}
use fixzone_enterprise_api.Report.Status.{
  status_checks, completed_report, StatusRequest, PolicySources,
}
use fixzone_enterprise_api.Report.Completion.{citizen_confirmed, citizen_rework_checks}
use fixzone_enterprise_api.Report.Verification.{
  operator_organization, organization_verified, organization_rework_checks,
}
use fixzone_enterprise_api.Report.Governance.{
  resolve_checks, return_for_rework_checks, place_hold_checks, remove_hold_checks, reopen_checks,
  override_checks,
}
use fixzone_enterprise_api.Report.Decisions.{
  confirm_checks_written, verify_checks_written, citizen_review_lem, organization_review_lem,
}
use fixzone_enterprise_api.Report.Deadlines.{window_closed}
use fixzone_enterprise_api.Report.Service.{Request, serve}
use fixzone_enterprise_api.Report.Service.Allows.{Allows}
use fixzone_enterprise_api.Report.Service.Serve.{serve-Evolves}

-- A confirmation or verification that stands there afterwards stood there before.
abbrev AddsNoDecision : Report → Report → Type 0
AddsNoDecision r r' =
    (r'.citizen_completion_decision ≡ some confirmed
      → r.citizen_completion_decision ≡ some confirmed)
    × (r'.organization_completion_decision ≡ some verified
        → r.organization_completion_decision ≡ some verified)

-- A new confirmation is made by the report's citizen, and a new verification by an operator of its
-- organization.
abbrev pub DecidesByRight : JwtUser → Report → Report → Type 0
DecidesByRight user r r' =
    (r'.citizen_completion_decision ≡ some confirmed
      → (r.citizen_completion_decision ≡ some confirmed) ⊎ (get_user_id user ≡ ok r.citizen_id))
    × (r'.organization_completion_decision ≡ some verified
        → (r.organization_completion_decision ≡ some verified)
          ⊎ (operator_organization user ≡ ok r.organization_id))

AddsNoDecision-DecidesByRight :
    (user : JwtUser) (r r' : Report) → AddsNoDecision r r' → DecidesByRight user r r'
AddsNoDecision-DecidesByRight user r r' (c, o) = (λ h. inl (c h), λ h. inl (o h))

AddsNoDecision-trans :
    (r s t : Report) → AddsNoDecision r s → AddsNoDecision s t → AddsNoDecision r t
AddsNoDecision-trans r s t (c, o) (c', o') = (λ h. c (c' h), λ h. o (o' h))

window_closed_adds :
    (env : Env) (user : JwtUser) (user_id : ℕ) (r : Report)
    → AddsNoDecision r (window_closed env user user_id r)
unfolding window_closed
window_closed_adds env user user_id r = (λ c. c, λ o. o)

module _ (env : Env) (r r' : Report) where
  cancel_checks_adds :
      (reason : Option String) (user : JwtUser)
      → cancel_checks env reason user r ≡ ok (write r')
      → AddsNoDecision r r'
  unfolding cancel_checks
  cancel_checks_adds reason user h = ground arith

  assign_checks_adds :
      (provider_id : ℕ) (user : JwtUser) (options : AssignOptions)
      → assign_checks env provider_id user options r ≡ ok (write r')
      → AddsNoDecision r r'
  unfolding assign_checks
  assign_checks_adds provider_id user options h = ground arith

  reject_update_adds :
      (reason : String) (user_id : ℕ)
      → reject_update env reason user_id r ≡ ok (write r')
      → AddsNoDecision r r'
  unfolding reject_update
  reject_update_adds reason user_id h = ground arith

  accept_checks_adds :
      (organization : ℕ) (resolution : Option Resolution)
      → accept_checks env organization resolution r ≡ ok (write r')
      → AddsNoDecision r r'
  unfolding accept_checks
  accept_checks_adds organization resolution h = ground arith

  reject_report_checks_adds :
      (exists : ℕ → Bool) (reason : String) (suggested : Option ℕ) (organization : ℕ)
      (resolution : Option Resolution)
      → reject_report_checks env exists reason suggested organization resolution r ≡ ok (write r')
      → AddsNoDecision r r'
  unfolding reject_report_checks
  reject_report_checks_adds exists reason suggested organization resolution h = ground arith

  status_checks_adds :
      (sources : PolicySources) (hours id : ℕ) (dto : StatusRequest) (user : JwtUser) (user_id : ℕ)
      → status_checks env sources hours id dto user user_id r ≡ ok (write r')
      → AddsNoDecision r r'
  unfolding status_checks completed_report
  status_checks_adds sources hours id dto user user_id h = ground arith

  citizen_rework_checks_adds :
      (reason : Option String) (user_id : ℕ)
      → citizen_rework_checks env reason user_id r ≡ ok (write r')
      → AddsNoDecision r r'
  unfolding citizen_rework_checks
  citizen_rework_checks_adds reason user_id h = ground arith

  organization_rework_checks_adds :
      (reason : Option String) (user : JwtUser) (organization : ℕ)
      → organization_rework_checks env reason user organization r ≡ ok (write r')
      → AddsNoDecision r r'
  unfolding organization_rework_checks
  organization_rework_checks_adds reason user organization h = ground arith

  resolve_checks_adds :
      (reason : Option String) (user : JwtUser)
      → resolve_checks env reason user r ≡ ok (write r')
      → AddsNoDecision r r'
  unfolding resolve_checks
  resolve_checks_adds reason user h = ground arith

  return_for_rework_checks_adds :
      (reason : Option String)
      → return_for_rework_checks reason r ≡ ok (write r')
      → AddsNoDecision r r'
  unfolding return_for_rework_checks
  return_for_rework_checks_adds reason h = ground arith

  place_hold_checks_adds :
      (reason : Option String) → place_hold_checks reason r ≡ ok (write r') → AddsNoDecision r r'
  unfolding place_hold_checks
  place_hold_checks_adds reason h = ground arith

  remove_hold_checks_adds :
      (reason : Option String)
      → remove_hold_checks env reason r ≡ ok (write r')
      → AddsNoDecision r r'
  unfolding remove_hold_checks
  remove_hold_checks_adds reason h = ground arith

  reopen_checks_adds :
      (reason : Option String) → reopen_checks env reason r ≡ ok (write r') → AddsNoDecision r r'
  unfolding reopen_checks
  reopen_checks_adds reason h = ground arith

  override_checks_adds :
      (policy : CompletionPolicy) (reason : Option String)
      → override_checks env policy reason r ≡ ok (write r')
      → AddsNoDecision r r'
  unfolding override_checks
  override_checks_adds policy reason h = ground arith

  confirmed_by :
      (rating : ℕ) (feedback : Option String) (user : JwtUser) (user_id : ℕ)
      → get_user_id user ≡ ok user_id
      → r.citizen_id ≡ user_id
      → r' ≡ citizen_confirmed env rating feedback user user_id r
      → DecidesByRight user r r'
  unfolding citizen_confirmed
  confirmed_by rating feedback user user_id u i e =
      (λ _. inr (ground arith), λ h. inl (ground arith))

  verified_by :
      (reason : Option String) (user : JwtUser) (user_id organization : ℕ)
      → operator_organization user ≡ ok organization
      → r.organization_id ≡ organization
      → r' ≡ organization_verified env reason user user_id r
      → DecidesByRight user r r'
  unfolding organization_verified
  verified_by reason user user_id organization o i e =
      (λ h. inl (ground arith), λ _. inr (ground arith))

DecidesByRight-allowed : (env : Env) (user : JwtUser) → Allows (DecidesByRight user) env user
DecidesByRight-allowed env user = record {
  cancels = λ reason r r' m h.
      AddsNoDecision-DecidesByRight user r r' (cancel_checks_adds env r r' reason user h);
  assigns = λ provider_id options r r' m h.
      AddsNoDecision-DecidesByRight user r r'
        (assign_checks_adds env r r' provider_id user options h);
  reassigns = λ reason provider_id options r s r' m h g. AddsNoDecision-DecidesByRight user r r' (
      AddsNoDecision-trans r s r' (cancel_checks_adds env r s reason user h)
        (assign_checks_adds env s r' provider_id user options g));
  refuses = λ reason user_id r r' u h.
      AddsNoDecision-DecidesByRight user r r' (reject_update_adds env r r' reason user_id h);
  expires = λ scope r h. AddsNoDecision-DecidesByRight user r (expired env r) (λ c. c, λ o. o);
  accepts = λ organization resolution r r' o h.
      AddsNoDecision-DecidesByRight user r r'
        (accept_checks_adds env r r' organization resolution h);
  turns_down = λ exists reason suggested organization resolution r r' o h.
      AddsNoDecision-DecidesByRight user r r'
        (reject_report_checks_adds env r r' exists reason suggested organization resolution h);
  updates = λ sources hours id dto user_id r r' u h.
      AddsNoDecision-DecidesByRight user r r'
        (status_checks_adds env r r' sources hours id dto user user_id h);
  confirms = λ rating feedback user_id r r' u h.
      let (c, _, _, e) = confirm_checks_written env r r' rating feedback user user_id h in
      confirmed_by env r r' rating feedback user user_id u (citizen_review_lem user_id r c).0 e;
  asks_rework = λ reason user_id r r' u h.
      AddsNoDecision-DecidesByRight user r r'
        (citizen_rework_checks_adds env r r' reason user_id h);
  verifies = λ reason organization r r' o h.
      let (c, _, _, _, (user_id, _, e)) =
        verify_checks_written env r r' reason user organization h in
      verified_by env r r' reason user user_id organization o
        (organization_review_lem organization r c).0 e;
  orders_rework = λ reason organization r r' o h.
      AddsNoDecision-DecidesByRight user r r'
        (organization_rework_checks_adds env r r' reason user organization h);
  resolves = λ reason r r' m h.
      AddsNoDecision-DecidesByRight user r r' (resolve_checks_adds env r r' reason user h);
  returns = λ reason r r' m h.
      AddsNoDecision-DecidesByRight user r r' (return_for_rework_checks_adds env r r' reason h);
  holds = λ reason r r' m h.
      AddsNoDecision-DecidesByRight user r r' (place_hold_checks_adds env r r' reason h);
  releases = λ reason r r' m h.
      AddsNoDecision-DecidesByRight user r r' (remove_hold_checks_adds env r r' reason h);
  reopens = λ reason r r' m h.
      AddsNoDecision-DecidesByRight user r r' (reopen_checks_adds env r r' reason h);
  overrides = λ policy reason r r' m h.
      AddsNoDecision-DecidesByRight user r r' (override_checks_adds env r r' policy reason h);
  closes_window = λ user_id r role p n.
      AddsNoDecision-DecidesByRight user r (window_closed env user user_id r)
        (window_closed_adds env user user_id r);
}

-- Where no identifier stands twice, a citizen's confirmation that a request leaves on a report was
-- there before, or the caller of the request is that citizen; and an organization's verification
-- was there before, or the caller is an operator of the organization that the report then had.
pub serve-DecidesByRight :
    (env : Env) (exists : ℕ → Bool) (user : JwtUser) (request : Request) (w : World)
    → HasDistinctKeys w.reports
    → Evolves (DecidesByRight user) w.reports (serve env exists user request w).reports
serve-DecidesByRight env exists user request w k =
    (serve-Evolves (DecidesByRight user) (DecidesByRight-allowed env user) exists request w k).0
