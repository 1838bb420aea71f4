-- ===== src/Report/Service/Serve.antt =====
-- Every request keeps what the writes of its checks keep; a reassignment, which writes twice, keeps
-- what its two writes together do.
use mathlib.Core.Path.{subst}
use fixzone_enterprise_api.Base.{
  ℕ, String, ◌≡◌, sym, ◌∙◌, ◌⊎◌, inl, inr, Bool, true, Bool-cases, Option, some, Table, get_or,
  trimmed, HasDistinctKeys, is_id,
}
use fixzone_enterprise_api.Base.Result.{ok, Result-cases}
use fixzone_enterprise_api.Report.Model.{Report, JwtUser, Env}
use fixzone_enterprise_api.Report.Effects.{World, Action, and_then, lift, write}
use fixzone_enterprise_api.Report.Effects.Laws.{Evolves, perform_all-reports}
use fixzone_enterprise_api.Report.Effects.Keeps.{
  Keeps, IsQuiet, lift-IsQuiet, Keeps-quiet, and_then-Keeps_quiet, and_then_ok, and_then_err,
  find_report-Keeps,
}
use fixzone_enterprise_api.Report.Assignment.{
  reassign_provider, cancel_running, report_reassigned, no_options, may_dispatch, cancel_checks,
  assign_checks,
}
use fixzone_enterprise_api.Report.Service.{Request, serve}
use fixzone_enterprise_api.Report.Service.Allows.{Allows}
use fixzone_enterprise_api.Report.Service.Dispatch
use fixzone_enterprise_api.Report.Service.Reviews
use fixzone_enterprise_api.Report.Service.Windows.{process_completion_review_deadlines-Keeps}

-- A step that keeps `Q`, then one that keeps `R`, where `P` holds of either alone and of both.
module _ (P Q R : Report → Report → Type 0) (q : (r s : Report) → Q r s → P r s)
    (p : (s t : Report) → R s t → P s t) (qp : (r s t : Report) → Q r s → R s t → P r t) where
  either : (t t' : Table Report) → Evolves Q t t' → Evolves P t t'
  either t t' e id r h =
      let (r', f, x) = e id r h in (r', f, elim x [ inl s ↦ inl s | inr y ↦ inr (q r r' y) ])

  join : (r s t : Report) → (s ≡ r) ⊎ Q r s → (t ≡ s) ⊎ R s t → (t ≡ r) ⊎ P r t
  join r s t (inl e) (inl f) = inl (f ∙ e)
  join r s t (inl e) (inr y) = inr (subst (λ x. P x t) e (p s t y))
  join r s t (inr x) (inl f) = inr (subst (λ y. P r y) (sym f) (q r s x))
  join r s t (inr x) (inr y) = inr (qp r s t x y)

  and_then-Keeps_both :
      {A B : Type 0} (m : Action A) (f : A → Action B)
      → Keeps Q m
      → ((a : A) → Keeps R (f a))
      → Keeps P (and_then m f)
  and_then-Keeps_both m f km kf w k = elim (Result-cases (m w).0) [
    | inl (a, h) ↦
        let (e, k') = km w k in
        let (e', k'') = kf a (m w).1 k' in
        rw (and_then_ok m f w a h) (
          λ id r i. let (s, j, x) = e id r i in let (t, l, y) = e' id s j in (t, l, join r s t x y),
          k'',
        )
    | inr (e, h) ↦
        rw (and_then_err m f w e h)
          (let (e', k') = km w k in (either w.reports (m w).1.reports e', k'))
  ]

-- The two writes of a reassignment.
abbrev Cancels : Env → JwtUser → Option String → Report → Report → Type 0
Cancels env user reason r s =
    (may_dispatch user ≡ true) × (cancel_checks env reason user r ≡ ok (write s))

abbrev Assigns : Env → JwtUser → ℕ → Report → Report → Type 0
Assigns env user provider_id s t =
    (may_dispatch user ≡ true) × (assign_checks env provider_id user no_options s ≡ ok (write t))

module _ (P : Report → Report → Type 0) where
  module _ {env : Env} {user : JwtUser} (allows : Allows P env user) (id : ℕ) where
    cancel_running-Keeps :
        (reason : Option String) (r : Report)
        → Keeps
            (Cancels env user (some (get_or (trimmed reason) "Reassigned by administrator")))
            (cancel_running env id reason user r)
    unfolding cancel_running
    cancel_running-Keeps reason r =
        let why = some (get_or (trimmed reason) "Reassigned by administrator") in
        elim (Bool-cases (is_id r.assigned_provider_id)) [
          | inl e ↦
              rw e (
                Dispatch.cancelled-Keeps (Cancels env user why) env user id why (λ s t m h. (m, h)))
          | inr e ↦ rw e (Keeps-quiet (Cancels env user why) (lift (ok r)) (lift-IsQuiet _))
        ]

    report_reassigned-IsQuiet :
        (provider_id : ℕ) (reason : Option String) (previous : Option ℕ) (r' : Report)
        → IsQuiet (report_reassigned id provider_id reason user previous r')
    unfolding report_reassigned
    report_reassigned-IsQuiet provider_id reason previous r' w = perform_all-reports _ w

    reassign_provider-Keeps :
        (provider_id : ℕ) (reason : Option String)
        → Keeps P (reassign_provider env id provider_id reason user)
    unfolding reassign_provider
    reassign_provider-Keeps provider_id reason = find_report-Keeps P id _ (λ r.
        and_then-Keeps_both P (Cancels env user _) (Assigns env user provider_id)
          (λ r s x. allows.cancels _ r s x.0 x.1)
          (λ s t y. allows.assigns provider_id no_options s t y.0 y.1)
          (λ r s t x y. allows.reassigns _ provider_id no_options r s t x.0 x.1 y.1) _ _
          (cancel_running-Keeps reason r)
          (λ _.
            and_then-Keeps_quiet (Assigns env user provider_id) _ _
              (Dispatch.assigned-Keeps (Assigns env user provider_id) env user id provider_id
                no_options (λ s t m h. (m, h)))
              (report_reassigned-IsQuiet provider_id reason r.assigned_provider_id)))

  -- Each request takes each report by a change that the relation allows, or leaves it.
  pub serve-Evolves :
      {env : Env} {user : JwtUser} (allows : Allows P env user) (exists : ℕ → Bool)
      (request : Request) (w : World)
      → HasDistinctKeys w.reports
      → Evolves P w.reports (serve env exists user request w).reports
        × HasDistinctKeys (serve env exists user request w).reports
  unfolding serve
  serve-Evolves allows exists (Request.cancel id reason) w k =
      Dispatch.cancel_assignment-Keeps allows id reason w k
  serve-Evolves allows exists (Request.assign id provider options) w k =
      Dispatch.assign_provider_by_id-Keeps allows id provider options w k
  serve-Evolves allows exists (Request.reassign id provider reason) w k =
      reassign_provider-Keeps allows id provider reason w k
  serve-Evolves allows exists (Request.refuse id reason) w k =
      Dispatch.reject_assignment-Keeps allows id reason w k
  serve-Evolves allows exists Request.sweep w k =
      Dispatch.process_overdue_assignments-Keeps allows w k
  serve-Evolves allows exists (Request.accept id remark resolution) w k =
      Dispatch.accept_organization_report-Keeps allows id remark resolution w k
  serve-Evolves allows exists (Request.turn_down id reason suggested resolution) w k =
      Dispatch.reject_organization_report-Keeps allows id exists reason suggested resolution w k
  serve-Evolves allows exists (Request.update id sources hours dto) w k =
      Dispatch.update_status-Keeps allows id sources hours dto w k
  serve-Evolves allows exists (Request.confirm id rating feedback) w k =
      Reviews.confirm_citizen_completion-Keeps allows id rating feedback w k
  serve-Evolves allows exists (Request.ask_rework id reason) w k =
      Reviews.reject_citizen_completion-Keeps allows id reason w k
  serve-Evolves allows exists (Request.verify id reason) w k =
      Reviews.verify_organization_completion-Keeps allows id reason w k
  serve-Evolves allows exists (Request.order_rework id reason) w k =
      Reviews.request_organization_completion_rework-Keeps allows id reason w k
  serve-Evolves allows exists (Request.resolve id reason) w k =
      Reviews.admin_resolve_and_close-Keeps allows id reason w k
  serve-Evolves allows exists (Request.return_for_rework id reason) w k =
      Reviews.admin_return_for_completion_rework-Keeps allows id reason w k
  serve-Evolves allows exists (Request.place_hold id reason) w k =
      Reviews.admin_place_completion_hold-Keeps allows id reason w k
  serve-Evolves allows exists (Request.remove_hold id reason) w k =
      Reviews.admin_remove_completion_hold-Keeps allows id reason w k
  serve-Evolves allows exists (Request.reopen id reason) w k =
      Reviews.admin_reopen_completion-Keeps allows id reason w k
  serve-Evolves allows exists (Request.override_policy id policy reason) w k =
      Reviews.admin_override_completion_policy-Keeps allows id reason policy w k
  serve-Evolves allows exists (Request.close_windows picked dry_run reason) w k =
      process_completion_review_deadlines-Keeps allows picked dry_run reason w k
