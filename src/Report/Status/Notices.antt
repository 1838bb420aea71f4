-- ===== src/Report/Status/Notices.antt =====
-- Who hears of a change of status: `notifyStatusChange`, `notifyCompletionReviewers` and
-- `activityActionForStatus` (src/report/report.service.ts).
use fixzone_enterprise_api.Base.{
  ℕ, String, Bool, true, false, List, [], ◌∷◌, ◌++◌, get_or, if◌then◌else◌,
}
use fixzone_enterprise_api.Report.Types.{
  ReportStatus, assigned, in_progress, completed_by_provider, closed, CompletionPolicy,
  citizen_confirmation_required, organization_confirmation_required, admin_resolution_required,
  same_policy,
}
use fixzone_enterprise_api.Report.Model.{Report, Env}
use fixzone_enterprise_api.Report.Effects.{
  Effect, notify_organization_operators, notify_platform_resolvers, notification, mention,
}

-- `notifyStatusChange`
unfoldable pub notify_status_change : ℕ → ReportStatus → Report → List Effect
notify_status_change id assigned r =
    notification r.citizen_id id "assigned" "Report assigned"
      (mention "Your report " r.title " has been assigned to a provider.")
    ∷ []
notify_status_change id in_progress r =
    notification r.citizen_id id "status_update" "Work started"
      (mention "A provider has started work on " r.title ".")
    ∷ []
notify_status_change id completed_by_provider r =
    notification r.citizen_id id "completion_review" "Ready for review"
      (mention "The provider marked " r.title " complete. Please review it.")
    ∷ []
notify_status_change id closed r =
    notification r.citizen_id id "resolved" "Report closed"
      (mention "Your report " r.title " has been closed.")
    ∷ []
notify_status_change id _ r = []

abbrev citizen_required : CompletionPolicy → Bool
citizen_required organization_confirmation_required = false
citizen_required admin_resolution_required = false
citizen_required _ = true

abbrev organization_required : CompletionPolicy → Bool
organization_required citizen_confirmation_required = false
organization_required admin_resolution_required = false
organization_required _ = true

-- `notifyCompletionReviewers`
unfoldable pub notify_completion_reviewers : Env → ℕ → Report → List Effect
notify_completion_reviewers env id r =
    let policy = get_or r.completion_policy citizen_confirmation_required in
    (if citizen_required policy
      then notification r.citizen_id id "completion_review" "Ready for review"
          (mention "The provider marked " r.title " complete. Please review it.")
        ∷ []
      else [])
    ++ ((if organization_required policy
          then notify_organization_operators env r.organization_id id
              "organization_completion_review" "Completion verification required"
              (mention "Provider submitted completion evidence for " r.title ".")
          else [])
        ++ (if same_policy policy admin_resolution_required
            then notify_platform_resolvers env id "admin_completion_resolution_required"
                "Completion resolution required"
                (mention "Completion for " r.title " requires platform resolution.")
            else []))

-- `activityActionForStatus`
abbrev pub activity_action_for_status : ReportStatus → String
activity_action_for_status assigned = "PROVIDER_ASSIGNED"
activity_action_for_status in_progress = "PROVIDER_STARTED_WORK"
activity_action_for_status completed_by_provider = "PROVIDER_SUBMITTED_COMPLETION"
activity_action_for_status closed = "REPORT_CLOSED"
activity_action_for_status _ = "REPORT_STATUS_CHANGED"
