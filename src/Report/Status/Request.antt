-- ===== src/Report/Status/Request.antt =====
-- What `updateStatus` is asked, and the data of a completion (src/report/report.service.ts).
use fixzone_enterprise_api.Base.{
  ℕ, ◌+◌, ◌*◌, String, Bool, ◌&&◌, Option, none, some, is_some, get_or, trimmed, if◌then◌else◌,
}
use fixzone_enterprise_api.Report.Types.{
  ReportStatus, completed_by_provider, CompletionPolicy, citizen_confirmation_required,
  both_required, auto_close_after_review_window, undecided, same_policy,
}
use fixzone_enterprise_api.Report.Policy.{review_state_for}
use fixzone_enterprise_api.Report.Model.{Report, Env}

-- `UpdateReportStatusDto`
pub record StatusRequest : Type 0 where
  pub status : ReportStatus
  pub completion_note : Option String
  pub completion_image_url : Option String
  pub completion_image_path : Option String
  pub completion_latitude : Option ℕ
  pub completion_longitude : Option ℕ
  pub completion_accuracy : Option ℕ
  pub completion_location_captured_at : Option ℕ
  pub completion_location_source : Option String

-- Where a report's policy can come from, each as `normalizeCompletionPolicy` reads it: the maps by
-- category of the organization and of the platform, the organization's profile; and whether the
-- category asks for both decisions by default.
pub record PolicySources : Type 0 where
  pub organization_category : Option CompletionPolicy
  pub platform_category : Option CompletionPolicy
  pub organization_profile : Option CompletionPolicy
  pub dual_by_default : Bool

-- `resolveCompletionPolicy`: the policy and the name of its source.
unfoldable pub resolve_completion_policy : Env → PolicySources → Report → CompletionPolicy × String
resolve_completion_policy env sources r = elim r.completion_policy [
  | some p ↦ (p, "REPORT_OVERRIDE")
  | none ↦ elim sources.organization_category [
    | some p ↦ (p, "ORGANIZATION_SERVICE_CATEGORY")
    | none ↦ elim sources.platform_category [
      | some p ↦ (p, "PLATFORM_SERVICE_CATEGORY")
      | none ↦ elim sources.organization_profile [
        | some p ↦ (p, "ORGANIZATION_PROFILE")
        | none ↦ elim env.platform_policy [
          | some p ↦ (p, "PLATFORM_ENV")
          | none ↦
              if sources.dual_by_default
              then (both_required, "BUILT_IN_OPERATIONAL_CATEGORY_DEFAULT")
              else (citizen_confirmation_required, "PLATFORM_DEFAULT")
        ]
      ]
    ]
  ]
]

-- `reviewDeadlineFor`, with the hours of `FIXZONE_COMPLETION_REVIEW_WINDOW_HOURS` or 72. The source
-- adds the hours on the local clock, which agrees where no change of offset lies between.
abbrev pub review_deadline_for : Env → ℕ → CompletionPolicy → Option ℕ
review_deadline_for env hours policy =
    if same_policy policy auto_close_after_review_window
    then some (env.now + hours * 60 * 60 * 1000)
    else none

-- `completionLocationSourceFor`
completion_location_source_for : StatusRequest → String
completion_location_source_for dto =
    if is_some dto.completion_latitude && is_some dto.completion_longitude
    then "DEVICE_GPS"
    else "UNKNOWN"

-- The data of `updateStatus` for a completion: the evidence, the policy, and a review that starts
-- with no decision.
unfoldable pub completed_report :
    Env
    → ℕ
    → StatusRequest
    → CompletionPolicy × String
    → Option String × Option String
    → Report
    → Report
unfolding completion_location_source_for
completed_report env hours dto (policy, source) (image_url, image_path) r = record r {
  status = completed_by_provider;
  completion_note = trimmed dto.completion_note;
  completion_image_url = image_url;
  completion_image_path = image_path;
  completion_latitude = dto.completion_latitude;
  completion_longitude = dto.completion_longitude;
  completion_accuracy = dto.completion_accuracy;
  completion_location_captured_at = dto.completion_location_captured_at;
  completion_location_source =
      some (get_or dto.completion_location_source (completion_location_source_for dto));
  completed_by_provider_at = some env.now;
  completion_policy = some policy;
  completion_policy_source = some source;
  completion_review_state = some (review_state_for policy none none);
  completion_review_deadline_at = review_deadline_for env hours policy;
  completion_review_processed_at = none;
  completion_fallback_rule = none;
  completion_final_actor_type = none;
  citizen_completion_decision = some undecided;
  citizen_completion_decided_at = none;
  organization_completion_decision = some undecided;
  organization_completion_decided_at = none;
  organization_completion_decided_by_id = none;
  organization_completion_reason = none;
  completion_finalized_at = none;
  completion_finalized_by_id = none;
  completion_finalized_by_role = none;
  completion_closure_reason = none;
  completion_dispute_reason = none;
  completion_rejection_reason = none;
}
