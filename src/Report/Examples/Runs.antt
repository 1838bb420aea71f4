-- ===== src/Report/Examples/Runs.antt =====
-- The theorems on the deadline processor, the transition table and evidence paths, applied.
use fixzone_enterprise_api.Base.{
  any, length, ◌==◌, put, ◌≡◌, refl, ◌↔◌, true, false, none, some, [], ◌∷◌, arith, find, trim,
  trimmed,
}
use fixzone_enterprise_api.Base.Result.{ok}
use fixzone_enterprise_api.Report.Types.{
  in_progress, completed_by_provider, closed, auto_close_after_review_window,
}
use fixzone_enterprise_api.Report.Workflow.{can_transition}
use fixzone_enterprise_api.Report.Workflow.Walks.{walks, final, Visits, walks-Visits_completion}
use fixzone_enterprise_api.Report.EvidencePath.{
  split_slash, is_evidence_folder, all_path_chars, extract_local_upload_path,
}
use fixzone_enterprise_api.Report.EvidencePath.Laws.{
  follow, descend, extract_local_upload_path_safe,
}
use fixzone_enterprise_api.Report.Intake.{required_reason}
use fixzone_enterprise_api.Report.Model.{Report, get_user_id}
use fixzone_enterprise_api.Report.Status.{notify_status_change}
use fixzone_enterprise_api.Report.Deadlines.{
  start, selected_rows, Run, processor_checks, process_completion_review_deadlines, window_closed,
  skip_reason, review_each, review_one, close_one, completion_deadline_skip_reason,
}
use fixzone_enterprise_api.Report.Deadlines.Laws.{IsDue}
use fixzone_enterprise_api.Report.Effects.{World, perform_all}
use fixzone_enterprise_api.Report.Deadlines.Listing.{process_completion_review_deadlines_lists}
use fixzone_enterprise_api.Report.Deadlines.Closing.{
  IsCandidate, Settles, process_completion_review_deadlines_lem,
}
use fixzone_enterprise_api.Report.Examples.{platform, town, fixed, tables}

platform_id : get_user_id platform ≡ ok 4
unfolding get_user_id
platform_id = refl

may_process : processor_checks platform false (some "Monthly") ≡ ok tt
unfolding processor_checks required_reason trimmed trim
may_process = refl

abbrev fallback : Report
fallback = record fixed { completion_policy = some auto_close_after_review_window }

abbrev with_fallback : World
with_fallback = record tables { reports = put 10 fallback tables.reports }

fallback_stored : find 10 with_fallback.reports ≡ some fallback
unfolding find put
fallback_stored = refl

process_completion_review_deadlines_lem_example :
    let (answer, w') =
      process_completion_review_deadlines town
        (10 ∷ [])
        false
        (some "Monthly")
        platform
        with_fallback in
    ((run : Run) × (answer ≡ ok run))
    × (r' : Report) × (find 10 w'.reports ≡ some r')
    × Settles town 4 (10 ∷ []) 10 fallback r'
process_completion_review_deadlines_lem_example =
    process_completion_review_deadlines_lem town (10 ∷ []) (some "Monthly") platform with_fallback 4
      10 fallback platform_id may_process fallback_stored

abbrev dry : Run
dry =
    (review_each town platform true (selected_rows with_fallback.reports (10 ∷ []))
      (start with_fallback)).1

dry_answer :
    (process_completion_review_deadlines town (10 ∷ []) true none platform with_fallback).0 ≡ ok dry
unfolding process_completion_review_deadlines processor_checks review_each review_one close_one
    skip_reason completion_deadline_skip_reason selected_rows find put
dry_answer = refl

process_completion_review_deadlines_lists_example :
    ((any (λ j. j == 10) dry.processed ≡ true) ↔ (
      (r : Report) × (find 10 with_fallback.reports ≡ some r)
      × IsCandidate (10 ∷ []) 10 r
      × IsDue town r))
    × (dry.counts.eligible ≡ length dry.processed)
process_completion_review_deadlines_lists_example =
    process_completion_review_deadlines_lists town (10 ∷ []) true none platform with_fallback dry 10
      dry_answer

-- The report of the witness is due, and is closed.
fallback_closed :
    find 10
      (process_completion_review_deadlines town
        (10 ∷ [])
        false
        (some "Monthly")
        platform
        with_fallback).1.reports
    ≡ some (window_closed town platform 4 fallback)
unfolding find put process_completion_review_deadlines processor_checks required_reason trimmed trim
    selected_rows review_each review_one close_one skip_reason completion_deadline_skip_reason
    perform_all get_user_id notify_status_change window_closed
fallback_closed = refl

walked : walks in_progress (completed_by_provider ∷ closed ∷ []) ≡ true
unfolding walks can_transition
walked = refl

ended : final in_progress (completed_by_provider ∷ closed ∷ []) ≡ closed
unfolding final
ended = refl

walks-Visits_completion_example : Visits completed_by_provider (completed_by_provider ∷ closed ∷ [])
walks-Visits_completion_example =
    walks-Visits_completion in_progress (completed_by_provider ∷ closed ∷ []) (ground arith)
      (ground arith) walked ended

evidence : extract_local_upload_path (λ _. none) (some "/uploads/demo/a.png") ≡ some "demo/a.png"
unfolding extract_local_upload_path trimmed trim
evidence = refl

extract_local_upload_path_safe_example :
    (is_evidence_folder "demo/a.png" ≡ true)
    × (all_path_chars "demo/a.png" ≡ true)
    × (follow [] (split_slash "demo/a.png") ≡ descend [] (split_slash "demo/a.png"))
extract_local_upload_path_safe_example =
    extract_local_upload_path_safe (λ _. none) (some "/uploads/demo/a.png") "demo/a.png" [] evidence
