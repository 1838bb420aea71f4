-- ===== src/Report/Deadlines.antt =====
-- The processor of review deadlines: `completionDeadlineSkipReason` and
-- `processCompletionReviewDeadlines` (src/report/report.service.ts).
pub mod Laws
pub mod Closing
pub mod Listing
use fixzone_enterprise_api.Base.{
  ℕ, suc, ◌+◌, String, Bool, true, false, not, ◌&&◌, ◌||◌, Option, none, some, List, [], ◌∷◌, ◌++◌,
  ltb, is_some, is_text, get_or, length, trimmed, find, put, Table, if◌then◌else◌,
}
use fixzone_enterprise_api.Base.Result.{Result, ok, err, Error, forbidden, ◌>>=◌, ◌>>◌, throw_if}
use fixzone_enterprise_api.Report.Types.{
  ReportStatus, completed_by_provider, closed, CompletionPolicy, auto_close_after_review_window,
  UserRole, super_admin, compliance_admin, regulatory_admin, review_closed, same_status,
  same_policy,
}
use fixzone_enterprise_api.Report.Model.{Report, JwtUser, Env, get_user_id}
use fixzone_enterprise_api.Report.Effects.{World, Effect, perform_all, activity, audited}
use fixzone_enterprise_api.Report.Intake.{required_reason}
use fixzone_enterprise_api.Report.Completion.{is_disputed, is_in_rework}
use fixzone_enterprise_api.Report.Status.{notify_status_change}

-- Why a report is skipped; the last three are the reasons that the loop adds.
pub data SkipReason : Type 0 where
  already_closed already_processed by_governance_hold active_dispute active_rework : SkipReason
  missing_deadline not_yet_due not_awaiting_review : SkipReason

-- `completionDeadlineSkipReason`
unfoldable pub completion_deadline_skip_reason : Report → Option SkipReason
completion_deadline_skip_reason r =
    if same_status r.status closed
    then some already_closed
    else if is_some r.completion_review_processed_at
    then some already_processed
    else if is_text r.completion_governance_hold_reason
    then some by_governance_hold
    else if is_disputed r
    then some active_dispute
    else if is_in_rework r
    then some active_rework
    else none

-- The tests of one round of the loop.
unfoldable pub skip_reason : Env → Report → Option SkipReason
skip_reason env r = elim r.completion_review_deadline_at [
  | none ↦ some missing_deadline
  | some deadline ↦
      if ltb env.now deadline then some not_yet_due else elim (completion_deadline_skip_reason r) [
        | some reason ↦ some reason
        | none ↦
            if same_status r.status completed_by_provider then none else some not_awaiting_review
      ]
]

-- `counts`; `skipped` is the length of the list of that name.
pub record Counts : Type 0 where
  pub eligible : ℕ
  pub blocked_by_dispute : ℕ
  pub blocked_by_rework : ℕ
  pub blocked_by_hold : ℕ
  pub already_processed : ℕ
  pub already_closed : ℕ
  pub not_yet_due : ℕ
  pub invalid_incomplete : ℕ
  pub processed : ℕ

abbrev pub no_counts : Counts
no_counts = record {
  eligible = 0;
  blocked_by_dispute = 0;
  blocked_by_rework = 0;
  blocked_by_hold = 0;
  already_processed = 0;
  already_closed = 0;
  not_yet_due = 0;
  invalid_incomplete = 0;
  processed = 0;
}

unfoldable pub count_skip : SkipReason → Counts → Counts
count_skip SkipReason.already_closed c = record c { already_closed = c.already_closed + 1 }
count_skip SkipReason.already_processed c = record c { already_processed = c.already_processed + 1 }
count_skip by_governance_hold c = record c { blocked_by_hold = c.blocked_by_hold + 1 }
count_skip active_dispute c = record c { blocked_by_dispute = c.blocked_by_dispute + 1 }
count_skip active_rework c = record c { blocked_by_rework = c.blocked_by_rework + 1 }
count_skip missing_deadline c = record c { invalid_incomplete = c.invalid_incomplete + 1 }
count_skip SkipReason.not_yet_due c = record c { not_yet_due = c.not_yet_due + 1 }
count_skip not_awaiting_review c = record c { invalid_incomplete = c.invalid_incomplete + 1 }

-- The update of a report whose review window has passed.
unfoldable pub window_closed : Env → JwtUser → ℕ → Report → Report
window_closed env user user_id r = record r {
  status = closed;
  completion_review_state = some review_closed;
  completion_review_processed_at = some env.now;
  completion_fallback_rule = some "AUTO_CLOSE_AFTER_REVIEW_WINDOW_DEADLINE_EXPIRED";
  completion_final_actor_type = some "SYSTEM_REVIEW_WINDOW";
  completion_finalized_at = some env.now;
  completion_finalized_by_id = some user_id;
  completion_finalized_by_role = some user.role;
  completion_closure_reason =
      some
        "Review window expired; fallback closure authority applied without recording citizen or organization approval.";
}

close_effects : ℕ → JwtUser → Report → List Effect
close_effects id user r' =
    notify_status_change id r'.status r'
    ++ activity id user "COMPLETION_REVIEW_WINDOW_FALLBACK_CLOSED" r'.organization_id
        (completed_by_provider, closed)
        (r'.assigned_provider_id, r'.completion_closure_reason, none)
      ∷ audited "Completion Review Window Fallback Closed" user id (some r'.organization_id)
      ∷ []

-- What the loop carries: the tables, the counts, and the identifiers processed and skipped, the
-- last first.
pub record Run : Type 0 where
  pub world : World
  pub counts : Counts
  pub processed : List ℕ
  pub skipped : List (ℕ × SkipReason)

-- The end of a round for a report that is not skipped.
unfoldable pub close_one : Env → JwtUser → Bool → ℕ → Report → Run → Result Run
unfolding close_effects
close_one env user dry_run id r run =
    let counted = record run.counts { eligible = run.counts.eligible + 1 } in
    if dry_run
    then ok (record run { counts = counted; processed = id ∷ run.processed })
    else elim (get_user_id user) [
      | err e ↦ err e
      | ok user_id ↦
          let r' = window_closed env user user_id r in
          ok (record run {
            world =
                perform_all (close_effects id user r')
                  (record run.world { reports = put id r' run.world.reports });
            counts = record counted { processed = counted.processed + 1 };
            processed = id ∷ run.processed;
          })
    ]

-- One round of the loop.
unfoldable pub review_one : Env → JwtUser → Bool → ℕ → Report → Run → Result Run
review_one env user dry_run id r run = elim (skip_reason env r) [
  | some reason ↦
      ok
        (record run { counts = count_skip reason run.counts; skipped = (id, reason) ∷ run.skipped })
  | none ↦ close_one env user dry_run id r run
]

-- The loop; what it throws ends it, and the tables stay as they are then.
unfoldable pub review_each : Env → JwtUser → Bool → Table Report → Run → Result (Unit {0}) × Run
review_each env user dry_run [] run = (ok tt, run)
review_each env user dry_run ((id, r) ∷ rows) run = elim (review_one env user dry_run id r run) [
  | err e ↦ (err e, run)
  | ok next ↦ review_each env user dry_run rows next
]

abbrev pub is_processor : UserRole → Bool
is_processor super_admin = true
is_processor compliance_admin = true
is_processor regulatory_admin = true
is_processor _ = false

abbrev pub start : World → Run
start w = record { world = w; counts = no_counts; processed = []; skipped = [] }

-- The checks of `processCompletionReviewDeadlines` before its query.
unfoldable pub processor_checks : JwtUser → Bool → Option String → Result (Unit {0})
processor_checks user dry_run reason = do
  throw_if (not (is_processor user.role)) (forbidden "Platform completion processing required")
  if dry_run then ok tt else (required_reason reason "Reason is required" >>= λ why. ok tt)

-- The `where` of its query.
abbrev pub awaits_window : Report → Bool
awaits_window r = elim r.completion_policy [
  | none ↦ false
  | some policy ↦ same_policy policy auto_close_after_review_window
]

-- The rows that its query answers: of those that are `picked`, in that order, the reports with the
-- policy that closes after the review window.
unfoldable pub selected_rows : Table Report → List ℕ → Table Report
selected_rows t [] = []
selected_rows t (id ∷ picked) =
    let rest = selected_rows t picked in
    elim (find id t) [ none ↦ rest | some r ↦ if awaits_window r then (id, r) ∷ rest else rest ]

-- `processCompletionReviewDeadlines`; `picked` is the order of the query and its limit: the earliest
-- deadline first, then the lowest identifier.
unfoldable pub process_completion_review_deadlines :
    Env → List ℕ → Bool → Option String → JwtUser → World → Result Run × World
unfolding processor_checks selected_rows
process_completion_review_deadlines env picked dry_run reason user w =
    elim (processor_checks user dry_run reason) [
      | err e ↦ (err e, w)
      | ok _ ↦
          let (outcome, run) =
            review_each env user dry_run (selected_rows w.reports picked) (start w) in
          elim outcome [
            | err e ↦ (err e, run.world)
            | ok _ ↦ (
              ok run,
              perform_all (audited "Completion Review Deadline Processor Executed" user 0 none ∷ [])
                  run.world,
            )
          ]
    ]
