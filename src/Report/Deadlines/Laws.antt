-- ===== src/Report/Deadlines/Laws.antt =====
-- What a run of the deadline processor does.
use fixzone_enterprise_api.Base.{
  ℕ, ◌≤◌, ◌≡◌, ◌↔◌, ◌≢◌, inl, inr, false, none, some, Option-cases, arith, is_text,
}
use fixzone_enterprise_api.Report.Types.{completed_by_provider, closed}
use fixzone_enterprise_api.Report.Model.{Report, Env}
use fixzone_enterprise_api.Report.Completion.{is_disputed, is_in_rework}
use fixzone_enterprise_api.Report.Deadlines.{skip_reason, completion_deadline_skip_reason}

-- The review window of a completed report has passed, and nothing stands in the way of its closure.
abbrev pub IsDue : Env → Report → Type 0
IsDue env r =
    (r.status ≡ completed_by_provider)
    × ((deadline : ℕ) × (r.completion_review_deadline_at ≡ some deadline) × (deadline ≤ env.now))
    × (r.completion_review_processed_at ≡ none)
    × (is_text r.completion_governance_hold_reason ≡ false)
    × (is_disputed r ≡ false)
    × (is_in_rework r ≡ false)

-- What the reasons of `completionDeadlineSkipReason` leave.
abbrev IsFree : Report → Type 0
IsFree r =
    (r.status ≢ closed)
    × (r.completion_review_processed_at ≡ none)
    × (is_text r.completion_governance_hold_reason ≡ false)
    × (is_disputed r ≡ false)
    × (is_in_rework r ≡ false)

skipped-IsFree : (r : Report) → completion_deadline_skip_reason r ≡ none → IsFree r
unfolding completion_deadline_skip_reason
skipped-IsFree r h = (ground arith, ground arith, ground arith, ground arith, ground arith)

IsFree-skipped : (r : Report) → IsFree r → completion_deadline_skip_reason r ≡ none
unfolding completion_deadline_skip_reason
IsFree-skipped r (s, p, h, d, w) = ground arith

open_report : (r : Report) → r.status ≡ completed_by_provider → r.status ≢ closed
open_report r s c = ground arith

skip_reason_passes :
    (env : Env) (r : Report) (deadline : ℕ)
    → r.completion_review_deadline_at ≡ some deadline
    → deadline ≤ env.now
    → r.status ≡ completed_by_provider
    → completion_deadline_skip_reason r ≡ none
    → skip_reason env r ≡ none
unfolding skip_reason
skip_reason_passes env r deadline e d s h = ground arith

skip_reason_passed :
    (env : Env) (r : Report)
    → skip_reason env r ≡ none
    → (r.status ≡ completed_by_provider)
      × ((deadline : ℕ) × (r.completion_review_deadline_at ≡ some deadline) × (deadline ≤ env.now))
      × (completion_deadline_skip_reason r ≡ none)
unfolding skip_reason
skip_reason_passed env r h = elim (Option-cases r.completion_review_deadline_at) [
  | inl e ↦ absurd (ground arith)
  | inr (deadline, e) ↦ (ground arith, (deadline, e, ground arith), ground arith)
]

pub skip_reason_iff_IsDue : (env : Env) (r : Report) → (skip_reason env r ≡ none) ↔ IsDue env r
skip_reason_iff_IsDue env r = (passed, passes)
  where
    passed : skip_reason env r ≡ none → IsDue env r
    passed h =
        let (s, d, f) = skip_reason_passed env r h in
        let (_, p, g, q, k) = skipped-IsFree r f in (s, d, p, g, q, k)

    passes : IsDue env r → skip_reason env r ≡ none
    passes (s, (deadline, e, d), p, g, q, k) =
        skip_reason_passes env r deadline e d s (IsFree-skipped r (open_report r s, p, g, q, k))
