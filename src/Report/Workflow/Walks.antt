-- ===== src/Report/Workflow/Walks.antt =====
-- What the transition table of src/report/report-workflow.ts promises about a report's history.
use text.Mathlib.TextEquality.{eq_iff}
use fixzone_enterprise_api.Base.{
  ◌≡◌, refl, ◌≢◌, ◌⊎◌, Bool, true, false, ◌&&◌, String, none, some, List, [], ◌∷◌, arith,
}
use fixzone_enterprise_api.Report.Types.{
  ReportStatus, triage, org_review, pending, assigned, in_progress, completed_by_provider, closed,
}
use fixzone_enterprise_api.Report.Workflow.{
  can_transition, status_name, statuses, status_named, normalize_report_status,
  can_transition_report_status,
}

-- Each status of the history follows from the one before it by the table.
unfoldable pub walks : ReportStatus → List ReportStatus → Bool
walks s [] = true
walks s (t ∷ ts) = can_transition s t && walks t ts

-- Where a history ends.
unfoldable pub final : ReportStatus → List ReportStatus → ReportStatus
final s [] = s
final s (t ∷ ts) = final t ts

abbrev pub Visits : ReportStatus → List ReportStatus → Type 0
Visits a [] = ⊥
Visits a (t ∷ ts) = (a ≡ t) ⊎ Visits a ts

-- A history that follows the table from a status other than completed and closed, and ends closed,
-- has the status of completion by the provider in it.
pub walks-Visits_completion :
    (s : ReportStatus) (history : List ReportStatus)
    → s ≢ completed_by_provider
    → s ≢ closed
    → walks s history ≡ true
    → final s history ≡ closed
    → Visits completed_by_provider history
unfolding walks final can_transition
walks-Visits_completion s [] n m w f = absurd (m f)
walks-Visits_completion triage (t ∷ ts) n m w f = ground (arith, walks-Visits_completion t ts)
walks-Visits_completion org_review (t ∷ ts) n m w f = ground (arith, walks-Visits_completion t ts)
walks-Visits_completion pending (t ∷ ts) n m w f = ground (arith, walks-Visits_completion t ts)
walks-Visits_completion assigned (t ∷ ts) n m w f = ground (arith, walks-Visits_completion t ts)
walks-Visits_completion in_progress (t ∷ ts) n m w f = ground arith
walks-Visits_completion completed_by_provider (t ∷ ts) n m w f = absurd (n refl)
walks-Visits_completion closed (t ∷ ts) n m w f = absurd (m refl)

-- The table leads from every status to closure, and out of closure nowhere.
pub walks_to_closed :
    (s : ReportStatus)
    → ((history : List ReportStatus) × (walks s history ≡ true) × (final s history ≡ closed))
      × ((t : ReportStatus) → can_transition closed t ≡ false)
unfolding walks final can_transition
walks_to_closed s = (path s, λ t. refl)
  where
    path :
        (s : ReportStatus)
        → (history : List ReportStatus) × (walks s history ≡ true) × (final s history ≡ closed)
    path triage = (
      org_review ∷ pending ∷ assigned ∷ in_progress ∷ completed_by_provider ∷ closed ∷ [],
      refl,
      refl,
    )
    path org_review =
        (pending ∷ assigned ∷ in_progress ∷ completed_by_provider ∷ closed ∷ [], refl, refl)
    path pending = (assigned ∷ in_progress ∷ completed_by_provider ∷ closed ∷ [], refl, refl)
    path assigned = (in_progress ∷ completed_by_provider ∷ closed ∷ [], refl, refl)
    path in_progress = (completed_by_provider ∷ closed ∷ [], refl, refl)
    path completed_by_provider = (closed ∷ [], refl, refl)
    path closed = ([], refl, refl)

-- Where upper-casing keeps the seven names, each name is read back as its status.
normalize-status_name :
    (upper : String → String)
    → ((s : ReportStatus) → upper (status_name s) ≡ status_name s)
    → (s : ReportStatus) → normalize_report_status upper (status_name s) ≡ some s
unfolding normalize_report_status
normalize-status_name upper h triage = rw (h triage)
normalize-status_name upper h org_review = rw (h org_review)
normalize-status_name upper h pending = rw (h pending)
normalize-status_name upper h assigned = rw (h assigned)
normalize-status_name upper h in_progress = rw (h in_progress)
normalize-status_name upper h completed_by_provider = rw (h completed_by_provider)
normalize-status_name upper h closed = rw (h closed)

status_named-none :
    (text : String) (ss : List ReportStatus)
    → ((s : ReportStatus) → status_name s ≢ text)
    → status_named text ss ≡ none
unfolding status_named
status_named-none text [] n = refl
status_named-none text (s ∷ ss) n =
    ground (arith, eq_iff (status_name s) text, n s, status_named-none text ss n)

normalize_none :
    (upper : String → String) (text : String)
    → ((s : ReportStatus) → status_name s ≢ upper text)
    → normalize_report_status upper text ≡ none
unfolding normalize_report_status
normalize_none upper text n = status_named-none (upper text) statuses n

-- If upper-casing keeps the seven names, then the test on two names is the test on their statuses;
-- a text whose upper case is none of the names has no transition to or from any text.
pub can_transition_report_status_lem :
    (upper : String → String)
    → ((s : ReportStatus) → upper (status_name s) ≡ status_name s)
    → ((s t : ReportStatus)
        → can_transition_report_status upper (status_name s) (status_name t) ≡ can_transition s t)
      × ((text other : String)
          → ((s : ReportStatus) → status_name s ≢ upper text)
          → (can_transition_report_status upper text other ≡ false)
            × (can_transition_report_status upper other text ≡ false))
unfolding can_transition_report_status
can_transition_report_status_lem upper h = (
  λ s t. ground (arith, normalize-status_name upper h s, normalize-status_name upper h t),
  λ text other n. ground (arith, normalize_none upper text n),
)
