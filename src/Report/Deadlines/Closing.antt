-- ===== src/Report/Deadlines/Closing.antt =====
-- Which reports a run of the deadline processor closes.
use fixzone_enterprise_api.Base.{
  true, ◌↔◌, ◌&&◌, ◌==◌, ==_iff, any, List, Bool-cases, find-put_of_ne, ℕ, ◌≡◌, refl, ap, ◌∙◌, inl,
  inr, String, Bool, false, not, Option, none, some, Option-cases, [], ◌∷◌, arith, is_some, find,
  put, Table, find_many, put_each, ◌≢◌, if◌then◌else◌,
}
use fixzone_enterprise_api.Base.Result.{ok}
use fixzone_enterprise_api.Report.Model.{Report, JwtUser, Env, get_user_id}
use fixzone_enterprise_api.Report.Types.{closed, review_closed, auto_close_after_review_window}
use fixzone_enterprise_api.Report.Deadlines.Laws.{IsDue, skip_reason_iff_IsDue}
use fixzone_enterprise_api.Report.Effects.{World}
use fixzone_enterprise_api.Report.Effects.Laws.{perform_all-reports}
use fixzone_enterprise_api.Report.Deadlines.{
  selected_rows, awaits_window, skip_reason, window_closed, Run, close_one, review_one, review_each,
  start, processor_checks, process_completion_review_deadlines,
}

-- The rounds of the loop that close a report.
abbrev pub is_due : Env → Report → Bool
is_due env r = not (is_some (skip_reason env r))

module _ (env : Env) (user : JwtUser) (user_id : ℕ) (u : get_user_id user ≡ ok user_id) where
  round :
      (id : ℕ) (r : Report) (run : Run)
      → (next : Run) × (review_one env user false id r run ≡ ok next)
        × (next.world.reports ≡ (
            if is_due env r
            then put id (window_closed env user user_id r) run.world.reports
            else run.world.reports))
  unfolding review_one close_one
  round id r run = elim (Option-cases (skip_reason env r)) [
    | inl e ↦ rw (e, review_one) (rw (u, close_one) (_, refl, perform_all-reports _ _))
    | inr (reason, e) ↦ rw (e, review_one) (_, refl, refl)
  ]

  rounds :
      (rows : Table Report) (run : Run)
      → ((review_each env user false rows run).0 ≡ ok tt)
        × ((review_each env user false rows run).1.world.reports
            ≡ put_each
                (window_closed env user user_id)
                (find_many (is_due env) rows)
                run.world.reports)
  unfolding review_each put_each find_many
  rounds [] run = (refl, refl)
  rounds ((id, r) ∷ rows) run =
      let (next, e, same) = round id r run in ground (arith, rounds rows next)

module _ (env : Env) (f : Report → Report) (t₀ : Table Report) where
  some_row : (i : ℕ) (a : Report) → find i t₀ ≡ some a → find i t₀ ≢ none
  some_row i a e n = ground arith

  within_put :
      (i : ℕ) (a : Report) (t : Table Report)
      → ((j : ℕ) → find j t₀ ≢ none → find j t ≢ none)
      → find i t₀ ≡ some a
      → (j : ℕ) → find j t₀ ≢ none
      → find j (put i (f a) t) ≢ none
  within_put i a t within e j n =
      let there = within j n in
      ground (arith, find-put_of_ne i j (f a) t (within i (some_row i a e)))

  -- Updating the selected rows that are due, where each stands in the table as it was selected from.
  put_due :
      (picked : List ℕ) (t : Table Report) (id : ℕ) (r : Report)
      → ((j : ℕ) → find j t₀ ≢ none → find j t ≢ none)
      → find id t₀ ≡ some r
      → find id (put_each f (find_many (is_due env) (selected_rows t₀ picked)) t) ≡ (
          if any (λ j. j == id) picked && awaits_window r && is_due env r
          then some (f r)
          else find id t)
  unfolding selected_rows find_many put_each
  put_due [] t id r within h = refl
  put_due (i ∷ picked) t id r within h = elim (Option-cases (find i t₀)) [
    | inl e ↦ ground (arith, put_due picked t id r within h, ==_iff i id)
    | inr (a, e) ↦ ground (
      arith,
      put_due picked t id r within h,
      put_due picked (put i (f a) t) id r (within_put i a t within e) h,
      find-put_of_ne i id (f a) t (within i (some_row i a e)),
      ==_iff i id,
    )
  ]

-- Whether a run looks at the report: it is among the rows picked, and has the policy that closes
-- after the review window.
abbrev pub IsCandidate : List ℕ → ℕ → Report → Type 0
IsCandidate picked id r =
    (any (λ j. j == id) picked ≡ true) × (r.completion_policy ≡ some auto_close_after_review_window)

-- A report closed at the end of its review window, with nobody's decision put in its name.
abbrev ClosedByWindow : Env → ℕ → Report → Report → Type 0
ClosedByWindow env user_id r r' =
    (r'.status ≡ closed)
    × (r'.completion_review_state ≡ some review_closed)
    × (r'.completion_review_processed_at ≡ some env.now)
    × (r'.completion_finalized_at ≡ some env.now)
    × (r'.completion_finalized_by_id ≡ some user_id)
    × (r'.citizen_completion_decision ≡ r.citizen_completion_decision)
    × (r'.organization_completion_decision ≡ r.organization_completion_decision)

-- What a run makes of a report.
pub data Settles (env : Env) (user_id : ℕ) (picked : List ℕ) (id : ℕ) (r r' : Report) : Type 0 where
  closes :
      IsCandidate picked id r
      → IsDue env r
      → ClosedByWindow env user_id r r'
      → Settles env user_id picked id r r'
  leaves : (IsCandidate picked id r → ¬ IsDue env r) → r' ≡ r → Settles env user_id picked id r r'

pub awaits_window_iff :
    (r : Report)
    → (awaits_window r ≡ true) ↔ (r.completion_policy ≡ some auto_close_after_review_window)
awaits_window_iff r = (λ h. ground arith, λ h. ground arith)

pub is_due_iff : (env : Env) (r : Report) → (is_due env r ≡ true) ↔ IsDue env r
is_due_iff env r = (
  λ h. (skip_reason_iff_IsDue env r).0 (ground arith),
  λ h. ground (arith, (skip_reason_iff_IsDue env r).1 h),
)

settled :
    (env : Env) (user : JwtUser) (user_id : ℕ) (picked : List ℕ) (id : ℕ) (r : Report)
    (t : Table Report)
    → find id t ≡ some r
    → (r' : Report) × ((if any (λ j. j == id) picked && awaits_window r && is_due env r
          then some (window_closed env user user_id r)
          else find id t)
        ≡ some r')
      × Settles env user_id picked id r r'
unfolding window_closed
settled env user user_id picked id r t f =
    elim (Bool-cases (any (λ j. j == id) picked && awaits_window r && is_due env r)) [
      | inl e ↦ rw e (
        _,
        refl,
        closes (ground arith, (awaits_window_iff r).0 (ground arith))
            ((is_due_iff env r).0 (ground arith)) (refl, refl, refl, refl, refl, refl, refl),
      )
      | inr e ↦ rw e (
        r,
        f,
        leaves (λ c d. ground (arith, (awaits_window_iff r).1 c.1, (is_due_iff env r).1 d)) refl,
      )
    ]

-- A run that is not dry, by a caller with an identifier who passes the first checks, ends without
-- an exception. A report that was picked, has the policy that closes after the review window, and
-- whose window is over with no processing, hold, dispute or rework in the way is closed by it, with
-- the review marked as processed now by that caller and both parties' decisions as they were; every
-- other report is as it was.
pub process_completion_review_deadlines_lem :
    (env : Env) (picked : List ℕ) (reason : Option String) (user : JwtUser) (w : World)
    (user_id id : ℕ) (r : Report)
    → get_user_id user ≡ ok user_id
    → processor_checks user false reason ≡ ok tt
    → find id w.reports ≡ some r
    → let (answer, w') = process_completion_review_deadlines env picked false reason user w in
      ((run : Run) × (answer ≡ ok run))
      × (r' : Report) × (find id w'.reports ≡ some r')
      × Settles env user_id picked id r r'
unfolding process_completion_review_deadlines
process_completion_review_deadlines_lem env picked reason user w user_id id r u h f =
    let (o, s) = rounds env user user_id u (selected_rows w.reports picked) (start w) in
    let (r', g, settles) = settled env user user_id picked id r w.reports f in
    rw (h, process_completion_review_deadlines)
      (rw o (
        (_, refl),
        r',
        ap (find id) (perform_all-reports _ _ ∙ s)
            ∙ put_due env (window_closed env user user_id) w.reports picked w.reports id r
                (λ j n. n) f
            ∙ g,
        settles,
      ))
