-- ===== src/Report/Deadlines/Listing.antt =====
-- What a run of the deadline processor answers that it has processed.
use fixzone_enterprise_api.Base.{
  ℕ, suc, ◌≡◌, ◌↔◌, refl, ap, ◌∙◌, sym, inl, inr, String, Bool, true, false, Bool-cases, ◌&&◌, ◌||◌,
  ◌==◌, ==_iff, Option, none, some, Option-cases, List, [], ◌∷◌, arith, any, length, find, Table,
}
use fixzone_enterprise_api.Base.Result.{ok, Result-cases}
use fixzone_enterprise_api.Report.Model.{Report, JwtUser, Env, get_user_id}
use fixzone_enterprise_api.Report.Effects.{World}
use fixzone_enterprise_api.Report.Deadlines.{
  SkipReason, Counts, count_skip, skip_reason, selected_rows, awaits_window, Run, close_one,
  review_one, review_each, start, processor_checks, process_completion_review_deadlines,
}
use fixzone_enterprise_api.Report.Deadlines.Laws.{IsDue}
use fixzone_enterprise_api.Report.Deadlines.Closing.{
  is_due, IsCandidate, awaits_window_iff, is_due_iff,
}

abbrev has_id : ℕ → List ℕ → Bool
has_id id ids = any (λ j. j == id) ids

-- The report of this identifier is one that a run closes.
abbrev is_closing : Env → Table Report → List ℕ → ℕ → Bool
is_closing env t picked id = elim (find id t) [
  | none ↦ false
  | some r ↦ has_id id picked && awaits_window r && is_due env r
]

module _ (env : Env) (t : Table Report) where
  nothing_closing : (id : ℕ) → is_closing env t [] id ≡ false
  nothing_closing id = ground arith

  closing_missing :
      (i : ℕ) (picked : List ℕ) (id : ℕ)
      → find i t ≡ none
      → is_closing env t (i ∷ picked) id ≡ is_closing env t picked id
  closing_missing i picked id e = ground (arith, ==_iff i id)

  closing_other :
      (i : ℕ) (picked : List ℕ) (id : ℕ) (a : Report)
      → find i t ≡ some a
      → awaits_window a ≡ false
      → is_closing env t (i ∷ picked) id ≡ is_closing env t picked id
  closing_other i picked id a e p = ground (arith, ==_iff i id)

  closing_next :
      (i : ℕ) (picked : List ℕ) (id : ℕ) (a : Report)
      → find i t ≡ some a
      → awaits_window a ≡ true
      → is_closing env t (i ∷ picked) id ≡ ((i == id) && is_due env a || is_closing env t picked id)
  closing_next i picked id a e p = ground (arith, ==_iff i id)

close_one_listed :
    (env : Env) (user : JwtUser) (dry_run : Bool) (i : ℕ) (a : Report) (run next : Run)
    → close_one env user dry_run i a run ≡ ok next
    → (next.processed ≡ i ∷ run.processed) × (next.counts.eligible ≡ suc run.counts.eligible)
unfolding close_one
close_one_listed env user true i a run next h = ground arith
close_one_listed env user false i a run next h = elim (Result-cases (get_user_id user)) [
  | inl (user_id, e) ↦ ground arith
  | inr (x, e) ↦ absurd (ground arith)
]

skipped_counts : (reason : SkipReason) (c : Counts) → (count_skip reason c).eligible ≡ c.eligible
unfolding count_skip
skipped_counts reason c = ground arith

listed_here : (a b : Bool) → (a || b) ≡ (a && true || b)
listed_here a b = ground arith

passed_over : (a b : Bool) → b ≡ (a && false || b)
passed_over a b = ground arith

swap_or : (a b c : Bool) → (a || (b || c)) ≡ ((b || a) || c)
swap_or a b c = ground arith

module _ (env : Env) (user : JwtUser) (dry_run : Bool) where
  review_one_listed :
      (i : ℕ) (a : Report) (run next : Run) (id : ℕ)
      → review_one env user dry_run i a run ≡ ok next
      → run.counts.eligible ≡ length run.processed
      → (has_id id next.processed ≡ ((i == id) && is_due env a || has_id id run.processed))
        × (next.counts.eligible ≡ length next.processed)
  unfolding review_one
  review_one_listed i a run next id h c = elim (Option-cases (skip_reason env a)) [
    | inl e ↦
        let (p, q) = close_one_listed env user dry_run i a run next (ground arith) in
        (rw (e, p) (listed_here (i == id) (has_id id run.processed)), rw p (ground arith))
    | inr (reason, e) ↦
        let same : next.processed ≡ run.processed = ground arith in
        let kept : next.counts.eligible ≡ run.counts.eligible =
          ground (arith, skipped_counts reason run.counts) in
        (rw (e, same) (passed_over (i == id) (has_id id run.processed)), rw same (kept ∙ c))
  ]

  review_each_listed :
      (t : Table Report) (picked : List ℕ) (run : Run) (id : ℕ)
      → (review_each env user dry_run (selected_rows t picked) run).0 ≡ ok tt
      → run.counts.eligible ≡ length run.processed
      → let last = (review_each env user dry_run (selected_rows t picked) run).1 in
        (has_id id last.processed ≡ (is_closing env t picked id || has_id id run.processed))
        × (last.counts.eligible ≡ length last.processed)
  unfolding review_each selected_rows
  review_each_listed t [] run id = λ h c. (rw (nothing_closing env t id) refl, c)
  review_each_listed t (i ∷ picked) run id = elim (Option-cases (find i t)) [
    | inl e ↦
        rw (e, selected_rows)
          (rw (closing_missing env t i picked id e) (review_each_listed t picked run id))
    | inr (a, e) ↦ elim (Bool-cases (awaits_window a)) [
      | inr p ↦
          rw (e, selected_rows)
            (rw (closing_other env t i picked id a e p) (rw p (review_each_listed t picked run id)))
      | inl p ↦ elim (Result-cases (review_one env user dry_run i a run)) [
        | inr (x, o) ↦ rw (e, selected_rows) (rw p (rw (o, review_each) (λ h c. absurd (cc h))))
        | inl (next, o) ↦
            rw (e, selected_rows)
              (rw p (
                rw (o, review_each)
                  (λ h c.
                    let (here, count) = review_one_listed i a run next id o c in
                    let (rest, counts) = review_each_listed t picked next id h count in
                    (
                      rest
                          ∙ ap (λ x. is_closing env t picked id || x) here
                          ∙ swap_or (is_closing env t picked id) ((i == id) && is_due env a)
                              (has_id id run.processed)
                          ∙ ap (λ x. x || has_id id run.processed)
                              (sym (closing_next env t i picked id a e p)),
                      counts,
                    ))))
      ]
    ]
  ]

closing_iff :
    (env : Env) (t : Table Report) (picked : List ℕ) (id : ℕ)
    → (is_closing env t picked id ≡ true)
      ↔ ((r : Report) × (find id t ≡ some r) × IsCandidate picked id r × IsDue env r)
closing_iff env t picked id = (to, from)
  where
    to :
        is_closing env t picked id ≡ true
        → (r : Report) × (find id t ≡ some r) × IsCandidate picked id r × IsDue env r
    to = elim (Option-cases (find id t)) [
      | inl e ↦ λ h. absurd (ground arith)
      | inr (r, e) ↦ λ h. (
        r,
        e,
        (ground arith, (awaits_window_iff r).0 (ground arith)),
        (is_due_iff env r).0 (ground arith),
      )
    ]

    from :
        (r : Report) × (find id t ≡ some r) × IsCandidate picked id r × IsDue env r
        → is_closing env t picked id ≡ true
    from (r, e, (m, p), d) =
        let w = (awaits_window_iff r).1 p in let due = (is_due_iff env r).1 d in ground arith

answered :
    (env : Env) (user : JwtUser) (dry_run : Bool) (t : Table Report) (picked : List ℕ) (w : World)
    (id : ℕ)
    → (review_each env user dry_run (selected_rows t picked) (start w)).0 ≡ ok tt
    → let last = (review_each env user dry_run (selected_rows t picked) (start w)).1 in
      ((any (λ j. j == id) last.processed ≡ true)
        ↔ ((r : Report) × (find id t ≡ some r) × IsCandidate picked id r × IsDue env r))
      × (last.counts.eligible ≡ length last.processed)
answered env user dry_run t picked w id h =
    let (listed, count) = review_each_listed env user dry_run t picked (start w) id h refl in
    let (to, from) = closing_iff env t picked id in
    let or_false : (b : Bool) → (b || false) ≡ b = λ b. ground arith in
    (
      (
        λ x. to (sym (listed ∙ or_false (is_closing env t picked id)) ∙ x),
        λ x. listed ∙ or_false (is_closing env t picked id) ∙ from x,
      ),
      count,
    )

-- A run that ends without an exception, dry or not, answers as processed exactly the reports that
-- were picked, have the policy that closes after the review window, and whose window is over with no
-- processing, hold, dispute or rework in the way; and it counts as eligible as many as it answers.
pub process_completion_review_deadlines_lists :
    (env : Env) (picked : List ℕ) (dry_run : Bool) (reason : Option String) (user : JwtUser)
    (w : World) (run : Run) (id : ℕ)
    → (process_completion_review_deadlines env picked dry_run reason user w).0 ≡ ok run
    → ((any (λ j. j == id) run.processed ≡ true)
        ↔ ((r : Report) × (find id w.reports ≡ some r) × IsCandidate picked id r × IsDue env r))
      × (run.counts.eligible ≡ length run.processed)
unfolding process_completion_review_deadlines
process_completion_review_deadlines_lists env picked dry_run reason user w run id =
    elim (Result-cases (processor_checks user dry_run reason)) [
      | inr (x, e) ↦ rw (e, process_completion_review_deadlines) (λ h. absurd (cc h))
      | inl (_, e) ↦
          elim (Result-cases
            (review_each env user dry_run (selected_rows w.reports picked) (start w)).0) [
              | inr (x, f) ↦ rw (e, process_completion_review_deadlines) (rw f (λ h. absurd (cc h)))
              | inl (_, f) ↦
                  rw (e, process_completion_review_deadlines)
                    (rw f (λ h.
                      let same : (review_each env user dry_run (selected_rows w.reports picked)
                            (start w)).1
                          ≡ run =
                        ground arith in
                      rw (← same) (answered env user dry_run w.reports picked w id f)))
            ]
    ]
