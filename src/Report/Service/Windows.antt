-- ===== src/Report/Service/Windows.antt =====
-- The deadline processor keeps what its closures keep, whatever rows its query picks.
use mathlib.Core.Path.{subst}
use fixzone_enterprise_api.Base.{
  ℕ, String, ◌≡◌, refl, ◌⊎◌, inl, inr, ◌==◌, Bool, true, false, Bool-cases, Option, none, some,
  Option-cases, List, [], ◌∷◌, Table, find, put, find-put, HasDistinctKeys, put-HasDistinctKeys,
  arith,
}
use fixzone_enterprise_api.Base.Result.{ok, err, Result-cases}
use fixzone_enterprise_api.Report.Model.{Report, JwtUser, Env, get_user_id}
use fixzone_enterprise_api.Report.Effects.{World}
use fixzone_enterprise_api.Report.Effects.Laws.{Evolves, Evolves-refl, perform_all-reports, one_row}
use fixzone_enterprise_api.Report.Effects.Keeps.{Keeps}
use fixzone_enterprise_api.Report.Deadlines.{
  is_processor, awaits_window, selected_rows, skip_reason, window_closed, Run, close_one,
  review_one, review_each, processor_checks, process_completion_review_deadlines, start,
}
use fixzone_enterprise_api.Report.Service.Allows.{Allows}

processor_checks_role :
    (user : JwtUser) (dry_run : Bool) (reason : Option String)
    → processor_checks user dry_run reason ≡ ok tt
    → is_processor user.role ≡ true
unfolding processor_checks
processor_checks_role user dry_run reason h = ground arith

close_one_written :
    (env : Env) (user : JwtUser) (i : ℕ) (a : Report) (run : Run) (user_id : ℕ)
    → get_user_id user ≡ ok user_id
    → (next : Run) × (close_one env user false i a run ≡ ok next)
      × (next.world.reports ≡ put i (window_closed env user user_id a) run.world.reports)
unfolding close_one
close_one_written env user i a run user_id u = rw (u, close_one) (_, refl, perform_all-reports _ _)

-- What a round that is not skipped writes.
close_one_reports :
    (env : Env) (user : JwtUser) (i : ℕ) (a : Report) (run next : Run) (dry_run : Bool)
    → close_one env user dry_run i a run ≡ ok next
    → (next.world.reports ≡ run.world.reports)
      ⊎ (user_id : ℕ) × (next.world.reports
          ≡ put i (window_closed env user user_id a) run.world.reports)
unfolding close_one
close_one_reports env user i a run next true h = inl (ground arith)
close_one_reports env user i a run next false h = elim (Result-cases (get_user_id user)) [
  | inl (user_id, u) ↦
      let (x, o, written) = close_one_written env user i a run user_id u in
      inr (user_id, ground arith)
  | inr (x, u) ↦
      let e : close_one env user false i a run ≡ err x = rw (u, close_one) refl in
      absurd (ground arith)
]

module _ {P : Report → Report → Type 0} {env : Env} {user : JwtUser}
    (allows : Allows P env user) where
  -- A table that has evolved from `t₀`.
  abbrev Evolved : Table Report → Table Report → Type 0
  Evolved t₀ t = Evolves P t₀ t × HasDistinctKeys t

  Evolved-put :
      (t₀ t : Table Report) (i : ℕ) (a a' : Report)
      → find i t₀ ≡ some a
      → P a a'
      → Evolved t₀ t
      → Evolved t₀ (put i a' t)
  Evolved-put t₀ t i a a' f p (e, k) = (
    λ id r h.
        let (s, g, _) = e i a f in
        rw (find-put i id a' s t g) (elim (Bool-cases (i == id)) [
          | inl same ↦
              rw same (a', refl, inr (subst (λ x. P x a') (one_row i id a r t₀ same f h) p))
          | inr other ↦ rw other (e id r h)
        ]),
    put-HasDistinctKeys i a' t k,
  )

  module _ (w : World) (role : is_processor user.role ≡ true) (dry_run : Bool) where
    close_one-Evolved :
        (i : ℕ) (a : Report) (run next : Run)
        → find i w.reports ≡ some a
        → awaits_window a ≡ true
        → skip_reason env a ≡ none
        → Evolved w.reports run.world.reports
        → close_one env user dry_run i a run ≡ ok next
        → Evolved w.reports next.world.reports
    close_one-Evolved i a run next f p n e h =
        elim (close_one_reports env user i a run next dry_run h) [
          | inl same ↦ rw same e
          | inr (user_id, written) ↦ rw written (
              Evolved-put w.reports run.world.reports i a (window_closed env user user_id a) f
                (allows.closes_window user_id a role p n) e)
        ]

    review_one-Evolved :
        (i : ℕ) (a : Report) (run next : Run)
        → find i w.reports ≡ some a
        → awaits_window a ≡ true
        → Evolved w.reports run.world.reports
        → review_one env user dry_run i a run ≡ ok next
        → Evolved w.reports next.world.reports
    unfolding review_one
    review_one-Evolved i a run next f p e h = elim (Option-cases (skip_reason env a)) [
      | inl n ↦ close_one-Evolved i a run next f p n e (ground arith)
      | inr (reason, n) ↦ subst (λ t. Evolved w.reports t) (ground arith) e
    ]

    review_each-Evolved :
        (picked : List ℕ) (run : Run)
        → Evolved w.reports run.world.reports
        → Evolved w.reports
            (review_each env user dry_run (selected_rows w.reports picked) run).1.world.reports
    unfolding review_each selected_rows
    review_each-Evolved [] run e = e
    review_each-Evolved (i ∷ picked) run e = elim (Option-cases (find i w.reports)) [
      | inl f ↦ rw (f, selected_rows) (review_each-Evolved picked run e)
      | inr (a, f) ↦ elim (Bool-cases (awaits_window a)) [
        | inl p ↦
            rw (f, selected_rows)
              (rw p (elim (Result-cases (review_one env user dry_run i a run)) [
                | inl (next, o) ↦
                    rw (o, review_each)
                      (review_each-Evolved picked next (review_one-Evolved i a run next f p e o))
                | inr (x, o) ↦ rw (o, review_each) e
              ]))
        | inr p ↦ rw (f, selected_rows) (rw p (review_each-Evolved picked run e))
      ]
    ]

  pub process_completion_review_deadlines-Keeps :
      (picked : List ℕ) (dry_run : Bool) (reason : Option String)
      → Keeps P (process_completion_review_deadlines env picked dry_run reason user)
  unfolding process_completion_review_deadlines
  process_completion_review_deadlines-Keeps picked dry_run reason w k =
      elim (Result-cases (processor_checks user dry_run reason)) [
        | inl (_, h) ↦
            let rounds : Evolved w.reports
                (review_each env user dry_run (selected_rows w.reports picked)
                  (start w)).1.world.reports =
              review_each-Evolved w (processor_checks_role user dry_run reason h) dry_run picked
                (start w) (Evolves-refl P w.reports, k) in
            rw (h, process_completion_review_deadlines)
              (elim (Result-cases
                (review_each env user dry_run (selected_rows w.reports picked) (start w)).0) [
                  | inl (_, o) ↦ rw o (rw (perform_all-reports _ _) rounds)
                  | inr (x, o) ↦ rw o rounds
                ])
        | inr (x, h) ↦ rw (h, process_completion_review_deadlines) (Evolves-refl P w.reports, k)
      ]
