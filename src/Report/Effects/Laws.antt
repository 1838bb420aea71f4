-- ===== src/Report/Effects/Laws.antt =====
-- A handler changes at most the report that it names; its other writes leave the reports alone.
use mathlib.Core.Path.{subst}
use fixzone_enterprise_api.Base.{
  ℕ, ◌≡◌, refl, ==_iff, Bool-cases, ◌⊎◌, inl, inr, ◌∙◌, true, some, List, [], ◌∷◌, arith, ◌==◌,
  Table, HasDistinctKeys, put-HasDistinctKeys, find, put, find-put, Option-cases,
}
use fixzone_enterprise_api.Base.Result.{Result, ok, err, Error, not_found}
use fixzone_enterprise_api.Report.Model.{Report}
use fixzone_enterprise_api.Report.Effects.{
  World, AuditEntry, Effect, perform, perform_all, write_audit, Change, keep, write, with_report,
}

perform-reports : (e : Effect) (w : World) → (perform e w).reports ≡ w.reports
unfolding perform
perform-reports (Effect.notify n) w = ground arith
perform-reports (Effect.record_activity a) w = ground arith
perform-reports (Effect.audit a) w = ground arith

pub perform_all-reports : (es : List Effect) (w : World) → (perform_all es w).reports ≡ w.reports
unfolding perform_all
perform_all-reports [] w = refl
perform_all-reports (e ∷ es) w = perform_all-reports es (perform e w) ∙ perform-reports e w

-- Each report is as it was, or `P` relates what it was to what it is.
abbrev pub Evolves : (Report → Report → Type 0) → Table Report → Table Report → Type 0
Evolves P t t' =
    (id : ℕ) (r : Report)
    → find id t ≡ some r
    → (r' : Report) × (find id t' ≡ some r') × ((r' ≡ r) ⊎ P r r')

pub Evolves-refl : (P : Report → Report → Type 0) (t : Table Report) → Evolves P t t
Evolves-refl P t id r h = (r, h, inl refl)

pub one_row :
    (k id : ℕ) (a r : Report) (t : Table Report)
    → (k == id) ≡ true
    → find k t ≡ some a
    → find id t ≡ some r
    → a ≡ r
one_row k id a r t same fa h = ground (arith, ==_iff k id)

-- A write that `P` allows.
pub Evolves-put :
    (P : Report → Report → Type 0) (k : ℕ) (a a' : Report) (t : Table Report)
    → find k t ≡ some a
    → P a a'
    → Evolves P t (put k a' t)
Evolves-put P k a a' t fa p id r h = rw (find-put k id a' a t fa) (elim (Bool-cases (k == id)) [
  | inl same ↦ rw same (a', refl, inr (subst (λ x. P x a') (one_row k id a r t same fa h) p))
  | inr other ↦ rw other (r, h, inl refl)
])

-- How a handler ends, by what it found and what its checks said.
pub data Ends (id : ℕ) (decide : Report → Result Change) (effects : Report → Report → List Effect)
    (w : World) : Type 0 where
  failed : (e : Error) → with_report id decide effects w ≡ (err e, w) → Ends id decide effects w
  kept :
      (r : Report)
      → find id w.reports ≡ some r
      → decide r ≡ ok keep
      → with_report id decide effects w ≡ (ok r, w)
      → Ends id decide effects w
  written :
      (r r' : Report)
      → find id w.reports ≡ some r
      → decide r ≡ ok (write r')
      → with_report id decide effects w
        ≡ (ok r', perform_all (effects r r') (record w { reports = put id r' w.reports }))
      → Ends id decide effects w

module _ (id : ℕ) (decide : Report → Result Change) (effects : Report → Report → List Effect) where
  pub with_report_found :
      (w : World) (r : Report) (d : Result Change)
      → find id w.reports ≡ some r
      → decide r ≡ d
      → Ends id decide effects w
  unfolding with_report
  with_report_found w r (err e) f h = Ends.failed e (rw (f, with_report) (rw (h, with_report)))
  with_report_found w r (ok keep) f h = Ends.kept r f h (rw (f, with_report) (rw (h, with_report)))
  with_report_found w r (ok (write r')) f h =
      Ends.written r r' f h (rw (f, with_report) (rw (h, with_report)))

  pub with_report-Ends : (w : World) → Ends id decide effects w
  unfolding with_report
  with_report-Ends w = elim (Option-cases (find id w.reports)) [
    | inl missing ↦ Ends.failed (not_found "Report not found") (rw (missing, with_report))
    | inr (r, f) ↦ with_report_found w r (decide r) f refl
  ]

  -- A handler does to the reports what its checks allow.
  pub with_report-Evolves :
      (P : Report → Report → Type 0)
      → ((r r' : Report) → decide r ≡ ok (write r') → P r r')
      → (w : World) → Evolves P w.reports (with_report id decide effects w).1.reports
  with_report-Evolves P allowed w = elim (with_report-Ends w) [
    | Ends.failed e h ↦ rw h (Evolves-refl P w.reports)
    | Ends.kept r f d h ↦ rw h (Evolves-refl P w.reports)
    | Ends.written r r' f d h ↦
        rw h (rw perform_all-reports (Evolves-put P id r r' w.reports f (allowed r r' d)))
  ]

  pub with_report-HasDistinctKeys :
      (w : World)
      → HasDistinctKeys w.reports
      → HasDistinctKeys (with_report id decide effects w).1.reports
  with_report-HasDistinctKeys w k = elim (with_report-Ends w) [
    | Ends.failed e h ↦ rw h k
    | Ends.kept r f d h ↦ rw h k
    | Ends.written r r' f d h ↦
        rw h (rw perform_all-reports (put-HasDistinctKeys id r' w.reports k))
  ]

-- A row of the audit logs leaves the other tables as they are.
pub audit-rest :
    (entry : AuditEntry) (w : World)
    → let w' = perform_all (Effect.audit entry ∷ []) w in
      (w'.reports ≡ w.reports)
      × (w'.activities ≡ w.activities)
      × (w'.notifications ≡ w.notifications)
unfolding perform_all perform write_audit
audit-rest entry w = (ground arith, ground arith, ground arith)
