-- ===== src/Report/Effects/Keeps.antt =====
-- Rules by which a handler, step by step, keeps a relation between each report before and after it.
use mathlib.Core.Path.{subst}
use fixzone_enterprise_api.Base.{ℕ, ◌≡◌, refl, ◌∙◌, inl, inr, List, HasDistinctKeys, arith}
use fixzone_enterprise_api.Base.Result.{Result, ok, err, Error, Result-cases}
use fixzone_enterprise_api.Report.Model.{Report}
use fixzone_enterprise_api.Report.Effects.{
  World, Effect, Change, write, Action, with_report, and_then, lift, find_report, emit,
}
use fixzone_enterprise_api.Report.Effects.Laws.{
  Evolves, Evolves-refl, perform_all-reports, with_report-Evolves, with_report-HasDistinctKeys,
}

-- Where no identifier stands twice, each report evolves by `P`, and none stands twice afterwards.
abbrev pub Keeps {ℓ} :
    {A : Type ℓ} → (Report → Report → Type 0) → (World → Result A × World) → Type 0
Keeps P m =
    (w : World)
    → HasDistinctKeys w.reports
    → Evolves P w.reports (m w).1.reports × HasDistinctKeys (m w).1.reports

-- A step that leaves the reports as they are, and one that does so where it succeeds.
abbrev pub IsQuiet {ℓ} : {A : Type ℓ} → (World → Result A × World) → Type 0
IsQuiet m = (w : World) → (m w).1.reports ≡ w.reports

abbrev pub IsQuietOk {ℓ} : {A : Type ℓ} → (World → Result A × World) → Type ℓ
IsQuietOk {A = A} m = (a : A) (w : World) → (m w).0 ≡ ok a → (m w).1.reports ≡ w.reports

pub lift-IsQuiet {ℓ} : {A : Type ℓ} (m : Result A) → IsQuiet (lift m)
unfolding lift
lift-IsQuiet m w = refl

pub emit-IsQuiet : (es : List Effect) → IsQuiet (emit es)
unfolding emit
emit-IsQuiet es w = perform_all-reports es w

pub find_report-IsQuiet : (id : ℕ) → IsQuiet (find_report id)
unfolding find_report
find_report-IsQuiet id w = ground arith

module _ {ℓ} {A : Type ℓ} where
  -- How two steps go.
  pub and_then_ok :
      {B : Type 0} (m : World → Result A × World) (f : A → Action B) (w : World) (a : A)
      → (m w).0 ≡ ok a
      → and_then m f w ≡ f a (m w).1
  unfolding and_then
  and_then_ok m f w a h = rw (h, and_then)

  pub and_then_err :
      {B : Type 0} (m : World → Result A × World) (f : A → Action B) (w : World) (e : Error)
      → (m w).0 ≡ err e
      → and_then m f w ≡ (err e, (m w).1)
  unfolding and_then
  and_then_err m f w e h = rw (h, and_then)

  pub and_then-IsQuiet :
      {B : Type 0} (m : World → Result A × World) (f : A → Action B)
      → IsQuiet m
      → ((a : A) → IsQuiet (f a))
      → IsQuiet (and_then m f)
  and_then-IsQuiet m f qm qf w = elim (Result-cases (m w).0) [
    | inl (a, h) ↦ rw (and_then_ok m f w a h) (qf a (m w).1 ∙ qm w)
    | inr (e, h) ↦ rw (and_then_err m f w e h) (qm w)
  ]

  module _ (P : Report → Report → Type 0) where
    pub Keeps-quiet : (m : World → Result A × World) → IsQuiet m → Keeps P m
    Keeps-quiet m q w k = rw (q w) (Evolves-refl P w.reports, k)

    -- A quiet step, then one that keeps `P`.
    pub and_then-Keeps :
        {B : Type 0} (m : World → Result A × World) (f : A → Action B)
        → Keeps P m
        → IsQuietOk m
        → ((a : A) → Keeps P (f a))
        → Keeps P (and_then m f)
    and_then-Keeps m f km qm kf w k = elim (Result-cases (m w).0) [
      | inl (a, h) ↦ rw (and_then_ok m f w a h) (
          subst (λ t. Evolves P t (f a (m w).1).1.reports × HasDistinctKeys (f a (m w).1).1.reports)
            (qm a w h) (kf a (m w).1 (km w k).1))
      | inr (e, h) ↦ rw (and_then_err m f w e h) (km w k)
    ]

    -- A step that keeps `P`, then quiet ones.
    pub and_then-Keeps_quiet :
        {B : Type 0} (m : World → Result A × World) (f : A → Action B)
        → Keeps P m
        → ((a : A) → IsQuiet (f a))
        → Keeps P (and_then m f)
    and_then-Keeps_quiet m f km qf w k = elim (Result-cases (m w).0) [
      | inl (a, h) ↦ rw (and_then_ok m f w a h) (rw (qf a (m w).1) (km w k))
      | inr (e, h) ↦ rw (and_then_err m f w e h) (km w k)
    ]

module _ (P : Report → Report → Type 0) where
  pub with_report-Keeps :
      (id : ℕ) (decide : Report → Result Change) (effects : Report → Report → List Effect)
      → ((r r' : Report) → decide r ≡ ok (write r') → P r r')
      → Keeps P (with_report id decide effects)
  with_report-Keeps id decide effects allowed w k = (
    with_report-Evolves id decide effects P allowed w,
    with_report-HasDistinctKeys id decide effects w k,
  )

  -- A check that passes, then a step that keeps `P`.
  pub lift-Keeps {ℓ} :
      {A : Type ℓ} {B : Type 0} (m : Result A) (f : A → Action B)
      → ((a : A) → m ≡ ok a → Keeps P (f a))
      → Keeps P (and_then (lift m) f)
  unfolding lift and_then
  lift-Keeps (ok a) f kf w k = kf a refl w k
  lift-Keeps (err e) f kf w k = (Evolves-refl P w.reports, k)

  pub find_report-Keeps :
      {B : Type 0} (id : ℕ) (f : Report → Action B)
      → ((r : Report) → Keeps P (f r))
      → Keeps P (and_then (find_report id) f)
  find_report-Keeps id f kf =
      and_then-Keeps P (find_report id) f (Keeps-quiet P (find_report id) (find_report-IsQuiet id))
        (λ a w h. find_report-IsQuiet id w) kf
