-- ===== src/Report/Examples/Service.antt =====
-- The theorems on the whole service, applied to the small town.
use fixzone_enterprise_api.Base.{◌≡◌, refl, true, none, some, find}
use fixzone_enterprise_api.Report.Model.{Report}
use fixzone_enterprise_api.Report.Effects.Laws.{Evolves}
use fixzone_enterprise_api.Report.Service.{Request, serve}
use fixzone_enterprise_api.Report.Lifecycle.Consent.{DecidesByRight, serve-DecidesByRight}
use fixzone_enterprise_api.Report.Expiry.{Scope, expire_overdue_assignments}
use fixzone_enterprise_api.Report.Expiry.Laws.{Sweeps, expire_overdue_assignments_lem}
use fixzone_enterprise_api.Report.Examples.{
  ama, platform, town, waiting, tables, tables-HasDistinctKeys,
}

abbrev confirming : Request
confirming = Request.confirm 10 5 none

abbrev everywhere : Scope
everywhere = record { provider_id = none; organization_id = none; actor = platform }

waiting_stored : find 11 tables.reports ≡ some waiting
unfolding find
waiting_stored = refl

expire_overdue_assignments_lem_example :
    (r' : Report) × (find 11 (expire_overdue_assignments town everywhere tables).1.reports
      ≡ some r')
    × Sweeps town everywhere waiting r'
expire_overdue_assignments_lem_example =
    expire_overdue_assignments_lem town everywhere tables 11 waiting tables-HasDistinctKeys
      waiting_stored

serve-DecidesByRight_example :
    Evolves
      (DecidesByRight ama)
      tables.reports
      (serve town (λ _. true) ama confirming tables).reports
serve-DecidesByRight_example =
    serve-DecidesByRight town (λ _. true) ama confirming tables tables-HasDistinctKeys
