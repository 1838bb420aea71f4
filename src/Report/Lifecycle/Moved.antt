-- ===== src/Report/Lifecycle/Moved.antt =====
-- Every request moves each report along the lifecycle.
use fixzone_enterprise_api.Report.Model.{Report}
use fixzone_enterprise_api.Report.Service.Allows.{Allows}
use fixzone_enterprise_api.Report.Lifecycle.Checks
