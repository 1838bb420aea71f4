-- ===== src/Report/Service.antt =====
-- The handlers of the report service that decide about a report once it is created and routed, and
-- the deadline processor, as one function over the requests (src/report/report.service.ts).
pub mod Allows
pub mod Dispatch
pub mod Reviews
pub mod Windows
pub mod Serve
use fixzone_enterprise_api.Base.{ℕ, String, Bool, Option, List}
use fixzone_enterprise_api.Report.Types.{CompletionPolicy}
use fixzone_enterprise_api.Report.Model.{JwtUser, Env}
use fixzone_enterprise_api.Report.Effects.{World}
use fixzone_enterprise_api.Report.Assignment.{
  cancel_assignment, assign_provider_by_id, reassign_provider, AssignOptions,
}
use fixzone_enterprise_api.Report.Expiry.{reject_assignment, process_overdue_assignments}
use fixzone_enterprise_api.Report.Intake.{
  Resolution, accept_organization_report, reject_organization_report,
}
use fixzone_enterprise_api.Report.Status.{update_status, StatusRequest, PolicySources}
use fixzone_enterprise_api.Report.Completion.{confirm_citizen_completion, reject_citizen_completion}
use fixzone_enterprise_api.Report.Verification.{
  verify_organization_completion, request_organization_completion_rework,
}
use fixzone_enterprise_api.Report.Deadlines.{process_completion_review_deadlines}
use fixzone_enterprise_api.Report.Governance.{
  admin_resolve_and_close, admin_return_for_completion_rework, admin_place_completion_hold,
  admin_remove_completion_hold, admin_reopen_completion, admin_override_completion_policy,
}

-- A request: the report's identifier and the call's arguments; the sweep of overdue assignments and
-- the run of the deadline processor name no report, and the latter carries what its query picks.
pub data Request : Type 0 where
  cancel : ℕ → Option String → Request
  assign : ℕ → ℕ → AssignOptions → Request
  reassign : ℕ → ℕ → Option String → Request
  refuse : ℕ → String → Request
  sweep : Request
  accept : ℕ → Option String → Option Resolution → Request
  turn_down : ℕ → Option String → Option ℕ → Option Resolution → Request
  update : ℕ → PolicySources → ℕ → StatusRequest → Request
  confirm : ℕ → ℕ → Option String → Request
  ask_rework : ℕ → Option String → Request
  verify : ℕ → Option String → Request
  order_rework : ℕ → Option String → Request
  resolve : ℕ → Option String → Request
  return_for_rework : ℕ → Option String → Request
  place_hold : ℕ → Option String → Request
  remove_hold : ℕ → Option String → Request
  reopen : ℕ → Option String → Request
  override_policy : ℕ → CompletionPolicy → Option String → Request
  close_windows : List ℕ → Bool → Option String → Request

-- The tables after a request. `exists` tells the organizations.
unfoldable pub serve : Env → (ℕ → Bool) → JwtUser → Request → World → World
serve env exists user (cancel id reason) w = (cancel_assignment env id reason user w).1
serve env exists user (assign id provider options) w =
    (assign_provider_by_id env id provider user options w).1
serve env exists user (reassign id provider reason) w =
    (reassign_provider env id provider reason user w).1
serve env exists user (refuse id reason) w = (reject_assignment env id reason user w).1
serve env exists user sweep w = (process_overdue_assignments env user w).1
serve env exists user (accept id remark resolution) w =
    (accept_organization_report env id remark resolution user w).1
serve env exists user (turn_down id reason suggested resolution) w =
    (reject_organization_report env exists id reason suggested resolution user w).1
serve env exists user (update id sources hours dto) w =
    (update_status env sources hours id dto user w).1
serve env exists user (confirm id rating feedback) w =
    (confirm_citizen_completion env id rating feedback user w).1
serve env exists user (ask_rework id reason) w = (reject_citizen_completion env id reason user w).1
serve env exists user (verify id reason) w = (verify_organization_completion env id reason user w).1
serve env exists user (order_rework id reason) w =
    (request_organization_completion_rework env id reason user w).1
serve env exists user (resolve id reason) w = (admin_resolve_and_close env id reason user w).1
serve env exists user (return_for_rework id reason) w =
    (admin_return_for_completion_rework env id reason user w).1
serve env exists user (place_hold id reason) w =
    (admin_place_completion_hold env id reason user w).1
serve env exists user (remove_hold id reason) w =
    (admin_remove_completion_hold env id reason user w).1
serve env exists user (reopen id reason) w = (admin_reopen_completion env id reason user w).1
serve env exists user (override_policy id policy reason) w =
    (admin_override_completion_policy env id policy reason user w).1
serve env exists user (close_windows picked dry_run reason) w =
    (process_completion_review_deadlines env picked dry_run reason user w).1
