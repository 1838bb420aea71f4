-- ===== src/Report/Effects.antt =====
-- What the handlers write beside the report: notifications, the report's activity, and the two
-- audit logs. The free-form `metadata` of these rows is left out.
pub mod Laws
pub mod Keeps
use fixzone_enterprise_api.Base.{
  keys_of, take, ℕ, String, Bool, true, false, ◌&&◌, ◌||◌, Option, none, some, List, [], ◌∷◌, ◌++◌,
  map, Table, ◌==◌, same_id, is_id, is_some, or_else, get_or, any, str_eq, str_append, find, put,
  if◌then◌else◌,
}
use fixzone_enterprise_api.Base.Result.{Result, ok, err, Error, not_found}
use fixzone_enterprise_api.Report.Types.{
  ReportStatus, AccountStatus, UserRole, super_admin, assignment_admin, asset_admin,
  compliance_admin, regulatory_admin, is_admin, is_dispatch, is_active,
}
use fixzone_enterprise_api.Report.Model.{Report, JwtUser, User, Env, actor_id}

pub record Notification : Type 0 where
  pub user_id : ℕ
  pub report_id : ℕ
  pub kind : String
  pub title : String
  pub message : String

-- A row of `reportActivity`.
pub record Activity : Type 0 where
  pub report_id : ℕ
  pub organization_id : ℕ
  pub actor_user_id : Option ℕ
  pub actor_role : UserRole
  pub actor_name : Option String
  pub action : String
  pub from_status : Option ReportStatus
  pub to_status : Option ReportStatus
  pub provider_id : Option ℕ
  pub reason : Option String
  pub note : Option String

-- A row of `complianceAuditLog`, and of `demoAuditLog` where the actor is known.
pub record AuditEntry : Type 0 where
  pub action : String
  pub actor_id : Option ℕ
  pub actor_role : UserRole
  pub organization_id : Option ℕ
  pub entity_id : Option ℕ

-- The tables that the handlers write.
pub record World : Type 0 where
  pub reports : Table Report
  pub activities : List Activity
  pub compliance_log : List AuditEntry
  pub demo_log : List AuditEntry
  pub notifications : List Notification

pub data Effect : Type 0 where
  notify : Notification → Effect
  record_activity : Activity → Effect
  audit : AuditEntry → Effect

abbrev same_notification : Notification → Notification → Bool
same_notification a b =
    a.user_id == b.user_id
    && a.report_id == b.report_id
    && str_eq a.kind b.kind
    && str_eq a.title b.title
    && str_eq a.message b.message

-- `createNotification`: one that is there already is not written again.
unfoldable pub create_notification : Notification → World → World
create_notification n w =
    if any (same_notification n) w.notifications
    then w
    else record w { notifications = w.notifications ++ n ∷ [] }

-- `recordReportActivity`
pub record_report_activity : Activity → World → World
record_report_activity a w = record w { activities = w.activities ++ a ∷ [] }

-- `audit`
pub write_audit : AuditEntry → World → World
write_audit e w =
    let logged = record w { compliance_log = w.compliance_log ++ e ∷ [] } in
    if is_id e.actor_id then record logged { demo_log = w.demo_log ++ e ∷ [] } else logged

perform : Effect → World → World
unfolding create_notification record_report_activity write_audit
perform (notify n) w = create_notification n w
perform (record_activity a) w = record_report_activity a w
perform (audit e) w = write_audit e w

-- The effects of a call, one after the other.
unfoldable pub perform_all : List Effect → World → World
unfolding perform
perform_all [] w = w
perform_all (e ∷ es) w = perform_all es (perform e w)

is_operator : ℕ → User → Bool
is_operator organization u =
    same_id u.organization_id (some organization)
    && (is_admin u.role || is_dispatch u.role)
    && is_active u.account_status

-- `notifyOrganizationOperators`
unfoldable pub notify_organization_operators : Env → ℕ → ℕ → String → String → String → List Effect
unfolding is_operator
notify_organization_operators env organization report kind title message =
    map
      (λ id. notify (record {
        user_id = id;
        report_id = report;
        kind = kind;
        title = title;
        message = message;
      }))
      (keys_of (is_operator organization) env.users)

abbrev is_resolver_role : UserRole → Bool
is_resolver_role super_admin = true
is_resolver_role assignment_admin = true
is_resolver_role asset_admin = true
is_resolver_role compliance_admin = true
is_resolver_role regulatory_admin = true
is_resolver_role _ = false

is_resolver : User → Bool
is_resolver u = is_resolver_role u.role && is_active u.account_status

-- `notifyPlatformResolvers`
unfoldable pub notify_platform_resolvers : Env → ℕ → String → String → String → List Effect
unfolding is_resolver
notify_platform_resolvers env report kind title message =
    map
      (λ id. notify (record {
        user_id = id;
        report_id = report;
        kind = kind;
        title = title;
        message = message;
      }))
      (take 50 (keys_of is_resolver env.users))

-- A template literal: the text before the title, the title in quotes, and the text behind it.
abbrev pub mention : String → String → String → String
mention before title after =
    str_append before (str_append "\"" (str_append title (str_append "\"" after)))

-- The arguments of `createNotification`.
abbrev pub notification : ℕ → ℕ → String → String → String → Effect
notification user report kind title message =
    notify
      (record { user_id = user; report_id = report; kind = kind; title = title; message = message })

-- The arguments of `recordReportActivity`; `details` are the provider, the reason and the note.
abbrev pub activity :
    ℕ
    → JwtUser
    → String
    → ℕ
    → ReportStatus × ReportStatus
    → Option ℕ × Option String × Option String
    → Effect
activity report user action organization (from, to) (provider, reason, note) =
    record_activity (record {
      report_id = report;
      organization_id = organization;
      actor_user_id = actor_id user;
      actor_role = user.role;
      actor_name = or_else user.full_name user.email;
      action = action;
      from_status = some from;
      to_status = some to;
      provider_id = provider;
      reason = reason;
      note = note;
    })

-- The arguments of `audit`: without an organization in the metadata it is the caller's.
abbrev pub audited : String → JwtUser → ℕ → Option ℕ → Effect
audited action user report organization = audit (record {
  action = action;
  actor_id = actor_id user;
  actor_role = user.role;
  organization_id = or_else organization user.organization_id;
  entity_id = some report;
})

-- The result of a handler's checks: the report stays as it is, or it is written anew.
pub data Change : Type 0 where
  keep : Change
  write : Report → Change

abbrev pub Action : Type 0 → Type 0
Action A = World → Result A × World

-- A handler behind its first checks: `findUnique`, the checks on the report that was found,
-- `update`, and what is written after it. It returns the report.
unfoldable pub with_report :
    ℕ → (Report → Result Change) → (Report → Report → List Effect) → Action Report
with_report id decide effects w = elim (find id w.reports) [
  | none ↦ (err (not_found "Report not found"), w)
  | some r ↦ elim (decide r) [
    | err e ↦ (err e, w)
    | ok keep ↦ (ok r, w)
    | ok (write r') ↦
        (ok r', perform_all (effects r r') (record w { reports = put id r' w.reports }))
  ]
]

-- Steps of a handler: a check that throws or gives a value, and one step after another.
unfoldable pub lift {ℓ} : {A : Type ℓ} → Result A → World → Result A × World
lift m w = (m, w)

unfoldable pub and_then {ℓ} :
    {A : Type ℓ} {B : Type 0} → (World → Result A × World) → (A → Action B) → Action B
and_then m f w = let (r, w') = m w in elim r [ ok a ↦ f a w' | err e ↦ (err e, w') ]

-- `findUnique`, and the exception where there is no such report.
unfoldable pub find_report : ℕ → Action Report
find_report id w = elim (find id w.reports) [
  | none ↦ (err (not_found "Report not found"), w)
  | some r ↦ (ok r, w)
]

-- The effects that follow a step.
unfoldable pub emit : List Effect → Action (Unit {0})
emit es w = (ok tt, perform_all es w)
