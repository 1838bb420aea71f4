-- ===== src/Admin/Scopes.antt =====
-- The scope of a grant (src/internal-admin/internal-admin.service.ts): what a request asks for, and what
-- the metadata of an invitation has.
use fixzone_enterprise_api.Base.{
  ℕ, String, Bool, false, not, ◌&&◌, Option, none, some, is_id, or_else, ◌==◌, str_eq, is_empty,
  trimmed, if◌then◌else◌,
}
use fixzone_enterprise_api.Base.Result.{Result, ok, err, forbidden, bad_request}
use fixzone_enterprise_api.Admin.Catalog.{
  InternalScopeType, platform_scope, module_scope, organization_scope, jurisdiction_scope,
}
use fixzone_enterprise_api.Admin.Office.{InternalAdminUser, InternalScope, AdminEnv}

abbrev scope_type_named : String → Option InternalScopeType
scope_type_named text =
    if str_eq text "PLATFORM"
    then some platform_scope
    else if str_eq text "MODULE"
    then some module_scope
    else if str_eq text "ORGANIZATION"
    then some organization_scope
    else if str_eq text "JURISDICTION"
    then some jurisdiction_scope
    else none

-- The parts of a request that say its scope.
pub record ScopeRequest : Type 0 where
  pub scope_type : Option String
  pub scope_ref : Option ℕ
  pub organization_id : Option ℕ
  pub module_key : Option String

-- `normalizeText` on an identifier.
abbrev pub normal_id : Option ℕ → Option ℕ
normal_id none = none
normal_id (some id) = if is_id (some id) then some id else none

abbrev chosen_type : AdminEnv → Option String → InternalScopeType → Option InternalScopeType
chosen_type env none fallback = some fallback
chosen_type env (some text) fallback =
    if is_empty text
    then some fallback
    else elim (trimmed (some text)) [ none ↦ none | some s ↦ scope_type_named (env.upper s) ]

abbrev pub widens : Option ℕ → Option ℕ → Bool
widens (some own) (some asked) = is_id (some own) && not (asked == own)
widens _ _ = false

-- `resolveScope`
unfoldable pub resolve_scope :
    AdminEnv → ScopeRequest → InternalScopeType → InternalAdminUser → Result InternalScope
resolve_scope env request fallback user = elim (chosen_type env request.scope_type fallback) [
  | none ↦ err (bad_request "Invalid internal admin scope type.")
  | some type ↦
      if widens user.organization_id (normal_id request.organization_id)
      then err (forbidden "Cannot widen scope outside actor organization.")
      else ok (record {
        type = type;
        reference = normal_id request.scope_ref;
        organization_id = or_else (normal_id request.organization_id) user.organization_id;
        module_key = trimmed request.module_key;
      })
]

-- `scopeFromMetadata`
abbrev pub scope_from_metadata : Option InternalScope → InternalScope
scope_from_metadata none = record {
  type = platform_scope;
  reference = none;
  organization_id = none;
  module_key = none;
}
scope_from_metadata (some scope) = record scope {
  reference = normal_id scope.reference;
  organization_id = normal_id scope.organization_id;
  module_key = trimmed scope.module_key;
}
