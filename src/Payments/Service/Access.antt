-- ===== src/Payments/Service/Access.antt =====
-- Who calls the payments service, with what, and who may do so: `assertBillingReader` and
-- `assertBillingAuthority` (src/payments/payments.service.ts).
use fixzone_enterprise_api.Base.{
  ℕ, String, Bool, true, false, ◌&&◌, ◌||◌, Option, none, some, [], ◌∷◌, ◌++◌, same_id, Table,
  if◌then◌else◌,
}
use fixzone_enterprise_api.Base.Result.{Result, ok, err, forbidden}
use fixzone_enterprise_api.Report.Types.{UserRole, org_admin, billing_admin}
use fixzone_enterprise_api.Payments.Books.{PaymentAudit, Books, PayEnv, Trusted}
use fixzone_enterprise_api.Payments.Paystack.{Platform}

-- `RequestUser`
pub record RequestUser : Type 0 where
  pub sub : ℕ
  pub role : Option UserRole
  pub organization_id : Option ℕ

-- `PaymentInitializationResult`
pub record Checkout : Type 0 where
  pub authorization_url : String
  pub access_code : String
  pub provider_reference : String

-- What the calls use beside the settlement's surroundings: the permissions of the internal
-- administration, the provider's requests (what it is asked for is the reference, the amount and the
-- currency), the users' addresses, the settings, and the fresh values that a call draws.
pub record Desk : Type 0 where
  pub env : PayEnv
  pub platform : Platform
  pub has_permission : RequestUser → String → ℕ → Bool
  pub may_reconcile : RequestUser → Result (Unit {0})
  pub initialize_transaction : String → ℕ → String → Result Checkout
  pub retrieve : String → Result Trusted
  pub emails : Table (Option String)
  pub callback_url : String → Result String
  pub new_id : ℕ
  pub new_reference : String
  pub batch_size : ℕ
  pub min_age_minutes : ℕ

abbrev pub Call : Type 0 → Type 0
Call A = Books → Result A × Books

unfoldable pub caller_audit : String → RequestUser → Option ℕ → Option ℕ → PaymentAudit
caller_audit action user organization id = record {
  actor_id = some user.sub;
  actor_role = user.role;
  organization_id = organization;
  action = action;
  entity_id = id;
}

-- `audit`
unfoldable pub write_audit : PaymentAudit → Books → Books
write_audit entry w = record w { audit_log = w.audit_log ++ entry ∷ [] }

abbrev pub is_billing_role : Option UserRole → Bool
is_billing_role (some org_admin) = true
is_billing_role (some billing_admin) = true
is_billing_role _ = false

abbrev pub is_own_billing : RequestUser → ℕ → Bool
is_own_billing user organization =
    is_billing_role user.role && same_id user.organization_id (some organization)

unfoldable pub denied : RequestUser → ℕ → String → Books → Result (Unit {0}) × Books
unfolding caller_audit write_audit
denied user organization message w = (
  err (forbidden message),
  write_audit (caller_audit "Payment Authorization Denied" user (some organization) none) w,
)

-- `assertBillingReader`
unfoldable pub assert_billing_reader : Desk → ℕ → RequestUser → Call (Unit {0})
unfolding denied
assert_billing_reader desk organization user w =
    if is_own_billing user organization
      || desk.has_permission user "payment.transaction_read" organization
    then (ok tt, w)
    else denied user organization "Access denied" w

-- `assertBillingAuthority`
unfoldable pub assert_billing_authority : Desk → ℕ → RequestUser → Call (Unit {0})
unfolding denied
assert_billing_authority desk organization user w =
    let (answer, w') = assert_billing_reader desk organization user w in
    elim answer [
      | err e ↦ (err e, w')
      | ok _ ↦
          if is_own_billing user organization
            || desk.has_permission user "payment.plan_read" organization
          then (ok tt, w')
          else denied user organization "Unauthorized billing action" w'
    ]
