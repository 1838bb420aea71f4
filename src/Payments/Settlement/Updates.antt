-- ===== src/Payments/Settlement/Updates.antt =====
-- What a payment that is fulfilled writes to each table (src/payments/payments.service.ts).
use fixzone_enterprise_api.Base.{
  ℕ, String, Bool, true, false, ◌&&◌, Option, none, some, ◌==◌, same_id, or_else, get_or, any,
  str_eq, str_append, last_chars, Table, if◌then◌else◌,
}
use fixzone_enterprise_api.Base.Result.{Result, ok, err, bad_request}
use fixzone_enterprise_api.Report.Types.{UserRole, org_admin, billing_admin}
use fixzone_enterprise_api.Report.Model.{User}
use fixzone_enterprise_api.Payments.Catalog.{
  SubscriptionPlan, BillingInterval, month, year, CommercialPlan, resolve_payment_plan,
}
use fixzone_enterprise_api.Payments.Books.{
  paid, BillingStatus, OrganizationSubscriptionStatus, UpgradeRequestStatus, completed,
  PaymentTransaction, Organization, Subscription, Receipt, UpgradeRequest, PaymentAudit,
  PaymentNotice, PayEnv, Trusted,
}

-- `resolveActivePlan`
unfoldable pub resolve_active_plan : PayEnv → String → Result CommercialPlan
resolve_active_plan env code = elim (resolve_payment_plan env.upper code) [
  | none ↦ err (bad_request "INVALID_PLAN")
  | some plan ↦ if plan.active then ok plan else err (bad_request "INVALID_PLAN")
]

-- `addBillingPeriod`
abbrev pub add_billing_period : PayEnv → BillingInterval → ℕ
add_billing_period env month = env.add_month env.now
add_billing_period env year = env.add_year env.now

-- `receiptNumber`
abbrev pub receipt_number : PayEnv → String → String
receipt_number env reference = str_append "RCPT-" (env.upper (last_chars 12 reference))

-- The update of the organization.
abbrev pub subscribed : PayEnv → CommercialPlan → Organization → Organization
subscribed env plan organization = record organization {
  subscription_plan = plan.code;
  billing_status = BillingStatus.active;
  subscription_start_at = some env.now;
  subscription_end_at = some (add_billing_period env plan.billing_interval);
  entitlements = plan.entitlements;
}

-- The update of the transaction.
abbrev pub paid_by : PayEnv → Trusted → Option String → PaymentTransaction → PaymentTransaction
paid_by env trusted event t = record t {
  status = paid;
  paid_at = some (get_or trusted.paid_at env.now);
  verified_at = some env.now;
  provider_event_reference = or_else event trusted.event_id;
  last_reconciled_at = some env.now;
}

abbrev pub new_subscription : PayEnv → CommercialPlan → ℕ → Subscription
new_subscription env plan organization = record {
  organization_id = organization;
  plan_code = plan.code;
  status = OrganizationSubscriptionStatus.active;
  current_period_start_at = env.now;
  current_period_end_at = add_billing_period env plan.billing_interval;
  entitlement_applied_at = env.now;
}

abbrev pub new_receipt : PayEnv → CommercialPlan → Organization → PaymentTransaction → Receipt
new_receipt env plan organization t = record {
  organization_id = t.organization_id;
  receipt_number = receipt_number env t.internal_reference;
  paid_at = get_or t.paid_at env.now;
  organization_name = organization.name;
  plan_code = plan.code;
  plan_name_key = plan.display_name_key;
  amount_minor = plan.amount_minor;
  currency = plan.currency;
  provider_reference = t.provider_reference;
}

-- The number of a receipt is unique: creating a second row with it fails.
abbrev pub is_numbered : String → Table Receipt → Bool
is_numbered number receipts = any (λ row. str_eq row.1.receipt_number number) receipts

abbrev pub plan_index : SubscriptionPlan → ℕ
plan_index SubscriptionPlan.free = 0
plan_index SubscriptionPlan.demo = 1
plan_index SubscriptionPlan.starter = 2
plan_index SubscriptionPlan.professional = 3
plan_index SubscriptionPlan.government = 4
plan_index SubscriptionPlan.enterprise = 5

abbrev is_requested : UpgradeRequestStatus → Bool
is_requested UpgradeRequestStatus.pending = true
is_requested _ = false

abbrev pub asks_for : ℕ → SubscriptionPlan → UpgradeRequest → Bool
asks_for organization plan request =
    request.organization_id == organization
    && plan_index request.requested_plan == plan_index plan
    && is_requested request.status

abbrev pub completed_request : PayEnv → UpgradeRequest → UpgradeRequest
completed_request env request = record request {
  status = completed;
  completed_at = some env.now;
  review_note = some "Completed by verified subscription payment.";
}

abbrev is_billing_role : UserRole → Bool
is_billing_role org_admin = true
is_billing_role billing_admin = true
is_billing_role _ = false

abbrev pub is_billing_user : ℕ → User → Bool
is_billing_user organization u =
    same_id u.organization_id (some organization) && is_billing_role u.role

unfoldable pub activation_notice : Organization → ℕ → PaymentNotice
activation_notice organization user = record {
  user_id = user;
  kind = "payment.subscription_activated";
  title = "Subscription activated";
  message = str_append organization.name " subscription is active.";
}

unfoldable pub payment_audit : String → ℕ → ℕ → PaymentAudit
payment_audit action organization id = record {
  actor_id = none;
  actor_role = none;
  organization_id = some organization;
  action = action;
  entity_id = some id;
}
