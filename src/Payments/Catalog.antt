-- ===== src/Payments/Catalog.antt =====
-- src/payments/plan-catalog.ts: the plans that can be bought. The provider's references of the plans
-- come from the process environment, and are left out.
pub mod Codes
use fixzone_enterprise_api.Base.{
  ℕ, String, Bool, true, false, Option, none, some, List, [], ◌∷◌, str_eq, trim, if◌then◌else◌,
}

pub data SubscriptionPlan : Type 0 where
  free demo starter professional government enterprise : SubscriptionPlan

pub data BillingInterval : Type 0 where
  month year : BillingInterval

-- The text of each member of the enumeration.
abbrev pub plan_name : SubscriptionPlan → String
plan_name free = "FREE"
plan_name demo = "DEMO"
plan_name starter = "STARTER"
plan_name professional = "PROFESSIONAL"
plan_name government = "GOVERNMENT"
plan_name enterprise = "ENTERPRISE"

-- `PlanEntitlements`; `none` is an unlimited number.
pub record PlanEntitlements : Type 0 where
  pub allowed_users : Option ℕ
  pub allowed_providers : Option ℕ
  pub allowed_reports_per_month : Option ℕ
  pub allowed_storage_mb : Option ℕ
  pub enabled_modules : List String

-- `CommercialPlan`
pub record CommercialPlan : Type 0 where
  pub code : SubscriptionPlan
  pub display_name_key : String
  pub billing_interval : BillingInterval
  pub currency : String
  pub amount_minor : ℕ
  pub active : Bool
  pub entitlements : PlanEntitlements

abbrev maintenance_only_modules : List String
maintenance_only_modules = "MAINTENANCE_SERVICES" ∷ []

abbrev limits : ℕ → ℕ → ℕ → ℕ → PlanEntitlements
limits users providers reports storage = record {
  allowed_users = some users;
  allowed_providers = some providers;
  allowed_reports_per_month = some reports;
  allowed_storage_mb = some storage;
  enabled_modules = maintenance_only_modules;
}

abbrev unlimited : PlanEntitlements
unlimited = record {
  allowed_users = none;
  allowed_providers = none;
  allowed_reports_per_month = none;
  allowed_storage_mb = none;
  enabled_modules = maintenance_only_modules;
}

-- A plan by the month, in naira.
abbrev monthly : SubscriptionPlan → String → ℕ → Bool → PlanEntitlements → CommercialPlan
monthly code name amount active entitlements = record {
  code = code;
  display_name_key = name;
  billing_interval = month;
  currency = "NGN";
  amount_minor = amount;
  active = active;
  entitlements = entitlements;
}

-- `paymentPlanCatalog`
unfoldable pub payment_plan_catalog : List CommercialPlan
payment_plan_catalog =
    monthly starter "billing.plan.starter.name" 500000 true (limits 10 5 200 1024)
    ∷ monthly professional "billing.plan.professional.name" 2500000 true (limits 50 25 2000 10240)
    ∷ monthly government "billing.plan.government.name" 10000000 true (limits 250 100 10000 102400)
    ∷ monthly enterprise "billing.plan.enterprise.name" 25000000 false unlimited
    ∷ []

unfoldable pub plan_coded : String → List CommercialPlan → Option CommercialPlan
plan_coded text [] = none
plan_coded text (p ∷ ps) = if str_eq (plan_name p.code) text then some p else plan_coded text ps

-- `resolvePaymentPlan`; `upper` is `String.prototype.toUpperCase`.
unfoldable pub resolve_payment_plan : (String → String) → String → Option CommercialPlan
unfolding plan_coded payment_plan_catalog
resolve_payment_plan upper code = plan_coded (upper (trim code)) payment_plan_catalog
