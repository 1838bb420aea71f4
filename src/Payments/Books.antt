-- ===== src/Payments/Books.antt =====
-- The tables that payments read and write (prisma/schema.prisma), and what a call of the payments
-- service reads beside them. The metadata of transactions and audit rows is left out.
use fixzone_enterprise_api.Base.{ℕ, String, Bool, Option, List, Table}
use fixzone_enterprise_api.Report.Types.{UserRole}
use fixzone_enterprise_api.Report.Model.{User}
use fixzone_enterprise_api.Payments.Catalog.{SubscriptionPlan, PlanEntitlements}

pub data PaymentTransactionStatus : Type 0 where
  initialized pending processing paid verified failed abandoned expired : PaymentTransactionStatus
  refunded review_required : PaymentTransactionStatus

pub data PaymentEnvironment : Type 0 where
  test live : PaymentEnvironment

pub data BillingStatus : Type 0 where
  trial active past_due suspended cancelled : BillingStatus

pub data OrganizationSubscriptionStatus : Type 0 where
  trial active past_due suspended cancelled expired : OrganizationSubscriptionStatus

pub data UpgradeRequestStatus : Type 0 where
  pending approved rejected cancelled completed : UpgradeRequestStatus

pub record PaymentTransaction : Type 0 where
  pub organization_id : ℕ
  pub requesting_user_id : Option ℕ
  pub environment : PaymentEnvironment
  pub internal_reference : String
  pub provider_reference : Option String
  pub provider_access_code : Option String
  pub provider_authorization_url : Option String
  pub plan_code : SubscriptionPlan
  pub amount_minor : ℕ
  pub currency : String
  pub status : PaymentTransactionStatus
  pub initialized_at : ℕ
  pub paid_at : Option ℕ
  pub verified_at : Option ℕ
  pub failed_at : Option ℕ
  pub refunded_at : Option ℕ
  pub provider_event_reference : Option String
  pub last_reconciled_at : Option ℕ
  pub review_reason : Option String
  pub created_at : ℕ

-- The columns of an organization that a payment reads or writes.
pub record Organization : Type 0 where
  pub name : String
  pub subscription_plan : SubscriptionPlan
  pub billing_status : BillingStatus
  pub subscription_start_at : Option ℕ
  pub subscription_end_at : Option ℕ
  pub entitlements : PlanEntitlements

-- A row of `organizationSubscription`; it stands under its source transaction, which is unique.
pub record Subscription : Type 0 where
  pub organization_id : ℕ
  pub plan_code : SubscriptionPlan
  pub status : OrganizationSubscriptionStatus
  pub current_period_start_at : ℕ
  pub current_period_end_at : ℕ
  pub entitlement_applied_at : ℕ

-- A row of `paymentReceipt`; it stands under its transaction, which is unique.
pub record Receipt : Type 0 where
  pub organization_id : ℕ
  pub receipt_number : String
  pub paid_at : ℕ
  pub organization_name : String
  pub plan_code : SubscriptionPlan
  pub plan_name_key : String
  pub amount_minor : ℕ
  pub currency : String
  pub provider_reference : Option String

pub record UpgradeRequest : Type 0 where
  pub organization_id : ℕ
  pub requested_plan : SubscriptionPlan
  pub status : UpgradeRequestStatus
  pub completed_at : Option ℕ
  pub review_note : Option String

-- A row of `complianceAuditLog`.
pub record PaymentAudit : Type 0 where
  pub actor_id : Option ℕ
  pub actor_role : Option UserRole
  pub organization_id : Option ℕ
  pub action : String
  pub entity_id : Option ℕ

-- A row of `notification`.
pub record PaymentNotice : Type 0 where
  pub user_id : ℕ
  pub kind : String
  pub title : String
  pub message : String

pub record Books : Type 0 where
  pub transactions : Table PaymentTransaction
  pub organizations : Table Organization
  pub subscriptions : Table Subscription
  pub receipts : Table Receipt
  pub upgrade_requests : Table UpgradeRequest
  pub notices : List PaymentNotice
  pub audit_log : List PaymentAudit

-- What a call reads and does not change: its clock, the users, `Date` moved by a billing interval,
-- and `String.prototype.toUpperCase`.
pub record PayEnv : Type 0 where
  pub now : ℕ
  pub users : Table User
  pub add_month : ℕ → ℕ
  pub add_year : ℕ → ℕ
  pub upper : String → String

-- `NormalizedProviderTransaction`: a message of the payment provider that is trusted. The amount is
-- `none` where the provider's number is no natural number, and so equal to no amount of ours.
pub record Trusted : Type 0 where
  pub provider_reference : String
  pub internal_reference : String
  pub status : PaymentTransactionStatus
  pub amount_minor : Option ℕ
  pub currency : String
  pub paid_at : Option ℕ
  pub event_id : Option String

abbrev pub is_settled : PaymentTransactionStatus → Bool
is_settled paid = Bool.true
is_settled verified = Bool.true
is_settled _ = Bool.false
