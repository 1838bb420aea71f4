-- ===== src/Payments/Service.antt =====
-- The calls of the payments service (src/payments/payments.service.ts): who may make them, checkouts,
-- verification, webhooks and reconciliation.
mod Access
pub mod Keeps
pub mod Forged
unfoldable pub use Access.*
use fixzone_enterprise_api.Base.{
  ℕ, suc, ◌+◌, ◌*◌, String, Bool, true, false, not, ◌&&◌, ◌||◌, Option, none, some, List, [], ◌∷◌,
  ◌++◌, ◌==◌, ltb, leb, same_id, is_some, get_or, any, take, length, str_eq, str_append,
  text_length, take_chars, last_chars, is_text, Table, find, put, find_first, find_many,
  if◌then◌else◌,
}
use fixzone_enterprise_api.Base.Result.{
  Result, ok, err, Error, forbidden, not_found, bad_request, unavailable, database, ◌>>=◌, ◌>>◌,
  throw_if,
}
use fixzone_enterprise_api.Report.Types.{UserRole, org_admin, billing_admin}
use fixzone_enterprise_api.Payments.Catalog.{SubscriptionPlan, CommercialPlan}
use fixzone_enterprise_api.Payments.Books.{
  PaymentTransactionStatus, initialized, pending, processing, paid, verified, failed,
  review_required, PaymentEnvironment, live, PaymentTransaction, Organization, Receipt,
  PaymentAudit, Books, PayEnv, Trusted,
}
use fixzone_enterprise_api.Payments.Paystack.{
  Json, Platform, assert_ready, parse_webhook_event, validate_webhook_signature,
}
use fixzone_enterprise_api.Payments.Settlement.{
  same_text, resolve_active_plan, process_trusted_provider_transaction, plan_index,
}

-- `assertPlanUsableInEnvironment`
assert_plan_usable : Desk → CommercialPlan → Result (Unit {0})
assert_plan_usable desk plan = elim desk.platform.environment [
  | live ↦ throw_if (ltb plan.amount_minor 1) (unavailable "LIVE_PRICE_NOT_CONFIGURED")
  | _ ↦ ok tt
]

abbrev is_pending : PaymentTransactionStatus → Bool
is_pending pending = true
is_pending _ = false

-- The `where` of `findReusablePendingTransaction`.
abbrev pub is_reusable : Desk → ℕ → CommercialPlan → PaymentTransaction → Bool
is_reusable desk organization plan t =
    t.organization_id == organization
    && plan_index t.plan_code == plan_index plan.code
    && t.amount_minor == plan.amount_minor
    && str_eq t.currency plan.currency
    && is_pending t.status
    && leb desk.env.now (t.initialized_at + 20 * 60000)
    && is_some t.provider_authorization_url

-- The row that comes first by the time of initialization, the latest first, and then by identifier.
latest : Table PaymentTransaction → Option (ℕ × PaymentTransaction)
latest [] = none
latest ((id, t) ∷ rows) = elim (latest rows) [
  | none ↦ some (id, t)
  | some (j, s) ↦
      if ltb s.initialized_at t.initialized_at || (s.initialized_at == t.initialized_at && ltb j id)
      then some (id, t)
      else some (j, s)
]

-- `findReusablePendingTransaction`
unfoldable pub find_reusable_pending_transaction :
    Desk → ℕ → CommercialPlan → Books → Option (ℕ × PaymentTransaction)
unfolding latest
find_reusable_pending_transaction desk organization plan w =
    latest (find_many (is_reusable desk organization plan) w.transactions)

-- The row that `initializeOrganizationPayment` creates: the price is the plan's.
abbrev pub new_transaction : Desk → ℕ → ℕ → CommercialPlan → PaymentTransaction
new_transaction desk organization actor plan = record {
  organization_id = organization;
  requesting_user_id = some actor;
  environment = desk.platform.environment;
  internal_reference = desk.new_reference;
  provider_reference = none;
  provider_access_code = none;
  provider_authorization_url = none;
  plan_code = plan.code;
  amount_minor = plan.amount_minor;
  currency = plan.currency;
  status = initialized;
  initialized_at = desk.env.now;
  paid_at = none;
  verified_at = none;
  failed_at = none;
  refunded_at = none;
  provider_event_reference = none;
  last_reconciled_at = none;
  review_reason = none;
  created_at = desk.env.now;
}

abbrev pub opened : Checkout → PaymentTransaction → PaymentTransaction
opened checkout t = record t {
  status = pending;
  provider_reference = some checkout.provider_reference;
  provider_access_code = some checkout.access_code;
  provider_authorization_url = some checkout.authorization_url;
}

abbrev pub not_opened : Desk → PaymentTransaction → PaymentTransaction
not_opened desk t = record t {
  status = failed;
  failed_at = some desk.env.now;
  review_reason = some "Provider initialization failed.";
}

-- The rows that have the reference already: the two references of a transaction are unique.
abbrev is_referenced : String → Table PaymentTransaction → Bool
is_referenced reference rows = any (λ row. str_eq row.1.internal_reference reference) rows

abbrev is_provider_referenced : String → Table PaymentTransaction → Bool
is_provider_referenced reference rows =
    any (λ row. same_text row.1.provider_reference reference) rows

-- The provider's answer, or what the update of the transaction throws.
open_checkout : Desk → PaymentTransaction → Books → Result Checkout
open_checkout desk t w = do
  checkout ← desk.initialize_transaction t.internal_reference t.amount_minor t.currency
  throw_if (is_provider_referenced checkout.provider_reference w.transactions)
      (database "Unique constraint failed")
  ok checkout

-- The `try` of `initializeOrganizationPayment` and its `catch`, after the row's creation.
unfoldable pub start_checkout : Desk → RequestUser → PaymentTransaction → Call PaymentTransaction
unfolding open_checkout caller_audit write_audit
start_checkout desk user t w = elim (open_checkout desk t w) [
  | ok checkout ↦
      let t' = opened checkout t in
      (
        ok t',
        write_audit
            (caller_audit "Payment Transaction Initialized" user (some t.organization_id)
              (some desk.new_id))
            (record w { transactions = w.transactions ++ (desk.new_id, t') ∷ [] }),
      )
  | err e ↦ (
    err e,
    write_audit
        (caller_audit "Payment Provider Initialization Failed" user (some t.organization_id)
          (some desk.new_id))
        (record w { transactions = w.transactions ++ (desk.new_id, not_opened desk t) ∷ [] }),
  )
]

-- The checks of `initializeOrganizationPayment` behind the caller's authority: the plan, and the
-- identifier of the acting user.
checkout_checks : Desk → ℕ → String → RequestUser → Books → Result CommercialPlan
unfolding assert_plan_usable
checkout_checks desk organization code user w = do
  plan ← resolve_active_plan desk.env code
  assert_plan_usable desk plan
  assert_ready desk.platform
  throw_if (not (is_some (find organization w.organizations))) (not_found "Organization not found")
  throw_if (not (elim (find user.sub desk.emails) [ none ↦ false | some email ↦ is_text email ]))
      (bad_request "BILLING_EMAIL_REQUIRED")
  ok plan

-- A new transaction for the plan, where its reference and the address of the callback are fine.
unfoldable pub new_checkout : Desk → ℕ → RequestUser → CommercialPlan → Call PaymentTransaction
new_checkout desk organization user plan w = elim (desk.callback_url desk.new_reference) [
  | err e ↦ (err e, w)
  | ok _ ↦
      if is_referenced desk.new_reference w.transactions
      then (err (database "Unique constraint failed"), w)
      else start_checkout desk user (new_transaction desk organization user.sub plan) w
]

-- The checkout that is open already, or a new one.
unfoldable pub offer_checkout :
    Desk → ℕ → RequestUser → Result CommercialPlan → Call PaymentTransaction
offer_checkout desk organization user (err e) w = (err e, w)
offer_checkout desk organization user (ok plan) w =
    elim (find_reusable_pending_transaction desk organization plan w) [
      | some (id, t) ↦ (ok t, w)
      | none ↦ new_checkout desk organization user plan w
    ]

-- `initializeOrganizationPayment`; it answers the transaction of the checkout.
unfoldable pub initialize_organization_payment :
    Desk → ℕ → String → RequestUser → Call PaymentTransaction
unfolding offer_checkout checkout_checks
initialize_organization_payment desk organization code user w =
    let (answer, w') = assert_billing_authority desk organization user w in
    elim answer [
      | err e ↦ (err e, w')
      | ok _ ↦
          offer_checkout desk organization user (checkout_checks desk organization code user w') w'
    ]

-- The `where` of a lookup by an organization's reference.
abbrev pub is_referred : ℕ → String → PaymentTransaction → Bool
is_referred organization reference t =
    t.organization_id == organization && str_eq t.internal_reference reference

-- `transaction.providerReference ?? transaction.internalReference`
abbrev pub asked_reference : PaymentTransaction → String
asked_reference t = get_or t.provider_reference t.internal_reference

-- What the provider says of a transaction, settled.
unfoldable pub ask_provider : Desk → PaymentTransaction → Call PaymentTransaction
ask_provider desk t w = elim (desk.retrieve (asked_reference t)) [
  | err e ↦ (err e, w)
  | ok trusted ↦ process_trusted_provider_transaction desk.env trusted none w
]

unfoldable pub settle_found : Desk → Option (ℕ × PaymentTransaction) → Call PaymentTransaction
settle_found desk none w = (err (not_found "Transaction not found"), w)
settle_found desk (some (id, t)) w = ask_provider desk t w

-- `verifyTransaction`
unfoldable pub verify_transaction : Desk → ℕ → String → RequestUser → Call PaymentTransaction
unfolding settle_found
verify_transaction desk organization reference user w =
    let (answer, w') = assert_billing_reader desk organization user w in
    elim answer [
      | err e ↦ (err e, w')
      | ok _ ↦
          settle_found desk (find_first (is_referred organization reference) w'.transactions) w'
    ]

pub rejected_webhook : PaymentAudit
rejected_webhook = record {
  actor_id = none;
  actor_role = none;
  organization_id = none;
  action = "Payment Webhook Rejected";
  entity_id = none;
}

-- The event of a webhook, or what its body is refused with.
unfoldable pub deliver :
    Desk → Result (String × Option Trusted) → Call (Option PaymentTransactionStatus)
deliver desk (err e) w = (err e, w)
deliver desk (ok (event_id, none)) w = (ok none, w)
deliver desk (ok (event_id, some trusted)) w =
    let (answer, w') = process_trusted_provider_transaction desk.env trusted (some event_id) w in
    elim answer [ err e ↦ (err e, w') | ok t ↦ (ok (some t.status), w') ]

-- `handlePaystackWebhook`: the status of the transaction, or `none` for an event that is ignored.
-- `parse` is `JSON.parse`.
unfoldable pub handle_paystack_webhook :
    Desk → (String → Result Json) → String → Option String → Call (Option PaymentTransactionStatus)
unfolding rejected_webhook write_audit deliver
handle_paystack_webhook desk parse raw_body signature w =
    if not (validate_webhook_signature desk.platform raw_body signature)
    then (err (forbidden "Invalid webhook signature"), write_audit rejected_webhook w)
    else deliver desk (parse raw_body >>= parse_webhook_event desk.platform) w

-- `maskReference`
unfoldable pub mask_reference : Option String → Option String
mask_reference none = none
mask_reference (some reference) =
    if not (is_text (some reference))
    then none
    else if leb (text_length reference) 8
    then some "****"
    else some (str_append (take_chars 4 reference) (str_append "..." (last_chars 4 reference)))
