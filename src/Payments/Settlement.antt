-- ===== src/Payments/Settlement.antt =====
-- What a trusted message of the provider does to the books: `processTrustedProviderTransaction`,
-- `paymentMismatch` and `fulfillPayment` (src/payments/payments.service.ts).
mod Updates
pub mod Cases
pub mod Grants
pub mod Final
pub mod Again
pub mod Balance
unfoldable pub use Updates.*
use fixzone_enterprise_api.Base.{
  ℕ, String, Bool, true, false, not, ◌&&◌, ◌||◌, Option, none, some, List, [], ◌∷◌, ◌++◌, map, ◌==◌,
  same_id, or_else, get_or, any, str_eq, str_append, last_chars, Table, find, put, find_first,
  update_many, upsert, if◌then◌else◌, is_some, keys_of, take,
}
use fixzone_enterprise_api.Base.Result.{Result, ok, err, bad_request, not_found, database}
use fixzone_enterprise_api.Report.Types.{UserRole, org_admin, billing_admin}
use fixzone_enterprise_api.Report.Model.{User}
use fixzone_enterprise_api.Payments.Catalog.{
  SubscriptionPlan, BillingInterval, month, year, CommercialPlan, plan_name, resolve_payment_plan,
}
use fixzone_enterprise_api.Payments.Books.{
  PaymentTransactionStatus, processing, paid, failed, refunded, review_required, BillingStatus,
  OrganizationSubscriptionStatus, UpgradeRequestStatus, completed, PaymentTransaction, Organization,
  Subscription, Receipt, UpgradeRequest, PaymentAudit, PaymentNotice, Books, PayEnv, Trusted,
  is_settled,
}

-- `a === b` on texts of which the first may be missing.
abbrev pub same_text : Option String → String → Bool
same_text none b = false
same_text (some a) b = str_eq a b

-- The `where` of the lookup.
abbrev pub concerns : Trusted → PaymentTransaction → Bool
concerns trusted t =
    str_eq t.internal_reference trusted.internal_reference
    || same_text t.provider_reference trusted.provider_reference

abbrev same_amount : Option ℕ → ℕ → Bool
same_amount none b = false
same_amount (some a) b = a == b

-- `paymentMismatch`
unfoldable pub payment_mismatch : PaymentTransaction → Trusted → Option String
payment_mismatch t trusted =
    if not (same_amount trusted.amount_minor t.amount_minor)
    then some "amount_mismatch"
    else if not (str_eq trusted.currency t.currency)
    then some "currency_mismatch"
    else if not (str_eq t.internal_reference trusted.internal_reference)
        && not (same_text t.provider_reference trusted.provider_reference)
    then some "reference_mismatch"
    else none

-- What `fulfillPayment` writes, once the plan and the organization are found.
unfoldable pub fulfilled :
    PayEnv
    → ℕ
    → PaymentTransaction
    → CommercialPlan
    → Organization
    → PaymentTransaction
    → Books
    → Books
unfolding activation_notice payment_audit
fulfilled env id t plan organization t' w = record {
  transactions = put id t' w.transactions;
  organizations = put t.organization_id (subscribed env plan organization) w.organizations;
  subscriptions =
      upsert id (new_subscription env plan t.organization_id)
        (λ s. record s { entitlement_applied_at = env.now }) w.subscriptions;
  receipts = upsert id (new_receipt env plan organization t') (λ r. r) w.receipts;
  upgrade_requests =
      update_many (asks_for t.organization_id plan.code) (completed_request env) w.upgrade_requests;
  notices =
      w.notices
      ++ map (activation_notice organization)
          (take 50 (keys_of (is_billing_user t.organization_id) env.users));
  audit_log =
      w.audit_log ++ payment_audit "Payment Fulfillment Completed" t.organization_id id ∷ [];
}

-- `fulfillPayment`, in a database transaction: what throws, a plan that is not on sale, an
-- organization that is not there or a receipt number that is taken, leaves the books as they were.
unfoldable pub fulfill_payment :
    PayEnv
    → ℕ
    → PaymentTransaction
    → Trusted
    → Option String
    → Books
    → Result PaymentTransaction × Books
unfolding fulfilled
fulfill_payment env id t trusted event w = elim (resolve_active_plan env (plan_name t.plan_code)) [
  | err e ↦ (err e, w)
  | ok plan ↦ elim (find t.organization_id w.organizations) [
    | none ↦ (err (database "No record was found for an update"), w)
    | some organization ↦
        if is_numbered (receipt_number env t.internal_reference) w.receipts
          && not (is_some (find id w.receipts))
        then (err (database "Unique constraint failed"), w)
        else let t' = paid_by env trusted event t in
          (ok t', fulfilled env id t plan organization t' w)
  ]
]

-- The update of a transaction whose message does not fit it.
abbrev pub reviewed :
    PayEnv → Trusted → Option String → String → PaymentTransaction → PaymentTransaction
reviewed env trusted event mismatch t = record t {
  status = review_required;
  provider_event_reference = or_else event trusted.event_id;
  review_reason = some mismatch;
  last_reconciled_at = some env.now;
}

abbrev recorded_status : PaymentTransactionStatus → PaymentTransactionStatus
recorded_status refunded = refunded
recorded_status failed = failed
recorded_status _ = processing

abbrev is_failed : PaymentTransactionStatus → Bool
is_failed failed = true
is_failed _ = false

abbrev is_refunded : PaymentTransactionStatus → Bool
is_refunded refunded = true
is_refunded _ = false

-- The update of a transaction whose message is not a payment.
abbrev pub recorded : PayEnv → Trusted → Option String → PaymentTransaction → PaymentTransaction
recorded env trusted event t =
    let status = recorded_status trusted.status in
    record t {
      status = status;
      failed_at = if is_failed status then some env.now else t.failed_at;
      refunded_at = if is_refunded status then some env.now else t.refunded_at;
      provider_event_reference = or_else event trusted.event_id;
      last_reconciled_at = some env.now;
    }

abbrev pub is_paid : PaymentTransactionStatus → Bool
is_paid paid = true
is_paid _ = false

-- The body of the database transaction, on the row that it reads.
unfoldable pub settle :
    PayEnv
    → ℕ
    → PaymentTransaction
    → Trusted
    → Option String
    → Books
    → Result PaymentTransaction × Books
unfolding payment_audit
settle env id t trusted event w =
    if is_settled t.status then (ok t, w) else elim (payment_mismatch t trusted) [
      | some mismatch ↦
          let t' = reviewed env trusted event mismatch t in
          (
            ok t',
            record w {
              transactions = put id t' w.transactions;
              audit_log =
                  w.audit_log ++ payment_audit "Payment Review Required" t.organization_id id ∷ [];
            },
          )
      | none ↦
          if is_paid trusted.status
          then fulfill_payment env id t trusted event w
          else let t' = recorded env trusted event t in
            (ok t', record w { transactions = put id t' w.transactions })
    ]

-- `processTrustedProviderTransaction`; `event` is the identifier of the webhook's event.
unfoldable pub process_trusted_provider_transaction :
    PayEnv → Trusted → Option String → Books → Result PaymentTransaction × Books
process_trusted_provider_transaction env trusted event w =
    elim (find_first (concerns trusted) w.transactions) [
      | none ↦ (err (not_found "Transaction not found"), w)
      | some (id, _) ↦ elim (find id w.transactions) [
        | none ↦ (err (not_found "Transaction not found"), w)
        | some t ↦ settle env id t trusted event w
      ]
    ]
