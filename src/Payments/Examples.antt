-- ===== src/Payments/Examples.antt =====
-- A small shop on which the theorems on payments are applied: an organization with a transaction that
-- is not paid, and a message that reports its payment.
use fixzone_enterprise_api.Base.{
  ◌+◌, ◌≡◌, refl, ◌⊎◌, inl, inr, String, true, none, some, [], ◌∷◌, HasDistinctKeys, find, trim,
  find_first, find_many, put, upsert, update_many, Bool-cases, ◌==◌,
}
use fixzone_enterprise_api.Base.Result.{Result, ok, err, forbidden}
use fixzone_enterprise_api.Report.Types.{UserRole}
use fixzone_enterprise_api.Payments.Catalog.{SubscriptionPlan, resolve_payment_plan}
use fixzone_enterprise_api.Payments.Books.{
  PaymentTransactionStatus, PaymentEnvironment, BillingStatus, PaymentTransaction, Organization,
  Books, PayEnv, Trusted,
}
use fixzone_enterprise_api.Payments.Paystack.{Json, null}
use fixzone_enterprise_api.Payments.Paystack.Signatures.{Signed}
use fixzone_enterprise_api.Payments.Settlement.{
  paid_by, payment_mismatch, resolve_active_plan, fulfill_payment, settle,
  process_trusted_provider_transaction,
}
use fixzone_enterprise_api.Payments.Settlement.Grants.{Grants, process-Grants}
use fixzone_enterprise_api.Payments.Settlement.Again.{process_twice}
use fixzone_enterprise_api.Payments.Settlement.Final.{entry}
use fixzone_enterprise_api.Payments.Settlement.Balance.{IsBalanced}
use fixzone_enterprise_api.Payments.Service.{
  RequestUser, Desk, write_audit, rejected_webhook, handle_paystack_webhook, ask_provider,
}
use fixzone_enterprise_api.Payments.Service.Forged.{handle_paystack_webhook-Signed}
use fixzone_enterprise_api.Payments.Reconcile.{
  batch_size, candidates, count_answer, reconcile_each, reconcile_pending,
}
use fixzone_enterprise_api.Payments.Calls.{buy, reconcile, serve_payment}
use fixzone_enterprise_api.Payments.Calls.Served.{
  Reaches, start, after, Reaches-IsBalanced, Reaches-entry,
}

abbrev shop : PayEnv
shop = record {
  now = 100000;
  users = [];
  add_month = λ t. t + 30;
  add_year = λ t. t + 365;
  upper = λ s. s;
}

abbrev buyer : Organization
buyer = record {
  name = "Buyer";
  subscription_plan = SubscriptionPlan.free;
  billing_status = BillingStatus.trial;
  subscription_start_at = none;
  subscription_end_at = none;
  entitlements = record {
    allowed_users = none;
    allowed_providers = none;
    allowed_reports_per_month = none;
    allowed_storage_mb = none;
    enabled_modules = [];
  };
}

abbrev order : PaymentTransaction
order = record {
  organization_id = 7;
  requesting_user_id = some 3;
  environment = PaymentEnvironment.test;
  internal_reference = "FZ-1";
  provider_reference = some "PSK-1";
  provider_access_code = none;
  provider_authorization_url = none;
  plan_code = SubscriptionPlan.starter;
  amount_minor = 500000;
  currency = "NGN";
  status = PaymentTransactionStatus.pending;
  initialized_at = 1;
  paid_at = none;
  verified_at = none;
  failed_at = none;
  refunded_at = none;
  provider_event_reference = none;
  last_reconciled_at = none;
  review_reason = none;
  created_at = 1;
}

abbrev books : Books
books = record {
  transactions = (1, order) ∷ [];
  organizations = (7, buyer) ∷ [];
  subscriptions = [];
  receipts = [];
  upgrade_requests = [];
  notices = [];
  audit_log = [];
}

abbrev payment : PaymentTransactionStatus → Trusted
payment status = record {
  provider_reference = "PSK-1";
  internal_reference = "FZ-1";
  status = status;
  amount_minor = some 500000;
  currency = "NGN";
  paid_at = none;
  event_id = none;
}

abbrev desk : Desk
desk = record {
  env = shop;
  platform = record {
    lower = λ s. s;
    upper = λ s. s;
    to_number = λ _. none;
    parse_date = λ _. none;
    hmac_hex = λ _ s. s;
    from_hex = λ _. 1 ∷ [];
    secret_key = some "key";
    payments_enabled = true;
    environment = PaymentEnvironment.test;
    is_test_key = λ _. true;
  };
  has_permission = λ _ _ _. true;
  may_reconcile = λ _. ok tt;
  initialize_transaction = λ _ _ _. err (forbidden "no provider");
  retrieve = λ _. ok (payment PaymentTransactionStatus.paid);
  emails = [];
  callback_url = λ s. ok s;
  new_id = 2;
  new_reference = "FZ-2";
  batch_size = 10;
  min_age_minutes = 0;
}

abbrev clerk : RequestUser
clerk = record { sub = 3; role = some UserRole.org_admin; organization_id = some 7 }

one_row : HasDistinctKeys books.transactions
unfolding find
one_row = (refl, tt)

process-Grants_example :
    (after : Organization) × (find 7
        (process_trusted_provider_transaction shop
          (payment PaymentTransactionStatus.paid)
          none
          books).1.organizations
      ≡ some after)
    × ((after ≡ buyer) ⊎ Grants shop (payment PaymentTransactionStatus.paid) books 7 buyer after)
unfolding find
process-Grants_example =
    process-Grants shop (payment PaymentTransactionStatus.paid) none books 7 buyer refl one_row

abbrev settled_books : Books
settled_books =
    (process_trusted_provider_transaction shop (payment PaymentTransactionStatus.paid) none books).1

handle_paystack_webhook-Signed_example :
    Signed desk.platform "body" none
    ⊎ (handle_paystack_webhook desk (λ _. ok null) "body" none books
        ≡ (err (forbidden "Invalid webhook signature"), write_audit rejected_webhook books))
handle_paystack_webhook-Signed_example =
    handle_paystack_webhook-Signed desk (λ _. ok null) "body" none books

abbrev bought : PaymentTransaction
bought = paid_by shop (payment PaymentTransactionStatus.paid) none order

answering :
    (process_trusted_provider_transaction shop (payment PaymentTransactionStatus.paid) none books).0
    ≡ ok bought
unfolding process_trusted_provider_transaction settle payment_mismatch fulfill_payment
    resolve_active_plan resolve_payment_plan trim find find_first
answering = refl

process_twice_example :
    process_trusted_provider_transaction shop
      (payment PaymentTransactionStatus.refunded)
      (some "evt")
      settled_books
    ≡ (ok bought, settled_books)
process_twice_example =
    process_twice shop (payment PaymentTransactionStatus.paid)
      (payment PaymentTransactionStatus.refunded) none (refl, refl) shop (some "evt") books bought
      one_row answering refl

balanced : IsBalanced books
unfolding find
balanced id = elim (Bool-cases (1 == id)) [ inl e ↦ rw e refl | inr e ↦ rw e tt ]

abbrev parse : String → Result Json
parse _ = ok null

abbrev reconciled : Books
reconciled = serve_payment desk parse (reconcile none clerk) books

unused_id : find desk.new_id books.transactions ≡ none
unfolding find
unused_id = refl

reconciling : Reaches books reconciled
reconciling = after desk parse (reconcile none clerk) start unused_id

Reaches-IsBalanced_example : HasDistinctKeys reconciled.transactions × IsBalanced reconciled
Reaches-IsBalanced_example = Reaches-IsBalanced books reconciled reconciling one_row balanced

settling : find 1 reconciled.transactions ≡ some bought
unfolding serve_payment reconcile_pending candidates batch_size reconcile_each ask_provider
    count_answer write_audit process_trusted_provider_transaction settle payment_mismatch
    fulfill_payment resolve_active_plan resolve_payment_plan trim find find_first find_many put
    upsert update_many
settling = refl

still_unused : find desk.new_id reconciled.transactions ≡ none
unfolding serve_payment reconcile_pending candidates batch_size reconcile_each ask_provider
    count_answer write_audit process_trusted_provider_transaction settle payment_mismatch
    fulfill_payment resolve_active_plan resolve_payment_plan trim find find_first find_many put
    upsert update_many
still_unused = refl

abbrev bought_again : Books
bought_again = serve_payment desk parse (buy 7 "STARTER" clerk) reconciled

Reaches-entry_example : entry bought_again 1 ≡ entry reconciled 1
Reaches-entry_example =
    Reaches-entry reconciled bought_again 1 bought
      (after desk parse (buy 7 "STARTER" clerk) start still_unused)
      (Reaches-IsBalanced books reconciled reconciling one_row balanced).0
      (Reaches-IsBalanced books reconciled reconciling one_row balanced).1 settling refl

counting :
    (reconcile_pending desk none clerk books).0
    ≡ ok (record { scanned = 1; recovered = 1; review_required = 0; provider_failed = 0 })
unfolding reconcile_pending candidates batch_size reconcile_each ask_provider count_answer
    process_trusted_provider_transaction settle payment_mismatch fulfill_payment resolve_active_plan
    resolve_payment_plan trim find find_first find_many
counting = refl
