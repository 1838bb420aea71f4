-- ===== src/Payments/Service/Keeps.antt =====
-- Each call keeps what every change of the books keeps.
use fixzone_enterprise_api.Base.{
  ℕ, String, ◌≡◌, refl, inl, inr, ◌∙◌, ◌||◌, Option, none, some, Option-cases, Bool-cases, find,
  find_first,
}
use fixzone_enterprise_api.Base.Result.{Result, ok, err, Result-cases, ◌>>=◌}
use fixzone_enterprise_api.Payments.Catalog.{CommercialPlan}
use fixzone_enterprise_api.Payments.Books.{PaymentTransaction, PaymentAudit, Books, Trusted}
use fixzone_enterprise_api.Payments.Paystack.{Json, parse_webhook_event, validate_webhook_signature}
use fixzone_enterprise_api.Payments.Settlement.{process_trusted_provider_transaction}
use fixzone_enterprise_api.Payments.Advances.{
  Advances, Advances-same, Advances-trans, process-Advances, new_row-Advances,
}
use fixzone_enterprise_api.Payments.Service.{
  RequestUser, Desk, write_audit, denied, is_own_billing, assert_billing_reader,
  assert_billing_authority, new_transaction, opened, not_opened, is_referenced, open_checkout,
  start_checkout, checkout_checks, new_checkout, find_reusable_pending_transaction,
  initialize_organization_payment, is_referred, asked_reference, ask_provider, settle_found,
  deliver, offer_checkout, verify_transaction, rejected_webhook, handle_paystack_webhook,
}

-- The same transactions, receipts and subscriptions.
abbrev pub SameRows : Books → Books → Type 0
SameRows w w' =
    (w'.transactions ≡ w.transactions)
    × (w'.receipts ≡ w.receipts)
    × (w'.subscriptions ≡ w.subscriptions)

pub rows-Advances : (w w' : Books) → SameRows w w' → Advances w w'
rows-Advances w w' (e, f, g) = Advances-same w w' e f g

pub unchanged : (w : Books) → Advances w w
unchanged w = rows-Advances w w (refl, refl, refl)

write_audit-SameRows : (entry : PaymentAudit) (w : Books) → SameRows w (write_audit entry w)
unfolding write_audit
write_audit-SameRows entry w = (refl, refl, refl)

denied-SameRows :
    (user : RequestUser) (organization : ℕ) (message : String) (w : Books)
    → SameRows w (denied user organization message w).1
unfolding denied write_audit
denied-SameRows user organization message w = (refl, refl, refl)

-- The two checks of the caller write no more than the audit log.
reader-SameRows :
    (desk : Desk) (organization : ℕ) (user : RequestUser) (w : Books)
    → SameRows w (assert_billing_reader desk organization user w).1
unfolding assert_billing_reader
reader-SameRows desk organization user w =
    elim (Bool-cases (
      is_own_billing user organization
      || desk.has_permission user "payment.transaction_read" organization)) [
        | inl e ↦ rw (e, assert_billing_reader) (refl, refl, refl)
        | inr e ↦
            rw (e, assert_billing_reader) (denied-SameRows user organization "Access denied" w)
      ]

authority-SameRows :
    (desk : Desk) (organization : ℕ) (user : RequestUser) (w : Books)
    → SameRows w (assert_billing_authority desk organization user w).1
unfolding assert_billing_authority
authority-SameRows desk organization user w =
    let w' = (assert_billing_reader desk organization user w).1 in
    let (a, b, c) = reader-SameRows desk organization user w in
    let (a', b', c') = denied-SameRows user organization "Unauthorized billing action" w' in
    elim (Result-cases (assert_billing_reader desk organization user w).0) [
      | inr (e, f) ↦ rw (f, assert_billing_authority) (a, b, c)
      | inl (_, f) ↦
          elim (Bool-cases (
            is_own_billing user organization
            || desk.has_permission user "payment.plan_read" organization)) [
              | inl g ↦
                  rw (f, assert_billing_authority) (rw (g, assert_billing_authority) (a, b, c))
              | inr g ↦
                  rw (f, assert_billing_authority)
                    (rw (g, assert_billing_authority) (a' ∙ a, b' ∙ b, c' ∙ c))
            ]
    ]

pub ask_provider-Advances :
    (desk : Desk) (t : PaymentTransaction) (w : Books) → Advances w (ask_provider desk t w).1
unfolding ask_provider
ask_provider-Advances desk t w = elim (Result-cases (desk.retrieve (asked_reference t))) [
  | inl (trusted, f) ↦ rw (f, ask_provider) (process-Advances desk.env trusted none w)
  | inr (e, f) ↦ rw (f, ask_provider) (unchanged w)
]

found-Advances :
    (desk : Desk) (row : Option (ℕ × PaymentTransaction)) (w : Books)
    → Advances w (settle_found desk row w).1
unfolding settle_found
found-Advances desk none w = unchanged w
found-Advances desk (some (id, t)) w = ask_provider-Advances desk t w

pub verify-Advances :
    (desk : Desk) (organization : ℕ) (reference : String) (user : RequestUser) (w : Books)
    → Advances w (verify_transaction desk organization reference user w).1
unfolding verify_transaction
verify-Advances desk organization reference user w =
    let w' = (assert_billing_reader desk organization user w).1 in
    let step = rows-Advances w w' (reader-SameRows desk organization user w) in
    let row = find_first (is_referred organization reference) w'.transactions in
    elim (Result-cases (assert_billing_reader desk organization user w).0) [
      | inr (e, f) ↦ rw (f, verify_transaction) step
      | inl (_, f) ↦
          rw (f, verify_transaction)
            (Advances-trans w w' (settle_found desk row w').1 step (found-Advances desk row w'))
    ]

deliver-Advances :
    (desk : Desk) (event : Result (String × Option Trusted)) (w : Books)
    → Advances w (deliver desk event w).1
unfolding deliver
deliver-Advances desk (err e) w = unchanged w
deliver-Advances desk (ok (id, none)) w = unchanged w
deliver-Advances desk (ok (id, some trusted)) w =
    let step = process-Advances desk.env trusted (some id) w in
    elim (Result-cases (process_trusted_provider_transaction desk.env trusted (some id) w).0) [
      | inl (t, f) ↦ rw (f, deliver) step
      | inr (e, f) ↦ rw (f, deliver) step
    ]

pub webhook-Advances :
    (desk : Desk) (parse : String → Result Json) (raw_body : String) (signature : Option String)
    (w : Books)
    → Advances w (handle_paystack_webhook desk parse raw_body signature w).1
unfolding handle_paystack_webhook
webhook-Advances desk parse raw_body signature w =
    elim (Bool-cases (validate_webhook_signature desk.platform raw_body signature)) [
      | inl e ↦
          rw (e, handle_paystack_webhook)
            (deliver-Advances desk (parse raw_body >>= parse_webhook_event desk.platform) w)
      | inr e ↦
          rw (e, handle_paystack_webhook)
            (rows-Advances w (write_audit rejected_webhook w)
              (write_audit-SameRows rejected_webhook w))
    ]

start-Advances :
    (desk : Desk) (user : RequestUser) (t : PaymentTransaction) (w : Books)
    → find desk.new_id w.transactions ≡ none
    → Advances w (start_checkout desk user t w).1
unfolding start_checkout write_audit
start-Advances desk user t w n = elim (Result-cases (open_checkout desk t w)) [
  | inl (checkout, f) ↦
      rw (f, start_checkout) (new_row-Advances desk.new_id (opened checkout t) w n refl)
  | inr (e, f) ↦ rw (f, start_checkout) (new_row-Advances desk.new_id (not_opened desk t) w n refl)
]

new_checkout-Advances :
    (desk : Desk) (organization : ℕ) (user : RequestUser) (plan : CommercialPlan) (w : Books)
    → find desk.new_id w.transactions ≡ none
    → Advances w (new_checkout desk organization user plan w).1
unfolding new_checkout
new_checkout-Advances desk organization user plan w n =
    elim (Result-cases (desk.callback_url desk.new_reference)) [
      | inr (e, f) ↦ rw (f, new_checkout) (unchanged w)
      | inl (url, f) ↦ elim (Bool-cases (is_referenced desk.new_reference w.transactions)) [
        | inl e ↦ rw (f, new_checkout) (rw (e, new_checkout) (unchanged w))
        | inr e ↦
            rw (f, new_checkout)
              (rw (e, new_checkout)
                (start-Advances desk user (new_transaction desk organization user.sub plan) w n))
      ]
    ]

offer-Advances :
    (desk : Desk) (organization : ℕ) (user : RequestUser) (plan : Result CommercialPlan) (w : Books)
    → find desk.new_id w.transactions ≡ none
    → Advances w (offer_checkout desk organization user plan w).1
unfolding offer_checkout
offer-Advances desk organization user (err e) w n = unchanged w
offer-Advances desk organization user (ok plan) w n =
    elim (Option-cases (find_reusable_pending_transaction desk organization plan w)) [
      | inr (row, f) ↦ rw (f, offer_checkout) (unchanged w)
      | inl f ↦ rw (f, offer_checkout) (new_checkout-Advances desk organization user plan w n)
    ]

pub initialize-Advances :
    (desk : Desk) (organization : ℕ) (code : String) (user : RequestUser) (w : Books)
    → find desk.new_id w.transactions ≡ none
    → Advances w (initialize_organization_payment desk organization code user w).1
unfolding initialize_organization_payment
initialize-Advances desk organization code user w n =
    let w' = (assert_billing_authority desk organization user w).1 in
    let rows = authority-SameRows desk organization user w in
    let step = rows-Advances w w' rows in
    let plan = checkout_checks desk organization code user w' in
    elim (Result-cases (assert_billing_authority desk organization user w).0) [
      | inr (e, f) ↦ rw (f, initialize_organization_payment) step
      | inl (_, f) ↦
          rw (f, initialize_organization_payment)
            (Advances-trans w w' (offer_checkout desk organization user plan w').1 step
              (offer-Advances desk organization user plan w' (rw (rows.0) n)))
    ]
