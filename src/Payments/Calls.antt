-- ===== src/Payments/Calls.antt =====
-- The calls that change the books, as one function over requests.

pub mod Served
use fixzone_enterprise_api.Base.{ℕ, String, Option}
use fixzone_enterprise_api.Base.Result.{Result}
use fixzone_enterprise_api.Payments.Books.{Books}
use fixzone_enterprise_api.Payments.Paystack.{Json}
use fixzone_enterprise_api.Payments.Service.{
  RequestUser, Desk, initialize_organization_payment, verify_transaction, handle_paystack_webhook,
}
use fixzone_enterprise_api.Payments.Reconcile.{reconcile_pending}

pub data PaymentCall : Type 0 where
  buy : ℕ → String → RequestUser → PaymentCall
  verify : ℕ → String → RequestUser → PaymentCall
  webhook : String → Option String → PaymentCall
  reconcile : Option ℕ → RequestUser → PaymentCall

-- The books after a call; `parse` is `JSON.parse`.
unfoldable pub serve_payment : Desk → (String → Result Json) → PaymentCall → Books → Books
serve_payment desk parse (buy organization code user) w =
    (initialize_organization_payment desk organization code user w).1
serve_payment desk parse (verify organization reference user) w =
    (verify_transaction desk organization reference user w).1
serve_payment desk parse (webhook raw_body signature) w =
    (handle_paystack_webhook desk parse raw_body signature w).1
serve_payment desk parse (reconcile limit user) w = (reconcile_pending desk limit user w).1
