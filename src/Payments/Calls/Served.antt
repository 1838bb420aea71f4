-- ===== src/Payments/Calls/Served.antt =====
-- What a call keeps, whatever is asked.
use fixzone_enterprise_api.Base.{
  ℕ, String, ◌≡◌, inl, inr, true, HasDistinctKeys, Option, none, some, Table, find, [], ◌∷◌,
}
use fixzone_enterprise_api.Base.Result.{Result, Result-cases}
use fixzone_enterprise_api.Payments.Books.{PaymentTransaction, Books, is_settled}
use fixzone_enterprise_api.Payments.Settlement.Final.{entry}
use fixzone_enterprise_api.Payments.Settlement.Balance.{IsBalanced}
use fixzone_enterprise_api.Payments.Paystack.{Json}
use fixzone_enterprise_api.Payments.Advances.{Advances, Advances-trans}
use fixzone_enterprise_api.Payments.Service.{RequestUser, Desk, write_audit, ask_provider}
use fixzone_enterprise_api.Payments.Service.Keeps.{
  unchanged, ask_provider-Advances, verify-Advances, webhook-Advances, initialize-Advances,
}
use fixzone_enterprise_api.Payments.Reconcile.{
  Reconciliation, candidates, count_answer, reconcile_each, reconcile_pending,
}
use fixzone_enterprise_api.Payments.Calls.{
  PaymentCall, buy, verify, webhook, reconcile, serve_payment,
}

reconcile_each-Advances :
    (desk : Desk) (rows : Table PaymentTransaction) (c : Reconciliation) (w : Books)
    → Advances w (reconcile_each desk rows (c, w)).1
unfolding reconcile_each
reconcile_each-Advances desk [] c w = unchanged w
reconcile_each-Advances desk ((id, t) ∷ rows) c w =
    let answer = (ask_provider desk t w).0 in
    let w' = (ask_provider desk t w).1 in
    Advances-trans w w' (reconcile_each desk rows (count_answer answer c, w')).1
      (ask_provider-Advances desk t w)
      (reconcile_each-Advances desk rows (count_answer answer c) w')

reconcile_pending-Advances :
    (desk : Desk) (limit : Option ℕ) (user : RequestUser) (w : Books)
    → Advances w (reconcile_pending desk limit user w).1
unfolding reconcile_pending write_audit
reconcile_pending-Advances desk limit user w = elim (Result-cases (desk.may_reconcile user)) [
  | inr (e, f) ↦ rw (f, reconcile_pending) (unchanged w)
  | inl (_, f) ↦
      rw (f, reconcile_pending) (reconcile_each-Advances desk (candidates desk limit w) _ w)
]

-- Whatever a call of the payments service asks and however it ends, where the identifier that it
-- draws is not in use, no transaction stands twice and the books are balanced: if they were so
-- before the call, they are so behind it, and each paid or verified transaction has the same row,
-- receipt and subscription as before.
pub serve_payment-Advances :
    (desk : Desk) (parse : String → Result Json) (call : PaymentCall) (w : Books)
    → find desk.new_id w.transactions ≡ none
    → Advances w (serve_payment desk parse call w)
unfolding serve_payment
serve_payment-Advances desk parse (buy organization code user) w n =
    initialize-Advances desk organization code user w n
serve_payment-Advances desk parse (verify organization reference user) w n =
    verify-Advances desk organization reference user w
serve_payment-Advances desk parse (webhook raw_body signature) w n =
    webhook-Advances desk parse raw_body signature w
serve_payment-Advances desk parse (reconcile limit user) w n =
    reconcile_pending-Advances desk limit user w

-- The books that calls lead to, one after another, each with surroundings and an identifier of its own.
pub data Reaches (u : Books) : Books → Type 0 where
  start : Reaches u u
  after :
      {w : Books} (desk : Desk) (parse : String → Result Json) (call : PaymentCall)
      → Reaches u w
      → find desk.new_id w.transactions ≡ none
      → Reaches u (serve_payment desk parse call w)

Reaches-Advances : (u w : Books) → Reaches u w → Advances u w
Reaches-Advances u _ start = unchanged u
Reaches-Advances u _ (after {w} desk parse call before n) =
    Advances-trans u w (serve_payment desk parse call w) (Reaches-Advances u w before)
      (serve_payment-Advances desk parse call w n)

-- From books in which no transaction stands twice and which are balanced, any calls of the payments
-- service, in any order and with any answers of the provider, lead to books in which no transaction
-- stands twice and which are balanced: a transaction that is paid has a receipt and a subscription of
-- its organization, and one that is neither paid nor verified, or is not there, has none, where each
-- call draws an identifier that is not in use.
pub Reaches-IsBalanced :
    (u w : Books)
    → Reaches u w
    → HasDistinctKeys u.transactions
    → IsBalanced u
    → HasDistinctKeys w.transactions × IsBalanced w
Reaches-IsBalanced u w r d b = let (d', b', _) = Reaches-Advances u w r d b in (d', b')

-- From books in which no transaction stands twice and which are balanced, a transaction that is paid or
-- verified keeps its row, its receipt and its subscription through any calls of the payments service,
-- in any order and with any answers of the provider, where each call draws an identifier that is not
-- in use.
pub Reaches-entry :
    (u w : Books) (id : ℕ) (t : PaymentTransaction)
    → Reaches u w
    → HasDistinctKeys u.transactions
    → IsBalanced u
    → find id u.transactions ≡ some t
    → is_settled t.status ≡ true
    → entry w id ≡ entry u id
Reaches-entry u w id t r d b f s = let (_, _, keeps) = Reaches-Advances u w r d b in keeps id t f s
