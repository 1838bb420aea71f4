-- ===== src/Payments/Settlement/Balance.antt =====
-- Paid transactions, receipts and subscriptions belong together.
use fixzone_enterprise_api.Base.{
  ℕ, String, ◌≡◌, refl, sym, ◌∙◌, inl, inr, true, false, Option, none, some, arith, Bool-cases,
  ◌==◌, ==_iff, find, find-put, find-upsert, HasDistinctKeys,
}
use mathlib.Core.Bool.{false≢true}
use fixzone_enterprise_api.Payments.Books.{
  PaymentTransaction, Receipt, Subscription, Books, PayEnv, Trusted, is_settled,
}
use fixzone_enterprise_api.Payments.Settlement.{is_paid, process_trusted_provider_transaction}
use fixzone_enterprise_api.Payments.Settlement.Final.{Writes, process-Writes}

-- A transaction beside its receipt and its subscription: both are there for the organization of a
-- settled transaction, or neither is and the transaction is not paid.
abbrev pub Balances : Option PaymentTransaction → Option Receipt → Option Subscription → Type 0
Balances none none none = Unit {0}
Balances (some t) none none = is_paid t.status ≡ false
Balances (some t) (some r) (some s) =
    (is_settled t.status ≡ true)
    × (r.organization_id ≡ t.organization_id)
    × (s.organization_id ≡ t.organization_id)
Balances _ _ _ = ⊥

abbrev pub IsBalanced : Books → Type 0
IsBalanced w =
    (id : ℕ) → Balances (find id w.transactions) (find id w.receipts) (find id w.subscriptions)

unpaid : (t : PaymentTransaction) → is_settled t.status ≡ false → is_paid t.status ≡ false
unpaid t h = ground arith

-- An unsettled transaction has neither.
unsettled_rows :
    (t : PaymentTransaction) (r : Option Receipt) (s : Option Subscription)
    → is_settled t.status ≡ false
    → Balances (some t) r s
    → (r ≡ none) × (s ≡ none)
unsettled_rows t none none u b = (refl, refl)
unsettled_rows t none (some s) u b = absurd b
unsettled_rows t (some r) none u b = absurd b
unsettled_rows t (some r) (some s) u b = absurd (false≢true (sym u ∙ b.0))

Writes-IsBalanced :
    {env : PayEnv} {trusted : Trusted} {w w' : Books}
    → Writes env trusted w w'
    → IsBalanced w
    → IsBalanced w'
Writes-IsBalanced (Writes.nothing e) b id = rw e (b id)
Writes-IsBalanced {w} (Writes.one k t t' f u e (inl (n, r, s))) b id = elim (Bool-cases (k == id)) [
  | inr other ↦ rw (e, r, s) (rw (find-put k id t' t w.transactions f) (rw other (b id)))
  | inl here ↦
      let at : Balances (some t) (find id w.receipts) (find id w.subscriptions) =
        rw (← f) (rw ((==_iff k id).0 here) (b id)) in
      let (x, y) = unsettled_rows t (find id w.receipts) (find id w.subscriptions) u at in
      rw (e, r, s) (rw (find-put k id t' t w.transactions f) (rw (here, x, y) (unpaid t' n)))
]
Writes-IsBalanced {w} (Writes.one k t t' f u e (inr (p, q, (plan, o, r, s)))) b id =
    elim (Bool-cases (k == id)) [
      | inr other ↦
          rw (e, r, s)
            (rw (find-put k id t' t w.transactions f, find-upsert, find-upsert) (rw other (b id)))
      | inl here ↦
          let at : Balances (some t) (find k w.receipts) (find k w.subscriptions) =
            rw (← f) (b k) in
          let (x, y) = unsettled_rows t (find k w.receipts) (find k w.subscriptions) u at in
          rw (e, r, s)
            (rw (find-put k id t' t w.transactions f, find-upsert, find-upsert)
              (rw (here, x, y) (p, refl, sym q)))
    ]

-- Where no transaction stands twice, a message keeps the books balanced: a paid transaction has a
-- receipt and a subscription, both for its organization; one that is neither paid nor verified has
-- neither; and no receipt or subscription stands without its transaction or without the other.
pub process-IsBalanced :
    (env : PayEnv) (trusted : Trusted) (event : Option String) (w : Books)
    → HasDistinctKeys w.transactions
    → IsBalanced w
    → IsBalanced (process_trusted_provider_transaction env trusted event w).1
process-IsBalanced env trusted event w d b =
    Writes-IsBalanced (process-Writes env trusted event w d) b
