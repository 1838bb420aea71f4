-- ===== src/Payments/Advances.antt =====
-- What every change of the books keeps, and the changes that keep it.
use fixzone_enterprise_api.Base.{
  ℕ, String, ◌≡◌, refl, ap, ◌∙◌, inl, inr, true, false, Option, none, some, Bool-cases, [], ◌∷◌,
  ◌++◌, arith, ◌==◌, ==_iff, find, HasDistinctKeys, find-append_new, append_new-HasDistinctKeys,
}
use fixzone_enterprise_api.Payments.Books.{
  PaymentTransaction, Receipt, Subscription, Books, PayEnv, Trusted, is_settled,
}
use fixzone_enterprise_api.Payments.Settlement.{process_trusted_provider_transaction, is_paid}
use fixzone_enterprise_api.Payments.Settlement.Final.{
  entry, process-Writes, Writes-entry, Writes-HasDistinctKeys,
}
use fixzone_enterprise_api.Payments.Settlement.Balance.{Balances, IsBalanced, process-IsBalanced}

-- Of books in which no transaction stands twice and which are balanced: the new ones are so too, and
-- they say the same of each settled transaction.
abbrev pub Advances : Books → Books → Type 0
Advances w w' =
    HasDistinctKeys w.transactions
    → IsBalanced w
    → HasDistinctKeys w'.transactions
      × IsBalanced w'
      × ((id : ℕ) (t : PaymentTransaction)
          → find id w.transactions ≡ some t
          → is_settled t.status ≡ true
          → entry w' id ≡ entry w id)

pub Advances-same :
    (w w' : Books)
    → w'.transactions ≡ w.transactions
    → w'.receipts ≡ w.receipts
    → w'.subscriptions ≡ w.subscriptions
    → Advances w w'
Advances-same w w' e r s d b = (rw e d, λ id. rw (e, r, s) (b id), λ id t f p. rw (e, r, s) refl)

pub Advances-trans : (u v w : Books) → Advances u v → Advances v w → Advances u w
Advances-trans u v w p q d b =
    let (d', b', k) = p d b in
    let (d'', b'', l) = q d' b' in
    (d'', b'', λ id t f s. l id t (ap (λ x. x.0) (k id t f s) ∙ f) s ∙ k id t f s)

pub process-Advances :
    (env : PayEnv) (trusted : Trusted) (event : Option String) (w : Books)
    → Advances w (process_trusted_provider_transaction env trusted event w).1
process-Advances env trusted event w d b =
    let step = process-Writes env trusted event w d in
    (
      Writes-HasDistinctKeys step d,
      process-IsBalanced env trusted event w d b,
      λ id t f s. Writes-entry id t step f s,
    )

missing_rows :
    (r : Option Receipt) (s : Option Subscription) → Balances none r s → (r ≡ none) × (s ≡ none)
missing_rows none none b = (refl, refl)
missing_rows none (some s) b = absurd b
missing_rows (some r) none b = absurd b
missing_rows (some r) (some s) b = absurd b

unused :
    (k id : ℕ) (t : PaymentTransaction) (w : Books)
    → find k w.transactions ≡ none
    → find id w.transactions ≡ some t
    → (k == id) ≡ false
unused k id t w n f = ground (arith, ==_iff k id)

-- A new transaction that is not paid.
pub new_row-Advances :
    (k : ℕ) (t : PaymentTransaction) (w : Books)
    → find k w.transactions ≡ none
    → is_paid t.status ≡ false
    → Advances w (record w { transactions = w.transactions ++ (k, t) ∷ [] })
new_row-Advances k t w n p d b = (
  append_new-HasDistinctKeys k t w.transactions n d,
  λ id. rw (find-append_new k id t w.transactions n) (elim (Bool-cases (k == id)) [
    | inr other ↦ rw other (b id)
    | inl here ↦
        let at : Balances none (find id w.receipts) (find id w.subscriptions) =
          rw (← n) (rw ((==_iff k id).0 here) (b id)) in
        let (x, y) = missing_rows (find id w.receipts) (find id w.subscriptions) at in
        rw (here, x, y) p
  ]),
  λ id s f q. rw (find-append_new k id t w.transactions n) (rw (unused k id s w n f) refl),
)
