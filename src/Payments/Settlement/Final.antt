-- ===== src/Payments/Settlement/Final.antt =====
-- A transaction that is settled stays as it is, whatever messages follow.
use fixzone_enterprise_api.Base.{
  ℕ, String, ◌≡◌, refl, ◌∙◌, ap, ◌⊎◌, inl, inr, true, false, Option, some, List, [], ◌∷◌, arith,
  ◌==◌, ==_iff, find, put, find-put, put-HasDistinctKeys, upsert, find-upsert, HasDistinctKeys,
}
use fixzone_enterprise_api.Base.Result.{Result}
use fixzone_enterprise_api.Payments.Catalog.{CommercialPlan}
use fixzone_enterprise_api.Payments.Books.{
  PaymentTransaction, Organization, Receipt, Subscription, Books, PayEnv, Trusted, is_settled,
}
use fixzone_enterprise_api.Payments.Settlement.{
  paid_by, recorded, fulfilled, new_receipt, new_subscription, process_trusted_provider_transaction,
}
use fixzone_enterprise_api.Payments.Settlement.Cases.{Settles, Processes, process-Processes}

-- One transaction is written, or none.
pub data Writes (env : PayEnv) (trusted : Trusted) (w w' : Books) : Type 0 where
  nothing : w' ≡ w → Writes env trusted w w'
  one :
      (id : ℕ) (t t' : PaymentTransaction)
      → find id w.transactions ≡ some t
      → is_settled t.status ≡ false
      → w'.transactions ≡ put id t' w.transactions
      → (is_settled t'.status ≡ false)
          × (w'.receipts ≡ w.receipts)
          × (w'.subscriptions ≡ w.subscriptions)
        ⊎ ((is_settled t'.status ≡ true)
            × (t'.organization_id ≡ t.organization_id)
            × ((plan : CommercialPlan) × (organization : Organization) × (w'.receipts
                  ≡ upsert id (new_receipt env plan organization t') (λ r. r) w.receipts)
                × (w'.subscriptions
                    ≡ upsert id
                        (new_subscription env plan t.organization_id)
                        (λ s. record s { entitlement_applied_at = env.now })
                        w.subscriptions)))
      → Writes env trusted w w'

fulfilled_tables :
    (env : PayEnv) (id : ℕ) (t t' : PaymentTransaction) (plan : CommercialPlan) (o : Organization)
    (w : Books)
    → let w' = fulfilled env id t plan o t' w in
      (w'.transactions ≡ put id t' w.transactions)
      × (w'.receipts ≡ upsert id (new_receipt env plan o t') (λ r. r) w.receipts)
      × (w'.subscriptions
          ≡ upsert id
              (new_subscription env plan t.organization_id)
              (λ s. record s { entitlement_applied_at = env.now })
              w.subscriptions)
unfolding fulfilled
fulfilled_tables env id t t' plan o w = (refl, refl, refl)

recorded_unsettled :
    (env : PayEnv) (trusted : Trusted) (event : Option String) (t : PaymentTransaction)
    → is_settled (recorded env trusted event t).status ≡ false
recorded_unsettled env trusted event t = ground arith

Settles-Writes :
    {env : PayEnv} {trusted : Trusted} {event : Option String} {w : Books}
    {end : Result PaymentTransaction × Books} (id : ℕ) (t : PaymentTransaction)
    → find id w.transactions ≡ some t
    → Settles env id t trusted event w end
    → Writes env trusted w end.1
Settles-Writes id t f (Settles.kept s e) = Writes.nothing (ap (λ x. x.1) e)
Settles-Writes id t f (Settles.threw x e) = Writes.nothing (ap (λ x. x.1) e)
Settles-Writes id t f (Settles.in_review mismatch s m e) =
    Writes.one id t _ f s (ap (λ x. x.1.transactions) e)
      (inl (refl, ap (λ x. x.1.receipts) e, ap (λ x. x.1.subscriptions) e))
Settles-Writes {env} {trusted} {event} id t f (Settles.noted s m p e) =
    Writes.one id t _ f s (ap (λ x. x.1.transactions) e) (
      inl (
        recorded_unsettled env trusted event t,
        ap (λ x. x.1.receipts) e,
        ap (λ x. x.1.subscriptions) e,
      ))
Settles-Writes {env} {trusted} {event} {w} id t f (Settles.granted plan o s m p g h e) =
    let (a, b, c) = fulfilled_tables env id t (paid_by env trusted event t) plan o w in
    Writes.one id t (paid_by env trusted event t) f s (ap (λ x. x.1.transactions) e ∙ a)
      (inr (refl, refl, (plan, o, ap (λ x. x.1.receipts) e ∙ b, ap (λ x. x.1.subscriptions) e ∙ c)))

pub process-Writes :
    (env : PayEnv) (trusted : Trusted) (event : Option String) (w : Books)
    → HasDistinctKeys w.transactions
    → Writes env trusted w (process_trusted_provider_transaction env trusted event w).1
process-Writes env trusted event w d = elim (process-Processes env trusted event w d) [
  | Processes.unknown e ↦ Writes.nothing (ap (λ x. x.1) e)
  | Processes.concerning id t e f c s ↦ Settles-Writes id t f s
]

pub Writes-HasDistinctKeys :
    {env : PayEnv} {trusted : Trusted} {w w' : Books}
    → Writes env trusted w w'
    → HasDistinctKeys w.transactions
    → HasDistinctKeys w'.transactions
Writes-HasDistinctKeys (Writes.nothing e) d = rw e d
Writes-HasDistinctKeys (Writes.one id t t' f s e r) d = rw e (put-HasDistinctKeys id t' _ d)

-- What the books say of one transaction.
abbrev pub entry : Books → ℕ → Option PaymentTransaction × Option Receipt × Option Subscription
entry w id = (find id w.transactions, find id w.receipts, find id w.subscriptions)

another_row :
    (k id : ℕ) (t s : PaymentTransaction) (w : Books)
    → find k w.transactions ≡ some t
    → find id w.transactions ≡ some s
    → is_settled t.status ≡ false
    → is_settled s.status ≡ true
    → (k == id) ≡ false
another_row k id t s w f g u v = ground (arith, ==_iff k id)

pub Writes-entry :
    {env : PayEnv} {trusted : Trusted} {w w' : Books} (id : ℕ) (s : PaymentTransaction)
    → Writes env trusted w w'
    → find id w.transactions ≡ some s
    → is_settled s.status ≡ true
    → entry w' id ≡ entry w id
Writes-entry id s (Writes.nothing e) g v = rw e refl
Writes-entry {w} id s (Writes.one k t t' f u e (inl (n, r, b))) g v =
    let other = another_row k id t s w f g u v in
    rw (e, r, b) (rw (find-put k id t' t w.transactions f) (rw other refl))
Writes-entry {w} id s (Writes.one k t t' f u e (inr (p, q, (plan, o, r, b)))) g v =
    let other = another_row k id t s w f g u v in
    rw (e, r, b)
      (rw (find-put k id t' t w.transactions f, find-upsert, find-upsert) (rw other refl))

-- Messages in the order in which they are handled, each with its surroundings and its event.
pub process_all : List (PayEnv × Trusted × Option String) → Books → Books
process_all [] w = w
process_all ((env, trusted, event) ∷ messages) w =
    process_all messages (process_trusted_provider_transaction env trusted event w).1

-- Where no transaction stands twice, one that is paid or verified stays as it is, with its receipt
-- and its subscription, whatever messages follow in whatever order.
pub process_all-entry :
    (messages : List (PayEnv × Trusted × Option String)) (w : Books) (id : ℕ)
    (s : PaymentTransaction)
    → HasDistinctKeys w.transactions
    → find id w.transactions ≡ some s
    → is_settled s.status ≡ true
    → entry (process_all messages w) id ≡ entry w id
unfolding process_all
process_all-entry [] w id s d g v = refl
process_all-entry ((env, trusted, event) ∷ messages) w id s d g v =
    let step = process-Writes env trusted event w d in
    let same = Writes-entry id s step g v in
    process_all-entry messages (process_trusted_provider_transaction env trusted event w).1 id s
      (Writes-HasDistinctKeys step d) (ap (λ x. x.0) same ∙ g) v
    ∙ same
