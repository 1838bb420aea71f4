-- ===== src/Payments/Settlement/Grants.antt =====
-- Which messages change what an organization has bought.
use fixzone_enterprise_api.Base.{
  ℕ, String, ◌≡◌, refl, ◌⊎◌, inl, inr, true, false, Option, none, some, arith, Bool-cases, ◌==◌,
  ==_iff, eq_iff, find, put, find-put, HasDistinctKeys,
}
use fixzone_enterprise_api.Base.Result.{Result, ok}
use fixzone_enterprise_api.Payments.Catalog.{CommercialPlan, plan_name}
use fixzone_enterprise_api.Payments.Books.{
  paid, PaymentTransaction, Organization, Books, PayEnv, Trusted, is_settled,
}
use fixzone_enterprise_api.Payments.Settlement.{
  concerns, payment_mismatch, resolve_active_plan, subscribed, paid_by, is_paid, fulfilled,
  process_trusted_provider_transaction,
}
use fixzone_enterprise_api.Payments.Settlement.Cases.{Settles, Processes, process-Processes}

-- What a message must be for an organization to get a plan, and what it gets.
pub record Grants (env : PayEnv) (trusted : Trusted) (w : Books) (organization_id : ℕ)
    (before after : Organization) : Type 0 where
  pub id : ℕ
  pub transaction : PaymentTransaction
  pub plan : CommercialPlan
  pub stored : find id w.transactions ≡ some transaction
  pub unsettled : is_settled transaction.status ≡ false
  pub buyer : transaction.organization_id ≡ organization_id
  pub is_payment : trusted.status ≡ paid
  pub amount : trusted.amount_minor ≡ some transaction.amount_minor
  pub currency : trusted.currency ≡ transaction.currency
  pub reference : concerns trusted transaction ≡ true
  pub on_sale : resolve_active_plan env (plan_name transaction.plan_code) ≡ ok plan
  pub subscription : after ≡ subscribed env plan before

mismatch_lem :
    (t : PaymentTransaction) (trusted : Trusted)
    → payment_mismatch t trusted ≡ none
    → (trusted.amount_minor ≡ some t.amount_minor) × (trusted.currency ≡ t.currency)
unfolding payment_mismatch
mismatch_lem t trusted h = ground (arith, eq_iff trusted.currency t.currency)

is_paid_lem : (trusted : Trusted) → is_paid trusted.status ≡ true → trusted.status ≡ paid
is_paid_lem trusted h = ground arith

fulfilled-organizations :
    (env : PayEnv) (id : ℕ) (t t' : PaymentTransaction) (plan : CommercialPlan) (o : Organization)
    (w : Books)
    → (fulfilled env id t plan o t' w).organizations
      ≡ put t.organization_id (subscribed env plan o) w.organizations
unfolding fulfilled
fulfilled-organizations env id t t' plan o w = refl

module _ (env : PayEnv) (trusted : Trusted) (event : Option String) (w : Books)
    (organization_id : ℕ) (before : Organization)
    (there : find organization_id w.organizations ≡ some before) where
  Settles-organizations :
      {end : Result PaymentTransaction × Books} (id : ℕ) (t : PaymentTransaction)
      → find id w.transactions ≡ some t
      → concerns trusted t ≡ true
      → Settles env id t trusted event w end
      → (after : Organization) × (find organization_id end.1.organizations ≡ some after)
        × ((after ≡ before) ⊎ Grants env trusted w organization_id before after)
  Settles-organizations id t f c (Settles.kept s e) = (before, rw e there, inl refl)
  Settles-organizations id t f c (Settles.threw x e) = (before, rw e there, inl refl)
  Settles-organizations id t f c (Settles.in_review mismatch s m e) = (before, rw e there, inl refl)
  Settles-organizations id t f c (Settles.noted s m p e) = (before, rw e there, inl refl)
  Settles-organizations id t f c (Settles.granted plan o s m p g h e) =
      elim (Bool-cases (t.organization_id == organization_id)) [
        | inl same ↦ (
          subscribed env plan before,
          ground (
            arith,
            e,
            fulfilled-organizations env id t (paid_by env trusted event t) plan o w,
            find-put t.organization_id organization_id (subscribed env plan o) o w.organizations h,
            ==_iff t.organization_id organization_id,
          ),
          inr (record {
            id = id;
            transaction = t;
            plan = plan;
            stored = f;
            unsettled = s;
            buyer = (==_iff t.organization_id organization_id).0 same;
            is_payment = is_paid_lem trusted p;
            amount = (mismatch_lem t trusted m).0;
            currency = (mismatch_lem t trusted m).1;
            reference = c;
            on_sale = g;
            subscription = refl;
          }),
        )
        | inr other ↦ (
          before,
          rw e (
              rw (fulfilled-organizations env id t (paid_by env trusted event t) plan o w) (
                rw
                  (find-put t.organization_id organization_id (subscribed env plan o) o
                    w.organizations h)
                  (rw other there))),
          inl refl,
        )
      ]

  -- Where no transaction stands twice, a message leaves an organization as it was, or it grants the
  -- organization a plan: then the message is a payment, its amount and currency are those of a
  -- stored transaction of the organization that it names and that is not settled, and the plan is
  -- the one of the transaction and on sale.
  pub process-Grants :
      HasDistinctKeys w.transactions
      → (after : Organization) × (find organization_id
            (process_trusted_provider_transaction env trusted event w).1.organizations
          ≡ some after)
        × ((after ≡ before) ⊎ Grants env trusted w organization_id before after)
  process-Grants d = elim (process-Processes env trusted event w d) [
    | Processes.unknown e ↦ (before, rw e there, inl refl)
    | Processes.concerning id t e f c s ↦ Settles-organizations id t f c s
  ]
