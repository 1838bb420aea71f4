-- ===== src/Payments/Settlement/Cases.antt =====
-- How a trusted message ends, by what it found.
use fixzone_enterprise_api.Base.{
  ℕ, String, ◌≡◌, inl, inr, true, false, ◌&&◌, not, Option, none, some, [], ◌∷◌, ◌++◌, Bool-cases,
  Option-cases, is_some, find, put, find_first, HasDistinctKeys, find_first-find,
}
use fixzone_enterprise_api.Base.Result.{Result, ok, err, Error, not_found, database, Result-cases}
use fixzone_enterprise_api.Payments.Catalog.{CommercialPlan, plan_name}
use fixzone_enterprise_api.Payments.Books.{
  PaymentTransaction, Organization, Books, PayEnv, Trusted, is_settled,
}
use fixzone_enterprise_api.Payments.Settlement.{
  concerns, payment_mismatch, resolve_active_plan, receipt_number, is_numbered, paid_by, reviewed,
  recorded, is_paid, fulfilled, fulfill_payment, settle, process_trusted_provider_transaction,
  payment_audit,
}

-- The five ends of `settle`, each with its answer and its books.
pub data Settles (env : PayEnv) (id : ℕ) (t : PaymentTransaction) (trusted : Trusted)
    (event : Option String) (w : Books) (end : Result PaymentTransaction × Books) : Type 0 where
  kept : is_settled t.status ≡ true → end ≡ (ok t, w) → Settles env id t trusted event w end
  threw : (e : Error) → end ≡ (err e, w) → Settles env id t trusted event w end
  in_review :
      (mismatch : String)
      → is_settled t.status ≡ false
      → payment_mismatch t trusted ≡ some mismatch
      → end ≡ (
        ok (reviewed env trusted event mismatch t),
        record w {
          transactions = put id (reviewed env trusted event mismatch t) w.transactions;
          audit_log =
              w.audit_log ++ payment_audit "Payment Review Required" t.organization_id id ∷ [];
        },
      )
      → Settles env id t trusted event w end
  granted :
      (plan : CommercialPlan) (organization : Organization)
      → is_settled t.status ≡ false
      → payment_mismatch t trusted ≡ none
      → is_paid trusted.status ≡ true
      → resolve_active_plan env (plan_name t.plan_code) ≡ ok plan
      → find t.organization_id w.organizations ≡ some organization
      → end ≡ (
        ok (paid_by env trusted event t),
        fulfilled env id t plan organization (paid_by env trusted event t) w,
      )
      → Settles env id t trusted event w end
  noted :
      is_settled t.status ≡ false
      → payment_mismatch t trusted ≡ none
      → is_paid trusted.status ≡ false
      → end ≡ (
        ok (recorded env trusted event t),
        record w { transactions = put id (recorded env trusted event t) w.transactions },
      )
      → Settles env id t trusted event w end

module _ (env : PayEnv) (id : ℕ) (t : PaymentTransaction) (trusted : Trusted)
    (event : Option String) (w : Books) where
  fulfill_cases :
      is_settled t.status ≡ false
      → payment_mismatch t trusted ≡ none
      → is_paid trusted.status ≡ true
      → Settles env id t trusted event w (fulfill_payment env id t trusted event w)
  unfolding fulfill_payment
  fulfill_cases s m p = elim (Result-cases (resolve_active_plan env (plan_name t.plan_code))) [
    | inr (e, f) ↦ Settles.threw e (rw (f, fulfill_payment))
    | inl (plan, f) ↦ elim (Option-cases (find t.organization_id w.organizations)) [
      | inl g ↦
          Settles.threw (database "No record was found for an update")
            (rw (f, fulfill_payment) (rw (g, fulfill_payment)))
      | inr (organization, g) ↦
          elim (Bool-cases (
            is_numbered (receipt_number env t.internal_reference) w.receipts
            && not (is_some (find id w.receipts)))) [
              | inl taken ↦
                  Settles.threw (database "Unique constraint failed") (
                    rw (f, fulfill_payment) (rw (g, fulfill_payment) (rw (taken, fulfill_payment))))
              | inr free ↦
                  Settles.granted plan organization s m p f g
                    (rw (f, fulfill_payment) (rw (g, fulfill_payment) (rw (free, fulfill_payment))))
            ]
    ]
  ]

  pub settle-Settles : Settles env id t trusted event w (settle env id t trusted event w)
  unfolding settle
  settle-Settles = elim (Bool-cases (is_settled t.status)) [
    | inl e ↦ Settles.kept e (rw (e, settle))
    | inr s ↦ elim (Option-cases (payment_mismatch t trusted)) [
      | inr (mismatch, m) ↦ Settles.in_review mismatch s m (rw (s, settle) (rw (m, settle)))
      | inl m ↦ elim (Bool-cases (is_paid trusted.status)) [
        | inl p ↦ rw (s, settle) (rw (m, settle) (rw (p, settle) (fulfill_cases s m p)))
        | inr p ↦ Settles.noted s m p (rw (s, settle) (rw (m, settle) (rw (p, settle))))
      ]
    ]
  ]

-- The ends of the whole call: the message concerns no transaction, or the first that it concerns.
pub data Processes (env : PayEnv) (trusted : Trusted) (event : Option String) (w : Books)
    (end : Result PaymentTransaction × Books) : Type 0 where
  unknown : end ≡ (err (not_found "Transaction not found"), w) → Processes env trusted event w end
  concerning :
      (id : ℕ) (t : PaymentTransaction)
      → find_first (concerns trusted) w.transactions ≡ some (id, t)
      → find id w.transactions ≡ some t
      → concerns trusted t ≡ true
      → Settles env id t trusted event w end
      → Processes env trusted event w end

pub process-Processes :
    (env : PayEnv) (trusted : Trusted) (event : Option String) (w : Books)
    → HasDistinctKeys w.transactions
    → Processes env trusted event w (process_trusted_provider_transaction env trusted event w)
unfolding process_trusted_provider_transaction
process-Processes env trusted event w d =
    elim (Option-cases (find_first (concerns trusted) w.transactions)) [
      | inl e ↦ Processes.unknown (rw (e, process_trusted_provider_transaction))
      | inr ((id, t), e) ↦
          let (f, c) = find_first-find (concerns trusted) w.transactions id t d e in
          Processes.concerning id t e f c (
            rw (e, process_trusted_provider_transaction)
              (rw (f, process_trusted_provider_transaction)
                (settle-Settles env id t trusted event w)))
    ]
