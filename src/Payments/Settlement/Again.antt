-- ===== src/Payments/Settlement/Again.antt =====
-- A payment that is reported again.
use fixzone_enterprise_api.Base.{
  ℕ, String, ◌≡◌, refl, sym, ap, ◌∙◌, true, false, ◌||◌, Option, some, arith, str_eq, find, put,
  find-put, find_first, find_first-put, HasDistinctKeys, ==_iff,
}
use mathlib.Core.Bool.{false≢true}
use fixzone_enterprise_api.Base.Result.{Result, ok}
use fixzone_enterprise_api.Payments.Books.{PaymentTransaction, Books, PayEnv, Trusted, is_settled}
use fixzone_enterprise_api.Payments.Settlement.{
  concerns, same_text, paid_by, reviewed, recorded, fulfilled, settle,
  process_trusted_provider_transaction,
}
use fixzone_enterprise_api.Payments.Settlement.Cases.{Settles, Processes, process-Processes}

-- The two messages name the same transaction.
abbrev pub SameReferences : Trusted → Trusted → Type 0
SameReferences a b =
    (a.internal_reference ≡ b.internal_reference) × (a.provider_reference ≡ b.provider_reference)

concerns_same : (a b : Trusted) → SameReferences a b → concerns a ≡ concerns b
concerns_same a b (e, p) =
    λ i t. str_eq t.internal_reference (e i) || same_text t.provider_reference (p i)

put_self :
    (id : ℕ) (t t' : PaymentTransaction) (w : Books)
    → find id w.transactions ≡ some t
    → find id (put id t' w.transactions) ≡ some t'
put_self id t t' w f = ground (arith, find-put id id t' t w.transactions f, ==_iff id id)

not_settled :
    (env : PayEnv) (trusted : Trusted) (event : Option String) (mismatch : String)
    (t : PaymentTransaction)
    → (is_settled (reviewed env trusted event mismatch t).status ≡ false)
      × (is_settled (recorded env trusted event t).status ≡ false)
not_settled env trusted event mismatch t = (refl, ground arith)

-- A settled row that the message finds is answered, and nothing is written.
found_again :
    (env : PayEnv) (again : Trusted) (event : Option String) (w : Books) (id : ℕ)
    (t : PaymentTransaction)
    → find_first (concerns again) w.transactions ≡ some (id, t)
    → find id w.transactions ≡ some t
    → is_settled t.status ≡ true
    → process_trusted_provider_transaction env again event w ≡ (ok t, w)
unfolding process_trusted_provider_transaction settle
found_again env again event w id t f g s =
    rw (f, process_trusted_provider_transaction)
      (rw (g, process_trusted_provider_transaction) (rw (s, settle)))

module _ (env : PayEnv) (trusted again : Trusted) (event : Option String)
    (same : SameReferences again trusted) where
  Settles-again :
      {w : Books} {end : Result PaymentTransaction × Books} (later : PayEnv) (other : Option String)
      (id : ℕ) (t t' : PaymentTransaction)
      → HasDistinctKeys w.transactions
      → find_first (concerns trusted) w.transactions ≡ some (id, t)
      → find id w.transactions ≡ some t
      → concerns trusted t ≡ true
      → Settles env id t trusted event w end
      → end.0 ≡ ok t'
      → is_settled t'.status ≡ true
      → process_trusted_provider_transaction later again other end.1 ≡ (ok t', end.1)
  unfolding fulfilled
  Settles-again {w} later other id t t' d f g c (Settles.kept s e) h p =
      let same_row : t ≡ t' = cc (ap (λ x. x.0) e, h) in
      rw e (
        rw (← same_row)
          (found_again later again other w id t (rw (concerns_same again trusted same) f) g s))
  Settles-again later other id t t' d f g c (Settles.threw x e) h p =
      absurd (cc (ap (λ x. x.0) e, h))
  Settles-again later other id t t' d f g c (Settles.in_review mismatch s m e) h p =
      let no = (not_settled env trusted event mismatch t).0 in
      let same_row : reviewed env trusted event mismatch t ≡ t' = cc (ap (λ x. x.0) e, h) in
      absurd (false≢true (sym no ∙ ap (λ x. is_settled x.status) same_row ∙ p))
  Settles-again later other id t t' d f g c (Settles.noted s m q e) h p =
      let no = (not_settled env trusted event "" t).1 in
      let same_row : recorded env trusted event t ≡ t' = cc (ap (λ x. x.0) e, h) in
      absurd (false≢true (sym no ∙ ap (λ x. is_settled x.status) same_row ∙ p))
  Settles-again {w} later other id t t' d f g c (Settles.granted plan o s m q k l e) h p =
      let paid_row = paid_by env trusted event t in
      let same_row : paid_row ≡ t' = cc (ap (λ x. x.0) e, h) in
      let books = fulfilled env id t plan o paid_row w in
      rw e (
        rw (← same_row) (
          found_again later again other books id paid_row
            (rw (concerns_same again trusted same)
              (find_first-put (concerns trusted) w.transactions id t paid_row d f c))
            (put_self id t paid_row w g) refl))

  -- Where no transaction stands twice, a transaction that a message has found or made paid is
  -- answered again by every later message with the same two references, also by one that reports a
  -- failure or a refund, and the books stay as they are.
  pub process_twice :
      (later : PayEnv) (other : Option String) (w : Books) (t' : PaymentTransaction)
      → HasDistinctKeys w.transactions
      → (process_trusted_provider_transaction env trusted event w).0 ≡ ok t'
      → is_settled t'.status ≡ true
      → let w' = (process_trusted_provider_transaction env trusted event w).1 in
        process_trusted_provider_transaction later again other w' ≡ (ok t', w')
  process_twice later other w t' d h p = elim (process-Processes env trusted event w d) [
    | Processes.unknown e ↦ absurd (cc (ap (λ x. x.0) e, h))
    | Processes.concerning id t f g c s ↦ Settles-again later other id t t' d f g c s h p
  ]
