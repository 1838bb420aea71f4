-- ===== src/Payments/Reconcile.antt =====
-- `reconcilePending` (src/payments/payments.service.ts).
pub mod Counts
use fixzone_enterprise_api.Base.{
  ℕ, suc, ◌+◌, ◌*◌, ◌≤◌, ◌≡◌, String, Bool, true, false, ◌&&◌, ◌||◌, Option, none, some, List, [],
  ◌∷◌, ◌==◌, ltb, leb, get_or, take, length, Table, find_many, if◌then◌else◌,
}
use fixzone_enterprise_api.Base.Result.{Result, ok, err, Error}
use fixzone_enterprise_api.Payments.Books.{
  PaymentTransactionStatus, initialized, pending, processing, review_required, PaymentTransaction,
  Books, PayEnv, Trusted, is_settled,
}
use fixzone_enterprise_api.Payments.Settlement.{process_trusted_provider_transaction}
use fixzone_enterprise_api.Payments.Service.{
  RequestUser, Desk, Call, caller_audit, write_audit, ask_provider,
}

abbrev is_open : PaymentTransactionStatus → Bool
is_open initialized = true
is_open pending = true
is_open processing = true
is_open _ = false

-- The `where` of the query.
abbrev pub is_stale : Desk → ℕ → PaymentTransaction → Bool
is_stale desk minutes t = is_open t.status && leb (t.created_at + minutes * 60000) desk.env.now

-- The order of the query: the oldest first, and then by identifier.
abbrev comes_first : ℕ × PaymentTransaction → ℕ × PaymentTransaction → Bool
comes_first (i, s) (j, t) =
    ltb s.created_at t.created_at || (s.created_at == t.created_at && leb i j)

insert_row : ℕ × PaymentTransaction → Table PaymentTransaction → Table PaymentTransaction
insert_row row [] = row ∷ []
insert_row row (next ∷ rows) =
    let later = insert_row row rows in
    if comes_first row next then row ∷ next ∷ rows else next ∷ later

sort_rows : Table PaymentTransaction → Table PaymentTransaction
unfolding insert_row
sort_rows [] = []
sort_rows (row ∷ rows) = insert_row row (sort_rows rows)

-- `Math.max(1, n)` and `Math.min(n, m)`; a negative number of the source is 0 here.
abbrev at_least_one : ℕ → ℕ
at_least_one n = if ltb n 1 then 1 else n

abbrev at_most : ℕ → ℕ → ℕ
at_most m n = if ltb m n then m else n

-- `batchSize`
unfoldable pub batch_size : Desk → Option ℕ → ℕ
batch_size desk limit = at_most 100 (at_least_one (get_or limit desk.batch_size))

-- The rows that the query answers.
unfoldable pub candidates : Desk → Option ℕ → Books → Table PaymentTransaction
unfolding sort_rows batch_size
candidates desk limit w =
    take (batch_size desk limit)
      (sort_rows (find_many (is_stale desk (at_least_one desk.min_age_minutes)) w.transactions))

pub record Reconciliation : Type 0 where
  pub scanned : ℕ
  pub recovered : ℕ
  pub review_required : ℕ
  pub provider_failed : ℕ

-- One round of the loop: the answer of the provider and of the settlement is counted, and what
-- either throws is counted as a failure of the provider.
unfoldable pub count_answer : Result PaymentTransaction → Reconciliation → Reconciliation
count_answer (err e) c = record c { provider_failed = c.provider_failed + 1 }
count_answer (ok t) c = elim t.status [
  | PaymentTransactionStatus.paid ↦ record c { recovered = c.recovered + 1 }
  | PaymentTransactionStatus.verified ↦ record c { recovered = c.recovered + 1 }
  | PaymentTransactionStatus.review_required ↦ record c { review_required = c.review_required + 1 }
  | _ ↦ c
]

unfoldable pub reconcile_each :
    Desk → Table PaymentTransaction → Reconciliation × Books → Reconciliation × Books
unfolding count_answer
reconcile_each desk [] (c, w) = (c, w)
reconcile_each desk ((id, t) ∷ rows) (c, w) =
    let (answer, w') = ask_provider desk t w in reconcile_each desk rows (count_answer answer c, w')

-- `reconcilePending`
unfoldable pub reconcile_pending : Desk → Option ℕ → RequestUser → Call Reconciliation
reconcile_pending desk limit user w = elim (desk.may_reconcile user) [
  | err e ↦ (err e, w)
  | ok _ ↦
      let rows = candidates desk limit w in
      let (counts, w') = reconcile_each desk rows (
        record { scanned = length rows; recovered = 0; review_required = 0; provider_failed = 0 },
        w,
      ) in
      (ok counts, write_audit (caller_audit "Payment Reconciliation Performed" user none none) w')
]
