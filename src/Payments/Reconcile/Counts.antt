-- ===== src/Payments/Reconcile/Counts.antt =====
-- What a reconciliation counts.
use fixzone_enterprise_api.Base.{
  ℕ, suc, ◌+◌, ◌≤◌, ◌≡◌, Option, List, [], ◌∷◌, ap, arith, take, length, Table,
}
use fixzone_enterprise_api.Base.Result.{Result, ok, err, Result-cases}
use fixzone_enterprise_api.Payments.Books.{PaymentTransaction, Books}
use fixzone_enterprise_api.Payments.Service.{RequestUser, Desk, ask_provider}
use fixzone_enterprise_api.Payments.Reconcile.{
  batch_size, candidates, Reconciliation, count_answer, reconcile_each, reconcile_pending,
}

length-take-le : {A : Type 0} (n : ℕ) (xs : List A) → length (take n xs) ≤ n
length-take-le ℕ.zero xs = omega arith
length-take-le (suc n) [] = omega arith
length-take-le (suc n) (x ∷ xs) = omega (arith, length-take-le n xs)

batch_size_bound :
    (desk : Desk) (limit : Option ℕ) → (1 ≤ batch_size desk limit) × (batch_size desk limit ≤ 100)
unfolding batch_size
batch_size_bound desk limit = ground arith

abbrev counted : Reconciliation → ℕ
counted c = c.recovered + c.review_required + c.provider_failed

count_answer_bound :
    (answer : Result PaymentTransaction) (c : Reconciliation)
    → (counted (count_answer answer c) ≤ counted c + 1)
      × ((count_answer answer c).scanned ≡ c.scanned)
unfolding count_answer
count_answer_bound (err e) c = ground arith
count_answer_bound (ok t) c = ground arith

reconcile_each_bound :
    (desk : Desk) (rows : Table PaymentTransaction) (c : Reconciliation) (w : Books)
    → (counted (reconcile_each desk rows (c, w)).0 ≤ counted c + length rows)
      × ((reconcile_each desk rows (c, w)).0.scanned ≡ c.scanned)
unfolding reconcile_each
reconcile_each_bound desk [] c w = ground arith
reconcile_each_bound desk ((id, t) ∷ rows) c w =
    let answer = ask_provider desk t w in
    ground (
      arith,
      count_answer_bound answer.0 c,
      reconcile_each_bound desk rows (count_answer answer.0 c) answer.1,
    )

candidates_bound :
    (desk : Desk) (limit : Option ℕ) (w : Books) → length (candidates desk limit w) ≤ 100
unfolding candidates
candidates_bound desk limit w =
    omega (arith, length-take-le (batch_size desk limit) _, batch_size_bound desk limit)

answered :
    (desk : Desk) (limit : Option ℕ) (user : RequestUser) (w : Books) (c : Reconciliation)
    → (reconcile_pending desk limit user w).0 ≡ ok c
    → let rows = candidates desk limit w in
      c
      ≡ (reconcile_each desk rows (
        record { scanned = length rows; recovered = 0; review_required = 0; provider_failed = 0 },
        w,
      )).0
unfolding reconcile_pending
answered desk limit user w c h = ground (arith, Result-cases (desk.may_reconcile user))

-- A reconciliation that is answered has looked at no more than a hundred transactions, whatever
-- limit is asked for and configured, and what it counts as recovered, for review and as failed is no
-- more than those together.
pub reconcile_pending_bound :
    (desk : Desk) (limit : Option ℕ) (user : RequestUser) (w : Books) (c : Reconciliation)
    → (reconcile_pending desk limit user w).0 ≡ ok c
    → (c.recovered + c.review_required + c.provider_failed ≤ c.scanned) × (c.scanned ≤ 100)
reconcile_pending_bound desk limit user w c h =
    let rows = candidates desk limit w in
    omega (
      arith,
      ap (λ (x : Reconciliation). x.scanned) (answered desk limit user w c h),
      ap counted (answered desk limit user w c h),
      reconcile_each_bound desk rows _ w,
      candidates_bound desk limit w,
    )
