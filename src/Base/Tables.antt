-- ===== src/Base/Tables.antt =====
-- Database tables: rows under their identifiers.
use Prim.Native.Nat.{ℕ}
use mathlib.Core.Path.{◌≡◌, refl}
use mathlib.Core.Logic.{◌≢◌, inl, inr}
use mathlib.Core.Bool.{Bool}
use mathlib.Core.Option.{Option, none, some}
use mathlib.Core.List.{List, [], ◌∷◌}
use native.Mathlib.Omega.{arith}
use fixzone_enterprise_api.Base.Tests.{◌==◌, ==_iff, Option-cases, if◌then◌else◌}

-- A database table: its rows under their identifiers.
abbrev pub Table {ℓ} : Type ℓ → Type ℓ
Table A = List (ℕ × A)

module _ {ℓ} {A : Type ℓ} where
  -- `findUnique({ where: { id } })`
  unfoldable pub find : ℕ → Table A → Option A
  find k [] = none
  find k ((j, a) ∷ t) = if j == k then some a else find k t

  -- `update({ where: { id }, data })`, with the row that the data gives.
  unfoldable pub put : ℕ → A → Table A → Table A
  put k a [] = []
  put k a ((j, b) ∷ t) = if j == k then (j, a) ∷ t else (j, b) ∷ put k a t

  -- A row that was there is replaced, and no other identifier is touched.
  pub find-put :
      (k j : ℕ) (a b : A) (t : Table A)
      → find k t ≡ some b
      → find j (put k a t) ≡ (if k == j then some a else find j t)
  unfolding find put
  find-put k j a b [] h = ground arith
  find-put k j a b ((i, c) ∷ t) h = ground (arith, find-put k j a b t)

  -- No identifier stands twice.
  abbrev pub HasDistinctKeys : Table A → Type ℓ
  HasDistinctKeys [] = Unit
  HasDistinctKeys ((k, a) ∷ t) = (find k t ≡ none) × HasDistinctKeys t

  find-put-none : (k j : ℕ) (a : A) (t : Table A) → find j t ≡ none → find j (put k a t) ≡ none
  unfolding find put
  find-put-none k j a [] h = refl
  find-put-none k j a ((i, c) ∷ t) h = ground (arith, find-put-none k j a t)

  pub put-HasDistinctKeys :
      (k : ℕ) (a : A) (t : Table A) → HasDistinctKeys t → HasDistinctKeys (put k a t)
  unfolding put
  put-HasDistinctKeys k a [] h = tt
  put-HasDistinctKeys k a ((j, b) ∷ t) h =
      ground (arith, find-put-none k j a t, put-HasDistinctKeys k a t)

  -- `findMany`: the rows that pass a test, with their identifiers.
  unfoldable pub find_many : (A → Bool) → Table A → Table A
  find_many p [] = []
  find_many p ((id, a) ∷ t) = let rest = find_many p t in if p a then (id, a) ∷ rest else rest

  find-find_many-none :
      (p : A → Bool) (id : ℕ) (t : Table A) → find id t ≡ none → find id (find_many p t) ≡ none
  unfolding find find_many
  find-find_many-none p id [] h = refl
  find-find_many-none p id ((j, a) ∷ t) h = ground (arith, find-find_many-none p id t)

  -- A row of the selection is a row of the table that passes the test.
  pub find-find_many :
      (p : A → Bool) (id : ℕ) (t : Table A)
      → HasDistinctKeys t
      → find id (find_many p t)
        ≡ elim (find id t) [ none ↦ none | some a ↦ if p a then some a else none ]
  unfolding find find_many
  find-find_many p id [] k = refl
  find-find_many p id ((j, a) ∷ t) k =
      ground (arith, find-find_many p id t k.1, find-find_many-none p j t k.0, ==_iff j id)

  pub find_many-HasDistinctKeys :
      (p : A → Bool) (t : Table A) → HasDistinctKeys t → HasDistinctKeys (find_many p t)
  unfolding find_many
  find_many-HasDistinctKeys p [] k = tt
  find_many-HasDistinctKeys p ((j, a) ∷ t) k =
      ground (arith, find-find_many-none p j t k.0, find_many-HasDistinctKeys p t k.1)

  -- A round of updates, one row after the other.
  unfoldable pub put_each : (A → A) → Table A → Table A → Table A
  put_each f [] t = t
  put_each f ((k, a) ∷ rows) t = put_each f rows (put k (f a) t)

  -- Each row's identifier is in the table.
  abbrev Within : Table A → Table A → Type ℓ
  Within [] t = Unit
  Within ((k, a) ∷ rows) t = (find k t ≢ none) × Within rows t

  pub find-put_of_ne :
      (k j : ℕ) (a : A) (t : Table A)
      → find k t ≢ none
      → find j (put k a t) ≡ (if k == j then some a else find j t)
  find-put_of_ne k j a t h = elim (Option-cases (find k t)) [
    | inl e ↦ absurd (h e)
    | inr (b, e) ↦ find-put k j a b t e
  ]

  Within-put :
      (k : ℕ) (a : A) (rows t : Table A) → find k t ≢ none → Within rows t → Within rows (put k a t)
  Within-put k a [] t h w = tt
  Within-put k a ((j, b) ∷ rows) t h w =
      ground (arith, find-put_of_ne k j a t h, Within-put k a rows t h w.1)

  find-put_each :
      (f : A → A) (id : ℕ) (rows t : Table A)
      → HasDistinctKeys rows
      → Within rows t
      → find id (put_each f rows t) ≡ elim (find id rows) [ none ↦ find id t | some a ↦ some (f a) ]
  unfolding put_each find
  find-put_each f id [] t k w = refl
  find-put_each f id ((j, a) ∷ rows) t k w = ground (
    arith,
    find-put_each f id rows (put j (f a) t) k.1 (Within-put j (f a) rows t w.0 w.1),
    find-put_of_ne j id (f a) t w.0,
    ==_iff j id,
  )

  pub put_each-HasDistinctKeys :
      (f : A → A) (rows t : Table A) → HasDistinctKeys t → HasDistinctKeys (put_each f rows t)
  unfolding put_each
  put_each-HasDistinctKeys f [] t k = k
  put_each-HasDistinctKeys f ((j, a) ∷ rows) t k =
      put_each-HasDistinctKeys f rows (put j (f a) t) (put-HasDistinctKeys j (f a) t k)

  Within-find_many :
      (p : A → Bool) (rows t : Table A)
      → HasDistinctKeys rows
      → ((id : ℕ) → find id rows ≢ none → find id t ≢ none)
      → Within (find_many p rows) t
  unfolding find_many find
  Within-find_many p [] t k sub = tt
  Within-find_many p ((j, a) ∷ rows) t k sub =
      let here : find j t ≢ none = sub j (ground (arith, ==_iff j j)) in
      let rest : Within (find_many p rows) t =
        Within-find_many p rows t k.1 (λ id n. sub id (ground (arith, ==_iff j id))) in
      ground arith

  -- Updating every row that passes a test does so to each row of the table, and to no other.
  pub find-put_each_many :
      (f : A → A) (p : A → Bool) (id : ℕ) (t : Table A)
      → HasDistinctKeys t
      → find id (put_each f (find_many p t) t)
        ≡ elim (find id t) [ none ↦ none | some a ↦ some (if p a then f a else a) ]
  find-put_each_many f p id t k = ground (
    arith,
    find-find_many p id t k,
    find-put_each f id (find_many p t) t (find_many-HasDistinctKeys p t k)
        (Within-find_many p t t k (λ j n. n)),
  )

  -- Updating from the rows of a selection that pass a test, where the selection's rows are in the
  -- table.
  pub find-put_each_selected :
      (f : A → A) (p : A → Bool) (id : ℕ) (rows t : Table A)
      → HasDistinctKeys rows
      → ((j : ℕ) → find j rows ≢ none → find j t ≢ none)
      → find id (put_each f (find_many p rows) t)
        ≡ elim (find id rows) [ none ↦ find id t | some a ↦ if p a then some (f a) else find id t ]
  find-put_each_selected f p id rows t k within = ground (
    arith,
    find-find_many p id rows k,
    find-put_each f id (find_many p rows) t (find_many-HasDistinctKeys p rows k)
        (Within-find_many p rows t k within),
  )
