-- ===== src/Base/Queries.antt =====
-- Queries of a table that go by more than the row's identifier, and `upsert`.
use mathlib.Core.Path.{◌≡◌, refl}
use mathlib.Core.Logic.{inl, inr}
use Prim.Native.Nat.{ℕ}
use mathlib.Core.Bool.{Bool, true, false}
use mathlib.Core.Option.{Option, none, some}
use mathlib.Core.List.{List, [], ◌∷◌, ◌++◌}
use native.Mathlib.Omega.{arith}
use fixzone_enterprise_api.Base.Tests.{◌==◌, ==_iff, Bool-cases, Option-cases, if◌then◌else◌}
use fixzone_enterprise_api.Base.Tables.{Table, find, put, find-put, HasDistinctKeys}

module _ {ℓ} {A : Type ℓ} where
  -- The identifiers of the rows that pass a test.
  abbrev pub keys_of : (A → Bool) → Table A → List ℕ
  keys_of p [] = []
  keys_of p ((id, a) ∷ t) = if p a then id ∷ keys_of p t else keys_of p t

  -- `findFirst`: the first row that passes the test, with its identifier.
  unfoldable pub find_first : (A → Bool) → Table A → Option (ℕ × A)
  find_first p [] = none
  find_first p ((k, a) ∷ t) = let rest = find_first p t in if p a then some (k, a) else rest

  -- `updateMany`: the rows that pass the test are written anew.
  unfoldable pub update_many : (A → Bool) → (A → A) → Table A → Table A
  update_many p f [] = []
  update_many p f ((k, a) ∷ t) = (k, if p a then f a else a) ∷ update_many p f t

  -- `upsert`: a row that is there is updated, and one that is not is created.
  unfoldable pub upsert : ℕ → A → (A → A) → Table A → Table A
  upsert k new f t = elim (find k t) [ none ↦ t ++ (k, new) ∷ [] | some a ↦ put k (f a) t ]

  pub find-append_new :
      (k j : ℕ) (a : A) (t : Table A)
      → find k t ≡ none
      → find j (t ++ (k, a) ∷ []) ≡ (if k == j then some a else find j t)
  unfolding find
  find-append_new k j a [] h = refl
  find-append_new k j a ((i, b) ∷ t) h = ground (arith, find-append_new k j a t)

  pub find-upsert :
      (k j : ℕ) (new : A) (f : A → A) (t : Table A)
      → find j (upsert k new f t)
        ≡ (if k == j then some (elim (find k t) [ none ↦ new | some a ↦ f a ]) else find j t)
  unfolding upsert
  find-upsert k j new f t = elim (Option-cases (find k t)) [
    | inl e ↦ rw (e, upsert) (find-append_new k j new t e)
    | inr (a, e) ↦ rw (e, upsert) (find-put k j (f a) a t e)
  ]

  -- What `findFirst` answers is a row of the table that passes the test.
  pub find_first-find :
      (p : A → Bool) (t : Table A) (k : ℕ) (a : A)
      → HasDistinctKeys t
      → find_first p t ≡ some (k, a)
      → (find k t ≡ some a) × (p a ≡ true)
  unfolding find_first find
  find_first-find p [] k a d h = ground arith
  find_first-find p ((j, b) ∷ t) k a d h = elim (Bool-cases (p b)) [
    | inl e ↦ ground (arith, ==_iff j k)
    | inr e ↦ let rest = find_first-find p t k a d.1 (ground arith) in ground (arith, ==_iff j k)
  ]

  -- A row that is written anew and still passes the test is answered again.
  pub find_first-put :
      (p : A → Bool) (t : Table A) (k : ℕ) (a a' : A)
      → HasDistinctKeys t
      → find_first p t ≡ some (k, a)
      → p a' ≡ true
      → find_first p (put k a' t) ≡ some (k, a')
  unfolding find_first put
  find_first-put p [] k a a' d h q = ground arith
  find_first-put p ((j, b) ∷ t) k a a' d h q = elim (Bool-cases (p b)) [
    | inl e ↦ ground (arith, ==_iff j k)
    | inr e ↦
        let there = find_first-find p t k a d.1 (ground arith) in
        ground (arith, ==_iff j k, find_first-put p t k a a' d.1)
  ]

  find-append_none :
      (k j : ℕ) (a : A) (t : Table A)
      → find j t ≡ none
      → (k == j) ≡ false
      → find j (t ++ (k, a) ∷ []) ≡ none
  unfolding find
  find-append_none k j a [] h n = ground arith
  find-append_none k j a ((i, b) ∷ t) h n = ground (arith, find-append_none k j a t)

  pub append_new-HasDistinctKeys :
      (k : ℕ) (a : A) (t : Table A)
      → find k t ≡ none
      → HasDistinctKeys t
      → HasDistinctKeys (t ++ (k, a) ∷ [])
  unfolding find
  append_new-HasDistinctKeys k a [] n d = (refl, tt)
  append_new-HasDistinctKeys k a ((j, b) ∷ t) n d =
      ground
        (arith, ==_iff j k, ==_iff k j, find-append_none k j a t, append_new-HasDistinctKeys k a t)
