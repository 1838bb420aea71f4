-- ===== src/Base/Rows.antt =====
-- What holds of every row of a table.
use mathlib.Core.Path.{◌≡◌}
use mathlib.Core.Logic.{inl, inr}
use Prim.Native.Nat.{ℕ}
use mathlib.Core.Path.{subst}
use mathlib.Core.Option.{some}
use mathlib.Core.List.{[], ◌∷◌, ◌++◌}
use native.Mathlib.Omega.{arith}
use fixzone_enterprise_api.Base.Tests.{◌==◌, Bool-cases}
use fixzone_enterprise_api.Base.Tables.{Table, find, put}

module _ {ℓ} {A : Type ℓ} where
  abbrev pub EachRow : (A → Type ℓ) → Table A → Type ℓ
  EachRow P [] = Unit
  EachRow P ((id, a) ∷ t) = P a × EachRow P t

  pub EachRow-find :
      (P : A → Type ℓ) (id : ℕ) (a : A) (t : Table A) → EachRow P t → find id t ≡ some a → P a
  unfolding find
  EachRow-find P id a [] h e = absurd (cc e)
  EachRow-find P id a ((j, b) ∷ t) h e = elim (Bool-cases (j == id)) [
    | inl f ↦ let same : b ≡ a = ground arith in subst P same h.0
    | inr f ↦ EachRow-find P id a t h.1 (ground arith)
  ]

  pub put-EachRow :
      (P : A → Type ℓ) (id : ℕ) (a : A) (t : Table A) → EachRow P t → P a → EachRow P (put id a t)
  unfolding put
  put-EachRow P id a [] h p = tt
  put-EachRow P id a ((j, b) ∷ t) h p = elim (Bool-cases (j == id)) [
    | inl f ↦ rw (f, put) (p, h.1)
    | inr f ↦ rw (f, put) (h.0, put-EachRow P id a t h.1 p)
  ]

  pub append-EachRow :
      (P : A → Type ℓ) (id : ℕ) (a : A) (t : Table A)
      → EachRow P t
      → P a
      → EachRow P (t ++ (id, a) ∷ [])
  append-EachRow P id a [] h p = (p, tt)
  append-EachRow P id a (row ∷ t) h p = (h.0, append-EachRow P id a t h.1 p)
