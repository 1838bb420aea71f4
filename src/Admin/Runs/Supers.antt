-- ===== src/Admin/Runs/Supers.antt =====
-- The last active super administrator over a run.
use mathlib.Core.Path.{subst}
use mathlib.Core.Bool.{false≢true}
use fixzone_enterprise_api.Base.{
  ℕ, suc, ◌≤◌, ◌≡◌, true, false, some, [], ◌∷◌, ◌==◌, arith, find, put, Bool, Table, Bool-cases,
  inl, inr, if◌then◌else◌,
}
use fixzone_enterprise_api.Admin.Office.{Account, Office}
use fixzone_enterprise_api.Admin.Accounts.{is_active_super, other_super_admins}
use fixzone_enterprise_api.Admin.Accounts.Changes.{Change}
use fixzone_enterprise_api.Admin.Runs.{Runs, Runs-keep}

-- How many rows are of active super administrators.
abbrev pub active_supers : Table Account → ℕ
active_supers [] = 0
active_supers ((id, a) ∷ rows) =
    let rest = active_supers rows in if is_active_super a then suc rest else rest

others-bound : (k : ℕ) (t : Table Account) → other_super_admins k t ≤ active_supers t
unfolding other_super_admins
others-bound k [] = omega arith
others-bound k ((j, a) ∷ t) =
    let rest = others-bound k t in
    elim (Bool-cases (is_active_super a)) [
      | inl e ↦ rw e (ground arith)
      | inr e ↦ rw e (ground arith)
    ]

-- Whatever is written on a user's row, the other active super administrators are there still.
others-put-bound :
    (k : ℕ) (b : Account) (t : Table Account) → other_super_admins k t ≤ active_supers (put k b t)
unfolding other_super_admins put
others-put-bound k b [] = omega arith
others-put-bound k b ((j, a) ∷ t) =
    let rest = others-put-bound k b t in
    let bound = others-bound k t in
    elim (Bool-cases (j == k)) [
      | inl f ↦ rw f (elim (Bool-cases (is_active_super b)) [
        | inl e ↦ rw e (omega arith)
        | inr e ↦ rw e (omega arith)
      ])
      | inr f ↦ rw f (elim (Bool-cases (is_active_super a)) [
        | inl e ↦ rw e (omega arith)
        | inr e ↦ rw e (omega arith)
      ])
    ]

active_supers-put :
    (k : ℕ) (a b : Account) (t : Table Account)
    → find k t ≡ some a
    → (is_active_super a ≡ true → is_active_super b ≡ true)
    → active_supers t ≤ active_supers (put k b t)
unfolding find put
active_supers-put k a b [] e up = omega arith
active_supers-put k a b ((j, c) ∷ t) e up = elim (Bool-cases (j == k)) [
  | inl f ↦
      let same : a ≡ c = ground arith in
      let raised = subst (λ x. is_active_super x ≡ true → is_active_super b ≡ true) same up in
      rw f (elim (Bool-cases (is_active_super c)) [
        | inl g ↦ let there = raised g in rw (g, there) (omega arith)
        | inr g ↦ rw g (elim (Bool-cases (is_active_super b)) [
          | inl x ↦ rw x (omega arith)
          | inr x ↦ rw x (omega arith)
        ])
      ])
  | inr f ↦
      let found : find k t ≡ some a = ground arith in
      let rest = active_supers-put k a b t found up in
      rw f (elim (Bool-cases (is_active_super c)) [
        | inl g ↦ rw g (omega arith)
        | inr g ↦ rw g (omega arith)
      ])
]

Change-active_supers :
    (b : Bool) (u w : Office)
    → (b ≡ true → false ≡ true)
    → Change b u w
    → 1 ≤ active_supers u.accounts
    → 1 ≤ active_supers w.accounts
Change-active_supers b u _ never (Change.updates id a a' e s (inl up)) h =
    omega (arith, active_supers-put id a a' u.accounts e up)
Change-active_supers b u _ never (Change.updates id a a' e s (inr others)) h =
    omega (arith, others-put-bound id a' u.accounts)
Change-active_supers b u _ never (Change.accepts env user id i d a e f g) h =
    absurd (false≢true (never e))
Change-active_supers b u _ never (Change.logs l) h = h
Change-active_supers b u _ never (Change.notifies l) h = h
Change-active_supers b u _ never (Change.asks id r p e f) h = h
Change-active_supers b u _ never (Change.decides id now actor approve reason r there other) h = h
Change-active_supers b u _ never (Change.invites id i e) h = h
Change-active_supers b u _ never (Change.grants id a e) h = h
Change-active_supers b u _ never (Change.revokes id now actor reason a e) h = h
Change-active_supers b u _ never (Change.expires id i e) h = h

-- Whatever requests other than acceptances of invitations are served, in any order and from whatever
-- callers, an active super administrator is left where there is one at first.
pub Runs-active_supers :
    (o o' : Office) → Runs false o o' → 1 ≤ active_supers o.accounts → 1 ≤ active_supers o'.accounts
Runs-active_supers o o' runs h =
    Runs-keep {P = λ w. 1 ≤ active_supers w.accounts} false o o' Change-active_supers runs h
