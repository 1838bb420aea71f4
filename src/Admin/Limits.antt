-- ===== src/Admin/Limits.antt =====
-- What an answer of internal administration says of the calls that led to it, and what the permissions
-- of a role come to.
pub mod Ceiling
pub mod Reach
pub mod Deciding
use mathlib.Core.Path.{subst}
use fixzone_enterprise_api.Base.{
  ℕ, ◌≡◌, refl, true, false, Bool, not, ◌&&◌, ◌||◌, Option, none, some, List, [], ◌∷◌, ◌++◌, any,
  inl, inr, Bool-cases, arith, if◌then◌else◌, ◌==◌, ◌∙◌, sym, ap, find_many,
}
use fixzone_enterprise_api.Base.Result.{Result, ok, err, Error, Result-cases}
use fixzone_enterprise_api.Report.Types.{UserRole}
use fixzone_enterprise_api.Admin.Catalog.{
  Permission, same_permission, includes, internal_admin_permission_keys,
  resolve_internal_role_definition,
}
use fixzone_enterprise_api.Admin.Office.{
  InternalAdminUser, Office, AdminEnv, AdminCall, lift, unless, ◌>>=◌, actor_id,
}
use fixzone_enterprise_api.Admin.Authority.{
  is_super, is_any_super, permissions_for_role, counts_for, snapshots, Effective, effective_of,
  effective_permissions, has_permission,
}
use fixzone_enterprise_api.Admin.Accounts.Changes.{Throws}

module _ {A B : Type 0} where
  -- Two calls in a row answer only where the first answers.
  pub bind-answers :
      (m : AdminCall A) (f : A → AdminCall B) (o o' : Office) (b : B)
      → (m >>= f) o ≡ (ok b, o')
      → (a : A) × ((m o).0 ≡ ok a) × (f a (m o).1 ≡ (ok b, o'))
  unfolding ◌>>=◌
  bind-answers m f o o' b = elim (Result-cases (m o).0) [
    | inl (a, e) ↦ rw (e, ◌>>=◌) (λ h. (a, refl, h))
    | inr (x, e) ↦ rw (e, ◌>>=◌) (λ h. absurd (cc (ap (λ r. r.0) h)))
  ]

  pub bind-run :
      (m : AdminCall A) (f : A → AdminCall B) (o o' : Office) (a : A)
      → m o ≡ (ok a, o')
      → (m >>= f) o ≡ f a o'
  unfolding ◌>>=◌
  bind-run m f o o' a e = rw (e, ◌>>=◌) (ap (λ r. f a r.1) e)

  -- The first of them may leave the tables as they are.
  pub read-answers :
      (m : AdminCall A) (f : A → AdminCall B) (o o' : Office) (b : B)
      → ((a : A) → (m o).0 ≡ ok a → (m o).1 ≡ o)
      → (m >>= f) o ≡ (ok b, o')
      → (a : A) × ((m o).0 ≡ ok a) × (f a o ≡ (ok b, o'))
  read-answers m f o o' b same h =
      let (a, e, rest) = bind-answers m f o o' b h in
      let back : f a o ≡ (ok b, o') = subst (λ w. f a w ≡ (ok b, o')) (same a e) rest in
      (a, e, back)

  pub lift-answers :
      (r : Result A) (f : A → AdminCall B) (o o' : Office) (b : B)
      → (lift r >>= f) o ≡ (ok b, o')
      → (a : A) × (r ≡ ok a) × (f a o ≡ (ok b, o'))
  lift-answers r f o o' b h = read-answers (lift r) f o o' b (λ a e. refl) h

module _ {B : Type 0} where
  -- What refuses by throwing has not refused.
  pub unless-answers :
      (refused : Bool) (throws : AdminCall (Unit {0})) (f : Unit {0} → AdminCall B) (o o' : Office)
      (b : B)
      → Throws throws
      → (unless refused throws >>= f) o ≡ (ok b, o')
      → (refused ≡ false) × (f tt o ≡ (ok b, o'))
  unless-answers true throws f o o' b never h =
      let (a, e, rest) = bind-answers throws f o o' b h in absurd (never o a e)
  unless-answers false throws f o o' b never h =
      let (a, e, rest) = lift-answers (ok tt) f o o' b h in (refl, rest)

pub includes-append :
    (ps qs : List Permission) (p : Permission) → includes ps p ≡ true → includes (ps ++ qs) p ≡ true
includes-append [] qs p h = absurd (cc h)
includes-append (q ∷ ps) qs p h = elim (Bool-cases (same_permission p q)) [
  | inl e ↦ rw e refl
  | inr e ↦ rw e (includes-append ps qs p (ground arith))
]
