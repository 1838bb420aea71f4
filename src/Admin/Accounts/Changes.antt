-- ===== src/Admin/Accounts/Changes.antt =====
-- What the calls of internal administration write: every call is a series of changes of a few kinds.
pub mod Calls
pub mod Granting
pub mod Requests
use fixzone_enterprise_api.Base.{
  ℕ, String, Bool, true, false, ◌≡◌, refl, ◌⊎◌, inl, inr, ◌≤◌, ◌≢◌, arith, Option, none, some, List,
  Option-cases, Bool-cases, ◌==◌, find, put, if◌then◌else◌,
}
use fixzone_enterprise_api.Base.Result.{Result, ok, err, Error, not_found, Result-cases}
use fixzone_enterprise_api.Report.Types.{UserRole, AccountStatus}
use fixzone_enterprise_api.Admin.Office.{
  InternalAdminUser, Account, InternalRoleAssignment, Invitation, ApprovalRequest, ApprovalStatus,
  AdminAudit, Office, AdminEnv, AdminCall, fail, lift, found, unless, modify, ◌>>=◌,
}
use fixzone_enterprise_api.Admin.Authority.{is_any_super}
use fixzone_enterprise_api.Admin.Catalog.{InternalRoleDefinition}
use fixzone_enterprise_api.Admin.Approvals.{decided, with_approval, with_decision}
use fixzone_enterprise_api.Admin.Delegation.{with_invitation, with_assignment}
use fixzone_enterprise_api.Admin.Accounts.{
  with_expired, with_acceptance, with_revocation, is_active_super, other_super_admins,
  revoked_assignment,
}

-- One write, on behalf of a caller; acceptances of invitations only where they are allowed for.
pub data Change (accepting : Bool) (o : Office) : Office → Type 0 where
  logs : (l : List AdminAudit) → Change accepting o (record o { audit_log = l })
  notifies : (l : List ℕ) → Change accepting o (record o { notified = l })
  asks :
      (id : ℕ) (r : ApprovalRequest)
      → r.status ≡ ApprovalStatus.pending
      → r.approver_id ≡ none
      → r.execution_blocked ≡ true
      → Change accepting o (with_approval id r o)
  decides :
      (id now actor : ℕ) (approve : Bool) (reason : Option String) (r : ApprovalRequest)
      → find id o.approvals ≡ some r
      → (r.requester_id == actor) ≡ false
      → Change accepting o (with_decision id (decided now actor approve reason r) o)
  invites :
      (id : ℕ) (i : Invitation)
      → is_any_super (some i.role) ≡ false
      → Change accepting o (with_invitation id i o)
  grants :
      (id : ℕ) (a : InternalRoleAssignment)
      → is_any_super (some a.role) ≡ false
      → Change accepting o (with_assignment id a o)
  revokes :
      (id now actor : ℕ) (reason : Option String) (a : InternalRoleAssignment)
      → find id o.assignments ≡ some a
      → Change accepting o (with_revocation id (revoked_assignment now actor reason a) o)
  updates :
      (id : ℕ) (a b : Account)
      → find id o.accounts ≡ some a
      → b.role ≡ a.role
      → (is_active_super a ≡ true → is_active_super b ≡ true)
        ⊎ (1 ≤ other_super_admins id o.accounts)
      → Change accepting o (record o { accounts = put id b o.accounts })
  expires :
      (id : ℕ) (i : Invitation)
      → find id o.invitations ≡ some i
      → Change accepting o (with_expired id i o)
  accepts :
      (env : AdminEnv) (user id : ℕ) (i : Invitation) (d : InternalRoleDefinition) (a : Account)
      → accepting ≡ true
      → find user o.accounts ≡ some a
      → find id o.invitations ≡ some i
      → Change accepting o (with_acceptance env user id i d a o)

-- A series of writes.
pub data Changes (accepting : Bool) (o : Office) : Office → Type 0 where
  unchanged : Changes accepting o o
  changed :
      {o' o'' : Office} → Changes accepting o o' → Change accepting o' o'' → Changes accepting o o''

pub Changes-trans :
    {accepting : Bool} {o o' o'' : Office}
    → Changes accepting o o'
    → Changes accepting o' o''
    → Changes accepting o o''
Changes-trans c unchanged = c
Changes-trans c (changed d last) = changed (Changes-trans c d) last

pub one : {accepting : Bool} {o o' : Office} → Change accepting o o' → Changes accepting o o'
one c = changed unchanged c

-- A call makes changes, whether it answers or throws.
abbrev pub Makes : {A : Type 0} → Bool → AdminCall A → Office → Type 0
Makes accepting m o = Changes accepting o (m o).1

-- What `findUnique` answers is a row of the table, and the tables stay as they are.
pub found_lem :
    {A : Type 0} (id : ℕ) (rows : Office → List (ℕ × A)) (message : String) (o : Office)
    → ((found id rows message o).1 ≡ o)
      × ((a : A) → (found id rows message o).0 ≡ ok a → find id (rows o) ≡ some a)
unfolding found
found_lem id rows message o = elim (Option-cases (find id (rows o))) [
  | inl e ↦ rw (e, found) (refl, λ a f. absurd (cc f))
  | inr (b, e) ↦ rw (e, found) (refl, λ a f. ground arith)
]

-- A call that writes nothing.
abbrev pub Reads : {A : Type 0} → AdminCall A → Type 0
Reads m = (o : Office) → (m o).1 ≡ o

module _ {accepting : Bool} {A B : Type 0} where
  -- Two calls, one after the other: of the second, the changes where the first answers.
  pub bind-Makes :
      (m : AdminCall A) (f : A → AdminCall B) (o : Office)
      → Makes accepting m o
      → ((a : A) → (m o).0 ≡ ok a → Makes accepting (f a) (m o).1)
      → Makes accepting (m >>= f) o
  unfolding ◌>>=◌
  bind-Makes m f o c rest = elim (Result-cases (m o).0) [
    | inl (a, e) ↦ rw (e, ◌>>=◌) (Changes-trans c (rest a e))
    | inr (x, e) ↦ rw (e, ◌>>=◌) c
  ]

  -- A value that does not depend on the tables, and what follows it.
  pub lift-Makes :
      (r : Result A) (f : A → AdminCall B) (o : Office)
      → ((a : A) → r ≡ ok a → Makes accepting (f a) o)
      → Makes accepting (lift r >>= f) o
  lift-Makes r f o rest = bind-Makes (lift r) f o unchanged rest

  pub read-Makes :
      (m : AdminCall A) (f : A → AdminCall B) (o : Office)
      → Reads m
      → ((a : A) → (m o).0 ≡ ok a → Makes accepting (f a) o)
      → Makes accepting (m >>= f) o
  read-Makes m f o same rest =
      bind-Makes m f o (rw (same o) unchanged) (λ a e. rw (same o) (rest a e))

  pub found-Makes :
      (id : ℕ) (rows : Office → List (ℕ × A)) (message : String) (f : A → AdminCall B) (o : Office)
      → ((a : A) → find id (rows o) ≡ some a → Makes accepting (f a) o)
      → Makes accepting (found id rows message >>= f) o
  found-Makes id rows message f o rest =
      read-Makes (found id rows message) f o (λ o'. (found_lem id rows message o').0)
        (λ a e. rest a ((found_lem id rows message o).1 a e))

-- A call that never answers.
abbrev pub Throws : AdminCall (Unit {0}) → Type 0
Throws m = (o : Office) (a : Unit {0}) → (m o).0 ≢ ok a

module _ {accepting : Bool} {B : Type 0} where
  pub unless-Makes :
      (b : Bool) (throws : AdminCall (Unit {0})) (f : Unit {0} → AdminCall B) (o : Office)
      → Throws throws
      → Makes accepting throws o
      → (b ≡ false → Makes accepting (f tt) o)
      → Makes accepting (unless b throws >>= f) o
  unless-Makes true throws f o never c rest = bind-Makes throws f o c (λ a e. absurd (never o a e))
  unless-Makes false throws f o never c rest = lift-Makes (ok tt) f o (λ a e. rest refl)

  pub if-Makes :
      (b : Bool) (m n : AdminCall B) (o : Office)
      → (b ≡ true → Makes accepting m o)
      → (b ≡ false → Makes accepting n o)
      → Makes accepting (if b then m else n) o
  if-Makes true m n o c d = c refl
  if-Makes false m n o c d = d refl

  -- A write, and what follows it.
  pub modify-Makes :
      (change : Office → Office) (f : Unit {0} → AdminCall B) (o : Office)
      → Change accepting o (change o)
      → Makes accepting (f tt) (change o)
      → Makes accepting (modify change >>= f) o
  modify-Makes change f o c rest = bind-Makes (modify change) f o (one c) (λ a e. rest)
