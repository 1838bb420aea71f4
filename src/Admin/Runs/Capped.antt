-- ===== src/Admin/Runs/Capped.antt =====
-- Roles of super administrators over a run: nobody is given one.
use fixzone_enterprise_api.Base.{ℕ, ◌≡◌, true, false, some, find, Bool, Table, EachRow}
use fixzone_enterprise_api.Admin.Authority.{is_any_super}
use fixzone_enterprise_api.Admin.Office.{Account, InternalRoleAssignment, Invitation, Office}
use fixzone_enterprise_api.Admin.Runs.{Runs}

-- An invitation, or an assignment, of another role than a super administrator's.
abbrev pub IsOrdinary : Invitation → Type 0
IsOrdinary i = is_any_super (some i.role) ≡ false

abbrev pub IsOrdinaryGrant : InternalRoleAssignment → Type 0
IsOrdinaryGrant a = is_any_super (some a.role) ≡ false

-- The user was a super administrator in a table.
abbrev pub WasSuper : Table Account → ℕ → Type 0
WasSuper t id = (a : Account) × (find id t ≡ some a) × (is_any_super (some a.role) ≡ true)

-- The tables have no more super administrators than a table of users, and nobody is to become one.
abbrev IsCapped : Table Account → Office → Type 0
IsCapped t o =
    EachRow IsOrdinary o.invitations
    × EachRow IsOrdinaryGrant o.assignments
    × ((id : ℕ) (a : Account)
        → find id o.accounts ≡ some a
        → is_any_super (some a.role) ≡ true
        → WasSuper t id)
