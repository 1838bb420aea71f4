-- ===== src/Admin/Runs.antt =====
-- Requests of internal administration one after the other, and what holds of the tables throughout.
pub mod Approved
pub mod Capped
pub mod Supers
use fixzone_enterprise_api.Base.{Bool, true, false, ◌≡◌, refl, ◌||◌, Bool-cases, inl, inr}
use fixzone_enterprise_api.Admin.Office.{InternalAdminUser, Office, AdminEnv}
use fixzone_enterprise_api.Admin.Accounts.{AdminRequest, is_acceptance, serve_admin}
use fixzone_enterprise_api.Admin.Accounts.Changes.{Change, Changes, unchanged, changed}
use fixzone_enterprise_api.Admin.Accounts.Changes.Requests.{serve_admin-Changes}

-- The tables that requests of any callers lead to, each with surroundings of its own; `accepting` is
-- set where invitations may be accepted among them.
pub data Runs (accepting : Bool) (o : Office) : Office → Type 0 where
  begin : Runs accepting o o
  next :
      {o' : Office} (env : AdminEnv) (request : AdminRequest) (user : InternalAdminUser)
      → Runs accepting o o'
      → (is_acceptance request ≡ true → accepting ≡ true)
      → Runs accepting o (serve_admin env request user o')

Changes-keep :
    {P : Office → Type 0} (b : Bool) (o o' : Office)
    → ((u w : Office) → Change b u w → P u → P w)
    → Changes b o o'
    → P o
    → P o'
Changes-keep b o _ step unchanged h = h
Changes-keep b o _ step (changed {o'} cs c) h = step o' _ c (Changes-keep b o o' step cs h)

-- What each change keeps, every run keeps.
pub Runs-keep :
    {P : Office → Type 0} (accepting : Bool) (o o' : Office)
    → ((b : Bool) (u w : Office) → (b ≡ true → accepting ≡ true) → Change b u w → P u → P w)
    → Runs accepting o o'
    → P o
    → P o'
Runs-keep accepting o _ step begin h = h
Runs-keep {P} accepting o _ step (next {o'} env request user before allowed) h =
    Changes-keep (is_acceptance request) o' (serve_admin env request user o')
      (λ u w. step (is_acceptance request) u w allowed) (serve_admin-Changes env request user o')
      (Runs-keep accepting o o' step before h)
