-- ===== src/Admin/Runs/Approved.antt =====
-- Requests of approval over a run: nobody decides a request of their own, and none is executed.
use mathlib.Core.Bool.{false≢true}
use fixzone_enterprise_api.Base.{
  ℕ, ◌≡◌, ◌≢◌, refl, sym, ◌∙◌, true, false, some, ==_iff, arith, find, Bool, EachRow, EachRow-find,
  put-EachRow, append-EachRow, if◌then◌else◌,
}
use fixzone_enterprise_api.Admin.Office.{ApprovalRequest, ApprovalStatus, Office}
use fixzone_enterprise_api.Admin.Accounts.Changes.{Change}
use fixzone_enterprise_api.Admin.Runs.{Runs, Runs-keep}

-- A request that its maker has not decided, that is blocked from execution and is not marked approved.
abbrev pub IsSeparated : ApprovalRequest → Type 0
IsSeparated r =
    (r.approver_id ≢ some r.requester_id)
    × (r.execution_blocked ≡ true)
    × (r.status ≢ ApprovalStatus.approved)

not_approved :
    (approve : Bool)
    → (if approve then ApprovalStatus.execution_blocked else ApprovalStatus.rejected)
      ≢ ApprovalStatus.approved
not_approved true e = absurd (cc e)
not_approved false e = absurd (cc e)

Change-IsSeparated :
    (b : Bool) (u w : Office)
    → Change b u w
    → EachRow IsSeparated u.approvals
    → EachRow IsSeparated w.approvals
Change-IsSeparated b u _ (Change.asks id r is_new fresh blocked) h =
    append-EachRow IsSeparated id r u.approvals h
      ((λ e. absurd (cc (e, fresh))), blocked, (λ e. absurd (cc (e, is_new))))
Change-IsSeparated b u _ (Change.decides id now actor approve reason r there other) h =
    put-EachRow IsSeparated id _ u.approvals h (
      (λ e. absurd (false≢true (sym other ∙ (==_iff r.requester_id actor).1 (ground arith)))),
      refl,
      not_approved approve,
    )
Change-IsSeparated b u _ (Change.logs l) h = h
Change-IsSeparated b u _ (Change.notifies l) h = h
Change-IsSeparated b u _ (Change.invites id i e) h = h
Change-IsSeparated b u _ (Change.grants id a e) h = h
Change-IsSeparated b u _ (Change.revokes id now actor reason a e) h = h
Change-IsSeparated b u _ (Change.updates id a a' e s k) h = h
Change-IsSeparated b u _ (Change.expires id i e) h = h
Change-IsSeparated b u _ (Change.accepts env user id i d a e f g) h = h

-- Whatever requests are served, in any order, from whatever callers and at any times, no request of
-- approval comes to be decided by the one who made it, every one stays blocked from execution, and
-- none is marked approved, where this is so at first.
pub Runs-IsSeparated :
    (accepting : Bool) (o o' : Office) (id : ℕ) (r : ApprovalRequest)
    → Runs accepting o o'
    → EachRow IsSeparated o.approvals
    → find id o'.approvals ≡ some r
    → (r.approver_id ≢ some r.requester_id)
      × (r.execution_blocked ≡ true)
      × (r.status ≢ ApprovalStatus.approved)
Runs-IsSeparated accepting o o' id r runs h there =
    EachRow-find IsSeparated id r o'.approvals
      (Runs-keep {P = λ w. EachRow IsSeparated w.approvals} accepting o o'
        (λ b u w _ c p. Change-IsSeparated b u w c p) runs h)
      there
