-- ===== src/Report/Policy/Laws.antt =====
-- What the completion policies mean for the two deciding parties.
use fixzone_enterprise_api.Base.{
  ◌≡◌, ◌↔◌, true, false, Option, some, get_or, arith, inl, inr, Bool-cases,
}
use fixzone_enterprise_api.Report.Types.{
  CompletionPolicy, citizen_confirmation_required, organization_confirmation_required,
  both_required, citizen_or_organization, admin_resolution_required, auto_close_after_review_window,
  CompletionDecision, undecided, confirmed, verified, awaiting_organization_verification,
  awaiting_citizen_review, awaiting_admin_resolution, awaiting_both, is_decision,
}
use fixzone_enterprise_api.Report.Policy.{review_state_for, is_completion_satisfied}

-- Which decisions close a report, stated by the rights of the two parties: a party that may close
-- alone, and the two together.
pub data Closes
    : CompletionPolicy → Option CompletionDecision → Option CompletionDecision → Type 0 where
  by_citizen :
      {o : Option CompletionDecision} → Closes citizen_confirmation_required (some confirmed) o
  by_organization :
      {c : Option CompletionDecision} → Closes organization_confirmation_required c (some verified)
  by_both : Closes both_required (some confirmed) (some verified)
  by_either_citizen :
      {o : Option CompletionDecision} → Closes citizen_or_organization (some confirmed) o
  by_either_organization :
      {c : Option CompletionDecision} → Closes citizen_or_organization c (some verified)
  in_window_citizen :
      {o : Option CompletionDecision} → Closes auto_close_after_review_window (some confirmed) o
  in_window_organization :
      {c : Option CompletionDecision} → Closes auto_close_after_review_window c (some verified)

Closes-satisfied :
    {p : CompletionPolicy} {c o : Option CompletionDecision}
    → Closes p c o
    → is_completion_satisfied p c o ≡ true
unfolding is_completion_satisfied
Closes-satisfied by_citizen = ground arith
Closes-satisfied by_organization = ground arith
Closes-satisfied by_both = ground arith
Closes-satisfied by_either_citizen = ground arith
Closes-satisfied by_either_organization = ground arith
Closes-satisfied in_window_citizen = ground arith
Closes-satisfied in_window_organization = ground arith

-- A decision that is missing counts as one that is not made.
pub satisfied_undecided :
    (p : CompletionPolicy) (c o : Option CompletionDecision)
    → (is_completion_satisfied p c (some (get_or o undecided)) ≡ is_completion_satisfied p c o)
      × (is_completion_satisfied p (some (get_or c undecided)) o ≡ is_completion_satisfied p c o)
unfolding is_completion_satisfied
satisfied_undecided p c o = (ground arith, ground arith)

is_confirmed : (c : Option CompletionDecision) → is_decision c confirmed ≡ true → c ≡ some confirmed
is_confirmed c h = ground arith

is_verified : (o : Option CompletionDecision) → is_decision o verified ≡ true → o ≡ some verified
is_verified o h = ground arith

satisfied-Closes :
    (p : CompletionPolicy) (c o : Option CompletionDecision)
    → is_completion_satisfied p c o ≡ true
    → Closes p c o
unfolding is_completion_satisfied
satisfied-Closes citizen_confirmation_required c o h = rw (is_confirmed c h) by_citizen
satisfied-Closes organization_confirmation_required c o h = rw (is_verified o h) by_organization
satisfied-Closes both_required c o h =
    rw (is_confirmed c (ground arith), is_verified o (ground arith)) by_both
satisfied-Closes citizen_or_organization c o h = elim (Bool-cases (is_decision c confirmed)) [
  | inl e ↦ rw (is_confirmed c e) by_either_citizen
  | inr n ↦ rw (is_verified o (ground arith)) by_either_organization
]
satisfied-Closes auto_close_after_review_window c o h =
    elim (Bool-cases (is_decision c confirmed)) [
      | inl e ↦ rw (is_confirmed c e) in_window_citizen
      | inr n ↦ rw (is_verified o (ground arith)) in_window_organization
    ]
satisfied-Closes admin_resolution_required c o h = cc

-- A completion is satisfied exactly when the party or the parties that the policy names have
-- decided for it.
pub satisfied_iff_Closes :
    (p : CompletionPolicy) (c o : Option CompletionDecision)
    → (is_completion_satisfied p c o ≡ true) ↔ Closes p c o
satisfied_iff_Closes p c o = (satisfied-Closes p c o, Closes-satisfied)

-- If the review waits for the citizen, the citizen's confirmation closes it; if it waits for the
-- organization, its verification does; if it waits for both, the two together do and neither alone;
-- and if it waits for the platform, no decisions do.
pub review_state_for_awaits :
    (p : CompletionPolicy) (c o : Option CompletionDecision)
    → (review_state_for p c o ≡ awaiting_citizen_review
        → is_completion_satisfied p (some confirmed) o ≡ true)
      × (review_state_for p c o ≡ awaiting_organization_verification
          → is_completion_satisfied p c (some verified) ≡ true)
      × (review_state_for p c o ≡ awaiting_both
          → (is_completion_satisfied p (some confirmed) (some verified) ≡ true)
            × (is_completion_satisfied p (some confirmed) o ≡ false)
            × (is_completion_satisfied p c (some verified) ≡ false))
      × (review_state_for p c o ≡ awaiting_admin_resolution
          → (c' o' : Option CompletionDecision) → is_completion_satisfied p c' o' ≡ false)
unfolding review_state_for is_completion_satisfied
review_state_for_awaits p c o = (ground arith, ground arith, ground arith, λ h c' o'. ground arith)
