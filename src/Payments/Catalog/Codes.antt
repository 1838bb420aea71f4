-- ===== src/Payments/Catalog/Codes.antt =====
-- The codes of the plans.
use fixzone_enterprise_api.Base.{String, ◌≡◌, refl, some, Bool, true, false, trim, arith}
use fixzone_enterprise_api.Payments.Catalog.{
  SubscriptionPlan, CommercialPlan, plan_name, payment_plan_catalog, plan_coded,
  resolve_payment_plan,
}

abbrev pub is_sold : SubscriptionPlan → Bool
is_sold SubscriptionPlan.free = false
is_sold SubscriptionPlan.demo = false
is_sold _ = true

trim-plan_name : (code : SubscriptionPlan) → trim (plan_name code) ≡ plan_name code
unfolding trim
trim-plan_name SubscriptionPlan.free = refl
trim-plan_name SubscriptionPlan.demo = refl
trim-plan_name SubscriptionPlan.starter = refl
trim-plan_name SubscriptionPlan.professional = refl
trim-plan_name SubscriptionPlan.government = refl
trim-plan_name SubscriptionPlan.enterprise = refl

-- The plan of a code.
sold :
    (code : SubscriptionPlan)
    → is_sold code ≡ true
    → (p : CommercialPlan) × (plan_coded (plan_name code) payment_plan_catalog ≡ some p)
      × (p.code ≡ code)
unfolding plan_coded payment_plan_catalog
sold SubscriptionPlan.free h = ground arith
sold SubscriptionPlan.demo h = ground arith
sold SubscriptionPlan.starter h = (_, refl, refl)
sold SubscriptionPlan.professional h = (_, refl, refl)
sold SubscriptionPlan.government h = (_, refl, refl)
sold SubscriptionPlan.enterprise h = (_, refl, refl)

-- The name of a plan that is sold is read back as a plan with this code, where upper case leaves the
-- name as it is.
pub resolve_payment_plan-plan_name :
    (upper : String → String) (code : SubscriptionPlan)
    → is_sold code ≡ true
    → upper (plan_name code) ≡ plan_name code
    → (p : CommercialPlan) × (resolve_payment_plan upper (plan_name code) ≡ some p)
      × (p.code ≡ code)
unfolding resolve_payment_plan
resolve_payment_plan-plan_name upper code h u =
    let (p, e, c) = sold code h in (p, rw (trim-plan_name code, u) e, c)
