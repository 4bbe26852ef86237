-- ===== src/CostGate/TierRouter.antt =====
-- packages/cost-gate/src/tierRouter.ts.
use byok_business_autopilot.Base.{ℕ, Bool, Option, none, some, if◌then◌else◌}
use byok_business_autopilot.CostGate.Pricing.{Tier, t1, t2, t3}

pub data Stakes : Type 0 where
  low medium high : Stakes

pub record TierRoutingInput : Type 0 where
  pub stakes : Stakes
  pub failed_validation : Bool

unfoldable pub base_tier_by_stakes : Stakes → Tier
base_tier_by_stakes low = t1
base_tier_by_stakes medium = t1
base_tier_by_stakes high = t3

unfoldable pub escalate_one_tier : Tier → Tier
escalate_one_tier t1 = t2
escalate_one_tier t2 = t3
escalate_one_tier t3 = t3

unfoldable pub route_tier : TierRoutingInput → Tier
unfolding base_tier_by_stakes escalate_one_tier
route_tier input =
    if input.failed_validation
    then escalate_one_tier (base_tier_by_stakes input.stakes)
    else base_tier_by_stakes input.stakes

unfoldable pub tier_one_step_down : Tier → Option Tier
tier_one_step_down t3 = some t2
tier_one_step_down t2 = some t1
tier_one_step_down t1 = none

pub record TierModelMap : Type 0 where
  pub t1_model : ℕ
  pub t2_model : ℕ
  pub t3_model : ℕ

unfoldable pub select_model : Tier → TierModelMap → ℕ
select_model t1 m = m.t1_model
select_model t2 m = m.t2_model
select_model t3 m = m.t3_model
