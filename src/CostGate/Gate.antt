-- ===== src/CostGate/Gate.antt =====
-- packages/cost-gate/src/gate.ts: the pure decision. One evaluation reads the clock once.
pub mod Verdicts
use byok_business_autopilot.Base.{
  ℕ, Bool, Option, none, some, Result, ok, err, nat_eq, if◌then◌else◌,
}
use byok_business_autopilot.Base.Dict.{Dict, lookup}
use byok_business_autopilot.CostGate.Pricing.{
  PricingTable, PricingEntry, PricingError, Tier, price_for,
}
use byok_business_autopilot.CostGate.Estimator.{CostEstimate, OutputClass, Text, estimate_cost}
use byok_business_autopilot.CostGate.TierRouter.{TierModelMap, tier_one_step_down, select_model}
use byok_business_autopilot.CostGate.Ceilings.{
  CeilingConfig, CeilingLevel, CeilingCheck, within, exceeded, check_ceilings,
}
use byok_business_autopilot.CostGate.Ledger.{Ledger}

pub data VerdictKind : Type 0 where
  proceed downgrade queue skip : VerdictKind

-- What the reason's text says.
pub data Reason : Type 0 where
  within_all : Reason
  estimator_error : PricingError → Reason
  downgraded_fits : Reason
  over_even_after_downgrade : CeilingLevel → Reason
  over_not_batchable : CeilingLevel → Reason
  over_durable : CeilingLevel → Reason
  over_durable_not_batchable : CeilingLevel → Reason

pub record GateVerdict : Type 0 where
  pub kind : VerdictKind
  pub reason : Reason
  pub model : ℕ
  pub estimate : Option CostEstimate

pub record GateInput : Type 0 where
  pub task_id : ℕ
  pub role_id : ℕ
  pub task_type : ℕ
  pub payload : Text
  pub model : ℕ
  pub output_class : OutputClass
  pub batchable : Bool

pub record GateDeps : Type 0 where
  pub table : PricingTable
  pub ceilings : CeilingConfig
  pub ledger : Ledger
  pub model_maps : Dict ℕ TierModelMap
  pub now : ℕ

abbrev pub check : GateInput → GateDeps → CostEstimate → CeilingCheck
check input deps estimate =
    check_ceilings estimate.cost_upper_bound input.role_id input.task_type deps.ceilings deps.ledger

abbrev pub estimate_at : GateInput → GateDeps → ℕ → Result PricingError CostEstimate
estimate_at input deps model =
    estimate_cost input.payload model input.output_class deps.table deps.now

-- The end of `tryDowngrade`, at the cheaper model.
abbrev pub downgrade_to :
    GateInput → GateDeps → ℕ → Result PricingError CostEstimate → Option GateVerdict
downgrade_to input deps model (err e) = none
downgrade_to input deps model (ok estimate) = elim (check input deps estimate) [
  | within ↦ some (record {
    kind = downgrade;
    reason = downgraded_fits;
    model = model;
    estimate = some estimate;
  })
  | exceeded level ↦ none
]

abbrev pub downgrade_from : GateInput → GateDeps → Tier → TierModelMap → Option GateVerdict
downgrade_from input deps lower maps =
    downgrade_to input deps (select_model lower maps)
      (estimate_at input deps (select_model lower maps))

abbrev pub downgrade_entry : GateInput → GateDeps → PricingEntry → Option GateVerdict
downgrade_entry input deps entry = elim (tier_one_step_down entry.tier) [
  | none ↦ none
  | some lower ↦ elim (lookup entry.provider deps.model_maps) [
    | none ↦ none
    | some maps ↦ downgrade_from input deps lower maps
  ]
]

unfoldable pub try_downgrade : GateInput → GateDeps → Option GateVerdict
try_downgrade input deps = elim (price_for deps.table deps.now input.model) [
  | err e ↦ none
  | ok entry ↦ downgrade_entry input deps entry
]

-- Steps 3 to 5, for a task that is over a ceiling at the requested model.
abbrev pub over_verdict : GateInput → CostEstimate → CeilingLevel → Option GateVerdict → GateVerdict
over_verdict input estimate level (some verdict) = verdict
over_verdict input estimate level none =
    if input.batchable
    then record {
      kind = queue;
      reason = over_even_after_downgrade level;
      model = input.model;
      estimate = some estimate;
    }
    else record {
      kind = skip;
      reason = over_not_batchable level;
      model = input.model;
      estimate = some estimate;
    }

abbrev pub decide : GateInput → GateDeps → Result PricingError CostEstimate → GateVerdict
decide input deps (err e) = record {
  kind = queue;
  reason = estimator_error e;
  model = input.model;
  estimate = none;
}
decide input deps (ok estimate) = elim (check input deps estimate) [
  | within ↦ record {
    kind = proceed;
    reason = within_all;
    model = input.model;
    estimate = some estimate;
  }
  | exceeded level ↦ over_verdict input estimate level (try_downgrade input deps)
]

unfoldable pub evaluate_gate_verdict : GateInput → GateDeps → GateVerdict
unfolding try_downgrade
evaluate_gate_verdict input deps = decide input deps (estimate_at input deps input.model)
