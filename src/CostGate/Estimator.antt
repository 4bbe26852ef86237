-- ===== src/CostGate/Estimator.antt =====
-- packages/cost-gate/src/estimator.ts. A text is the list of its UTF-16 units. Costs are exact, in
-- 1e-13 dollars: a price per million tokens times tokens times tenths of the margin.
pub mod Bounds
use byok_business_autopilot.Base.{ℕ, ◌+◌, ◌-◌, ◌*◌, ◌/◌, List, Result, ok, ◌>>=◌}
use byok_business_autopilot.Base.Int.{ℤ, pos}
use byok_business_autopilot.Base.Lists.{length}
use byok_business_autopilot.CostGate.Pricing.{PricingTable, PricingEntry, PricingError, price_for}

abbrev pub Text : Type 0
Text = List ℕ

pub data OutputClass : Type 0 where
  short_structured prose : OutputClass

abbrev pub base_tokens : OutputClass → ℕ
base_tokens short_structured = 300
base_tokens prose = 1200

-- The margin ratio in tenths.
abbrev pub margin_tenths : OutputClass → ℕ
margin_tenths short_structured = 2
margin_tenths prose = 4

-- `Math.ceil(payload.length / 4)`
unfoldable pub estimate_input_tokens : Text → ℕ
estimate_input_tokens payload = (length payload + 3) / 4

pub record CostEstimate : Type 0 where
  pub model : ℕ
  pub input_tokens_estimate : ℕ
  pub output_tokens_estimate : ℕ
  pub margin : ℕ
  pub cost_lower_bound : ℤ
  pub cost_upper_bound : ℤ

abbrev pub base_cost : PricingEntry → Text → OutputClass → ℕ
base_cost price payload output =
    estimate_input_tokens payload * price.input_per_m_tok
    + base_tokens output * price.output_per_m_tok

unfoldable pub estimate_with : PricingEntry → Text → ℕ → OutputClass → CostEstimate
unfolding estimate_input_tokens
estimate_with price payload model output = record {
  model = model;
  input_tokens_estimate = estimate_input_tokens payload;
  output_tokens_estimate = base_tokens output;
  margin = margin_tenths output;
  cost_lower_bound = pos (base_cost price payload output * (10 - margin_tenths output));
  cost_upper_bound = pos (base_cost price payload output * (10 + margin_tenths output));
}

unfoldable pub estimate_cost :
    Text → ℕ → OutputClass → PricingTable → ℕ → Result PricingError CostEstimate
unfolding estimate_with
estimate_cost payload model output table now = do
  price ← price_for table now model
  ok (estimate_with price payload model output)
