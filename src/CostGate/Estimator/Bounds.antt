-- ===== src/CostGate/Estimator/Bounds.antt =====
-- packages/cost-gate/src/estimator.ts: what an estimate promises.
use byok_business_autopilot.Base.{
  ℕ, ◌+◌, ◌*◌, ◌-◌, ◌≤◌, ◌≡◌, ok, arith, >>=-eq-ok, ok-injective, ap, ◌∙◌, subst, sym, refl,
}
use byok_business_autopilot.Base.Int.{◌≤ℤ◌}
use byok_business_autopilot.Base.Lists.{length}
use byok_business_autopilot.CostGate.Pricing.{PricingTable, PricingEntry, price_for}
use byok_business_autopilot.CostGate.Estimator.{
  Text, OutputClass, short_structured, prose, CostEstimate, estimate_cost, estimate_with,
  estimate_input_tokens, base_cost, margin_tenths,
}

-- A longer text has at least as many tokens.
tokens_mono : (p q : Text) → length p ≤ length q → estimate_input_tokens p ≤ estimate_input_tokens q
unfolding estimate_input_tokens
tokens_mono p q h = omega arith

base_cost_mono :
    (price : PricingEntry) (p q : Text) (output : OutputClass)
    → length p ≤ length q
    → base_cost price p output ≤ base_cost price q output
base_cost_mono price p q output h = grind (arith, tokens_mono p q h)

times_mono : (a b m : ℕ) → a ≤ b → a * m ≤ b * m
times_mono a b m h = grind arith

margin_order :
    (output : OutputClass) (b : ℕ)
    → b * (10 - margin_tenths output) ≤ b * (10 + margin_tenths output)
margin_order short_structured b = omega arith
margin_order prose b = omega arith

-- What is promised of two estimates, the second of a longer text.
abbrev pub Ordered : ℕ → CostEstimate → CostEstimate → Type 0
Ordered model d e =
    (d.model ≡ model)
    × (d.cost_lower_bound ≤ℤ d.cost_upper_bound)
    × (d.cost_lower_bound ≤ℤ e.cost_lower_bound)
    × (d.cost_upper_bound ≤ℤ e.cost_upper_bound)

estimate_with-Ordered :
    (price : PricingEntry) (p q : Text) (model : ℕ) (output : OutputClass)
    → length p ≤ length q
    → Ordered model (estimate_with price p model output) (estimate_with price q model output)
unfolding estimate_with
estimate_with-Ordered price p q model output h =
    let base = base_cost_mono price p q output h in
    let low = times_mono _ _ (10 - margin_tenths output) base in
    let high = times_mono _ _ (10 + margin_tenths output) base in
    let lean = margin_order output (base_cost price p output) in
    (refl, omega (arith, lean), omega (arith, low), omega (arith, high))

estimate_cost-ok :
    (p : Text) (model : ℕ) (output : OutputClass) (table : PricingTable) (now : ℕ)
    (d : CostEstimate)
    → estimate_cost p model output table now ≡ ok d
    → (u : PricingEntry) × (price_for table now model ≡ ok u) × (estimate_with u p model output ≡ d)
unfolding estimate_cost
estimate_cost-ok p model output table now d f =
    let (u, found, is) = >>=-eq-ok (price_for table now model) _ f in (u, found, ok-injective is)

-- An estimate is for the model that was asked for, its bounds are in order, and a longer text of the
-- same output class costs at least as much at both bounds.
pub estimate_cost_mono :
    (p q : Text) (model : ℕ) (output : OutputClass) (table : PricingTable) (now : ℕ)
    (d e : CostEstimate)
    → length p ≤ length q
    → estimate_cost p model output table now ≡ ok d
    → estimate_cost q model output table now ≡ ok e
    → Ordered model d e
estimate_cost_mono p q model output table now d e h f g =
    let (u, pu, du) = estimate_cost-ok p model output table now d f in
    let (w, pw, ew) = estimate_cost-ok q model output table now e g in
    let same : w ≡ u = ok-injective (sym pw ∙ pu) in
    subst (λ x. Ordered model x e) du
      (subst (Ordered model (estimate_with u p model output))
        (ap (λ x. estimate_with x q model output) (sym same) ∙ ew)
        (estimate_with-Ordered u p q model output h))
