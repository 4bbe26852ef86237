-- ===== src/CostGate/Gate/Verdicts.antt =====
-- packages/cost-gate/src/gate.ts: the gate fails closed.
use byok_business_autopilot.Base.{
  ℕ, ◌≡◌, ◌≢◌, ◌⊎◌, inl, inr, refl, true, false, none, some, Result, ok, err, arith, nat_eq,
  Result-cases, Option-cases, Bool-cases,
}
use byok_business_autopilot.Base.Dict.{lookup}
use byok_business_autopilot.CostGate.Pricing.{PricingEntry, PricingError, Tier, price_for}
use byok_business_autopilot.CostGate.Estimator.{CostEstimate}
use byok_business_autopilot.CostGate.TierRouter.{TierModelMap, tier_one_step_down, select_model}
use byok_business_autopilot.CostGate.Ceilings.{CeilingLevel, CeilingCheck, within, exceeded}
use byok_business_autopilot.CostGate.Ceilings.Room.{
  Fits, LacksRoom, check_ceilings_iff, check_ceilings-LacksRoom,
}
use byok_business_autopilot.CostGate.Gate.{
  GateVerdict, GateInput, GateDeps, VerdictKind, proceed, downgrade, queue, skip, check,
  estimate_at, try_downgrade, evaluate_gate_verdict, within_all, downgraded_fits,
  over_even_after_downgrade, over_not_batchable, estimator_error, decide, over_verdict,
  downgrade_entry, downgrade_to,
}

CeilingCheck-cases : (c : CeilingCheck) → (c ≡ within) ⊎ ((l : CeilingLevel) × (c ≡ exceeded l))
CeilingCheck-cases within = inl refl
CeilingCheck-cases (exceeded l) = inr (l, refl)

-- A model one tier down, of the same provider, that is priced and fits.
pub record Cheaper (input : GateInput) (deps : GateDeps) (model : ℕ) (d : CostEstimate)
    : Type 0 where
  pub entry : PricingEntry
  pub lower : Tier
  pub maps : TierModelMap
  pub priced : price_for deps.table deps.now input.model ≡ ok entry
  pub one_down : tier_one_step_down entry.tier ≡ some lower
  pub same_provider : lookup entry.provider deps.model_maps ≡ some maps
  pub selected : model ≡ select_model lower maps
  pub estimated : estimate_at input deps model ≡ ok d
  pub fits : Fits d.cost_upper_bound input.role_id input.task_type deps.ceilings deps.ledger

-- No model is one tier down, of the same provider, priced and fits.
abbrev pub NoCheaper : GateInput → GateDeps → Type 0
NoCheaper input deps = (model : ℕ) (d : CostEstimate) → ¬ Cheaper input deps model d

-- The five ways in which the gate decides, as rules.
pub data Decides (input : GateInput) (deps : GateDeps) (v : GateVerdict) : Type 0 where
  unpriced :
      (e : PricingError)
      → estimate_at input deps input.model ≡ err e
      → v
        ≡ record { kind = queue; reason = estimator_error e; model = input.model; estimate = none }
      → Decides input deps v
  affordable :
      (e : CostEstimate)
      → estimate_at input deps input.model ≡ ok e
      → Fits e.cost_upper_bound input.role_id input.task_type deps.ceilings deps.ledger
      → v ≡ record { kind = proceed; reason = within_all; model = input.model; estimate = some e }
      → Decides input deps v
  steps_down :
      (e d : CostEstimate) (l : CeilingLevel) (model : ℕ)
      → estimate_at input deps input.model ≡ ok e
      → LacksRoom e.cost_upper_bound input.role_id input.task_type deps.ceilings deps.ledger l
      → Cheaper input deps model d
      → v ≡ record { kind = downgrade; reason = downgraded_fits; model = model; estimate = some d }
      → Decides input deps v
  waits :
      (e : CostEstimate) (l : CeilingLevel)
      → estimate_at input deps input.model ≡ ok e
      → LacksRoom e.cost_upper_bound input.role_id input.task_type deps.ceilings deps.ledger l
      → NoCheaper input deps
      → input.batchable ≡ true
      → v ≡ record {
        kind = queue;
        reason = over_even_after_downgrade l;
        model = input.model;
        estimate = some e;
      }
      → Decides input deps v
  gives_up :
      (e : CostEstimate) (l : CeilingLevel)
      → estimate_at input deps input.model ≡ ok e
      → LacksRoom e.cost_upper_bound input.role_id input.task_type deps.ceilings deps.ledger l
      → NoCheaper input deps
      → input.batchable ≡ false
      → v ≡ record {
        kind = skip;
        reason = over_not_batchable l;
        model = input.model;
        estimate = some e;
      }
      → Decides input deps v

abbrev downgraded : ℕ → CostEstimate → GateVerdict
downgraded model d = record {
  kind = downgrade;
  reason = downgraded_fits;
  model = model;
  estimate = some d;
}

downgrade_to-some :
    (input : GateInput) (deps : GateDeps) (model : ℕ) (r : Result PricingError CostEstimate)
    (v : GateVerdict)
    → downgrade_to input deps model r ≡ some v
    → (d : CostEstimate) × (r ≡ ok d) × (check input deps d ≡ within) × (v ≡ downgraded model d)
downgrade_to-some input deps model (err e) v h = cc
downgrade_to-some input deps model (ok d) v h = (d, refl, ground arith, ground arith)

downgrade_entry-some :
    (input : GateInput) (deps : GateDeps) (entry : PricingEntry) (v : GateVerdict)
    → price_for deps.table deps.now input.model ≡ ok entry
    → downgrade_entry input deps entry ≡ some v
    → (d : CostEstimate) × (model : ℕ) × Cheaper input deps model d × (v ≡ downgraded model d)
downgrade_entry-some input deps entry v priced h =
    elim (Option-cases (tier_one_step_down entry.tier)) [
      | inl e ↦ absurd (ground arith)
      | inr (lower, e) ↦ elim (Option-cases (lookup entry.provider deps.model_maps)) [
        | inl f ↦ absurd (ground arith)
        | inr (maps, f) ↦
            let model : ℕ = select_model lower maps in
            let (d, est, fits, is) =
              downgrade_to-some input deps model (estimate_at input deps model) v (ground arith) in
            (
              d,
              model,
              record {
                entry = entry;
                lower = lower;
                maps = maps;
                priced = priced;
                one_down = e;
                same_provider = f;
                selected = refl;
                estimated = est;
                fits = (check_ceilings_iff _ _ _ _ _).0 fits;
              },
              is,
            )
      ]
    ]

try_downgrade-some :
    (input : GateInput) (deps : GateDeps) (v : GateVerdict)
    → try_downgrade input deps ≡ some v
    → (d : CostEstimate) × (model : ℕ) × Cheaper input deps model d × (v ≡ downgraded model d)
unfolding try_downgrade
try_downgrade-some input deps v h =
    elim (Result-cases (price_for deps.table deps.now input.model)) [
      | inl (e, f) ↦ absurd (ground arith)
      | inr (entry, f) ↦ downgrade_entry-some input deps entry v f (ground arith)
    ]

downgraded_is_some :
    (input : GateInput) (deps : GateDeps) (model : ℕ) (d : CostEstimate)
    → Cheaper input deps model d
    → try_downgrade input deps ≢ none
unfolding try_downgrade
downgraded_is_some input deps model d c h =
    let fits = (check_ceilings_iff _ _ _ _ _).1 c.fits in
    ground (arith, h, c.priced, c.one_down, c.same_provider, c.selected, c.estimated, fits)

over_verdict-Decides :
    (input : GateInput) (deps : GateDeps) (e : CostEstimate) (l : CeilingLevel)
    → estimate_at input deps input.model ≡ ok e
    → check input deps e ≡ exceeded l
    → Decides input deps (over_verdict input e l (try_downgrade input deps))
over_verdict-Decides input deps e l est over =
    let lacks = check_ceilings-LacksRoom _ _ _ _ _ l over in
    elim (Option-cases (try_downgrade input deps)) [
      | inr (v, f) ↦
          let (d, model, cheaper, is) = try_downgrade-some input deps v f in
          steps_down e d l model est lacks cheaper (rw f is)
      | inl f ↦ elim (Bool-cases input.batchable) [
        | inl b ↦
            waits e l est lacks (λ model d c. downgraded_is_some input deps model d c f) b
              (rw f (ground arith))
        | inr b ↦
            gives_up e l est lacks (λ model d c. downgraded_is_some input deps model d c f) b
              (rw f (ground arith))
      ]
    ]

decide-Decides :
    (input : GateInput) (deps : GateDeps) (r : Result PricingError CostEstimate)
    → estimate_at input deps input.model ≡ r
    → Decides input deps (decide input deps r)
decide-Decides input deps (err e) est = unpriced e est refl
decide-Decides input deps (ok e) est = elim (CeilingCheck-cases (check input deps e)) [
  | inl fits ↦ affordable e est ((check_ceilings_iff _ _ _ _ _).0 fits) (rw (fits, decide))
  | inr (l, over) ↦ rw (over, decide) (over_verdict-Decides input deps e l est over)
]

pub evaluate_gate_verdict-Decides :
    (input : GateInput) (deps : GateDeps) → Decides input deps (evaluate_gate_verdict input deps)
unfolding evaluate_gate_verdict
evaluate_gate_verdict-Decides input deps = decide-Decides input deps _ refl

-- The verdict lets the task run.
abbrev pub Runs : VerdictKind → Type 0
Runs k = (k ≡ proceed) ⊎ (k ≡ downgrade)

Decides-backed :
    (input : GateInput) (deps : GateDeps) (v : GateVerdict)
    → Decides input deps v
    → Runs v.kind
    → (e : CostEstimate) × (v.estimate ≡ some e)
      × (estimate_at input deps v.model ≡ ok e)
      × Fits e.cost_upper_bound input.role_id input.task_type deps.ceilings deps.ledger
Decides-backed input deps v (unpriced e est is) r = absurd (ground arith)
Decides-backed input deps v (affordable e est fits is) r = (e, ground arith, rw is est, fits)
Decides-backed input deps v (steps_down e d l model est over cheaper is) r =
    (d, ground arith, rw is cheaper.estimated, cheaper.fits)
Decides-backed input deps v (waits e l est over none_down b is) r = absurd (ground arith)
Decides-backed input deps v (gives_up e l est over none_down b is) r = absurd (ground arith)

-- Where a task may run, the verdict carries the estimate for the model that is to run, and that
-- estimate, together with what the ledger holds as settled and in flight, fits under the company's
-- ceiling and, where they are configured, under those of the role and of the task type.
pub Runs-within_ceilings :
    (input : GateInput) (deps : GateDeps)
    → Runs (evaluate_gate_verdict input deps).kind
    → let v = evaluate_gate_verdict input deps in
      (e : CostEstimate) × (v.estimate ≡ some e)
      × (estimate_at input deps v.model ≡ ok e)
      × Fits e.cost_upper_bound input.role_id input.task_type deps.ceilings deps.ledger
Runs-within_ceilings input deps r =
    let (e, has, est, fits) =
      Decides-backed input deps _ (evaluate_gate_verdict-Decides input deps) r in
    (e, has, est, fits)
