-- ===== src/Router/Task.antt =====
-- apps/router/src/router.ts, submitTask. The router has a gate and a queue, as it must in production. The
-- agent's executor is a parameter, and `calls` lists its calls. The tags are those that `deriveTags` has
-- made. One call reads the clock once.
pub mod Replay
pub mod Returns
pub mod Order
pub mod Advice
pub mod Locked
use byok_business_autopilot.Base.{
  ℕ, Bool, true, false, Option, none, some, List, [], ◌∷◌, ◌++◌, Result, ok, err, if◌then◌else◌,
  nat_eq,
}
use byok_business_autopilot.Base.Int.{ℤ}
use byok_business_autopilot.Base.Dict.{Dict, lookup, insert}
use byok_business_autopilot.CostGate.Gate.{
  GateInput, GateVerdict, VerdictKind, proceed, downgrade, queue, skip,
}
use byok_business_autopilot.CostGate.Ledger.{Reservation}
use byok_business_autopilot.CostGate.Service.{
  CostGate, Call, GateError, GateResult, evaluate_and_reserve,
}
use byok_business_autopilot.CostGate.Service
use byok_business_autopilot.ApprovalQueue.Types.{
  EffectDescriptor, ProposedAction, RecommendationItem, QueueError,
}
use byok_business_autopilot.ApprovalQueue.Autonomy.{AutonomyConfig}
use byok_business_autopilot.ApprovalQueue.Queue.{submit_proposed_action, submit_recommendation}
use byok_business_autopilot.ApprovalQueue.Trail.{Queue, SubmitResult}
use byok_business_autopilot.Router.Types.{
  RouterTask, RouterTaskInput, RouterTaskStatus, pending, queued, in_progress, awaiting_review,
  completed, failed, skipped, PromptTier, ceo, role_lead, sub_agent, LedgerEntry, DedupKey,
  dedup_key_eq,
}
use Prim.Native.String.{String}
use byok_business_autopilot.Router.State.{
  Outcome, threw, done, RouterError, gate_error, queue_error, Router, Moment, key_of, input_key,
  update, append, save, new_task, gate_input, hands, effective_effect, recommendation_of, action_of,
}

abbrev pub Answer : Type 0
Answer = Result RouterError RouterTask × Router

abbrev pub submitted : RouterTask → RouterTaskStatus → Router → Answer
submitted t status r =
    let t' = record t { status = status; approval_action_id = some t.id } in (ok t', save t' r)

abbrev pub recommended : RouterTask → Router → Result QueueError Queue → Answer
recommended t r (err e) = (err (queue_error e), r)
recommended t r (ok q) = submitted t awaiting_review (record r { approvals = q })

abbrev pub proposed : RouterTask → Router → SubmitResult × Queue → Answer
proposed t r (answer, q) =
    submitted t (if answer.queued then awaiting_review else completed) (record r { approvals = q })

-- The end of `submitTask`, by the tier.
abbrev pub review :
    AutonomyConfig → Moment → RouterTaskInput → RouterTask → ℕ → PromptTier → Router → Answer
review config m i t draft ceo r =
    recommended t r
      (submit_recommendation m.gate_call.now (recommendation_of i t draft) r.approvals)
review config m i t draft role_lead r =
    proposed t r
      (submit_proposed_action config m.gate_call.now m.draw (action_of i t draft) r.approvals)
review config m i t draft sub_agent r =
    proposed t r
      (submit_proposed_action config m.gate_call.now m.draw (action_of i t draft) r.approvals)

-- `settle` and `release` of a reservation, if one was made.
abbrev pub cost_or : Option ℤ → ℤ → ℤ
cost_or none amount = amount
cost_or (some cost) amount = cost

abbrev pub settle_if :
    Option Reservation → Option ℤ → CostGate → Result GateError (Unit {0}) × CostGate
settle_if none cost g = (ok tt, g)
settle_if (some v) cost g = Service.settle v.id (cost_or cost v.amount) g

abbrev pub release_if : Option Reservation → CostGate → Result GateError (Unit {0}) × CostGate
release_if none g = (ok tt, g)
release_if (some v) g = Service.release v.id g

abbrev pub after_release : RouterTask → Router → Result GateError (Unit {0}) × CostGate → Answer
after_release t r (err e, g) = (err (gate_error e), record r { gate = g })
after_release t r (ok _, g) = (ok t, save t (record r { gate = g }))

abbrev pub after_settle :
    AutonomyConfig
    → Moment
    → RouterTaskInput
    → RouterTask
    → ℕ
    → Router
    → Result GateError (Unit {0}) × CostGate
    → Answer
after_settle config m i t draft r (err e, g) = (err (gate_error e), record r { gate = g })
after_settle config m i t draft r (ok _, g) =
    review config m i t draft t.prompt_tier (record r { gate = g })

abbrev pub after_outcome :
    AutonomyConfig
    → Moment
    → RouterTaskInput
    → RouterTask
    → Option Reservation
    → Outcome
    → Router
    → Answer
after_outcome config m i t reservation (threw message) r =
    after_release (record t { status = failed; error = some message }) r
      (release_if reservation r.gate)
after_outcome config m i t reservation (done result cost missing) r =
    after_settle config m i (record t { result = some result; missing_hands = hands missing })
      result r (settle_if reservation cost r.gate)

abbrev pub run_task :
    AutonomyConfig
    → (RouterTask → Outcome)
    → Moment
    → RouterTaskInput
    → RouterTask
    → Option Reservation
    → Router
    → Answer
run_task config execute m i t reservation r =
    let t' = record t { status = in_progress } in
    let r' = save t' r in
    after_outcome config m i t' reservation (execute t')
      (record r' { calls = r'.calls ++ (t' ∷ []) })

abbrev pub held_back : RouterTask → RouterTaskStatus → Router → Answer
held_back t status r = let t' = record t { status = status } in (ok t', save t' r)

abbrev pub by_verdict :
    AutonomyConfig
    → (RouterTask → Outcome)
    → Moment
    → RouterTaskInput
    → RouterTask
    → GateResult
    → VerdictKind
    → Router
    → Answer
by_verdict config execute m i t g queue r = held_back t queued r
by_verdict config execute m i t g skip r = held_back t skipped r
by_verdict config execute m i t g proceed r =
    run_task config execute m i (record t { model = some g.verdict.model }) g.reservation r
by_verdict config execute m i t g downgrade r =
    run_task config execute m i (record t { model = some g.verdict.model }) g.reservation r

abbrev pub gated :
    AutonomyConfig
    → (RouterTask → Outcome)
    → Moment
    → RouterTaskInput
    → RouterTask
    → Router
    → Result GateError (GateResult × CostGate)
    → Answer
gated config execute m i t r (err e) = (err (gate_error e), r)
gated config execute m i t r (ok (g, gate)) =
    by_verdict config execute m i t g g.verdict.kind (record r { gate = gate })

abbrev pub dispatch :
    AutonomyConfig
    → (RouterTask → Outcome)
    → Moment
    → RouterTaskInput
    → RouterTask
    → Option ℕ
    → Router
    → Answer
dispatch config execute m i t none r = run_task config execute m i t none r
dispatch config execute m i t (some model) r =
    gated config execute m i t r
      (evaluate_and_reserve t.tenant_id m.gate_call (gate_input t i model) r.gate)

-- `getOrCreate`, then the task's way through the gate.
abbrev pub get_or_create :
    AutonomyConfig
    → (RouterTask → Outcome)
    → Moment
    → RouterTaskInput
    → List String
    → Option RouterTask
    → Router
    → Answer
get_or_create config execute m i tags (some existing) r = (ok existing, r)
get_or_create config execute m i tags none r =
    let t = new_task m i tags in dispatch config execute m i t i.model (save t r)

unfoldable pub submit_task :
    AutonomyConfig
    → (RouterTask → Outcome)
    → Moment
    → RouterTaskInput
    → List String
    → Router
    → Answer
submit_task config execute m i tags r =
    get_or_create config execute m i tags (lookup (input_key i) r.dedup) r
