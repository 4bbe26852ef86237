-- ===== src/Router/Task/Returns.antt =====
-- apps/router/src/router.ts: submitTask returns a task on every path.
use byok_business_autopilot.Base.{
  ℕ, Option, none, some, List, [], ◌∷◌, ◌++◌, Result, ok, err, nat_eq,
}
use byok_business_autopilot.Base.Int.{ℤ}
use byok_business_autopilot.Base.Dict.{lookup}
use byok_business_autopilot.CostGate.Gate.{GateInput, VerdictKind, proceed, downgrade, queue, skip}
use byok_business_autopilot.CostGate.Ledger.{Reservation}
use byok_business_autopilot.CostGate.Service.{
  CostGate, Call, GateError, GateResult, evaluate_and_reserve,
}
use byok_business_autopilot.ApprovalQueue.Autonomy.{AutonomyConfig}
use byok_business_autopilot.ApprovalQueue.Queue.{submit_recommendation}
use byok_business_autopilot.Router.Types.{
  RouterTask, RouterTaskInput, in_progress, failed, PromptTier, ceo, role_lead, sub_agent,
  dedup_key_eq,
}
use Prim.Native.String.{String}
use byok_business_autopilot.Router.State.{
  Outcome, threw, done, Router, Moment, input_key, save, new_task, gate_input, hands,
}
use byok_business_autopilot.Router.Task.{
  Answer, review, cost_or, settle_if, release_if, after_release, after_settle, after_outcome,
  run_task, by_verdict, gated, dispatch, get_or_create, submit_task,
}
use byok_business_autopilot.Base.{◌≡◌, refl, sym, subst}
use byok_business_autopilot.CostGate.Service.Contract.{evaluate_and_reserve_outcome}
use byok_business_autopilot.CostGate.Service.Reservations.{reserve_then_resolve}

-- The gate can settle and can release the reservation, if there is one.
abbrev IsUsable : Option Reservation → CostGate → Type 0
IsUsable v g = (cost : Option ℤ) → ((settle_if v cost g).0 ≡ ok tt) × ((release_if v g).0 ≡ ok tt)

handed_out-IsUsable :
    (tenant_id : ℕ) (call : Call) (input : GateInput) (g g' : CostGate) (result : GateResult)
    (v : Option Reservation)
    → evaluate_and_reserve tenant_id call input g ≡ ok (result, g')
    → result.reservation ≡ v
    → IsUsable v g'
handed_out-IsUsable tenant_id call input g g' result none is has cost = (refl, refl)
handed_out-IsUsable tenant_id call input g g' result (some v) is has cost =
    let (settled, released, _, _) =
      reserve_then_resolve tenant_id call input g g' result v (cost_or cost v.amount)
        (cost_or cost v.amount) is has in
    (settled, released)

abbrev Returns : Answer → Type 0
Returns a = (t : RouterTask) × (a.0 ≡ ok t)

module _ (config : AutonomyConfig) (m : Moment) (i : RouterTaskInput) where
  review-Returns :
      (t : RouterTask) (draft : ℕ) (tier : PromptTier) (r : Router)
      → Returns (review config m i t draft tier r)
  unfolding submit_recommendation
  review-Returns t draft ceo r = (_, refl)
  review-Returns t draft role_lead r = (_, refl)
  review-Returns t draft sub_agent r = (_, refl)

  after_release-Returns :
      (t : RouterTask) (r : Router) (a : Result GateError (Unit {0}) × CostGate)
      → a.0 ≡ ok tt
      → Returns (after_release t r a)
  after_release-Returns t r (err e, g) h = cc
  after_release-Returns t r (ok _, g) h = (t, refl)

  after_settle-Returns :
      (t : RouterTask) (draft : ℕ) (r : Router) (a : Result GateError (Unit {0}) × CostGate)
      → a.0 ≡ ok tt
      → Returns (after_settle config m i t draft r a)
  after_settle-Returns t draft r (err e, g) h = cc
  after_settle-Returns t draft r (ok _, g) h =
      review-Returns t draft t.prompt_tier (record r { gate = g })

  after_outcome-Returns :
      (t : RouterTask) (v : Option Reservation) (o : Outcome) (r : Router)
      → IsUsable v r.gate
      → Returns (after_outcome config m i t v o r)
  after_outcome-Returns t v (threw message) r h =
      after_release-Returns (record t { status = failed; error = some message }) r
        (release_if v r.gate) (h none).1
  after_outcome-Returns t v (done result cost missing) r h =
      after_settle-Returns (record t { result = some result; missing_hands = hands missing }) result
        r (settle_if v cost r.gate) (h cost).0

  module _ (execute : RouterTask → Outcome) where
    run_task-Returns :
        (t : RouterTask) (v : Option Reservation) (r : Router)
        → IsUsable v r.gate
        → Returns (run_task config execute m i t v r)
    run_task-Returns t v r h =
        let t' = record t { status = in_progress } in
        let r' = save t' r in
        after_outcome-Returns t' v (execute t') (record r' { calls = r'.calls ++ (t' ∷ []) }) h

    by_verdict-Returns :
        (t : RouterTask) (g : GateResult) (kind : VerdictKind) (r : Router)
        → IsUsable g.reservation r.gate
        → Returns (by_verdict config execute m i t g kind r)
    by_verdict-Returns t g queue r h = (_, refl)
    by_verdict-Returns t g skip r h = (_, refl)
    by_verdict-Returns t g proceed r h =
        run_task-Returns (record t { model = some g.verdict.model }) g.reservation r h
    by_verdict-Returns t g downgrade r h =
        run_task-Returns (record t { model = some g.verdict.model }) g.reservation r h

    dispatch-Returns :
        (t : RouterTask) (model : Option ℕ) (r : Router)
        → Returns (dispatch config execute m i t model r)
    dispatch-Returns t none r = run_task-Returns t none r (λ cost. (refl, refl))
    dispatch-Returns t (some model) r =
        let input = gate_input t i model in
        let (result, gate, is, _, _, _) =
          evaluate_and_reserve_outcome t.tenant_id m.gate_call input r.gate in
        subst (λ a. Returns (gated config execute m i t r a)) (sym is)
          (by_verdict-Returns t result result.verdict.kind (record r { gate = gate })
            (handed_out-IsUsable t.tenant_id m.gate_call input r.gate gate result result.reservation
              is refl))

    get_or_create-Returns :
        (tags : List String) (found : Option RouterTask) (r : Router)
        → Returns (get_or_create config execute m i tags found r)
    get_or_create-Returns tags none r =
        dispatch-Returns (new_task m i tags) i.model (save (new_task m i tags) r)
    get_or_create-Returns tags (some t) r = (t, refl)

-- `submitTask` returns a task on every path, whatever the executor answers or throws and whatever the
-- stores hold: the gate evaluates, the reservation that it makes for the task can be settled and can be
-- released when its turn comes, and the queue takes the result.
pub submit_task_returns :
    (config : AutonomyConfig) (execute : RouterTask → Outcome) (m : Moment) (i : RouterTaskInput)
    (tags : List String) (r : Router)
    → (t : RouterTask) × ((submit_task config execute m i tags r).0 ≡ ok t)
unfolding submit_task
submit_task_returns config execute m i tags r =
    get_or_create-Returns config m i execute tags (lookup (input_key i) r.dedup) r
