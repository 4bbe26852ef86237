-- ===== src/Router/Task/Order.antt =====
-- apps/router/src/router.ts: the gate stands before the executor, and the queue before every effect.
use byok_business_autopilot.Base.{
  ℕ, Option, none, some, List, [], ◌∷◌, ◌++◌, Result, ok, err, nat_eq,
}
use byok_business_autopilot.Base.Dict.{lookup}
use byok_business_autopilot.CostGate.Gate.{
  GateVerdict, VerdictKind, proceed, downgrade, queue, skip,
}
use byok_business_autopilot.CostGate.Ledger.{Reservation}
use byok_business_autopilot.CostGate.Service.{CostGate, GateError, GateResult, evaluate_and_reserve}
use byok_business_autopilot.ApprovalQueue.Autonomy.{AutonomyConfig}
use byok_business_autopilot.ApprovalQueue.Queue.{submit_proposed_action, submit_recommendation}
use byok_business_autopilot.ApprovalQueue.Trail.{Queue, SubmitResult}
use byok_business_autopilot.Router.Types.{
  RouterTask, RouterTaskInput, in_progress, failed, PromptTier, ceo, role_lead, sub_agent,
  dedup_key_eq,
}
use Prim.Native.String.{String}
use byok_business_autopilot.Router.State.{
  Outcome, threw, done, Router, Moment, input_key, save, new_task, gate_input, hands, action_of,
}
use byok_business_autopilot.Router.Task.{
  Answer, proposed, review, settle_if, release_if, after_release, after_settle, after_outcome,
  run_task, by_verdict, gated, dispatch, get_or_create, submit_task,
}
use byok_business_autopilot.Base.{◌≡◌, ◌⊎◌, inl, inr, refl, sym, subst, arith}
use byok_business_autopilot.CostGate.Gate.Verdicts.{Runs}
use byok_business_autopilot.ApprovalQueue.Queue.Submit.{submit_proposed_action_outcome}

-- Neither the agent nor an effect was run.
abbrev pub Quiet : Router → Answer → Type 0
Quiet r a = (a.1.calls ≡ r.calls) × (a.1.approvals.executed ≡ r.approvals.executed)

-- The agent ran once, on a task with this model, and no effect was run.
abbrev pub RunsOnce : Option ℕ → Router → Answer → Type 0
RunsOnce model r a =
    ((t : RouterTask) × (t.model ≡ model) × (a.1.calls ≡ r.calls ++ (t ∷ [])))
    × (a.1.approvals.executed ≡ r.approvals.executed)

-- What a verdict of the gate allows.
abbrev pub Obeys : GateVerdict → Router → Answer → Type 0
Obeys v r a = (Runs v.kind × RunsOnce (some v.model) r a) ⊎ ((¬ Runs v.kind) × Quiet r a)

module _ (config : AutonomyConfig) (m : Moment) (i : RouterTaskInput) where
  proposed-Quiet :
      (t : RouterTask) (r : Router) (p : SubmitResult × Queue)
      → Queue.executed p.1 ≡ r.approvals.executed
      → Quiet r (proposed t r p)
  proposed-Quiet t r (answer, q) h = (refl, h)

  review-Quiet :
      (t : RouterTask) (draft : ℕ) (tier : PromptTier) (r : Router)
      → Quiet r (review config m i t draft tier r)
  unfolding submit_recommendation
  review-Quiet t draft ceo r = (refl, refl)
  review-Quiet t draft role_lead r =
      let a = action_of i t draft in
      proposed-Quiet t r (submit_proposed_action config m.gate_call.now m.draw a r.approvals)
        (submit_proposed_action_outcome config m.gate_call.now m.draw a r.approvals).0
  review-Quiet t draft sub_agent r =
      let a = action_of i t draft in
      proposed-Quiet t r (submit_proposed_action config m.gate_call.now m.draw a r.approvals)
        (submit_proposed_action_outcome config m.gate_call.now m.draw a r.approvals).0

  after_release-Quiet :
      (t : RouterTask) (r : Router) (a : Result GateError (Unit {0}) × CostGate)
      → Quiet r (after_release t r a)
  after_release-Quiet t r (err e, g) = (refl, refl)
  after_release-Quiet t r (ok _, g) = (refl, refl)

  after_settle-Quiet :
      (t : RouterTask) (draft : ℕ) (r : Router) (a : Result GateError (Unit {0}) × CostGate)
      → Quiet r (after_settle config m i t draft r a)
  after_settle-Quiet t draft r (err e, g) = (refl, refl)
  after_settle-Quiet t draft r (ok _, g) =
      review-Quiet t draft t.prompt_tier (record r { gate = g })

  after_outcome-Quiet :
      (t : RouterTask) (v : Option Reservation) (o : Outcome) (r : Router)
      → Quiet r (after_outcome config m i t v o r)
  after_outcome-Quiet t v (threw message) r =
      after_release-Quiet (record t { status = failed; error = some message }) r
        (release_if v r.gate)
  after_outcome-Quiet t v (done result cost missing) r =
      after_settle-Quiet (record t { result = some result; missing_hands = hands missing }) result r
        (settle_if v cost r.gate)

  module _ (execute : RouterTask → Outcome) where
    run_task-RunsOnce :
        (t : RouterTask) (v : Option Reservation) (r : Router)
        → RunsOnce t.model r (run_task config execute m i t v r)
    run_task-RunsOnce t v r =
        let t' = record t { status = in_progress } in
        let r' = save t' r in
        let (c, x) =
          after_outcome-Quiet t' v (execute t') (record r' { calls = r'.calls ++ (t' ∷ []) }) in
        ((t', refl, c), x)

    by_verdict-Obeys :
        (t : RouterTask) (g : GateResult) (kind : VerdictKind) (r : Router)
        → g.verdict.kind ≡ kind
        → Obeys g.verdict r (by_verdict config execute m i t g kind r)
    by_verdict-Obeys t g queue r e = inr ((λ h. ground (arith, e, h)), (refl, refl))
    by_verdict-Obeys t g skip r e = inr ((λ h. ground (arith, e, h)), (refl, refl))
    by_verdict-Obeys t g proceed r e =
        inl (inl e, run_task-RunsOnce (record t { model = some g.verdict.model }) g.reservation r)
    by_verdict-Obeys t g downgrade r e =
        inl (inr e, run_task-RunsOnce (record t { model = some g.verdict.model }) g.reservation r)

-- For a new dedup key and a task with a model, the agent runs exactly if the gate's verdict is to run,
-- then once and with the model of the verdict. Whatever the verdict, submitting runs no effect.
pub submit_task-Obeys :
    (config : AutonomyConfig) (execute : RouterTask → Outcome) (m : Moment) (i : RouterTaskInput)
    (tags : List String) (r : Router) (model : ℕ) (result : GateResult) (gate : CostGate)
    → lookup (input_key i) r.dedup ≡ none
    → i.model ≡ some model
    → evaluate_and_reserve i.tenant_id m.gate_call (gate_input (new_task m i tags) i model) r.gate
      ≡ ok (result, gate)
    → Obeys result.verdict r (submit_task config execute m i tags r)
unfolding submit_task
submit_task-Obeys config execute m i tags r model result gate fresh has is =
    let t = new_task m i tags in
    let r' = save t r in
    subst (λ found. Obeys result.verdict r (get_or_create config execute m i tags found r))
      (sym fresh)
      (subst (λ o. Obeys result.verdict r (dispatch config execute m i t o r')) (sym has)
        (subst (λ a. Obeys result.verdict r (gated config execute m i t r' a)) (sym is)
          (by_verdict-Obeys config m i execute t result result.verdict.kind
            (record r' { gate = gate }) refl)))
