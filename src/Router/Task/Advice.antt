-- ===== src/Router/Task/Advice.antt =====
-- apps/router/src/router.ts: the tasks of the CEO tier.
use byok_business_autopilot.Base.{
  ℕ, Option, none, some, List, [], ◌∷◌, ◌++◌, Result, ok, err, nat_eq,
}
use byok_business_autopilot.Base.Dict.{lookup}
use byok_business_autopilot.CostGate.Gate.{VerdictKind, proceed, downgrade, queue, skip}
use byok_business_autopilot.CostGate.Ledger.{Reservation}
use byok_business_autopilot.CostGate.Service.{CostGate, GateError, GateResult, evaluate_and_reserve}
use byok_business_autopilot.ApprovalQueue.Types.{RecommendationItem}
use byok_business_autopilot.ApprovalQueue.Autonomy.{AutonomyConfig}
use byok_business_autopilot.ApprovalQueue.Queue.{submit_recommendation}
use byok_business_autopilot.Router.Types.{
  RouterTask, RouterTaskInput, in_progress, failed, ceo, dedup_key_eq,
}
use Prim.Native.String.{String}
use byok_business_autopilot.Router.State.{
  Outcome, threw, done, Router, Moment, input_key, save, new_task, gate_input, hands,
  recommendation_of,
}
use byok_business_autopilot.Router.Task.{
  Answer, review, settle_if, release_if, after_release, after_settle, after_outcome, run_task,
  by_verdict, gated, dispatch, get_or_create, submit_task,
}
use byok_business_autopilot.Base.{◌≡◌, ◌⊎◌, inl, inr, refl, sym, subst}
use byok_business_autopilot.ApprovalQueue.Store.{store_recommendation}

-- No action was put in the queue: its items are as they were, or have a recommendation without an effect
-- more.
abbrev pub Advises : Router → Answer → Type 0
Advises r a =
    (a.1.approvals.items ≡ r.approvals.items)
    ⊎ ((item : RecommendationItem) × (item.smuggled ≡ none)
        × (a.1.approvals.items ≡ store_recommendation item r.approvals.items))

module _ (config : AutonomyConfig) (m : Moment) (i : RouterTaskInput) where
  review-Advises :
      (t : RouterTask) (draft : ℕ) (r : Router) → Advises r (review config m i t draft ceo r)
  unfolding submit_recommendation
  review-Advises t draft r = inr (recommendation_of i t draft, refl, refl)

  after_release-Advises :
      (t : RouterTask) (r : Router) (a : Result GateError (Unit {0}) × CostGate)
      → Advises r (after_release t r a)
  after_release-Advises t r (err e, g) = inl refl
  after_release-Advises t r (ok _, g) = inl refl

  after_settle-Advises :
      (t : RouterTask) (draft : ℕ) (r : Router) (a : Result GateError (Unit {0}) × CostGate)
      → t.prompt_tier ≡ ceo
      → Advises r (after_settle config m i t draft r a)
  after_settle-Advises t draft r (err e, g) h = inl refl
  after_settle-Advises t draft r (ok _, g) h =
      let r' = record r { gate = g } in
      subst (λ tier. Advises r (review config m i t draft tier r')) (sym h)
        (review-Advises t draft r')

  after_outcome-Advises :
      (t : RouterTask) (v : Option Reservation) (o : Outcome) (r : Router)
      → t.prompt_tier ≡ ceo
      → Advises r (after_outcome config m i t v o r)
  after_outcome-Advises t v (threw message) r h =
      after_release-Advises (record t { status = failed; error = some message }) r
        (release_if v r.gate)
  after_outcome-Advises t v (done result cost missing) r h =
      after_settle-Advises (record t { result = some result; missing_hands = hands missing }) result
        r (settle_if v cost r.gate) h

  module _ (execute : RouterTask → Outcome) where
    run_task-Advises :
        (t : RouterTask) (v : Option Reservation) (r : Router)
        → t.prompt_tier ≡ ceo
        → Advises r (run_task config execute m i t v r)
    run_task-Advises t v r h =
        let t' = record t { status = in_progress } in
        let r' = save t' r in
        after_outcome-Advises t' v (execute t') (record r' { calls = r'.calls ++ (t' ∷ []) }) h

    by_verdict-Advises :
        (t : RouterTask) (g : GateResult) (kind : VerdictKind) (r : Router)
        → t.prompt_tier ≡ ceo
        → Advises r (by_verdict config execute m i t g kind r)
    by_verdict-Advises t g queue r h = inl refl
    by_verdict-Advises t g skip r h = inl refl
    by_verdict-Advises t g proceed r h =
        run_task-Advises (record t { model = some g.verdict.model }) g.reservation r h
    by_verdict-Advises t g downgrade r h =
        run_task-Advises (record t { model = some g.verdict.model }) g.reservation r h

    gated-Advises :
        (t : RouterTask) (r : Router) (a : Result GateError (GateResult × CostGate))
        → t.prompt_tier ≡ ceo
        → Advises r (gated config execute m i t r a)
    gated-Advises t r (err e) h = inl refl
    gated-Advises t r (ok (g, gate)) h =
        by_verdict-Advises t g g.verdict.kind (record r { gate = gate }) h

    dispatch-Advises :
        (t : RouterTask) (model : Option ℕ) (r : Router)
        → t.prompt_tier ≡ ceo
        → Advises r (dispatch config execute m i t model r)
    dispatch-Advises t none r h = run_task-Advises t none r h
    dispatch-Advises t (some model) r h =
        gated-Advises t r
          (evaluate_and_reserve t.tenant_id m.gate_call (gate_input t i model) r.gate) h

    get_or_create-Advises :
        (tags : List String) (found : Option RouterTask) (r : Router)
        → i.prompt_tier ≡ ceo
        → Advises r (get_or_create config execute m i tags found r)
    get_or_create-Advises tags none r h =
        dispatch-Advises (new_task m i tags) i.model (save (new_task m i tags) r) h
    get_or_create-Advises tags (some t) r h = inl refl

-- A task of the CEO tier puts no action in the queue, whatever effect its input asks for and whatever the
-- agent answers: at most one recommendation is stored, and it carries no effect.
pub submit_task-Advises :
    (config : AutonomyConfig) (execute : RouterTask → Outcome) (m : Moment) (i : RouterTaskInput)
    (tags : List String) (r : Router)
    → i.prompt_tier ≡ ceo
    → Advises r (submit_task config execute m i tags r)
unfolding submit_task
submit_task-Advises config execute m i tags r h =
    get_or_create-Advises config m i execute tags (lookup (input_key i) r.dedup) r h
