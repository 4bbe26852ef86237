-- ===== src/Router/Task/Replay.antt =====
-- apps/router/src/router.ts: the replay of a dedup key.
use byok_business_autopilot.Base.{
  ℕ, Option, none, some, List, Result, ok, err, if◌then◌else◌, nat_eq,
}
use byok_business_autopilot.Base.Dict.{Dict, lookup, insert}
use byok_business_autopilot.CostGate.Gate.{VerdictKind, proceed, downgrade, queue, skip}
use byok_business_autopilot.CostGate.Ledger.{Reservation}
use byok_business_autopilot.CostGate.Service.{CostGate, GateError, GateResult}
use byok_business_autopilot.ApprovalQueue.Types.{QueueError}
use byok_business_autopilot.ApprovalQueue.Autonomy.{AutonomyConfig}
use byok_business_autopilot.ApprovalQueue.Queue.{submit_proposed_action}
use byok_business_autopilot.ApprovalQueue.Trail.{Queue, SubmitResult}
use byok_business_autopilot.Router.Types.{
  RouterTask, RouterTaskInput, RouterTaskStatus, in_progress, awaiting_review, PromptTier, ceo,
  role_lead, sub_agent, DedupKey, dedup_key_eq,
}
use Prim.Native.String.{String}
use byok_business_autopilot.Router.State.{
  Outcome, threw, done, Router, Moment, key_of, input_key, new_task, hands, action_of,
}
use byok_business_autopilot.Router.Task.{
  submitted, recommended, proposed, review, settle_if, after_release, after_settle, after_outcome,
  run_task, by_verdict, gated, dispatch, get_or_create, submit_task,
}
use byok_business_autopilot.Base.{◌≡◌, refl, arith, ◌==◌}
use byok_business_autopilot.Base.Dict.{lookup-insert, lookup-insert_self}

-- The store has a task under the key.
abbrev Present : DedupKey → Router → Type 0
Present k r = (t : RouterTask) × (lookup k r.dedup ≡ some t)

insert-Present :
    (k j : DedupKey) (t : RouterTask) (d : Dict DedupKey RouterTask)
    → ((u : RouterTask) × (lookup k d ≡ some u))
    → (u : RouterTask) × (lookup k (insert j t d) ≡ some u)
insert-Present k j t d (u, e) =
    ((if j == k then t else u), ground (arith, e, lookup-insert j k t d))

-- Every stage keeps the key.
module _ (config : AutonomyConfig) (m : Moment) (i : RouterTaskInput) (k : DedupKey) where
  submitted-Present :
      (t : RouterTask) (status : RouterTaskStatus) (r : Router)
      → Present k r
      → Present k (submitted t status r).1
  submitted-Present t status r h = insert-Present k (key_of t) _ r.dedup h

  recommended-Present :
      (t : RouterTask) (r : Router) (a : Result QueueError Queue)
      → Present k r
      → Present k (recommended t r a).1
  recommended-Present t r (err e) h = h
  recommended-Present t r (ok q) h =
      submitted-Present t awaiting_review (record r { approvals = q }) h

  proposed-Present :
      (t : RouterTask) (r : Router) (p : SubmitResult × Queue)
      → Present k r
      → Present k (proposed t r p).1
  proposed-Present t r (answer, q) h = submitted-Present t _ (record r { approvals = q }) h

  review-Present :
      (t : RouterTask) (draft : ℕ) (tier : PromptTier) (r : Router)
      → Present k r
      → Present k (review config m i t draft tier r).1
  review-Present t draft ceo r h = recommended-Present t r _ h
  review-Present t draft role_lead r h =
      proposed-Present t r
        (submit_proposed_action config m.gate_call.now m.draw (action_of i t draft) r.approvals) h
  review-Present t draft sub_agent r h =
      proposed-Present t r
        (submit_proposed_action config m.gate_call.now m.draw (action_of i t draft) r.approvals) h

  after_release-Present :
      (t : RouterTask) (r : Router) (a : Result GateError (Unit {0}) × CostGate)
      → Present k r
      → Present k (after_release t r a).1
  after_release-Present t r (err e, g) h = h
  after_release-Present t r (ok _, g) h = insert-Present k (key_of t) t r.dedup h

  after_settle-Present :
      (t : RouterTask) (draft : ℕ) (r : Router) (a : Result GateError (Unit {0}) × CostGate)
      → Present k r
      → Present k (after_settle config m i t draft r a).1
  after_settle-Present t draft r (err e, g) h = h
  after_settle-Present t draft r (ok _, g) h =
      review-Present t draft t.prompt_tier (record r { gate = g }) h

  after_outcome-Present :
      (t : RouterTask) (v : Option Reservation) (o : Outcome) (r : Router)
      → Present k r
      → Present k (after_outcome config m i t v o r).1
  after_outcome-Present t v (threw message) r h = after_release-Present _ r _ h
  after_outcome-Present t v (done result cost missing) r h =
      after_settle-Present (record t { result = some result; missing_hands = hands missing }) result
        r (settle_if v cost r.gate) h

  module _ (execute : RouterTask → Outcome) where
    run_task-Present :
        (t : RouterTask) (v : Option Reservation) (r : Router)
        → Present k r
        → Present k (run_task config execute m i t v r).1
    run_task-Present t v r h =
        let t' = record t { status = in_progress } in
        after_outcome-Present t' v (execute t') _ (insert-Present k (key_of t') t' r.dedup h)

    by_verdict-Present :
        (t : RouterTask) (g : GateResult) (kind : VerdictKind) (r : Router)
        → Present k r
        → Present k (by_verdict config execute m i t g kind r).1
    by_verdict-Present t g queue r h = insert-Present k (key_of t) _ r.dedup h
    by_verdict-Present t g skip r h = insert-Present k (key_of t) _ r.dedup h
    by_verdict-Present t g proceed r h =
        run_task-Present (record t { model = some g.verdict.model }) g.reservation r h
    by_verdict-Present t g downgrade r h =
        run_task-Present (record t { model = some g.verdict.model }) g.reservation r h

    gated-Present :
        (t : RouterTask) (r : Router) (a : Result GateError (GateResult × CostGate))
        → Present k r
        → Present k (gated config execute m i t r a).1
    gated-Present t r (err e) h = h
    gated-Present t r (ok (g, gate)) h =
        by_verdict-Present t g g.verdict.kind (record r { gate = gate }) h

    dispatch-Present :
        (t : RouterTask) (model : Option ℕ) (r : Router)
        → Present k r
        → Present k (dispatch config execute m i t model r).1
    dispatch-Present t none r h = run_task-Present t none r h
    dispatch-Present t (some model) r h = gated-Present t r _ h

submit_task-Present :
    (config : AutonomyConfig) (execute : RouterTask → Outcome) (m : Moment) (i : RouterTaskInput)
    (tags : List String) (r : Router) (found : Option RouterTask)
    → lookup (input_key i) r.dedup ≡ found
    → Present (input_key i) (get_or_create config execute m i tags found r).1
submit_task-Present config execute m i tags r none e =
    dispatch-Present config m i (input_key i) execute (new_task m i tags) i.model _
      (new_task m i tags, lookup-insert_self (input_key i) (new_task m i tags) r.dedup)
submit_task-Present config execute m i tags r (some t) e = (t, e)

-- Whatever a first submission comes to, its dedup key has a task afterwards; and a second submission
-- under that key, with whatever executor, moment and input, returns this task and changes nothing.
pub submit_task_replays :
    (config : AutonomyConfig) (execute again : RouterTask → Outcome) (m n : Moment)
    (i j : RouterTaskInput) (tags more : List String) (r : Router)
    → input_key j ≡ input_key i
    → let r' = (submit_task config execute m i tags r).1 in
      (t : RouterTask) × (lookup (input_key i) r'.dedup ≡ some t)
      × (submit_task config again n j more r' ≡ (ok t, r'))
unfolding submit_task
submit_task_replays config execute again m n i j tags more r same =
    let (t, e) =
      submit_task-Present config execute m i tags r (lookup (input_key i) r.dedup) refl in
    (t, e, rw (same, e, get_or_create) refl)
