-- ===== src/Router/Task/Locked.antt =====
-- apps/router/src/router.ts with tagging.ts: the tasks that no earned autonomy may complete.
use byok_business_autopilot.Base.{
  ℕ, ◌≡◌, refl, ap, ◌∙◌, Bool, true, false, ◌||◌, Option, none, some, List, [], ◌∷◌, ◌++◌, Result,
  ok, err, if◌then◌else◌, arith, nat_eq,
}
use byok_business_autopilot.Base.Dict.{lookup}
use byok_business_autopilot.CostGate.Gate.{VerdictKind, proceed, downgrade, queue, skip}
use byok_business_autopilot.CostGate.Ledger.{Reservation}
use byok_business_autopilot.CostGate.Service.{CostGate, GateError, GateResult, evaluate_and_reserve}
use byok_business_autopilot.ApprovalQueue.Types.{
  ProposedAction, QueueError, has_tag, is_denied_from_autonomy,
}
use byok_business_autopilot.ApprovalQueue.Autonomy.{AutonomyConfig, is_active}
use byok_business_autopilot.ApprovalQueue.Trail.{Queue, SubmitResult}
use byok_business_autopilot.ApprovalQueue.Queue.{submit_proposed_action, submit_recommendation}
use byok_business_autopilot.Router.Types.{
  RouterTask, RouterTaskInput, RouterTaskStatus, in_progress, awaiting_review, completed, failed,
  PromptTier, ceo, role_lead, sub_agent, dedup_key_eq,
}
use byok_business_autopilot.Router.Tagging.{
  TaggingHints, is_locked, derive_tags, derive_tags-is_denied,
}
use Prim.Native.String.{String}
use byok_business_autopilot.Router.State.{
  Outcome, threw, done, Router, RouterError, Moment, input_key, save, new_task, gate_input, hands,
  recommendation_of, action_of,
}
use byok_business_autopilot.Router.Task.{
  recommended, proposed, review, settle_if, release_if, after_release, after_settle, after_outcome,
  run_task, by_verdict, gated, dispatch, get_or_create, submit_task,
}

abbrev pub is_completed : RouterTaskStatus → Bool
is_completed completed = true
is_completed _ = false

-- The caller is given a completed task, which no person has seen.
abbrev pub ends_completed : Result RouterError RouterTask → Bool
ends_completed (err e) = false
ends_completed (ok t) = is_completed t.status

denied-queued :
    (config : AutonomyConfig) (now draw : ℕ) (action : ProposedAction) (q : Queue)
    → is_denied_from_autonomy action.stakes_tags ≡ true
    → SubmitResult.queued (submit_proposed_action config now draw action q).0 ≡ true
unfolding submit_proposed_action is_active
denied-queued config now draw action q h = ground arith

module _ (config : AutonomyConfig) (m : Moment) (i : RouterTaskInput) where
  recommended-reviewed :
      (t : RouterTask) (r : Router) (a : Result QueueError Queue)
      → ends_completed (recommended t r a).0 ≡ false
  recommended-reviewed t r (err e) = refl
  recommended-reviewed t r (ok q) = refl

  proposed-reviewed :
      (t : RouterTask) (draft : ℕ) (r : Router)
      → is_denied_from_autonomy t.tags ≡ true
      → ends_completed
          (proposed t r (
            submit_proposed_action config m.gate_call.now m.draw
              (action_of i t draft)
              r.approvals)).0
        ≡ false
  proposed-reviewed t draft r h =
      ap (λ b. is_completed (if b then awaiting_review else completed))
        (denied-queued config m.gate_call.now m.draw (action_of i t draft) r.approvals h)

  review-reviewed :
      (t : RouterTask) (draft : ℕ) (tier : PromptTier) (r : Router)
      → is_denied_from_autonomy t.tags ≡ true
      → ends_completed (review config m i t draft tier r).0 ≡ false
  review-reviewed t draft ceo r h =
      recommended-reviewed t r
        (submit_recommendation m.gate_call.now (recommendation_of i t draft) r.approvals)
  review-reviewed t draft role_lead r h = proposed-reviewed t draft r h
  review-reviewed t draft sub_agent r h = proposed-reviewed t draft r h

  after_release-reviewed :
      (t : RouterTask) (r : Router) (a : Result GateError (Unit {0}) × CostGate)
      → is_completed t.status ≡ false
      → ends_completed (after_release t r a).0 ≡ false
  after_release-reviewed t r (err e, g) h = refl
  after_release-reviewed t r (ok _, g) h = h

  after_settle-reviewed :
      (t : RouterTask) (draft : ℕ) (r : Router) (a : Result GateError (Unit {0}) × CostGate)
      → is_denied_from_autonomy t.tags ≡ true
      → ends_completed (after_settle config m i t draft r a).0 ≡ false
  after_settle-reviewed t draft r (err e, g) h = refl
  after_settle-reviewed t draft r (ok _, g) h =
      review-reviewed t draft t.prompt_tier (record r { gate = g }) h

  after_outcome-reviewed :
      (t : RouterTask) (v : Option Reservation) (o : Outcome) (r : Router)
      → is_denied_from_autonomy t.tags ≡ true
      → ends_completed (after_outcome config m i t v o r).0 ≡ false
  after_outcome-reviewed t v (threw message) r h =
      after_release-reviewed (record t { status = failed; error = some message }) r
        (release_if v r.gate) refl
  after_outcome-reviewed t v (done result cost missing) r h =
      after_settle-reviewed (record t { result = some result; missing_hands = hands missing })
        result r (settle_if v cost r.gate) h

  module _ (execute : RouterTask → Outcome) where
    run_task-reviewed :
        (t : RouterTask) (v : Option Reservation) (r : Router)
        → is_denied_from_autonomy t.tags ≡ true
        → ends_completed (run_task config execute m i t v r).0 ≡ false
    run_task-reviewed t v r h =
        let t' = record t { status = in_progress } in
        let r' = save t' r in
        after_outcome-reviewed t' v (execute t') (record r' { calls = r'.calls ++ (t' ∷ []) }) h

    by_verdict-reviewed :
        (t : RouterTask) (g : GateResult) (kind : VerdictKind) (r : Router)
        → is_denied_from_autonomy t.tags ≡ true
        → ends_completed (by_verdict config execute m i t g kind r).0 ≡ false
    by_verdict-reviewed t g queue r h = refl
    by_verdict-reviewed t g skip r h = refl
    by_verdict-reviewed t g proceed r h =
        run_task-reviewed (record t { model = some g.verdict.model }) g.reservation r h
    by_verdict-reviewed t g downgrade r h =
        run_task-reviewed (record t { model = some g.verdict.model }) g.reservation r h

    gated-reviewed :
        (t : RouterTask) (r : Router) (a : Result GateError (GateResult × CostGate))
        → is_denied_from_autonomy t.tags ≡ true
        → ends_completed (gated config execute m i t r a).0 ≡ false
    gated-reviewed t r (err e) h = refl
    gated-reviewed t r (ok (g, gate)) h =
        by_verdict-reviewed t g g.verdict.kind (record r { gate = gate }) h

    dispatch-reviewed :
        (t : RouterTask) (model : Option ℕ) (r : Router)
        → is_denied_from_autonomy t.tags ≡ true
        → ends_completed (dispatch config execute m i t model r).0 ≡ false
    dispatch-reviewed t none r h = run_task-reviewed t none r h
    dispatch-reviewed t (some model) r h =
        gated-reviewed t r
          (evaluate_and_reserve t.tenant_id m.gate_call (gate_input t i model) r.gate) h

-- A new task that is locked, or that needs professional verification, is never completed without a
-- person's review, whatever autonomy its task type has earned, whatever its other hints and tags, and
-- whatever the agent answers. The platform's sort keeps the tags.
pub submit_task-reviewed :
    (config : AutonomyConfig) (execute : RouterTask → Outcome) (m : Moment) (i : RouterTaskInput)
    (sort : List String → List String) (hints : TaggingHints) (explicit_tags : List String)
    (r : Router)
    → ((t : String) (tags : List String) → has_tag t (sort tags) ≡ has_tag t tags)
    → (is_locked hints.autonomy || hints.requires_professional_verification) ≡ true
    → lookup (input_key i) r.dedup ≡ none
    → ends_completed (submit_task config execute m i (derive_tags sort hints explicit_tags) r).0
      ≡ false
unfolding submit_task
submit_task-reviewed config execute m i sort hints explicit_tags r keeps h new =
    let tags = derive_tags sort hints explicit_tags in
    let t = new_task m i tags in
    ap (λ o. ends_completed (get_or_create config execute m i tags o r).0) new
    ∙ dispatch-reviewed config m i execute t i.model (save t r)
        (derive_tags-is_denied sort hints explicit_tags keeps h)
