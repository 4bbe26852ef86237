-- ===== src/ApprovalQueue/Queue/Once.antt =====
-- packages/approval-queue/src/queue.ts: any sequence of the queue's calls. Ids are fresh when they are
-- submitted, as UUIDs are.
use byok_business_autopilot.Base.{
  ℕ, ◌≤◌, ◌≡◌, sym, ◌∙◌, subst, Option, none, some, [], Result, ok, err, nat_eq, ok-injective,
  arith, Option-cases, Bool-cases, inl, inr,
}
use byok_business_autopilot.Base.Dict.{lookup, lookup-nil}
use byok_business_autopilot.ApprovalQueue.Types.{
  ProposedAction, RecommendationItem, Verdict, approve, reject, modify, QueueError,
}
use byok_business_autopilot.ApprovalQueue.Autonomy.{AutonomyConfig, TaskKey}
use byok_business_autopilot.ApprovalQueue.Store.{
  resolved, StoredItem, store_action, store_recommendation,
}
use byok_business_autopilot.ApprovalQueue.Queue.{
  submit_proposed_action, resolve, submit_recommendation, resolve_recommendation, revoke_autonomy,
  accept_autonomy_offer,
}
use byok_business_autopilot.ApprovalQueue.Trail.{EffectExecutor, Queue}
use byok_business_autopilot.ApprovalQueue.Queue.Submit.{submit_proposed_action_outcome}
use byok_business_autopilot.ApprovalQueue.Queue.Resolve.{resolve_outcome}
use byok_business_autopilot.ApprovalQueue.Queue.Recommend.{
  submit_recommendation_outcome, resolve_recommendation_outcome, revoke_autonomy-fields,
  accept_autonomy_offer-fields,
}
use byok_business_autopilot.ApprovalQueue.Queue.Account.{
  times, allowed, IsSound, IsSound-same, IsSound-insert, IsSound-decided, IsSound-guided,
}

pub data Step (config : AutonomyConfig) (execute : EffectExecutor) : Queue → Queue → Type 0 where
  submit_action :
      (now draw : ℕ) (action : ProposedAction) {q : Queue}
      → lookup action.id q.items ≡ none
      → Step config execute q (submit_proposed_action config now draw action q).1
  decide :
      (now tenant_id action_id : ℕ) (v : Verdict) {q : Queue}
      → Step config execute q (resolve config execute now tenant_id action_id v q).1
  recommend :
      (now : ℕ) (item : RecommendationItem) {q q' : Queue}
      → lookup item.id q.items ≡ none
      → submit_recommendation now item q ≡ ok q'
      → Step config execute q q'
  guide :
      (now tenant_id id : ℕ) (v : Verdict) {q q' : Queue}
      → resolve_recommendation now tenant_id id v q ≡ ok q'
      → Step config execute q q'
  revoke_trust :
      (now tenant_id : ℕ) (task_type : Option ℕ) {q : Queue}
      → Step config execute q (revoke_autonomy now tenant_id task_type q)
  accept_trust :
      (k : TaskKey) {q q' : Queue} → accept_autonomy_offer k q ≡ ok q' → Step config execute q q'

abbrev pub empty_queue : Queue
empty_queue = record { items = []; autonomy = []; audit = []; events = []; executed = [] }

pub data Reach (config : AutonomyConfig) (execute : EffectExecutor) : Queue → Type 0 where
  start : Reach config execute empty_queue
  step :
      {q q' : Queue} → Reach config execute q → Step config execute q q' → Reach config execute q'

err_is_not_ok {ℓ} :
    {C : Type ℓ} {e : QueueError} {q : Queue} → ◌≡◌ {A = Result QueueError Queue} (err e) (ok q) → C
err_is_not_ok h = cc

allowed_le : (v : Option Verdict) → allowed v ≤ 1
allowed_le none = omega arith
allowed_le (some approve) = omega arith
allowed_le (some (reject text)) = omega arith
allowed_le (some (modify edited)) = omega arith

module _ (config : AutonomyConfig) (execute : EffectExecutor) where
  submit-IsSound :
      (now draw : ℕ) (action : ProposedAction) (q : Queue)
      → lookup action.id q.items ≡ none
      → IsSound q
      → IsSound (submit_proposed_action config now draw action q).1
  unfolding store_action
  submit-IsSound now draw action q fresh h =
      let (r, q') = submit_proposed_action config now draw action q in
      let (x, _, _, past, stored) = submit_proposed_action_outcome config now draw action q in
      elim (Bool-cases r.queued) [
        | inl e ↦ IsSound-insert q q' action.id _ (stored e) x fresh (λ a p. ground (arith, p)) h
        | inr e ↦ IsSound-same q q' (past e) x h
      ]

  decide-IsSound :
      (now tenant_id action_id : ℕ) (v : Verdict) (q : Queue)
      → IsSound q
      → IsSound (resolve config execute now tenant_id action_id v q).1
  decide-IsSound now t id v q h =
      let q' = (resolve config execute now t id v q).1 in
      elim (resolve_outcome config execute now t id v q) [
        | inl (_, same, _) ↦ subst IsSound (sym same) h
        | inr (item, a, p, i, x) ↦
            IsSound-decided q q' id v a item p.found p.is_action p.waits i x h
      ]

  recommend-IsSound :
      (now : ℕ) (item : RecommendationItem) (q q' : Queue)
      → lookup item.id q.items ≡ none
      → submit_recommendation now item q ≡ ok q'
      → IsSound q
      → IsSound q'
  unfolding store_recommendation
  recommend-IsSound now item q q' fresh r h = elim (submit_recommendation_outcome now item q) [
    | inl (e, _, refused) ↦ err_is_not_ok (sym refused ∙ r)
    | inr (p, _, _, given, i, _, _, x, _) ↦
        let same = ok-injective (sym given ∙ r) in
        subst IsSound same (IsSound-insert q p item.id _ i x fresh (λ a e. ground (arith, e)) h)
  ]

  guide-IsSound :
      (now tenant_id id : ℕ) (v : Verdict) (q q' : Queue)
      → resolve_recommendation now tenant_id id v q ≡ ok q'
      → IsSound q
      → IsSound q'
  guide-IsSound now t id v q q' r h = elim (resolve_recommendation_outcome now t id v q) [
    | inl (e, _, refused) ↦ err_is_not_ok (sym refused ∙ r)
    | inr (p, g, item, given, found, payload, waits, i, x, _) ↦
        subst IsSound (ok-injective (sym given ∙ r))
          (IsSound-guided q p id g item found payload waits i x h)
  ]

  Step-IsSound : {q q' : Queue} → Step config execute q q' → IsSound q → IsSound q'
  Step-IsSound (submit_action now draw action {q} fresh) h =
      submit-IsSound now draw action q fresh h
  Step-IsSound (decide now t id v {q}) h = decide-IsSound now t id v q h
  Step-IsSound (recommend now item {q} {q'} fresh r) h = recommend-IsSound now item q q' fresh r h
  Step-IsSound (guide now t id v {q} {q'} r) h = guide-IsSound now t id v q q' r h
  Step-IsSound (revoke_trust now t type {q}) h =
      let (i, x) = revoke_autonomy-fields now t type q in
      IsSound-same q (revoke_autonomy now t type q) i x h
  Step-IsSound (accept_trust k {q} {q'} r) h =
      let (i, x) = accept_autonomy_offer-fields k q q' r in IsSound-same q q' i x h

  Reach-IsSound : {q : Queue} → Reach config execute q → IsSound q
  Reach-IsSound start =
      ((λ id item a h p. ground (arith, h, lookup-nil {V = StoredItem} id)), (λ id. ground arith))
  Reach-IsSound (step r s) = Step-IsSound s (Reach-IsSound r)

-- Whatever calls are made of a queue that starts empty, in whatever order and with whatever executor,
-- the executor is called at most once for an action; and if it was called, the action's item is
-- resolved by a verdict that approves or modifies. Each action and each recommendation is submitted under
-- an id that the queue does not hold, as a fresh UUID is.
pub executed_at_most_once :
    (config : AutonomyConfig) (execute : EffectExecutor) (q : Queue) (id : ℕ)
    → Reach config execute q
    → (times id q.executed ≤ 1)
      × (1 ≤ times id q.executed
          → (item : StoredItem) × (lookup id q.items ≡ some item)
            × (item.status ≡ resolved)
            × (allowed item.verdict ≡ 1))
executed_at_most_once config execute q id r =
    let (_, few) = Reach-IsSound config execute r in
    elim (Option-cases (lookup id q.items)) [
      | inl e ↦ (ground (arith, few id, e), (λ h. absurd (ground (arith, few id, e, h))))
      | inr (item, e) ↦ (
        ground (arith, few id, e, allowed_le item.verdict),
        (λ h. (
          item,
          e,
          ground (arith, few id, e, h),
          ground (arith, few id, e, h, allowed_le item.verdict),
        )),
      )
    ]
