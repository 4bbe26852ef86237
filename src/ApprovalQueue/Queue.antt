-- ===== src/ApprovalQueue/Queue.antt =====
-- packages/approval-queue/src/queue.ts, ApprovalQueue: its calls. The executor is a parameter; `executed`
-- lists its calls, newest last. `events` are those that the listeners are given, `audit` the trail.
use byok_business_autopilot.Base.{
  ℕ, Bool, true, false, not, ◌&&◌, Option, none, some, List, [], ◌∷◌, ◌++◌, map, Result, ok, err,
  Eq, ◌==◌, if◌then◌else◌, nat_eq, ◌>>=◌,
}
use Prim.Native.String.{String}
use byok_business_autopilot.Base.Dict.{Dict, lookup, insert, values}
use byok_business_autopilot.ApprovalQueue.Types.{
  EffectKind, EffectDescriptor, ProposedAction, RecommendationItem, Verdict, approve, reject,
  modify, QueueError, effect_on_recommendation, executor_failed, is_denied_from_autonomy,
}
use byok_business_autopilot.ApprovalQueue.Autonomy.{
  AutonomyConfig, TaskKey, AutonomyStore, is_active, should_spot_check, record_approval,
  record_rejection, record_spot_check_rejection, accept_offer, revoke,
}
use byok_business_autopilot.ApprovalQueue.Store.{
  Items, ResolveOutcome, store_action, store_recommendation, resolve_item,
  resolve_recommendation_item,
}
use byok_business_autopilot.ApprovalQueue.Trail.{
  AuditDetail, AuditEvent, AuditKind, EffectExecutor, EffectResult, Queue, QueueEvent,
  ResolveResult, RevokeReason, SubmitResult, VerdictKind, action_auto_approved, action_queued,
  agent_learning, append, approve_kind, auto_approved, autonomy_offered, autonomy_revoked,
  effect_kind, emit, failure, feedback, for_action, kind_of, manual, modify_kind, queued,
  recommendation_guidance, recommendation_resolved, recommendation_submitted, reject_kind,
  spot_check_rejected, success, verdict_given,
}
pub mod Recommend
pub mod Submit
pub mod Resolve
pub mod Account
pub mod Once

abbrev pub task_key : ProposedAction → TaskKey
task_key a = record { tenant_id = a.tenant_id; task_type = a.task_type }

abbrev pub audit_of : ℕ → ProposedAction → ℕ → AuditKind → Option AuditDetail → AuditEvent
audit_of action_id a at kind detail = record {
  at = at;
  action_id = action_id;
  tenant_id = a.tenant_id;
  task_type = some a.task_type;
  kind = kind;
  detail = detail;
}

abbrev pub carries_effect : ProposedAction → Bool
carries_effect a = elim a.effect [ none ↦ false | some e ↦ true ]

-- The draw of `shouldSpotCheck` is made only if autonomy is active, as `&&` does.
unfoldable pub submit_proposed_action :
    AutonomyConfig → (now draw : ℕ) → ProposedAction → Queue → SubmitResult × Queue
submit_proposed_action config now draw action q =
    let (active, autonomy) = is_active (task_key action) q.autonomy in
    let autonomy_active = active && not (is_denied_from_autonomy action.stakes_tags) in
    let q' = record q { autonomy = autonomy } in
    if autonomy_active && not (should_spot_check config draw) && not (carries_effect action)
    then (
      record { queued = false; effect_result = none },
      emit (action_auto_approved action.id action.tenant_id action.task_type now)
          (append (audit_of action.id action now auto_approved none) q'),
    )
    else (
      record { queued = true; effect_result = none },
      emit (action_queued action.id action.tenant_id action.task_type now) (
          append (audit_of action.id action now queued none)
            (record q' { items = store_action action autonomy_active q'.items })),
    )

-- The branch of `resolve` for a REJECT.
abbrev pub rejected : (now action_id text : ℕ) → ResolveOutcome → Queue → ResolveResult × Queue
rejected now action_id text outcome q =
    let a = outcome.action in
    let told = emit (agent_learning action_id a.tenant_id a.task_type text now) q in
    let counted =
      if outcome.was_spot_check
      then emit (autonomy_revoked a.tenant_id a.task_type spot_check_rejected now)
          (record told { autonomy = record_spot_check_rejection (task_key a) told.autonomy })
      else record told { autonomy = record_rejection (task_key a) told.autonomy } in
    (
      record { dispatched = false; effect_result = none },
      append (audit_of action_id a now (verdict_given reject_kind) (some (feedback text))) counted,
    )

abbrev pub final_action : Verdict → ProposedAction → ProposedAction
final_action (modify edited) a = record a { draft = edited }
final_action approve a = a
final_action (reject text) a = a

-- `recordApproval`, the offer's event, and the audit entry.
abbrev pub approved :
    AutonomyConfig → (now action_id : ℕ) → VerdictKind → ProposedAction → Queue → Queue
approved config now action_id kind a q =
    let ((offered, count), autonomy) =
      record_approval config now (task_key a) a.stakes_tags q.autonomy in
    let counted = record q { autonomy = autonomy } in
    let told =
      if offered
      then emit (autonomy_offered a.tenant_id a.task_type count now) counted
      else counted in
    append
      (audit_of action_id a now (verdict_given kind)
        (elim a.effect [ none ↦ none | some e ↦ some (effect_kind e.kind) ]))
      told

abbrev pub answer_of : Option EffectResult → Result QueueError (Option EffectResult)
answer_of none = err executor_failed
answer_of (some r) = ok (some r)

-- The executor's call, if there is an effect.
abbrev pub dispatch :
    EffectExecutor
    → Option EffectDescriptor
    → ProposedAction
    → Queue
    → Result QueueError (Option EffectResult) × Queue
dispatch execute none a q = (ok none, q)
dispatch execute (some e) a q =
    (answer_of (execute e a), record q { executed = q.executed ++ ((e, a) ∷ []) })

-- What follows the executor's answer; a rejected call ends `resolve` there.
abbrev pub concluded :
    AutonomyConfig
    → (now action_id : ℕ) → Verdict
    → ProposedAction
    → Result QueueError (Option EffectResult) × Queue
    → Result QueueError ResolveResult × Queue
concluded config now action_id verdict a (err e, q) = (err e, q)
concluded config now action_id verdict a (ok effect_result, q) = (
  ok (record {
    dispatched = carries_effect (final_action verdict a);
    effect_result = effect_result;
  }),
  approved config now action_id (kind_of verdict) a q,
)

abbrev pub accepted :
    AutonomyConfig
    → EffectExecutor
    → (now action_id : ℕ) → Verdict
    → ResolveOutcome
    → Queue
    → Result QueueError ResolveResult × Queue
accepted config execute now action_id verdict outcome q =
    let final = final_action verdict outcome.action in
    concluded config now action_id verdict outcome.action (dispatch execute final.effect final q)

abbrev pub with_verdict :
    AutonomyConfig
    → EffectExecutor
    → (now action_id : ℕ) → Verdict
    → ResolveOutcome
    → Queue
    → Result QueueError ResolveResult × Queue
with_verdict config execute now action_id (reject text) outcome q =
    let (r, q') = rejected now action_id text outcome q in (ok r, q')
with_verdict config execute now action_id approve outcome q =
    accepted config execute now action_id approve outcome q
with_verdict config execute now action_id (modify edited) outcome q =
    accepted config execute now action_id (modify edited) outcome q

unfoldable pub resolve :
    AutonomyConfig
    → EffectExecutor
    → (now tenant_id action_id : ℕ) → Verdict
    → Queue
    → Result QueueError ResolveResult × Queue
resolve config execute now tenant_id action_id verdict q =
    elim (resolve_item tenant_id action_id verdict q.items) [
      | err e ↦ (err e, q)
      | ok (outcome, items) ↦
          with_verdict config execute now action_id verdict outcome (record q { items = items })
    ]

abbrev pub recommended : ℕ → RecommendationItem → Queue → Queue
recommended now item q =
    append
      (record {
        at = now;
        action_id = item.id;
        tenant_id = item.tenant_id;
        task_type = none;
        kind = recommendation_submitted;
        detail = none;
      })
      (record q { items = store_recommendation item q.items })

-- `"effect" in item` asks for the key, whatever its value.
unfoldable pub submit_recommendation :
    (now : ℕ) → RecommendationItem → Queue → Result QueueError Queue
submit_recommendation now item q = elim item.smuggled [
  | some e ↦ err effect_on_recommendation
  | none ↦ ok (recommended now item q)
]

abbrev pub feedback_of : Verdict → Option AuditDetail
feedback_of (reject text) = some (feedback text)
feedback_of approve = none
feedback_of (modify edited) = none

abbrev pub guided : (now id : ℕ) → Verdict → RecommendationItem → Queue → Queue
guided now id verdict item q =
    append
      (record {
        at = now;
        action_id = id;
        tenant_id = item.tenant_id;
        task_type = none;
        kind = recommendation_resolved;
        detail = feedback_of verdict;
      })
      (emit (recommendation_guidance id item.tenant_id (kind_of verdict) now) q)

unfoldable pub resolve_recommendation :
    (now tenant_id id : ℕ) → Verdict → Queue → Result QueueError Queue
resolve_recommendation now tenant_id id verdict q = do
  (item, items) ← resolve_recommendation_item tenant_id id q.items
  ok (guided now id verdict item (record q { items = items }))

abbrev pub emit_revoked : ℕ → ℕ → List ℕ → Queue → Queue
emit_revoked tenant_id now [] q = q
emit_revoked tenant_id now (type ∷ types) q =
    emit_revoked tenant_id now types (emit (autonomy_revoked tenant_id type manual now) q)

unfoldable pub revoke_autonomy : (now tenant_id : ℕ) → Option ℕ → Queue → Queue
revoke_autonomy now tenant_id task_type q =
    let (types, autonomy) = revoke tenant_id task_type q.autonomy in
    emit_revoked tenant_id now types (record q { autonomy = autonomy })

unfoldable pub accept_autonomy_offer : TaskKey → Queue → Result QueueError Queue
accept_autonomy_offer k q = do
  autonomy ← accept_offer k q.autonomy
  ok (record q { autonomy = autonomy })
