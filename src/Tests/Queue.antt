-- ===== src/Tests/Queue.antt =====
-- packages/approval-queue: runs of the queue and of earned autonomy.
use byok_business_autopilot.Base.{
  ◌≤◌, ◌≡◌, ◌≢◌, ◌↔◌, List, refl, true, false, none, some, [], ◌∷◌, ◌++◌, ok, err, nat_eq, arith,
  ◌⊎◌,
}
use byok_business_autopilot.Base.Dict.{insert, lookup, lookup-nil}
use byok_business_autopilot.ApprovalQueue.Types.{
  EffectKind, EffectDescriptor, ProposedAction, RecommendationItem, approve, unknown_action,
  no_pending_offer, is_denied_from_autonomy,
}
use byok_business_autopilot.ApprovalQueue.Autonomy.{
  AutonomyConfig, AutonomyState, TaskKey, AutonomyStore, state_of, is_active, record_approval,
  record_rejection, record_spot_check_rejection,
}
use byok_business_autopilot.ApprovalQueue.Store.{resolved, StoredItem}
use byok_business_autopilot.ApprovalQueue.Queue.{task_key, submit_proposed_action, resolve}
use byok_business_autopilot.ApprovalQueue.Trail.{success, EffectExecutor, Queue, SubmitResult}
use byok_business_autopilot.ApprovalQueue.Autonomy.{
  empty_state, task_key_eq, is_set, revoke, accept_offer,
}
use byok_business_autopilot.ApprovalQueue.Autonomy.Calls.{Op, accept, run, runs, next, state_of-run}
use byok_business_autopilot.ApprovalQueue.Autonomy.Trust.{in_a_row, activated_earned}
use byok_business_autopilot.ApprovalQueue.Autonomy.Postgres.{
  row_state, Agree, row_is_active, row_record_approval, row_record_rejection,
  row_record_spot_check_rejection, row_revoke, row_accept_offer, Rows,
}
use byok_business_autopilot.ApprovalQueue.Autonomy.Agreement.{stores-Agree}
use byok_business_autopilot.ApprovalQueue.Autonomy.Revoked.{
  names, runs-IsKeyed, revoke_every_outcome,
}
use byok_business_autopilot.ApprovalQueue.Queue.Submit.{
  MayBypass, submit_proposed_action_bypass_iff,
}
use byok_business_autopilot.ApprovalQueue.Queue.Resolve.{calls, IsPendingAction, resolve_outcome}
use byok_business_autopilot.ApprovalQueue.Queue.Account.{times, allowed}
use byok_business_autopilot.ApprovalQueue.Queue.Once.{
  empty_queue, submit_action, decide, executed_at_most_once,
}
use byok_business_autopilot.ApprovalQueue.Queue.Once

abbrev config : AutonomyConfig
config = record { offer_threshold = 1; spot_check_rate = 10 }

abbrev email : EffectDescriptor
email = record { kind = EffectKind.send; description = 1; detail = none }

abbrev action : ProposedAction
action = record {
  id = 5;
  tenant_id = 1;
  agent_name = 2;
  role_title = 3;
  task_type = 4;
  summary = 6;
  draft = 7;
  stakes_tags = [];
  effect = some email;
  created_at = 8;
}

abbrev draft : ProposedAction
draft = record action { effect = none }

abbrev advice : RecommendationItem
advice = record {
  id = 6;
  tenant_id = 1;
  agent_name = 2;
  role_title = 3;
  summary = 6;
  draft = 7;
  stakes_tags = [];
  created_at = 8;
  smuggled = none;
}

abbrev executor : EffectExecutor
executor e a = some success

abbrev queued : Queue
queued = (submit_proposed_action config 100 50 action empty_queue).1

abbrev approved_queue : Queue
approved_queue = (resolve config executor 200 1 5 approve queued).1

abbrev k : TaskKey
k = task_key action

executed_at_most_once_example :
    (times 5 approved_queue.executed ≤ 1)
    × (1 ≤ times 5 approved_queue.executed
        → (item : StoredItem) × (lookup 5 approved_queue.items ≡ some item)
          × (item.status ≡ resolved)
          × (allowed item.verdict ≡ 1))
executed_at_most_once_example = executed_at_most_once config executor approved_queue 5 (
    Once.step (Once.step Once.start (submit_action 100 50 action (lookup-nil 5)))
      (decide 200 1 5 approve))

submit_proposed_action_bypass_iff_example :
    (SubmitResult.queued (submit_proposed_action config 100 50 draft empty_queue).0 ≡ false)
    ↔ MayBypass config 50 draft empty_queue
submit_proposed_action_bypass_iff_example =
    submit_proposed_action_bypass_iff config 100 50 draft empty_queue

resolve_outcome_example :
    let (answer, q') = resolve config executor 200 1 5 approve queued in
    ((answer ≡ err unknown_action)
      × (q' ≡ queued)
      × (¬ ((item : StoredItem) × (a : ProposedAction) × IsPendingAction 1 5 queued.items item a)))
    ⊎ ((item : StoredItem) × (a : ProposedAction) × IsPendingAction 1 5 queued.items item a
        × (q'.items
            ≡ insert 5 (record item { status = resolved; verdict = some approve }) queued.items)
        × (q'.executed ≡ queued.executed ++ calls approve a))
resolve_outcome_example = resolve_outcome config executor 200 1 5 approve queued

abbrev history : List Op
history = Op.approve 100 k [] ∷ []

empty_at_start : state_of k [] ≡ empty_state k
unfolding state_of
empty_at_start = ground (arith, lookup-nil {V = AutonomyState} k)

none_denied : is_denied_from_autonomy [] ≡ false
unfolding is_denied_from_autonomy
none_denied = refl

offered_off : AutonomyState.active (state_of k (runs config history)) ≡ false
unfolding next runs
offered_off =
    ground (arith, none_denied, empty_at_start, state_of-run config (Op.approve 100 k []) k [])

offered_set : is_set (AutonomyState.offered_at (state_of k (runs config history))) ≡ true
unfolding next runs
offered_set =
    ground (arith, none_denied, empty_at_start, state_of-run config (Op.approve 100 k []) k [])

accepted_on : AutonomyState.active (state_of k (run config (accept k) (runs config history))) ≡ true
unfolding next
accepted_on = ground (arith, offered_set, state_of-run config (accept k) k (runs config history))

activated_earned_example : (accept k ≡ accept k) × (1 ≤ in_a_row config k history)
activated_earned_example = activated_earned config (accept k) k history offered_off accepted_on

nothing_Agree : Agree [] []
unfolding state_of row_state
nothing_Agree j = refl

abbrev offered : AutonomyStore
offered = run config (Op.approve 100 k []) []

abbrev offered_rows : Rows
offered_rows = (row_record_approval config 100 k [] []).1

offered-Agree : Agree offered offered_rows
unfolding run
offered-Agree = (stores-Agree config 100 k [] [] [] nothing_Agree).3

stores-Agree_example :
    let (active, s_read) = is_active k offered in
    let (answer, s_approved) = record_approval config 100 k [] offered in
    let (row_answer, t_approved) = row_record_approval config 100 k [] offered_rows in
    let (types, s_revoked) = revoke 1 (some k.task_type) offered in
    let (row_types, t_revoked) = row_revoke 1 (some k.task_type) offered_rows in
    (active ≡ row_is_active k offered_rows)
    × Agree s_read offered_rows
    × (answer ≡ row_answer)
    × Agree s_approved t_approved
    × Agree (record_rejection k offered) (row_record_rejection k offered_rows)
    × Agree (record_spot_check_rejection k offered) (row_record_spot_check_rejection k offered_rows)
    × (((accept_offer k offered ≡ err no_pending_offer)
          × (row_accept_offer k offered_rows ≡ err no_pending_offer))
        ⊎ ((s' : AutonomyStore) × (t' : Rows) × (accept_offer k offered ≡ ok s')
            × (row_accept_offer k offered_rows ≡ ok t')
            × Agree s' t'))
    × (types ≡ row_types)
    × Agree s_revoked t_revoked
    × Agree (revoke 1 none offered).1 (row_revoke 1 none offered_rows).1
stores-Agree_example = stores-Agree config 100 k [] offered offered_rows offered-Agree

-- One task type is trusted; the table holds the same entries.
abbrev trusted : Rows
trusted = runs config (accept k ∷ history)

trusted-Agree : Agree (runs config (accept k ∷ history)) trusted
unfolding state_of row_state
trusted-Agree j = refl

revoke_every_outcome_example :
    let before = state_of k (runs config (accept k ∷ history)) in
    let (types, s') = revoke 1 none (runs config (accept k ∷ history)) in
    let (row_types, t') = row_revoke 1 none trusted in
    ((k.tenant_id ≡ 1)
      × (names k.task_type types ≡ before.active)
      × (names k.task_type row_types ≡ before.active)
      × (AutonomyState.active (state_of k s') ≡ false)
      × ((before.active ≡ true) ⊎ (state_of k s' ≡ before)))
    ⊎ ((k.tenant_id ≢ 1) × (state_of k s' ≡ before))
revoke_every_outcome_example =
    revoke_every_outcome config (accept k ∷ history) trusted k 1
      (runs-IsKeyed config (accept k ∷ history)) trusted-Agree
