-- ===== src/ApprovalQueue/Autonomy/Calls.antt =====
-- packages/approval-queue/src/durable/autonomyStore.ts: sequences of calls. An `Op` is one call of the in-memory
-- store, and `run` the store after it.
use byok_business_autopilot.Base.{
  ℕ, ◌+◌, ◌≡◌, Bool, true, none, some, List, [], ◌∷◌, Result, ok, err, ◌==◌, if◌then◌else◌, nat_eq,
  arith,
}
use Prim.Native.String.{String}
use byok_business_autopilot.ApprovalQueue.Types.{QueueError, is_denied_from_autonomy}
use byok_business_autopilot.ApprovalQueue.Autonomy.{
  AutonomyConfig, AutonomyState, TaskKey, task_key_eq, AutonomyStore, is_set, state_of, is_active,
  is_offer, record_approval, record_rejection, accept_offer, record_spot_check_rejection,
  revoked_state, revoke_one, revoke,
}
use byok_business_autopilot.ApprovalQueue.Autonomy.Laws.{
  state_of-insert, state_of-touch, revoked_if, state_of-revoke_all,
}

pub data Op : Type 0 where
  read reject spot_check_reject accept revoke_type : TaskKey → Op
  revoke_every : ℕ → Op
  approve : ℕ → TaskKey → List String → Op

-- Whether a call may change the state of a task type.
abbrev pub concerns : Op → TaskKey → Bool
concerns (read k) j = k == j
concerns (reject k) j = k == j
concerns (spot_check_reject k) j = k == j
concerns (accept k) j = k == j
concerns (revoke_type k) j = k == j
concerns (revoke_every tenant_id) j = true
concerns (approve now k tags) j = k == j

abbrev pub or_same : AutonomyStore → Result QueueError AutonomyStore → AutonomyStore
or_same s (ok s') = s'
or_same s (err e) = s

unfoldable pub run : AutonomyConfig → Op → AutonomyStore → AutonomyStore
run c (read k) s = (is_active k s).1
run c (reject k) s = record_rejection k s
run c (spot_check_reject k) s = record_spot_check_rejection k s
run c (accept k) s = or_same s (accept_offer k s)
run c (revoke_type k) s = (revoke k.tenant_id (some k.task_type) s).1
run c (revoke_every tenant_id) s = (revoke tenant_id none s).1
run c (approve now k tags) s = (record_approval c now k tags s).1

-- The store that calls leave, from the empty one; the newest call stands first.
unfoldable pub runs : AutonomyConfig → List Op → AutonomyStore
runs c [] = []
runs c (op ∷ ops) = run c op (runs c ops)

-- What one call makes of the state at its own key.
unfoldable pub next : AutonomyConfig → Op → AutonomyState → AutonomyState
next c (read k) a = a
next c (reject k) a = record a { consecutive_approvals = 0; offered_at = none }
next c (spot_check_reject k) a = revoked_state a
next c (accept k) a = if is_set a.offered_at then record a { active = true } else a
next c (revoke_type k) a = if a.active then revoked_state a else a
next c (revoke_every tenant_id) a = revoked_if tenant_id a
next c (approve now k tags) a = if is_denied_from_autonomy tags then a else record a {
  consecutive_approvals = a.consecutive_approvals + 1;
  offered_at = if is_offer c (a.consecutive_approvals + 1) a then some now else a.offered_at;
}

-- A call changes the states it concerns as `next` says, and no other state.
pub state_of-run :
    (c : AutonomyConfig) (op : Op) (j : TaskKey) (s : AutonomyStore)
    → state_of j (run c op s) ≡ (if concerns op j then next c op (state_of j s) else state_of j s)
unfolding run next is_active record_approval record_rejection accept_offer
    record_spot_check_rejection revoke_one revoke
state_of-run c (read k) j s = ground (arith, state_of-touch k j s)
state_of-run c (reject k) j s = ground (
  arith,
  state_of-insert k j (record (state_of k s) { consecutive_approvals = 0; offered_at = none }) s,
)
state_of-run c (spot_check_reject k) j s =
    ground (arith, state_of-insert k j (revoked_state (state_of k s)) s)
state_of-run c (accept k) j s =
    ground (arith, state_of-insert k j (record (state_of k s) { active = true }) s)
state_of-run c (revoke_type k) j s =
    ground (arith, state_of-insert k j (revoked_state (state_of k s)) s, state_of-touch k j s)
state_of-run c (revoke_every tenant_id) j s = state_of-revoke_all tenant_id j s
state_of-run c (approve now k tags) j s =
    let a = state_of k s in
    ground (
      arith,
      state_of-insert k j
          (record a {
            consecutive_approvals = a.consecutive_approvals + 1;
            offered_at =
                if is_offer c (a.consecutive_approvals + 1) a then some now else a.offered_at;
          })
          s,
      state_of-touch k j s,
    )
