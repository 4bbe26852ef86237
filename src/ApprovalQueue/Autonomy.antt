-- ===== src/ApprovalQueue/Autonomy.antt =====
-- packages/approval-queue/src/autonomyEngine.ts and the in-memory store of durable/autonomyStore.ts.
-- A draw of the random source and the spot-check rate are parts of one unit, in [0, 1). The clock is an
-- argument. A call that reads a state that is not there puts the empty one in the map, as the code does.
use byok_business_autopilot.Base.{
  ℕ, ◌+◌, Bool, true, false, not, ◌&&◌, Option, none, some, List, [], ◌∷◌, Result, ok, err, Eq,
  ◌==◌, ltb, if◌then◌else◌, nat_eq, ℕ_discrete,
}
use byok_business_autopilot.Base.Dict.{Dict, lookup, insert, values}
use Prim.Native.String.{String}
use byok_business_autopilot.ApprovalQueue.Types.{
  QueueError, no_pending_offer, is_denied_from_autonomy,
}
pub mod Laws
pub mod Calls
pub mod Trust
pub mod Offers
pub mod Postgres
pub mod Agreement
pub mod Revoked

pub record AutonomyConfig : Type 0 where
  pub offer_threshold : ℕ
  pub spot_check_rate : ℕ

pub record AutonomyState : Type 0 where
  pub tenant_id : ℕ
  pub task_type : ℕ
  pub consecutive_approvals : ℕ
  pub active : Bool
  pub offered_at : Option ℕ

-- `${tenantId}|${taskType}`; a tenant's id is a UUID, so the text keeps both parts.
pub record TaskKey : Type 0 where
  pub tenant_id : ℕ
  pub task_type : ℕ

pub TaskKey-discrete : Discrete TaskKey
TaskKey-discrete = hlevel ℕ_discrete

instance abbrev pub task_key_eq : Eq TaskKey
task_key_eq = record { dec = TaskKey-discrete }

abbrev pub AutonomyStore : Type 0
AutonomyStore = Dict TaskKey AutonomyState

abbrev pub empty_state : TaskKey → AutonomyState
empty_state k = record {
  tenant_id = k.tenant_id;
  task_type = k.task_type;
  consecutive_approvals = 0;
  active = false;
  offered_at = none;
}

abbrev pub is_set : Option ℕ → Bool
is_set none = false
is_set (some t) = true

-- The state that `getOrCreate` returns, and the map it leaves.
unfoldable pub state_of : TaskKey → AutonomyStore → AutonomyState
state_of k s = elim (lookup k s) [ none ↦ empty_state k | some a ↦ a ]

unfoldable pub touch : TaskKey → AutonomyStore → AutonomyStore
touch k s = elim (lookup k s) [ none ↦ insert k (empty_state k) s | some a ↦ s ]

unfoldable pub should_spot_check : AutonomyConfig → ℕ → Bool
should_spot_check config draw = ltb draw config.spot_check_rate

unfoldable pub is_active : TaskKey → AutonomyStore → Bool × AutonomyStore
is_active k s = (AutonomyState.active (state_of k s), touch k s)

abbrev pub is_offer : AutonomyConfig → ℕ → AutonomyState → Bool
is_offer config count a =
    count == config.offer_threshold && not a.active && not (is_set a.offered_at)

-- Whether autonomy is offered, the count of approvals, and the map.
unfoldable pub record_approval :
    AutonomyConfig → ℕ → TaskKey → List String → AutonomyStore → (Bool × ℕ) × AutonomyStore
record_approval config now k tags s =
    let a = state_of k s in
    let count = a.consecutive_approvals + 1 in
    let offered = is_offer config count a in
    if is_denied_from_autonomy tags then ((false, a.consecutive_approvals), touch k s) else (
      (offered, count),
      insert k
          (record a {
            consecutive_approvals = count;
            offered_at = if offered then some now else a.offered_at;
          })
          s,
    )

unfoldable pub record_rejection : TaskKey → AutonomyStore → AutonomyStore
record_rejection k s =
    insert k (record (state_of k s) { consecutive_approvals = 0; offered_at = none }) s

unfoldable pub accept_offer : TaskKey → AutonomyStore → Result QueueError AutonomyStore
accept_offer k s =
    let a = state_of k s in
    if is_set a.offered_at
    then ok (insert k (record a { active = true }) s)
    else err no_pending_offer

unfoldable pub record_spot_check_rejection : TaskKey → AutonomyStore → AutonomyStore
record_spot_check_rejection k s =
    insert k
      (record (state_of k s) { active = false; consecutive_approvals = 0; offered_at = none }) s

abbrev pub revoked_state : AutonomyState → AutonomyState
revoked_state a = record a { active = false; consecutive_approvals = 0; offered_at = none }

-- `revoke(tenantId, taskType)`: the task types that were active, and the map.
unfoldable pub revoke_one : TaskKey → AutonomyStore → List ℕ × AutonomyStore
revoke_one k s =
    let a = state_of k s in
    if a.active then (a.task_type ∷ [], insert k (revoked_state a) s) else ([], touch k s)

-- `revoke(tenantId)`: the loop over the tenant's active states.
unfoldable pub revoke_all : ℕ → AutonomyStore → List ℕ × AutonomyStore
revoke_all tenant_id [] = ([], [])
revoke_all tenant_id ((k, a) ∷ s) =
    let (types, s') = revoke_all tenant_id s in
    if a.tenant_id == tenant_id && a.active
    then (a.task_type ∷ types, (k, revoked_state a) ∷ s')
    else (types, (k, a) ∷ s')

unfoldable pub revoke : ℕ → Option ℕ → AutonomyStore → List ℕ × AutonomyStore
revoke tenant_id none s = revoke_all tenant_id s
revoke tenant_id (some type) s = revoke_one (record { tenant_id = tenant_id; task_type = type }) s
