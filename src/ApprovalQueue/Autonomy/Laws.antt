-- ===== src/ApprovalQueue/Autonomy/Laws.antt =====
-- packages/approval-queue/src/durable/autonomyStore.ts: what each call leaves at each key.
use byok_business_autopilot.Base.{
  ℕ, ◌≡◌, refl, ◌&&◌, Option, none, some, [], ◌∷◌, ◌==◌, if◌then◌else◌, nat_eq, arith,
}
use byok_business_autopilot.Base.Dict.{lookup, insert, lookup-insert}
use byok_business_autopilot.ApprovalQueue.Autonomy.{
  AutonomyState, TaskKey, task_key_eq, AutonomyStore, empty_state, state_of, touch, revoked_state,
  revoke_all,
}

pub state_of-insert :
    (k j : TaskKey) (a : AutonomyState) (s : AutonomyStore)
    → state_of j (insert k a s) ≡ (if k == j then a else state_of j s)
unfolding state_of
state_of-insert k j a s = ground (arith, lookup-insert k j a s)

-- What a revocation of all of a tenant's task types makes of one state.
abbrev pub revoked_if : ℕ → AutonomyState → AutonomyState
revoked_if tenant_id a = if a.tenant_id == tenant_id && a.active then revoked_state a else a

abbrev pub revoked_found : ℕ → Option AutonomyState → Option AutonomyState
revoked_found tenant_id none = none
revoked_found tenant_id (some a) = some (revoked_if tenant_id a)

pub lookup-revoke_all :
    (t : ℕ) (k : TaskKey) (s : AutonomyStore)
    → lookup k (revoke_all t s).1 ≡ revoked_found t (lookup k s)
unfolding revoke_all lookup
lookup-revoke_all t k [] = refl
lookup-revoke_all t k ((j, a) ∷ s) = ground (arith, lookup-revoke_all t k s)

pub state_of-revoke_all :
    (t : ℕ) (k : TaskKey) (s : AutonomyStore)
    → state_of k (revoke_all t s).1 ≡ revoked_if t (state_of k s)
unfolding state_of
state_of-revoke_all t k s = ground (arith, lookup-revoke_all t k s)

pub state_of-touch : (k j : TaskKey) (s : AutonomyStore) → state_of j (touch k s) ≡ state_of j s
unfolding state_of touch
state_of-touch k j s = ground (arith, lookup-insert k j (empty_state k) s)
