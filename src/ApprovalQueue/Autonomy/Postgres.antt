-- ===== src/ApprovalQueue/Autonomy/Postgres.antt =====
-- packages/approval-queue/src/durable/autonomyStore.ts, PostgresDurableAutonomyStore: a row of
-- `autonomy_counters` for a tenant and task type, and each statement of the transactions. A statement
-- runs whole.
use byok_business_autopilot.Base.{
  ℕ, ◌+◌, ◌≡◌, refl, ◌&&◌, Bool, true, false, Option, none, some, List, [], ◌∷◌, Result, ok, err,
  ◌==◌, if◌then◌else◌, nat_eq, arith,
}
use Prim.Native.String.{String}
use byok_business_autopilot.Base.Dict.{Dict, lookup, insert, lookup-insert}
use byok_business_autopilot.ApprovalQueue.Types.{
  QueueError, no_pending_offer, is_denied_from_autonomy,
}
use byok_business_autopilot.ApprovalQueue.Autonomy.{
  AutonomyConfig, AutonomyState, TaskKey, task_key_eq, AutonomyStore, empty_state, is_set, state_of,
  touch, is_offer, revoked_state,
}
use byok_business_autopilot.ApprovalQueue.Autonomy.Laws.{
  state_of-insert, state_of-touch, revoked_if, revoked_found,
}

-- `autonomy_counters`, by its primary key (tenant_id, task_type).
abbrev pub Rows : Type 0
Rows = Dict TaskKey AutonomyState

-- `stateFor`: the row, or the empty state, and no insert.
unfoldable pub row_state : TaskKey → Rows → AutonomyState
row_state k t = elim (lookup k t) [ none ↦ empty_state k | some a ↦ a ]

-- `INSERT … ON CONFLICT DO NOTHING`
abbrev pub ensure_row : TaskKey → Rows → Rows
ensure_row k t = elim (lookup k t) [ none ↦ insert k (empty_state k) t | some a ↦ t ]

-- `UPDATE … SET … WHERE` the key and a condition: the row it returns, and the table.
abbrev pub update_where :
    TaskKey
    → (AutonomyState → Bool)
    → (AutonomyState → AutonomyState)
    → Rows
    → Option AutonomyState × Rows
update_where k test set t = elim (lookup k t) [
  | none ↦ (none, t)
  | some a ↦ if test a then (some (set a), insert k (set a) t) else (none, t)
]

-- `INSERT … ON CONFLICT DO UPDATE`
abbrev pub upsert : TaskKey → (AutonomyState → AutonomyState) → Rows → Rows
upsert k set t = elim (lookup k t) [
  | none ↦ insert k (set (empty_state k)) t
  | some a ↦ insert k (set a) t
]

unfoldable pub row_is_active : TaskKey → Rows → Bool
row_is_active k t = AutonomyState.active (row_state k t)

abbrev pub cleared : AutonomyState → AutonomyState
cleared a = record a { consecutive_approvals = 0; offered_at = none }

abbrev pub incremented : AutonomyState → AutonomyState
incremented a = record a { consecutive_approvals = a.consecutive_approvals + 1 }

abbrev pub offer_row :
    AutonomyConfig → ℕ → TaskKey → Option AutonomyState × Rows → (Bool × ℕ) × Rows
offer_row c now k (none, t) = ((false, 0), t)
offer_row c now k (some row, t) =
    let offered = is_offer c row.consecutive_approvals row in
    (
      (offered, row.consecutive_approvals),
      if offered
          then (update_where k (λ _. true) (λ a. record a { offered_at = some now }) t).1
          else t,
    )

unfoldable pub row_record_approval :
    AutonomyConfig → ℕ → TaskKey → List String → Rows → (Bool × ℕ) × Rows
row_record_approval c now k tags t =
    if is_denied_from_autonomy tags
    then ((false, AutonomyState.consecutive_approvals (row_state k t)), t)
    else offer_row c now k (update_where k (λ _. true) incremented (ensure_row k t))

unfoldable pub row_record_rejection : TaskKey → Rows → Rows
row_record_rejection k t = upsert k cleared t

unfoldable pub row_record_spot_check_rejection : TaskKey → Rows → Rows
row_record_spot_check_rejection k t = upsert k revoked_state t

abbrev pub returned : Option AutonomyState × Rows → Result QueueError Rows
returned (none, t) = err no_pending_offer
returned (some row, t) = ok t

unfoldable pub row_accept_offer : TaskKey → Rows → Result QueueError Rows
row_accept_offer k t =
    returned (update_where k (λ a. is_set a.offered_at) (λ a. record a { active = true }) t)

abbrev pub returned_types : Option AutonomyState × Rows → List ℕ × Rows
returned_types (none, t) = ([], t)
returned_types (some row, t) = (row.task_type ∷ [], t)

unfoldable pub row_revoke_one : TaskKey → Rows → List ℕ × Rows
row_revoke_one k t = returned_types (update_where k (λ a. a.active) revoked_state t)

-- `UPDATE … WHERE tenant_id AND active RETURNING task_type`; the order of the rows it returns, which SQL
-- leaves open, is the table's here.
unfoldable pub row_revoke_all : ℕ → Rows → List ℕ × Rows
row_revoke_all tenant_id [] = ([], [])
row_revoke_all tenant_id ((k, row) ∷ t) =
    let (types, t') = row_revoke_all tenant_id t in
    if row.tenant_id == tenant_id && row.active
    then (row.task_type ∷ types, (k, revoked_state row) ∷ t')
    else (types, (k, row) ∷ t')

unfoldable pub row_revoke : ℕ → Option ℕ → Rows → List ℕ × Rows
row_revoke tenant_id none t = row_revoke_all tenant_id t
row_revoke tenant_id (some type) t =
    row_revoke_one (record { tenant_id = tenant_id; task_type = type }) t

row_lookup-revoke_all :
    (tenant_id : ℕ) (k : TaskKey) (t : Rows)
    → lookup k (row_revoke_all tenant_id t).1 ≡ revoked_found tenant_id (lookup k t)
unfolding row_revoke_all lookup
row_lookup-revoke_all tenant_id k [] = refl
row_lookup-revoke_all tenant_id k ((j, a) ∷ t) = ground (arith, row_lookup-revoke_all tenant_id k t)

pub row_state-revoke_all :
    (tenant_id : ℕ) (k : TaskKey) (t : Rows)
    → row_state k (row_revoke_all tenant_id t).1 ≡ revoked_if tenant_id (row_state k t)
unfolding row_state
row_state-revoke_all tenant_id k t = ground (arith, row_lookup-revoke_all tenant_id k t)

-- The map and the table show the same state at every key.
abbrev pub Agree : AutonomyStore → Rows → Type 0
Agree s t = (k : TaskKey) → state_of k s ≡ row_state k t

row_state-insert :
    (k j : TaskKey) (a : AutonomyState) (t : Rows)
    → row_state j (insert k a t) ≡ (if k == j then a else row_state j t)
unfolding row_state
row_state-insert k j a t = ground (arith, lookup-insert k j a t)

pub Agree-insert :
    (k : TaskKey) (a b : AutonomyState) (s : AutonomyStore) (t : Rows)
    → Agree s t
    → a ≡ b
    → Agree (insert k a s) (insert k b t)
Agree-insert k a b s t h e j =
    ground (arith, e, h j, state_of-insert k j a s, row_state-insert k j b t)

pub Agree-touch : (k : TaskKey) (s : AutonomyStore) (t : Rows) → Agree s t → Agree (touch k s) t
Agree-touch k s t h j = ground (arith, h j, state_of-touch k j s)
