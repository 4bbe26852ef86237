-- ===== src/ApprovalQueue/Autonomy/Revoked.antt =====
-- packages/approval-queue/src/durable/autonomyStore.ts: which task types a revocation of all of them names.
use byok_business_autopilot.Base.{
  ℕ, ◌+◌, ◌≡◌, ◌≢◌, ◌⊎◌, refl, Bool, true, false, ◌||◌, none, some, List, [], ◌∷◌, ◌==◌,
  if◌then◌else◌, nat_eq, arith,
}
use byok_business_autopilot.Base.Dict.{Dict, lookup, insert, lookup-insert}
use byok_business_autopilot.ApprovalQueue.Autonomy.{
  AutonomyState, TaskKey, task_key_eq, AutonomyStore, empty_state, state_of, revoke_all, revoke,
  revoked_state, AutonomyConfig, touch, is_active, record_approval, record_rejection, accept_offer,
  record_spot_check_rejection, revoke_one, is_offer,
}
use byok_business_autopilot.ApprovalQueue.Autonomy.Laws.{lookup-revoke_all, state_of-revoke_all}
use byok_business_autopilot.ApprovalQueue.Autonomy.Calls.{
  Op, read, reject, spot_check_reject, accept, revoke_type, revoke_every, approve, run, runs,
}
use byok_business_autopilot.ApprovalQueue.Autonomy.Postgres.{
  Rows, row_state, row_revoke_all, row_revoke, Agree,
}

-- Each entry stands once, and knows its tenant and task type.
abbrev pub IsKeyed : Dict TaskKey AutonomyState → Type 0
IsKeyed [] = Unit
IsKeyed ((k, a) ∷ s) =
    (a.tenant_id ≡ k.tenant_id) × (a.task_type ≡ k.task_type) × (lookup k s ≡ none) × IsKeyed s

abbrev pub names : ℕ → List ℕ → Bool
names type [] = false
names type (t ∷ ts) = (t == type) || names type ts

abbrev key : ℕ → ℕ → TaskKey
key tenant_id type = record { tenant_id = tenant_id; task_type = type }

revoke_all-names :
    (tenant_id type : ℕ) (s : AutonomyStore)
    → IsKeyed s
    → names type (revoke_all tenant_id s).0 ≡ AutonomyState.active (state_of (key tenant_id type) s)
unfolding revoke_all state_of lookup
revoke_all-names tenant_id type [] h = refl
revoke_all-names tenant_id type ((k, a) ∷ s) (own, named, once, h) =
    ground (arith, own, named, once, revoke_all-names tenant_id type s h)

row_revoke_all-names :
    (tenant_id type : ℕ) (t : Rows)
    → IsKeyed t
    → names type (row_revoke_all tenant_id t).0
      ≡ AutonomyState.active (row_state (key tenant_id type) t)
unfolding row_revoke_all row_state lookup
row_revoke_all-names tenant_id type [] h = refl
row_revoke_all-names tenant_id type ((k, a) ∷ t) (own, named, once, h) =
    ground (arith, own, named, once, row_revoke_all-names tenant_id type t h)

-- A state under its own key.
abbrev IsOwn : TaskKey → AutonomyState → Type 0
IsOwn k a = (a.tenant_id ≡ k.tenant_id) × (a.task_type ≡ k.task_type)

state_of-IsOwn : (k : TaskKey) (s : AutonomyStore) → IsKeyed s → IsOwn k (state_of k s)
unfolding state_of lookup
state_of-IsOwn k [] h = (refl, refl)
state_of-IsOwn k ((j, a) ∷ s) (own, named, once, h) =
    ground (arith, own, named, state_of-IsOwn k s h)

insert-IsKeyed :
    (k : TaskKey) (a : AutonomyState) (s : AutonomyStore)
    → IsOwn k a
    → IsKeyed s
    → IsKeyed (insert k a s)
unfolding insert lookup
insert-IsKeyed k a [] own h = ground (arith, own)
insert-IsKeyed k a ((j, b) ∷ s) own h =
    ground (arith, own, h, insert-IsKeyed k a s own h.3, lookup-insert k j a s)

touch-IsKeyed : (k : TaskKey) (s : AutonomyStore) → IsKeyed s → IsKeyed (touch k s)
unfolding touch
touch-IsKeyed k s h = ground (arith, h, insert-IsKeyed k (empty_state k) s (refl, refl) h)

revoke_all-IsKeyed :
    (tenant_id : ℕ) (s : AutonomyStore) → IsKeyed s → IsKeyed (revoke_all tenant_id s).1
unfolding revoke_all
revoke_all-IsKeyed tenant_id [] h = tt
revoke_all-IsKeyed tenant_id ((k, a) ∷ s) (own, named, once, h) =
    ground
      (arith, own, named, once, revoke_all-IsKeyed tenant_id s h, lookup-revoke_all tenant_id k s)

run-IsKeyed : (c : AutonomyConfig) (op : Op) (s : AutonomyStore) → IsKeyed s → IsKeyed (run c op s)
unfolding run is_active record_approval record_rejection accept_offer record_spot_check_rejection
    revoke_one revoke
run-IsKeyed c (read k) s h = touch-IsKeyed k s h
run-IsKeyed c (reject k) s h = insert-IsKeyed k _ s (state_of-IsOwn k s h) h
run-IsKeyed c (spot_check_reject k) s h = insert-IsKeyed k _ s (state_of-IsOwn k s h) h
run-IsKeyed c (accept k) s h = ground (
  arith,
  h,
  insert-IsKeyed k (record (state_of k s) { active = true }) s (state_of-IsOwn k s h) h,
)
run-IsKeyed c (revoke_type k) s h = ground (
  arith,
  touch-IsKeyed k s h,
  insert-IsKeyed k (revoked_state (state_of k s)) s (state_of-IsOwn k s h) h,
)
run-IsKeyed c (revoke_every tenant_id) s h = revoke_all-IsKeyed tenant_id s h
run-IsKeyed c (approve now k tags) s h =
    let a = state_of k s in
    ground (
      arith,
      touch-IsKeyed k s h,
      insert-IsKeyed k
          (record a {
            consecutive_approvals = a.consecutive_approvals + 1;
            offered_at =
                if is_offer c (a.consecutive_approvals + 1) a then some now else a.offered_at;
          })
          s (state_of-IsOwn k s h) h,
    )

pub runs-IsKeyed : (c : AutonomyConfig) (ops : List Op) → IsKeyed (runs c ops)
unfolding runs
runs-IsKeyed c [] = tt
runs-IsKeyed c (op ∷ ops) = run-IsKeyed c op (runs c ops) (runs-IsKeyed c ops)

-- After any calls, the revocation of all of a tenant's task types names exactly those that were active,
-- and the SQL store names the same where its table shows the same states under unique keys. Afterwards
-- none of the tenant's task types is active, and the state of every task type of any other tenant, and
-- of any that was not active, is as it was.
pub revoke_every_outcome :
    (c : AutonomyConfig) (ops : List Op) (t : Rows) (k : TaskKey) (tenant_id : ℕ)
    → IsKeyed t
    → Agree (runs c ops) t
    → let s = runs c ops in
      let before = state_of k s in
      let (types, s') = revoke tenant_id none s in
      let (row_types, t') = row_revoke tenant_id none t in
      ((k.tenant_id ≡ tenant_id)
        × (names k.task_type types ≡ before.active)
        × (names k.task_type row_types ≡ before.active)
        × (AutonomyState.active (state_of k s') ≡ false)
        × ((before.active ≡ true) ⊎ (state_of k s' ≡ before)))
      ⊎ ((k.tenant_id ≢ tenant_id) × (state_of k s' ≡ before))
unfolding revoke row_revoke
revoke_every_outcome c ops t k tenant_id keyed agree =
    let s = runs c ops in
    let own = state_of-IsOwn k s (runs-IsKeyed c ops) in
    ground (
      arith,
      own,
      agree k,
      state_of-revoke_all tenant_id k s,
      revoke_all-names k.tenant_id k.task_type s (runs-IsKeyed c ops),
      row_revoke_all-names k.tenant_id k.task_type t keyed,
    )
