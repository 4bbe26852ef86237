-- ===== src/ApprovalQueue/Autonomy/Agreement.antt =====
-- packages/approval-queue/src/durable/autonomyStore.ts: the table and the map, call by call.
use byok_business_autopilot.Base.{
  ℕ, ◌+◌, ◌≡◌, refl, sym, ◌∙◌, ap, Bool, true, false, none, some, List, ok, err, if◌then◌else◌,
  nat_eq, arith, Option-cases, Bool-cases, inl, inr, ◌⊎◌,
}
use Prim.Native.String.{String}
use byok_business_autopilot.Base.Dict.{lookup, insert, lookup-insert_self, insert-insert}
use byok_business_autopilot.ApprovalQueue.Types.{no_pending_offer, is_denied_from_autonomy}
use byok_business_autopilot.ApprovalQueue.Autonomy.{
  AutonomyConfig, AutonomyState, TaskKey, task_key_eq, AutonomyStore, empty_state, is_set, state_of,
  is_active, is_offer, record_approval, record_rejection, accept_offer, record_spot_check_rejection,
  revoked_state, revoke_one, revoke_all, revoke,
}
use byok_business_autopilot.ApprovalQueue.Autonomy.Laws.{revoked_if, state_of-revoke_all}
use byok_business_autopilot.ApprovalQueue.Autonomy.Postgres.{
  Rows, row_state, ensure_row, update_where, upsert, row_is_active, cleared, incremented, offer_row,
  row_record_approval, row_record_rejection, row_record_spot_check_rejection, row_accept_offer,
  row_revoke_one, row_revoke_all, row_revoke, row_state-revoke_all, Agree, Agree-insert,
  Agree-touch,
}

-- What an upsert and an update do, from the state that the row shows.
upsert-eq :
    (k : TaskKey) (f : AutonomyState → AutonomyState) (t : Rows)
    → upsert k f t ≡ insert k (f (row_state k t)) t
unfolding row_state
upsert-eq k f t = ground arith

update_where-some :
    (k : TaskKey) (test : AutonomyState → Bool) (f : AutonomyState → AutonomyState) (t : Rows)
    (a : AutonomyState)
    → lookup k t ≡ some a
    → update_where k test f t ≡ (if test a then (some (f a), insert k (f a) t) else (none, t))
update_where-some k test f t a h = rw (h, update_where)

update_where-eq :
    (k : TaskKey) (test : AutonomyState → Bool) (f : AutonomyState → AutonomyState) (t : Rows)
    → test (empty_state k) ≡ false
    → update_where k test f t ≡ (
        if test (row_state k t)
        then (some (f (row_state k t)), insert k (f (row_state k t)) t)
        else (none, t))
unfolding row_state
update_where-eq k test f t h = elim (Option-cases (lookup k t)) [
  | inl e ↦ rw (e, row_state, h, update_where)
  | inr (a, e) ↦ rw (e, row_state, update_where)
]

lookup-ensure_row : (k : TaskKey) (t : Rows) → lookup k (ensure_row k t) ≡ some (row_state k t)
unfolding row_state
lookup-ensure_row k t = ground (arith, lookup-insert_self k (empty_state k) t)

insert-ensure_row :
    (k : TaskKey) (a : AutonomyState) (t : Rows) → insert k a (ensure_row k t) ≡ insert k a t
insert-ensure_row k a t = ground (arith, insert-insert k a (empty_state k) t)

-- The state that an approval leaves, and the row after the increment and the offer.
abbrev approved : AutonomyConfig → ℕ → AutonomyState → AutonomyState
approved c now a = record a {
  consecutive_approvals = a.consecutive_approvals + 1;
  offered_at = if is_offer c (a.consecutive_approvals + 1) a then some now else a.offered_at;
}

offer_row-eq :
    (c : AutonomyConfig) (now : ℕ) (k : TaskKey) (a : AutonomyState) (u : Rows)
    → offer_row c now k (some (incremented a), insert k (incremented a) u) ≡ (
      (is_offer c (a.consecutive_approvals + 1) a, a.consecutive_approvals + 1),
      insert k (approved c now a) u,
    )
offer_row-eq c now k a u = ground (
  arith,
  lookup-insert_self k (incremented a) u,
  insert-insert k (approved c now a) (incremented a) u,
)

row_of_approval :
    (c : AutonomyConfig) (now : ℕ) (k : TaskKey) (t : Rows)
    → let a = row_state k t in
      offer_row c now k (update_where k (λ _. true) incremented (ensure_row k t)) ≡ (
        (is_offer c (a.consecutive_approvals + 1) a, a.consecutive_approvals + 1),
        insert k (approved c now a) t,
      )
row_of_approval c now k t =
    let a = row_state k t in
    let u = ensure_row k t in
    rw (update_where-some k (λ _. true) incremented u a (lookup-ensure_row k t)) (
      offer_row-eq c now k a u
      ∙ ap (λ v. ((is_offer c (a.consecutive_approvals + 1) a, a.consecutive_approvals + 1), v))
          (insert-ensure_row k _ t))

record_approval-agrees :
    (c : AutonomyConfig) (now : ℕ) (k : TaskKey) (tags : List String) (s : AutonomyStore) (t : Rows)
    → Agree s t
    → let (answer, s') = record_approval c now k tags s in
      let (row_answer, t') = row_record_approval c now k tags t in
      (answer ≡ row_answer) × Agree s' t'
unfolding record_approval row_record_approval
record_approval-agrees c now k tags s t h = elim (Bool-cases (is_denied_from_autonomy tags)) [
  | inl d ↦ (ground (arith, d, h k), rw d (Agree-touch k s t h))
  | inr d ↦ (
    ground (arith, d, h k, row_of_approval c now k t),
    rw (d, row_of_approval c now k t)
        (Agree-insert k (approved c now (state_of k s)) (approved c now (row_state k t)) s t h
          (ap (approved c now) (h k))),
  )
]

revoke_one-agrees :
    (k : TaskKey) (s : AutonomyStore) (t : Rows)
    → Agree s t
    → let (types, s') = revoke_one k s in
      let (row_types, t') = row_revoke_one k t in (types ≡ row_types) × Agree s' t'
unfolding revoke_one row_revoke_one
revoke_one-agrees k s t h = elim (Bool-cases (AutonomyState.active (row_state k t))) [
  | inl a ↦
      rw (h k, update_where-eq k (λ b. b.active) revoked_state t refl, a)
        (refl, Agree-insert k _ _ s t h refl)
  | inr a ↦
      rw (h k, update_where-eq k (λ b. b.active) revoked_state t refl, a)
        (refl, Agree-touch k s t h)
]

revoke_all-agrees :
    (tenant_id : ℕ) (s : AutonomyStore) (t : Rows)
    → Agree s t
    → Agree (revoke_all tenant_id s).1 (row_revoke_all tenant_id t).1
revoke_all-agrees tenant_id s t h k =
    state_of-revoke_all tenant_id k s
    ∙ ap (revoked_if tenant_id) (h k)
    ∙ sym (row_state-revoke_all tenant_id k t)

-- An offer is accepted on both or on neither, and if it is they show the same states afterwards.
accept_offer-agrees :
    (k : TaskKey) (s : AutonomyStore) (t : Rows)
    → Agree s t
    → ((accept_offer k s ≡ err no_pending_offer) × (row_accept_offer k t ≡ err no_pending_offer))
      ⊎ ((s' : AutonomyStore) × (t' : Rows) × (accept_offer k s ≡ ok s')
          × (row_accept_offer k t ≡ ok t')
          × Agree s' t')
unfolding accept_offer row_accept_offer
accept_offer-agrees k s t h =
    elim (Bool-cases (is_set (AutonomyState.offered_at (row_state k t)))) [
      | inl a ↦ inr (
        insert k (record (row_state k t) { active = true }) s,
        insert k (record (row_state k t) { active = true }) t,
        rw (h k, a) refl,
        rw
            (
              update_where-eq k (λ b. is_set b.offered_at) (λ b. record b { active = true }) t refl,
              a,
            )
            refl,
        Agree-insert k _ _ s t h refl,
      )
      | inr a ↦ inl (
        rw (h k, a) refl,
        rw
            (
              update_where-eq k (λ b. is_set b.offered_at) (λ b. record b { active = true }) t refl,
              a,
            )
            refl,
      )
    ]

-- Where the map and the table show the same states, every call on earned autonomy gives the same answers
-- on both, and they show the same states afterwards: asking whether a task type is active, an approval, a
-- rejection, a rejected spot-check, the acceptance of an offer, which both refuse or both grant, and the
-- revocation of one task type or of all of a tenant's. Of the last one only the states are compared, not
-- the list of revoked task types, whose order SQL leaves open.
pub stores-Agree :
    (c : AutonomyConfig) (now : ℕ) (k : TaskKey) (tags : List String) (s : AutonomyStore) (t : Rows)
    → Agree s t
    → let (active, s_read) = is_active k s in
      let (answer, s_approved) = record_approval c now k tags s in
      let (row_answer, t_approved) = row_record_approval c now k tags t in
      let (types, s_revoked) = revoke k.tenant_id (some k.task_type) s in
      let (row_types, t_revoked) = row_revoke k.tenant_id (some k.task_type) t in
      (active ≡ row_is_active k t)
      × Agree s_read t
      × (answer ≡ row_answer)
      × Agree s_approved t_approved
      × Agree (record_rejection k s) (row_record_rejection k t)
      × Agree (record_spot_check_rejection k s) (row_record_spot_check_rejection k t)
      × (((accept_offer k s ≡ err no_pending_offer) × (row_accept_offer k t ≡ err no_pending_offer))
          ⊎ ((s' : AutonomyStore) × (t' : Rows) × (accept_offer k s ≡ ok s')
              × (row_accept_offer k t ≡ ok t')
              × Agree s' t'))
      × (types ≡ row_types)
      × Agree s_revoked t_revoked
      × Agree (revoke k.tenant_id none s).1 (row_revoke k.tenant_id none t).1
unfolding is_active row_is_active record_rejection row_record_rejection record_spot_check_rejection
    row_record_spot_check_rejection revoke row_revoke
stores-Agree c now k tags s t h =
    let (answers, approvals) = record_approval-agrees c now k tags s t h in
    let (types, revoked) = revoke_one-agrees k s t h in
    (
      ap (λ a. AutonomyState.active a) (h k),
      Agree-touch k s t h,
      answers,
      approvals,
      rw (upsert-eq k cleared t) (Agree-insert k _ _ s t h (ap cleared (h k))),
      rw (upsert-eq k revoked_state t) (Agree-insert k _ _ s t h (ap revoked_state (h k))),
      accept_offer-agrees k s t h,
      types,
      revoked,
      revoke_all-agrees k.tenant_id s t h,
    )
