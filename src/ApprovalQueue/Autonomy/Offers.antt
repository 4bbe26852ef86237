-- ===== src/ApprovalQueue/Autonomy/Offers.antt =====
-- packages/approval-queue/src/durable/autonomyStore.ts: when autonomy is offered.
use byok_business_autopilot.Base.{
  ℕ, zero, suc, ◌+◌, ◌<◌, ◌≡◌, false, leb, List, ◌==◌, nat_eq, arith,
}
use Prim.Native.String.{String}
use byok_business_autopilot.ApprovalQueue.Types.{is_denied_from_autonomy}
use byok_business_autopilot.ApprovalQueue.Autonomy.{
  AutonomyConfig, AutonomyState, TaskKey, task_key_eq, AutonomyStore, empty_state, is_set, state_of,
  is_offer, record_approval,
}
use byok_business_autopilot.ApprovalQueue.Autonomy.Calls.{approve, run, next, state_of-run}

-- `n` approvals in a row of one task type.
abbrev pub approve_times :
    AutonomyConfig → ℕ → TaskKey → List String → ℕ → AutonomyStore → AutonomyStore
approve_times c now k tags zero s = s
approve_times c now k tags (suc n) s = run c (approve now k tags) (approve_times c now k tags n s)

approve_times-count :
    (c : AutonomyConfig) (now : ℕ) (k : TaskKey) (tags : List String) (n : ℕ) (s : AutonomyStore)
    → is_denied_from_autonomy tags ≡ false
    → 0 < c.offer_threshold
    → state_of k s ≡ empty_state k
    → let a = state_of k (approve_times c now k tags n s) in
      (a.consecutive_approvals ≡ n)
      × (a.active ≡ false)
      × (is_set a.offered_at ≡ leb c.offer_threshold n)
unfolding next
approve_times-count c now k tags zero s d t e = ground (arith, e)
approve_times-count c now k tags (suc n) s d t e = ground (
  arith,
  d,
  t,
  state_of-run c (approve now k tags) k (approve_times c now k tags n s),
  approve_times-count c now k tags n s d t e,
)

record_approval-first :
    (c : AutonomyConfig) (now : ℕ) (k : TaskKey) (tags : List String) (s : AutonomyStore)
    → is_denied_from_autonomy tags ≡ false
    → let a = state_of k s in
      let (offered, count) = (record_approval c now k tags s).0 in
      (count ≡ a.consecutive_approvals + 1) × (offered ≡ is_offer c (a.consecutive_approvals + 1) a)
unfolding record_approval
record_approval-first c now k tags s d = (rw d, rw d)

active_of_run :
    (c : AutonomyConfig) (now : ℕ) (k : TaskKey) (tags : List String) (s : AutonomyStore)
    → AutonomyState.active (state_of k (run c (approve now k tags) s)) ≡ false
    → AutonomyState.active (state_of k (record_approval c now k tags s).1) ≡ false
unfolding run
active_of_run c now k tags s h = h

-- From an empty state, with a positive threshold and tags off the deny list, the approval that follows
-- `n` approvals in a row offers autonomy exactly if it is the threshold's; so one offer is made, and
-- the task type stays inactive however many approvals it collects.
pub record_approval_offers_once :
    (c : AutonomyConfig) (now : ℕ) (k : TaskKey) (tags : List String) (n : ℕ) (s : AutonomyStore)
    → is_denied_from_autonomy tags ≡ false
    → 0 < c.offer_threshold
    → state_of k s ≡ empty_state k
    → let s' = approve_times c now k tags n s in
      let ((offered, count), s'') = record_approval c now k tags s' in
      (count ≡ suc n)
      × (offered ≡ (suc n == c.offer_threshold))
      × (AutonomyState.active (state_of k s'') ≡ false)
record_approval_offers_once c now k tags n s d t e =
    let (_, active, _) = approve_times-count c now k tags (suc n) s d t e in
    let (count, offered) = record_approval-first c now k tags (approve_times c now k tags n s) d in
    let (n_is, off, pending) = approve_times-count c now k tags n s d t e in
    (
      ground (arith, count, n_is),
      ground (arith, offered, n_is, off, pending, t),
      active_of_run c now k tags _ active,
    )
