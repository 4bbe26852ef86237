-- ===== src/ApprovalQueue/Autonomy/Trust.antt =====
-- packages/approval-queue/src/durable/autonomyStore.ts: how a task type earns autonomy.
use byok_business_autopilot.Base.{
  ℕ, ◌+◌, ◌≤◌, ◌≡◌, refl, sym, subst, ◌∙◌, ap, Bool, not, ◌&&◌, true, false, List, [], ◌∷◌, ◌==◌,
  if◌then◌else◌, nat_eq, arith, Bool-cases, inl, inr,
}
use byok_business_autopilot.Base.Dict.{lookup-nil}
use byok_business_autopilot.ApprovalQueue.Types.{is_denied_from_autonomy}
use byok_business_autopilot.ApprovalQueue.Autonomy.{
  AutonomyConfig, AutonomyState, TaskKey, task_key_eq, is_set, state_of,
}
use byok_business_autopilot.ApprovalQueue.Autonomy.Calls.{
  Op, read, reject, spot_check_reject, accept, revoke_type, revoke_every, approve, concerns, run,
  runs, next, state_of-run,
}

-- Whether a call takes away what a task type has earned so far: a rejection of it always does, a revocation
-- if the task type was active.
abbrev pub is_reset : Op → TaskKey → Bool → Bool
is_reset (reject j) k was_active = j == k
is_reset (spot_check_reject j) k was_active = j == k
is_reset (revoke_type j) k was_active = (j == k) && was_active
is_reset (revoke_every tenant_id) k was_active = (k.tenant_id == tenant_id) && was_active
is_reset (read j) k was_active = false
is_reset (accept j) k was_active = false
is_reset (approve now j tags) k was_active = false

-- Whether a call is an approval of the task type that counts: no tag is on the deny list.
abbrev pub is_counted : Op → TaskKey → Bool
is_counted (approve now j tags) k = (j == k) && not (is_denied_from_autonomy tags)
is_counted (reject j) k = false
is_counted (spot_check_reject j) k = false
is_counted (revoke_type j) k = false
is_counted (revoke_every tenant_id) k = false
is_counted (read j) k = false
is_counted (accept j) k = false

-- The approvals of a task type in a row, read off the calls: those since the last reset.
unfoldable pub in_a_row : AutonomyConfig → TaskKey → List Op → ℕ
in_a_row c k [] = 0
in_a_row c k (op ∷ ops) =
    let before = in_a_row c k ops in
    if is_reset op k (AutonomyState.active (state_of k (runs c ops)))
    then 0
    else if is_counted op k
    then before + 1
    else before

-- The count is that of the approvals in a row, a pending offer stands on enough of them, and the state
-- knows its tenant.
pub record IsEarned (c : AutonomyConfig) (k : TaskKey) (a : AutonomyState) (n : ℕ) : Type 0 where
  pub counts : a.consecutive_approvals ≡ n
  pub stands : is_set a.offered_at ≡ true → c.offer_threshold ≤ a.consecutive_approvals
  pub own : a.tenant_id ≡ k.tenant_id

abbrev after : Op → TaskKey → AutonomyState → ℕ → ℕ
after op k a n = if is_reset op k a.active then 0 else if is_counted op k then n + 1 else n

next-IsEarned :
    (c : AutonomyConfig) (op : Op) (k : TaskKey) (a : AutonomyState) (n : ℕ)
    → concerns op k ≡ true
    → IsEarned c k a n
    → IsEarned c k (next c op a) (after op k a n)
unfolding next
next-IsEarned c (read j) k a n e h = ground (arith, e, h)
next-IsEarned c (reject j) k a n e h = ground (arith, e, h)
next-IsEarned c (spot_check_reject j) k a n e h = ground (arith, e, h)
next-IsEarned c (accept j) k a n e h = ground (arith, e, h)
next-IsEarned c (revoke_type j) k a n e h = ground (arith, e, h)
next-IsEarned c (revoke_every t) k a n e h = ground (arith, e, h)
next-IsEarned c (approve now j tags) k a n e h = ground (arith, e, h)

unconcerned :
    (op : Op) (k : TaskKey) (a : AutonomyState) (n : ℕ) → concerns op k ≡ false → after op k a n ≡ n
unconcerned (read j) k a n e = ground (arith, e)
unconcerned (reject j) k a n e = ground (arith, e)
unconcerned (spot_check_reject j) k a n e = ground (arith, e)
unconcerned (accept j) k a n e = ground (arith, e)
unconcerned (revoke_type j) k a n e = ground (arith, e)
unconcerned (revoke_every t) k a n e = ground (arith, e)
unconcerned (approve now j tags) k a n e = ground (arith, e)

-- Whatever calls were made, each count is that of the approvals in a row that the calls show.
pub runs-IsEarned :
    (c : AutonomyConfig) (k : TaskKey) (ops : List Op)
    → IsEarned c k (state_of k (runs c ops)) (in_a_row c k ops)
unfolding runs in_a_row state_of
runs-IsEarned c k [] = ground (arith, lookup-nil {V = AutonomyState} k)
runs-IsEarned c k (op ∷ ops) =
    let a = state_of k (runs c ops) in
    let n = in_a_row c k ops in
    elim (Bool-cases (concerns op k)) [
      | inl e ↦
          subst (λ x. IsEarned c k x (after op k a n))
            (sym (state_of-run c op k (runs c ops) ∙ rw e refl))
            (next-IsEarned c op k a n e (runs-IsEarned c k ops))
      | inr e ↦
          subst (λ x. IsEarned c k x (after op k a n))
            (sym (state_of-run c op k (runs c ops) ∙ rw e refl))
            (subst (IsEarned c k a) (sym (unconcerned op k a n e)) (runs-IsEarned c k ops))
    ]

next-activates :
    (c : AutonomyConfig) (op : Op) (k : TaskKey) (a : AutonomyState)
    → concerns op k ≡ true
    → a.active ≡ false
    → AutonomyState.active (next c op a) ≡ true
    → (op ≡ accept k) × (is_set a.offered_at ≡ true)
unfolding next
next-activates c (read j) k a e off on = ground (arith, off, on)
next-activates c (reject j) k a e off on = ground (arith, off, on)
next-activates c (spot_check_reject j) k a e off on = ground (arith, off, on)
next-activates c (accept j) k a e off on = (ap accept (ground (arith, e)), ground (arith, off, on))
next-activates c (revoke_type j) k a e off on = ground (arith, off, on)
next-activates c (revoke_every t) k a e off on = ground (arith, off, on)
next-activates c (approve now j tags) k a e off on = ground (arith, off, on)

-- Whatever calls were made of a store that started empty, a call that makes a task type active is the
-- acceptance of the offer for exactly that task type, and among the calls before it there are at least
-- `offer_threshold` approvals of the task type in a row: with no tag on the deny list, and since its last
-- rejection, its last rejected spot-check and the last revocation that took its autonomy away.
pub activated_earned :
    (c : AutonomyConfig) (op : Op) (k : TaskKey) (ops : List Op)
    → AutonomyState.active (state_of k (runs c ops)) ≡ false
    → AutonomyState.active (state_of k (run c op (runs c ops))) ≡ true
    → (op ≡ accept k) × (c.offer_threshold ≤ in_a_row c k ops)
activated_earned c op k ops off on =
    let s = runs c ops in
    elim (Bool-cases (concerns op k)) [
      | inl e ↦
          let (o, h) =
            next-activates c op k (state_of k s) e off
              (ground (arith, state_of-run c op k s, e, on)) in
          let earned = runs-IsEarned c k ops in (o, ground (arith, earned.stands h, earned.counts))
      | inr e ↦ ground (arith, state_of-run c op k s, e, off, on)
    ]
