-- ===== src/ApprovalQueue/Queue/Submit.antt =====
-- packages/approval-queue/src/queue.ts, submitProposedAction: what goes past human review.
use byok_business_autopilot.Base.{
  ℕ, ◌≤◌, ◌≡◌, ◌↔◌, refl, true, false, not, ◌&&◌, none, [], ◌∷◌, ◌++◌, nat_eq, arith, Bool-cases,
  inl, inr,
}
use byok_business_autopilot.ApprovalQueue.Types.{ProposedAction, is_denied_from_autonomy}
use byok_business_autopilot.ApprovalQueue.Autonomy.{
  AutonomyConfig, AutonomyState, state_of, is_active, should_spot_check,
}
use byok_business_autopilot.ApprovalQueue.Store.{store_action}
use byok_business_autopilot.ApprovalQueue.Queue.{task_key, carries_effect, submit_proposed_action}
use byok_business_autopilot.ApprovalQueue.Trail.{Queue, QueueEvent, AuditEvent, SubmitResult}

-- What lets an action past review: earned autonomy of its task type, no tag of the deny list, no effect,
-- and a draw that asks for no spot-check.
abbrev pub MayBypass : AutonomyConfig → ℕ → ProposedAction → Queue → Type 0
MayBypass config draw action q =
    (AutonomyState.active (state_of (task_key action) q.autonomy) ≡ true)
    × (is_denied_from_autonomy action.stakes_tags ≡ false)
    × (action.effect ≡ none)
    × (config.spot_check_rate ≤ draw)

-- An action is not queued exactly if its task type has earned autonomy, none of its tags is on the deny
-- list, it carries no effect, and the draw asks for no spot-check.
pub submit_proposed_action_bypass_iff :
    (config : AutonomyConfig) (now draw : ℕ) (action : ProposedAction) (q : Queue)
    → (SubmitResult.queued (submit_proposed_action config now draw action q).0 ≡ false)
      ↔ MayBypass config draw action q
unfolding submit_proposed_action is_active should_spot_check
submit_proposed_action_bypass_iff config now draw action q = ground arith

-- Submitting never calls the executor, and adds one audit entry and one event. A queued action is stored
-- pending and unresolved, marked for a spot-check exactly if its task type is trusted; an action that is
-- not queued leaves the stored items as they are.
pub submit_proposed_action_outcome :
    (config : AutonomyConfig) (now draw : ℕ) (action : ProposedAction) (q : Queue)
    → let (result, q') = submit_proposed_action config now draw action q in
      (q'.executed ≡ q.executed)
      × ((e : AuditEvent) × (q'.audit ≡ q.audit ++ (e ∷ [])) × (e.action_id ≡ action.id))
      × ((v : QueueEvent) × (q'.events ≡ q.events ++ (v ∷ [])))
      × (result.queued ≡ false → q'.items ≡ q.items)
      × (result.queued ≡ true
          → q'.items
            ≡ store_action action
                (AutonomyState.active (state_of (task_key action) q.autonomy)
                  && not (is_denied_from_autonomy action.stakes_tags))
                q.items)
unfolding submit_proposed_action is_active
submit_proposed_action_outcome config now draw action q =
    elim (Bool-cases (
      (AutonomyState.active (state_of (task_key action) q.autonomy)
        && not (is_denied_from_autonomy action.stakes_tags))
      && not (should_spot_check config draw)
      && not (carries_effect action))) [
        | inl e ↦ rw e (refl, (_, refl, refl), (_, refl), (λ h. refl), (λ h. cc))
        | inr e ↦ rw e (refl, (_, refl, refl), (_, refl), (λ h. cc), (λ h. refl))
      ]
