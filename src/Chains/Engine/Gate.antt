-- ===== src/Chains/Engine/Gate.antt =====
-- packages/chains/src/chainEngine.ts: when a chain passes an approval gate.
use byok_business_autopilot.Base.{
  ◌+◌, ◌<◌, ◌≡◌, ◌⊎◌, true, false, none, ok, nat_eq, arith, if◌then◌else◌,
}
use byok_business_autopilot.Base.Lists.{length}
use byok_business_autopilot.Chains.Types.{
  Chain, ChainStep, running, awaiting_approval, completed, aborted_stale, failed, chain_status_eq,
}
use byok_business_autopilot.Chains.Engine.{
  StepOutcome, GateInput, approve, reject, advance_chain, resolve_approval_gate, is_terminal,
  find_step, after_success, after_verdict, next_runnable_step,
}
use byok_business_autopilot.Chains.Engine.Invariant.{IsWellFormed}

-- A step that needs approval and has run stops the chain at its gate, where no step is runnable, and
-- keeps its place.
pub advance_chain_stops :
    (c : Chain) (o : StepOutcome) (step : ChainStep)
    → is_terminal c ≡ false
    → find_step c o.step_id ≡ ok step
    → step.requires_approval ≡ true
    → o.success ≡ true
    → (c' : Chain) × (advance_chain c o ≡ ok c')
      × (c'.status ≡ awaiting_approval)
      × (c'.current_step_index ≡ c.current_step_index)
      × (next_runnable_step c' ≡ none)
unfolding advance_chain next_runnable_step
advance_chain_stops c o step t found needs good = (
  after_success c step o,
  rw (t, found, good, advance_chain),
  ground arith,
  ground arith,
  ground arith,
)

-- The chain that a verdict leads to.
abbrev resolved : Chain → GateInput → Chain
resolved c i =
    if i.condition_still_valid
    then after_verdict c i.verdict i.now
    else record c { status = aborted_stale; updated_at = i.now }

-- A verdict on a chain that waits at its gate leads on where it approves and the condition still holds:
-- then the chain runs at the next step if there is one, and is completed past the last step if not. It
-- ends where it is as stale if the condition no longer holds, whatever the verdict, and as failed if the
-- condition holds and the verdict rejects. The chain points at one of its steps.
pub resolve_approval_gate_lem :
    (c : Chain) (i : GateInput)
    → c.status ≡ awaiting_approval
    → IsWellFormed c
    → (c' : Chain) × (resolve_approval_gate c i ≡ ok c')
      × (c'.steps ≡ c.steps)
      × (((i.verdict ≡ approve)
            × (i.condition_still_valid ≡ true)
            × (c'.current_step_index ≡ c.current_step_index + 1)
            × (((c.current_step_index + 1 < length c.steps) × (c'.status ≡ running))
                ⊎ ((c.current_step_index + 1 ≡ length c.steps) × (c'.status ≡ completed))))
          ⊎ ((c'.current_step_index ≡ c.current_step_index)
              × (((i.condition_still_valid ≡ false) × (c'.status ≡ aborted_stale))
                  ⊎ ((i.verdict ≡ reject)
                      × (i.condition_still_valid ≡ true)
                      × (c'.status ≡ failed)))))
unfolding resolve_approval_gate
resolve_approval_gate_lem c i e h = (resolved c i, ground arith, ground arith, ground arith)

-- The gate can be passed without a verdict: `advanceChain` on a chain that waits at its gate, told of
-- a step that needs no approval, moves on to the next step, and the chain is still said to wait.
pub advance_chain_passes_gate :
    (c : Chain) (o : StepOutcome) (step : ChainStep)
    → c.status ≡ awaiting_approval
    → find_step c o.step_id ≡ ok step
    → step.requires_approval ≡ false
    → o.success ≡ true
    → c.current_step_index + 1 < length c.steps
    → (c' : Chain) × (advance_chain c o ≡ ok c')
      × (c'.current_step_index ≡ c.current_step_index + 1)
      × (c'.status ≡ awaiting_approval)
unfolding advance_chain
advance_chain_passes_gate c o step e found free good more =
    let t : is_terminal c ≡ false = ground arith in
    (after_success c step o, rw (t, found, good, advance_chain), ground arith, ground arith)
