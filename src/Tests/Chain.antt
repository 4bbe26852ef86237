-- ===== src/Tests/Chain.antt =====
-- packages/chains: runs of the engine and the store.
use byok_business_autopilot.Base.{
  ℕ, ◌≤◌, ◌<◌, ◌≡◌, ◌⊎◌, refl, true, false, none, some, List, [], ◌∷◌, ok, nat_eq, arith,
}
use byok_business_autopilot.Chains.Types.{
  Chain, ChainStep, ChainStatus, ChainStepStatus, running, awaiting_approval, completed, expired,
  aborted_stale, failed, chain_status_eq,
}
use byok_business_autopilot.Chains.Engine.{
  StepOutcome, GateInput, advance_chain, resolve_approval_gate, find_step, after_success,
  next_runnable_step,
}
use byok_business_autopilot.Chains.Engine.Invariant.{IsWellFormed}
use byok_business_autopilot.Chains.Engine.{approve, reject}
use byok_business_autopilot.Base.Lists.{length}
use byok_business_autopilot.Base.{ℕ_discrete}
use byok_business_autopilot.Base.Dict.{lookup-nil}
use byok_business_autopilot.Chains.Engine.{find}
use byok_business_autopilot.Chains.Engine.Invariant.{Reach-IsWellFormed, here, next, advances}
use byok_business_autopilot.Chains.Engine.Progress.{runs, start, more, Driven-terminates}
use byok_business_autopilot.Chains.Engine.Gate.{
  resolve_approval_gate_lem, advance_chain_passes_gate,
}
use byok_business_autopilot.Chains.Store.{ChainStore}
use byok_business_autopilot.Chains.Store.Laws.{IsFresh}

abbrev plain : ChainStep
plain = record {
  id = 1;
  agent_id = 0;
  sub_agent_id = 0;
  description = 0;
  effect = none;
  requires_approval = false;
  status = ChainStepStatus.pending;
  result_summary = none;
  approval_action_id = none;
}

abbrev gated : ChainStep
gated = record plain { id = 2; requires_approval = true }

abbrev chain_of : List ChainStep → ChainStatus → Chain
chain_of steps status = record {
  id = 1;
  tenant_id = 1;
  trigger_summary = 0;
  steps = steps;
  current_step_index = 0;
  status = status;
  created_at = 0;
  updated_at = 0;
  expires_at = 100;
}

abbrev chain : Chain
chain = chain_of (plain ∷ gated ∷ []) running

abbrev gate_first : Chain
gate_first = chain_of (gated ∷ plain ∷ []) running

abbrev waiting : Chain
waiting = chain_of (gated ∷ plain ∷ []) awaiting_approval

abbrev ended : Chain
ended = chain_of (plain ∷ []) expired

abbrev outcome : ℕ → StepOutcome
outcome id = record { step_id = id; now = 5; success = true; result_summary = none }

abbrev yes_input : GateInput
yes_input = record { verdict = approve; now = 6; condition_still_valid = true }

abbrev advanced : Chain
advanced = after_success chain plain (outcome 1)

advances_here : advance_chain chain (outcome 1) ≡ ok advanced
unfolding advance_chain find ℕ_discrete
advances_here = refl

runnable_here : next_runnable_step chain ≡ some plain
unfolding next_runnable_step
runnable_here = ground arith

chain-IsWellFormed : IsWellFormed chain
chain-IsWellFormed = ground arith

waiting-IsWellFormed : IsWellFormed waiting
waiting-IsWellFormed = ground arith

Driven-terminates_example : 1 ≤ 5
Driven-terminates_example =
    Driven-terminates chain advanced 1
      (more start (runs plain (outcome 1) runnable_here refl advances_here)) chain-IsWellFormed

Reach-IsWellFormed_example : IsWellFormed advanced
Reach-IsWellFormed_example =
    Reach-IsWellFormed chain advanced (next here (advances (outcome 1) advances_here))
      chain-IsWellFormed

resolve_approval_gate_lem_example :
    (c' : Chain) × (resolve_approval_gate waiting yes_input ≡ ok c')
    × (c'.steps ≡ waiting.steps)
    × (((approve ≡ approve)
          × (true ≡ true)
          × (c'.current_step_index ≡ 1)
          × (((1 < length waiting.steps) × (c'.status ≡ running))
              ⊎ ((1 ≡ length waiting.steps) × (c'.status ≡ completed))))
        ⊎ ((c'.current_step_index ≡ 0)
            × (((true ≡ false) × (c'.status ≡ aborted_stale))
                ⊎ ((approve ≡ reject) × (true ≡ true) × (c'.status ≡ failed)))))
resolve_approval_gate_lem_example =
    resolve_approval_gate_lem waiting yes_input refl waiting-IsWellFormed

found_gated : find_step gate_first 2 ≡ ok gated
unfolding find ℕ_discrete
found_gated = refl

found_plain : find_step waiting 1 ≡ ok plain
unfolding find ℕ_discrete
found_plain = refl

advance_chain_passes_gate_example :
    (c' : Chain) × (advance_chain waiting (outcome 1) ≡ ok c')
    × (c'.current_step_index ≡ 1)
    × (c'.status ≡ awaiting_approval)
advance_chain_passes_gate_example =
    advance_chain_passes_gate waiting (outcome 1) plain refl found_plain refl refl (omega arith)

abbrev no_chains : ChainStore
no_chains = record { chains = []; next_id = 1 }

no_chains-IsFresh : IsFresh no_chains
no_chains-IsFresh id c e = ground (arith, e, lookup-nil {V = Chain} id)

abbrev one_chain : ChainStore
one_chain = record { chains = (1, waiting) ∷ []; next_id = 2 }
