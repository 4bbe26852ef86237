-- ===== src/Chains/Engine.antt =====
-- packages/chains/src/chainEngine.ts.
pub mod Invariant
pub mod Progress
pub mod Gate
use byok_business_autopilot.Base.{
  ℕ, ◌+◌, ◌*◌, Bool, true, false, not, ◌&&◌, ◌||◌, Option, none, some, List, [], ◌∷◌, map, Result,
  ok, err, ◌>>=◌, or_throw, nat_eq, ◌==◌, ltb, leb, if◌then◌else◌,
}
use byok_business_autopilot.Base.Lists.{length, get_elem?}
use byok_business_autopilot.Chains.Types.{
  Chain, ChainStep, ChainStatus, ChainStepStatus, ChainError, running, awaiting_approval, completed,
  aborted_stale, expired, failed, unknown_chain_step, chain_not_runnable, chain_status_eq,
}

abbrev pub is_terminal_status : ChainStatus → Bool
is_terminal_status completed = true
is_terminal_status aborted_stale = true
is_terminal_status expired = true
is_terminal_status failed = true
is_terminal_status running = false
is_terminal_status awaiting_approval = false

abbrev pub is_terminal : Chain → Bool
is_terminal chain = is_terminal_status chain.status

abbrev pub default_chain_expiry_ms : ℕ
default_chain_expiry_ms = 7 * 24 * 60 * 60 * 1000

unfoldable pub new_chain_expiry_at : ℕ → ℕ → ℕ
new_chain_expiry_at created_at expiry_ms = created_at + expiry_ms

unfoldable pub next_runnable_step : Chain → Option ChainStep
next_runnable_step chain =
    if is_terminal chain || chain.status == awaiting_approval
    then none
    else get_elem? chain.steps chain.current_step_index

unfoldable pub find : ℕ → List ChainStep → Option ChainStep
find step_id [] = none
find step_id (s ∷ ss) = if s.id == step_id then some s else find step_id ss

abbrev pub find_step : Chain → ℕ → Result ChainError ChainStep
find_step chain step_id = or_throw (find step_id chain.steps) unknown_chain_step

-- The only patches that the engine makes set these two fields.
unfoldable pub with_step : List ChainStep → ℕ → ChainStepStatus → Option ℕ → List ChainStep
with_step steps step_id status summary =
    map (λ s. if s.id == step_id then record s { status = status; result_summary = summary } else s)
      steps

pub record StepOutcome : Type 0 where
  pub step_id : ℕ
  pub now : ℕ
  pub success : Bool
  pub result_summary : Option ℕ

-- `chain.currentStepIndex >= chain.steps.length - 1`
abbrev pub is_last_step : Chain → Bool
is_last_step chain = leb (length chain.steps) (chain.current_step_index + 1)

abbrev pub after_success : Chain → ChainStep → StepOutcome → Chain
after_success chain step outcome =
    let patched : Chain = record chain {
      steps =
          with_step chain.steps outcome.step_id ChainStepStatus.completed outcome.result_summary;
      updated_at = outcome.now;
    } in
    if step.requires_approval
    then record patched { status = awaiting_approval }
    else if is_last_step chain
    then record patched { status = completed; current_step_index = length chain.steps }
    else record patched { current_step_index = chain.current_step_index + 1 }

abbrev pub after_failure : Chain → StepOutcome → Chain
after_failure chain outcome = record chain {
  steps = with_step chain.steps outcome.step_id ChainStepStatus.failed outcome.result_summary;
  status = failed;
  updated_at = outcome.now;
}

unfoldable pub advance_chain : Chain → StepOutcome → Result ChainError Chain
unfolding with_step
advance_chain chain outcome =
    if is_terminal chain then err (chain_not_runnable chain.status) else do
      step ← find_step chain outcome.step_id
      ok (if outcome.success then after_success chain step outcome else after_failure chain outcome)

pub data GateVerdict : Type 0 where
  approve reject : GateVerdict

pub record GateInput : Type 0 where
  pub verdict : GateVerdict
  pub now : ℕ
  pub condition_still_valid : Bool

abbrev pub after_verdict : Chain → GateVerdict → ℕ → Chain
after_verdict chain reject now = record chain { status = failed; updated_at = now }
after_verdict chain approve now =
    if is_last_step chain
    then record chain {
      status = completed;
      current_step_index = length chain.steps;
      updated_at = now;
    }
    else record chain {
      status = running;
      current_step_index = chain.current_step_index + 1;
      updated_at = now;
    }

unfoldable pub resolve_approval_gate : Chain → GateInput → Result ChainError Chain
resolve_approval_gate chain input =
    if not (chain.status == awaiting_approval)
    then err (chain_not_runnable chain.status)
    else if not input.condition_still_valid
    then ok (record chain { status = aborted_stale; updated_at = input.now })
    else ok (after_verdict chain input.verdict input.now)

unfoldable pub is_chain_expired : Chain → ℕ → Bool
is_chain_expired chain now = not (is_terminal chain) && ltb chain.expires_at now

unfoldable pub expire_chain : Chain → ℕ → Chain
unfolding is_chain_expired
expire_chain chain now =
    if not (is_chain_expired chain now)
    then chain
    else record chain { status = expired; updated_at = now }
