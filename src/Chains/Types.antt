-- ===== src/Chains/Types.antt =====
-- packages/chains/src/types.ts. Ids and texts are numbers, times are milliseconds.
use byok_business_autopilot.Base.{ℕ, Bool, Option, List, Eq}
use byok_business_autopilot.ApprovalQueue.Types.{EffectDescriptor}

pub data ChainStepStatus : Type 0 where
  pending in_progress completed failed skipped : ChainStepStatus

pub record ChainStep : Type 0 where
  pub id : ℕ
  pub agent_id : ℕ
  pub sub_agent_id : ℕ
  pub description : ℕ
  pub effect : Option EffectDescriptor
  pub requires_approval : Bool
  pub status : ChainStepStatus
  pub result_summary : Option ℕ
  pub approval_action_id : Option ℕ

pub data ChainStatus : Type 0 where
  running awaiting_approval completed aborted_stale expired failed : ChainStatus

pub ChainStatus-discrete : Discrete ChainStatus
ChainStatus-discrete = hlevel

instance abbrev pub chain_status_eq : Eq ChainStatus
chain_status_eq = record { dec = ChainStatus-discrete }

pub record Chain : Type 0 where
  pub id : ℕ
  pub tenant_id : ℕ
  pub trigger_summary : ℕ
  pub steps : List ChainStep
  pub current_step_index : ℕ
  pub status : ChainStatus
  pub created_at : ℕ
  pub updated_at : ℕ
  pub expires_at : ℕ

pub data ChainError : Type 0 where
  unknown_chain_step unknown_chain : ChainError
  chain_not_runnable : ChainStatus → ChainError
