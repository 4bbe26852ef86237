-- ===== src/Router/Types.antt =====
-- apps/router/src/types.ts, and the entries of durable/ledgerStore.ts.
use byok_business_autopilot.Base.{ℕ, Bool, Option, List, Eq, ℕ_discrete}
use byok_business_autopilot.CostGate.Estimator.{Text, OutputClass}
use byok_business_autopilot.ApprovalQueue.Types.{EffectDescriptor}
use Prim.Native.String.{String}

pub data RouterTaskStatus : Type 0 where
  pending queued in_progress awaiting_review completed failed skipped : RouterTaskStatus

pub data PromptTier : Type 0 where
  ceo role_lead sub_agent : PromptTier

pub record RouterTask : Type 0 where
  pub id : ℕ
  pub tenant_id : ℕ
  pub sub_agent_id : ℕ
  pub team_id : ℕ
  pub title : ℕ
  pub payload : Text
  pub tags : List String
  pub system_prompt : Option ℕ
  pub prompt_tier : PromptTier
  pub model : Option ℕ
  pub dedup_key : ℕ
  pub source_org_chart_task_id : Option ℕ
  pub created_at : ℕ
  pub updated_at : ℕ
  pub status : RouterTaskStatus
  pub result : Option ℕ
  pub error : Option ℕ
  pub approval_action_id : Option ℕ
  pub missing_hands : Option (List ℕ)

-- The defaults of the optional fields are filled in: the tenant, the output class, `batchable`, the tier
-- and the agent's name.
pub record RouterTaskInput : Type 0 where
  pub sub_agent_id : ℕ
  pub team_id : ℕ
  pub title : ℕ
  pub payload : Text
  pub dedup_key : ℕ
  pub source_org_chart_task_id : Option ℕ
  pub model : Option ℕ
  pub output_class : OutputClass
  pub batchable : Bool
  pub tenant_id : ℕ
  pub agent_name : ℕ
  pub effect : Option EffectDescriptor
  pub system_prompt : Option ℕ
  pub prompt_tier : PromptTier

pub record LedgerEntry : Type 0 where
  pub tenant_id : ℕ
  pub task_id : ℕ
  pub sub_agent_id : ℕ
  pub status : RouterTaskStatus

-- `${tenantId}|${dedupKey}`; a tenant's id is a UUID, so the text keeps both parts.
pub record DedupKey : Type 0 where
  pub tenant_id : ℕ
  pub dedup_key : ℕ

pub DedupKey-discrete : Discrete DedupKey
DedupKey-discrete = hlevel ℕ_discrete

instance abbrev pub dedup_key_eq : Eq DedupKey
dedup_key_eq = record { dec = DedupKey-discrete }
