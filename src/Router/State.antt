-- ===== src/Router/State.antt =====
-- apps/router/src/router.ts: what the router keeps, and what it makes of a task for the gate and the queue;
-- the in-memory stores of durable/dedupStore.ts and durable/ledgerStore.ts. Notes are left out of the
-- ledger's entries.
use byok_business_autopilot.Base.{ℕ, Option, none, some, List, [], ◌∷◌, ◌++◌, nat_eq}
use byok_business_autopilot.Base.Int.{ℤ}
use byok_business_autopilot.Base.Dict.{Dict, insert}
use byok_business_autopilot.CostGate.Gate.{GateInput}
use byok_business_autopilot.CostGate.Service.{CostGate, Call, GateError}
use byok_business_autopilot.ApprovalQueue.Types.{
  EffectDescriptor, ProposedAction, RecommendationItem, QueueError,
}
use byok_business_autopilot.ApprovalQueue.Trail.{Queue}
use byok_business_autopilot.Router.Types.{
  RouterTask, RouterTaskInput, pending, PromptTier, ceo, role_lead, sub_agent, LedgerEntry,
  DedupKey, dedup_key_eq,
}
use Prim.Native.String.{String}

-- What the executor answers, and the message of one that throws.
pub data Outcome : Type 0 where
  threw : ℕ → Outcome
  done : (result : ℕ) → (cost : Option ℤ) → (missing_hands : List ℕ) → Outcome

pub data RouterError : Type 0 where
  gate_error : GateError → RouterError
  queue_error : QueueError → RouterError

pub record Router : Type 0 where
  pub dedup : Dict DedupKey RouterTask
  pub ledger : List LedgerEntry
  pub gate : CostGate
  pub approvals : Queue
  pub calls : List RouterTask

-- The ids, the draw and the clock of one call.
pub record Moment : Type 0 where
  pub task_id : ℕ
  pub gate_call : Call
  pub draw : ℕ

abbrev pub key_of : RouterTask → DedupKey
key_of t = record { tenant_id = t.tenant_id; dedup_key = t.dedup_key }

abbrev pub input_key : RouterTaskInput → DedupKey
input_key i = record { tenant_id = i.tenant_id; dedup_key = i.dedup_key }

-- `dedupStore.update`
abbrev pub update : RouterTask → Router → Router
update t r = record r { dedup = insert (key_of t) t r.dedup }

-- `ledger.append`
abbrev pub append : RouterTask → Router → Router
append t r = record r {
  ledger =
      r.ledger
      ++ (record {
        tenant_id = t.tenant_id;
        task_id = t.id;
        sub_agent_id = t.sub_agent_id;
        status = t.status;
      })
        ∷ [];
}

abbrev pub save : RouterTask → Router → Router
save t r = append t (update t r)

-- The task that the factory makes.
abbrev pub new_task : Moment → RouterTaskInput → List String → RouterTask
new_task m i tags = record {
  id = m.task_id;
  tenant_id = i.tenant_id;
  sub_agent_id = i.sub_agent_id;
  team_id = i.team_id;
  title = i.title;
  payload = i.payload;
  tags = tags;
  system_prompt = i.system_prompt;
  prompt_tier = i.prompt_tier;
  model = i.model;
  dedup_key = i.dedup_key;
  source_org_chart_task_id = i.source_org_chart_task_id;
  created_at = m.gate_call.now;
  updated_at = m.gate_call.now;
  status = pending;
  result = none;
  error = none;
  approval_action_id = none;
  missing_hands = none;
}

abbrev pub gate_input : RouterTask → RouterTaskInput → ℕ → GateInput
gate_input t i model = record {
  task_id = t.id;
  role_id = t.team_id;
  task_type = t.sub_agent_id;
  payload = t.payload;
  model = model;
  output_class = i.output_class;
  batchable = i.batchable;
}

abbrev pub hands : List ℕ → Option (List ℕ)
hands [] = none
hands (h ∷ hs) = some (h ∷ hs)

-- `task.missingHands || task.promptTier === "ceo" ? undefined : input.effect`
unfoldable pub effective_effect :
    PromptTier → Option (List ℕ) → Option EffectDescriptor → Option EffectDescriptor
effective_effect tier (some missing) effect = none
effective_effect ceo none effect = none
effective_effect role_lead none effect = effect
effective_effect sub_agent none effect = effect

abbrev pub recommendation_of : RouterTaskInput → RouterTask → ℕ → RecommendationItem
recommendation_of i t draft = record {
  id = t.id;
  tenant_id = t.tenant_id;
  agent_name = i.agent_name;
  role_title = t.team_id;
  summary = t.title;
  draft = draft;
  stakes_tags = t.tags;
  created_at = t.updated_at;
  smuggled = none;
}

abbrev pub action_of : RouterTaskInput → RouterTask → ℕ → ProposedAction
action_of i t draft = record {
  id = t.id;
  tenant_id = t.tenant_id;
  agent_name = i.agent_name;
  role_title = t.team_id;
  task_type = t.sub_agent_id;
  summary = t.title;
  draft = draft;
  stakes_tags = t.tags;
  effect = effective_effect t.prompt_tier t.missing_hands i.effect;
  created_at = t.updated_at;
}
