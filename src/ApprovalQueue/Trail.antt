-- ===== src/ApprovalQueue/Trail.antt =====
-- packages/approval-queue/src/queue.ts, auditLog.ts and the EffectExecutor interface of effectExecutor.ts:
-- the state of the queue, its events and its audit trail. The executor answers, or rejects (none).
use byok_business_autopilot.Base.{ℕ, Bool, Option, List, [], ◌∷◌, ◌++◌, ◌==◌, if◌then◌else◌, nat_eq}
use byok_business_autopilot.ApprovalQueue.Types.{
  EffectKind, EffectDescriptor, ProposedAction, Verdict, approve, reject, modify,
}
use byok_business_autopilot.ApprovalQueue.Autonomy.{AutonomyStore}
use byok_business_autopilot.ApprovalQueue.Store.{Items}

-- `error` is the text.
pub data EffectResult : Type 0 where
  success : EffectResult
  failure : ℕ → EffectResult

abbrev pub EffectExecutor : Type 0
EffectExecutor = EffectDescriptor → ProposedAction → Option EffectResult

pub data VerdictKind : Type 0 where
  approve_kind reject_kind modify_kind : VerdictKind

abbrev pub kind_of : Verdict → VerdictKind
kind_of approve = approve_kind
kind_of (reject f) = reject_kind
kind_of (modify o) = modify_kind

pub data RevokeReason : Type 0 where
  manual spot_check_rejected : RevokeReason

pub data QueueEvent : Type 0 where
  action_queued action_auto_approved : (action_id tenant_id task_type at : ℕ) → QueueEvent
  agent_learning : (action_id tenant_id task_type feedback at : ℕ) → QueueEvent
  recommendation_guidance : (action_id tenant_id : ℕ) → VerdictKind → (at : ℕ) → QueueEvent
  autonomy_offered : (tenant_id task_type consecutive_approvals at : ℕ) → QueueEvent
  autonomy_revoked : (tenant_id task_type : ℕ) → RevokeReason → (at : ℕ) → QueueEvent

pub data AuditKind : Type 0 where
  queued auto_approved recommendation_submitted recommendation_resolved : AuditKind
  verdict_given : VerdictKind → AuditKind

-- `detail` is the feedback, or the kind of the effect.
pub data AuditDetail : Type 0 where
  feedback : ℕ → AuditDetail
  effect_kind : EffectKind → AuditDetail

pub record AuditEvent : Type 0 where
  pub at : ℕ
  pub action_id : ℕ
  pub tenant_id : ℕ
  pub task_type : Option ℕ
  pub kind : AuditKind
  pub detail : Option AuditDetail

pub record Queue : Type 0 where
  pub items : Items
  pub autonomy : AutonomyStore
  pub audit : List AuditEvent
  pub events : List QueueEvent
  pub executed : List (EffectDescriptor × ProposedAction)

pub record SubmitResult : Type 0 where
  pub queued : Bool
  pub effect_result : Option EffectResult

pub record ResolveResult : Type 0 where
  pub dispatched : Bool
  pub effect_result : Option EffectResult

abbrev pub emit : QueueEvent → Queue → Queue
emit e q = record q { events = q.events ++ (e ∷ []) }

abbrev pub append : AuditEvent → Queue → Queue
append e q = record q { audit = q.audit ++ (e ∷ []) }

-- `forAction` of the audit trail.
unfoldable pub for_action : ℕ → List AuditEvent → List AuditEvent
for_action action_id [] = []
for_action action_id (e ∷ es) =
    let rest = for_action action_id es in if e.action_id == action_id then e ∷ rest else rest
