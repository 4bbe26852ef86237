-- ===== src/ApprovalQueue/Store/Postgres.antt =====
-- packages/approval-queue/src/durable/approvalStore.ts, PostgresDurableApprovalStore: the rows of
-- `approval_queue_items`. The audit events it writes in the same transaction are the queue's.
use byok_business_autopilot.Base.{
  ℕ, Bool, true, false, ◌&&◌, Option, none, some, List, [], ◌∷◌, ◌++◌, map, Result, ok, err, Eq,
  ◌==◌, if◌then◌else◌, nat_eq,
}
use byok_business_autopilot.Base.Dict.{Dict}
use byok_business_autopilot.Base.Rows.{select_row, update_rows}
use byok_business_autopilot.Base.Steps.{Step}
use byok_business_autopilot.ApprovalQueue.Types.{
  ProposedAction, RecommendationItem, Verdict, QueueError, unknown_action, unknown_recommendation,
}
use byok_business_autopilot.ApprovalQueue.Store.{
  Payload, proposed_action, recommendation, ItemStatus, pending, resolved, is_pending, StoredItem,
  ResolveOutcome,
}
pub mod Agreement
pub mod Calls

abbrev pub ItemRows : Type 0
ItemRows = Dict ℕ StoredItem

-- The columns of an INSERT; `status` is pending by default, and `spot_check` is false.
abbrev pub new_row : Payload → Bool → StoredItem
new_row payload spot_check = record {
  payload = payload;
  status = pending;
  spot_check = spot_check;
  verdict = none;
}

unfoldable pub insert_action_row : ProposedAction → Bool → ItemRows → ItemRows
insert_action_row action spot_check rows =
    rows ++ (action.id, new_row (proposed_action action) spot_check) ∷ []

unfoldable pub insert_recommendation_row : RecommendationItem → ItemRows → ItemRows
insert_recommendation_row item rows = rows ++ (item.id, new_row (recommendation item) false) ∷ []

-- tenant_id = $3 AND kind = 'proposed-action' AND status = 'pending'
abbrev pub is_open_action : ℕ → Payload → ItemStatus → Bool
is_open_action tenant_id (proposed_action a) status =
    (a.tenant_id == tenant_id) && is_pending status
is_open_action tenant_id (recommendation r) status = false

abbrev pub is_open_recommendation : ℕ → Payload → ItemStatus → Bool
is_open_recommendation tenant_id (proposed_action a) status = false
is_open_recommendation tenant_id (recommendation r) status =
    (r.tenant_id == tenant_id) && is_pending status

abbrev pub open_action : ℕ → StoredItem → Bool
open_action tenant_id row = is_open_action tenant_id row.payload row.status

abbrev pub open_recommendation : ℕ → StoredItem → Bool
open_recommendation tenant_id row = is_open_recommendation tenant_id row.payload row.status

abbrev pub outcome_of : Payload → Bool → Result QueueError ResolveOutcome
outcome_of (proposed_action a) mark = ok (record { action = a; was_spot_check = mark })
outcome_of (recommendation r) mark = err unknown_action

-- `RETURNING payload, spot_check`, or no row.
abbrev pub returned_outcome : Option StoredItem → Result QueueError ResolveOutcome
returned_outcome none = err unknown_action
returned_outcome (some row) = outcome_of row.payload row.spot_check

abbrev pub recommendation_in : Payload → Result QueueError RecommendationItem
recommendation_in (proposed_action a) = err unknown_recommendation
recommendation_in (recommendation r) = ok r

abbrev pub returned_recommendation : Option StoredItem → Result QueueError RecommendationItem
returned_recommendation none = err unknown_recommendation
returned_recommendation (some row) = recommendation_in row.payload

abbrev pub resolved_row : Verdict → StoredItem → StoredItem
resolved_row verdict row = record row { status = resolved; verdict = some verdict }

abbrev pub dismissed_row : StoredItem → StoredItem
dismissed_row row = record row { status = resolved }

-- One UPDATE … RETURNING: the row it takes is decided before any other statement sees it.
unfoldable pub resolve_row : ℕ → ℕ → Verdict → Step ItemRows QueueError ResolveOutcome
resolve_row tenant_id id verdict rows = (
  returned_outcome (select_row (open_action tenant_id) id rows),
  update_rows (open_action tenant_id) (resolved_row verdict) id rows,
)

unfoldable pub resolve_recommendation_row : ℕ → ℕ → Step ItemRows QueueError RecommendationItem
resolve_recommendation_row tenant_id id rows = (
  returned_recommendation (select_row (open_recommendation tenant_id) id rows),
  update_rows (open_recommendation tenant_id) dismissed_row id rows,
)
