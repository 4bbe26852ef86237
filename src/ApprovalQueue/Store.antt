-- ===== src/ApprovalQueue/Store.antt =====
-- packages/approval-queue/src/durable/approvalStore.ts, InMemoryDurableApprovalStore. An item is a map's
-- entry under its id; the payload says its kind. The SQL store is in Store/Postgres.
use byok_business_autopilot.Base.{
  ℕ, Bool, true, false, ◌&&◌, Option, none, some, List, [], ◌∷◌, ◌++◌, map, Result, ok, err, Eq,
  ◌==◌, if◌then◌else◌, nat_eq, guard, or_throw, ◌>>=◌, ◌>>◌,
}
use byok_business_autopilot.Base.Dict.{Dict, lookup, insert, values}
use byok_business_autopilot.ApprovalQueue.Types.{
  ProposedAction, RecommendationItem, Verdict, QueueError, unknown_action, unknown_recommendation,
}
pub mod Laws
pub mod Postgres

pub data Payload : Type 0 where
  proposed_action : ProposedAction → Payload
  recommendation : RecommendationItem → Payload

pub data ItemStatus : Type 0 where
  pending resolved : ItemStatus

abbrev pub is_pending : ItemStatus → Bool
is_pending pending = true
is_pending resolved = false

pub record StoredItem : Type 0 where
  pub payload : Payload
  pub status : ItemStatus
  pub spot_check : Bool
  pub verdict : Option Verdict

pub record ResolveOutcome : Type 0 where
  pub action : ProposedAction
  pub was_spot_check : Bool

abbrev pub Items : Type 0
Items = Dict ℕ StoredItem

unfoldable pub store_action : ProposedAction → Bool → Items → Items
store_action action spot_check items =
    insert action.id
      (record {
        payload = proposed_action action;
        status = pending;
        spot_check = spot_check;
        verdict = none;
      })
      items

unfoldable pub store_recommendation : RecommendationItem → Items → Items
store_recommendation item items =
    insert item.id
      (record {
        payload = recommendation item;
        status = pending;
        spot_check = false;
        verdict = none;
      })
      items

-- The action of a pending item that is one, and is the tenant's.
abbrev pub pending_action_of : ℕ → StoredItem → Option ProposedAction
pending_action_of tenant_id item = elim item.payload [
  | proposed_action a ↦
      if is_pending item.status && (a.tenant_id == tenant_id) then some a else none
  | recommendation r ↦ none
]

abbrev pub pending_recommendation_of : ℕ → StoredItem → Option RecommendationItem
pending_recommendation_of tenant_id item = elim item.payload [
  | proposed_action a ↦ none
  | recommendation r ↦ if is_pending item.status && (r.tenant_id == tenant_id) then some r else none
]

unfoldable pub resolve_item : ℕ → ℕ → Verdict → Items → Result QueueError (ResolveOutcome × Items)
resolve_item tenant_id id verdict items = do
  item ← or_throw (lookup id items) unknown_action
  action ← or_throw (pending_action_of tenant_id item) unknown_action
  ok (
    record { action = action; was_spot_check = item.spot_check },
    insert id (record item { status = resolved; verdict = some verdict }) items,
  )

unfoldable pub resolve_recommendation_item :
    ℕ → ℕ → Items → Result QueueError (RecommendationItem × Items)
resolve_recommendation_item tenant_id id items = do
  item ← or_throw (lookup id items) unknown_recommendation
  r ← or_throw (pending_recommendation_of tenant_id item) unknown_recommendation
  ok (r, insert id (record item { status = resolved }) items)

-- The `.filter(…).map(…)` of the two listings.
unfoldable pub pending_actions : ℕ → Items → List ProposedAction
pending_actions tenant_id [] = []
pending_actions tenant_id ((id, item) ∷ items) =
    let rest = pending_actions tenant_id items in
    elim (pending_action_of tenant_id item) [ none ↦ rest | some a ↦ a ∷ rest ]

unfoldable pub pending_recommendations : ℕ → Items → List RecommendationItem
pending_recommendations tenant_id [] = []
pending_recommendations tenant_id ((id, item) ∷ items) =
    let rest = pending_recommendations tenant_id items in
    elim (pending_recommendation_of tenant_id item) [ none ↦ rest | some r ↦ r ∷ rest ]
