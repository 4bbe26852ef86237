-- ===== src/ApprovalQueue/Store/Postgres/Calls.antt =====
-- packages/approval-queue/src/durable/approvalStore.ts: any calls on the two stores, one after the other.
use byok_business_autopilot.Base.{
  ℕ, ◌≡◌, refl, sym, ap, ◌∙◌, Bool, none, some, List, [], ◌∷◌, ◌++◌, Result, ◌==◌, if◌then◌else◌,
  nat_eq, arith,
}
use byok_business_autopilot.Base.Dict.{lookup, lookup-insert}
use byok_business_autopilot.Base.Rows.{Unique}
use byok_business_autopilot.ApprovalQueue.Types.{ProposedAction, Verdict, QueueError}
use byok_business_autopilot.ApprovalQueue.Store.{
  proposed_action, StoredItem, ResolveOutcome, Items, resolve_item, store_action,
}
use byok_business_autopilot.ApprovalQueue.Store.Postgres.{
  ItemRows, new_row, insert_action_row, resolve_row,
}
use byok_business_autopilot.ApprovalQueue.Store.Postgres.Agreement.{
  ItemsAgree, answer_of, items_of, lookup-append, resolve_row-Agrees,
}

Unique-append :
    (id : ℕ) (item : StoredItem) (rows : ItemRows)
    → lookup id rows ≡ none
    → Unique rows
    → Unique (rows ++ (id, item) ∷ [])
unfolding lookup
Unique-append id item [] h u = (refl, tt)
Unique-append id item ((j, first) ∷ rows) h u = (
  ground (arith, h, u.0, λ (r : lookup id rows ≡ none). lookup-append id j item rows r),
  Unique-append id item rows (ground (arith, h)) u.1,
)

insert_action_row-Agrees :
    (a : ProposedAction) (mark : Bool) (rows : ItemRows) (items : Items)
    → lookup a.id items ≡ none
    → ItemsAgree rows items
    → ItemsAgree (insert_action_row a mark rows) (store_action a mark items)
unfolding insert_action_row store_action
insert_action_row-Agrees a mark rows items free agree =
    let row = new_row (proposed_action a) mark in
    let gone = agree.same a.id ∙ free in
    record {
      same = λ j.
          lookup-append a.id j row rows gone
          ∙ ap (λ o. if a.id == j then some row else o) (agree.same j)
          ∙ sym (lookup-insert a.id j row items);
      unique = Unique-append a.id row rows gone agree.unique;
    }

pub data StoreCall : Type 0 where
  submit_call : ProposedAction → Bool → StoreCall
  resolve_call : (tenant_id id : ℕ) → Verdict → StoreCall

abbrev Answers : Type 0
Answers = List (Result QueueError ResolveOutcome)

-- What the resolutions among the calls return, on either store.
unfoldable pub answers_in_rows : List StoreCall → ItemRows → Answers
answers_in_rows [] rows = []
answers_in_rows (submit_call a mark ∷ calls) rows =
    answers_in_rows calls (insert_action_row a mark rows)
answers_in_rows (resolve_call t id v ∷ calls) rows =
    (resolve_row t id v rows).0 ∷ answers_in_rows calls (resolve_row t id v rows).1

unfoldable pub answers_in_memory : List StoreCall → Items → Answers
answers_in_memory [] items = []
answers_in_memory (submit_call a mark ∷ calls) items =
    answers_in_memory calls (store_action a mark items)
answers_in_memory (resolve_call t id v ∷ calls) items =
    answer_of (resolve_item t id v items)
    ∷ answers_in_memory calls (items_of items (resolve_item t id v items))

-- Each submitted action has an id of its own, as UUIDs are.
unfoldable pub FreshIds : List StoreCall → Items → Type 0
FreshIds [] items = Unit
FreshIds (submit_call a mark ∷ calls) items =
    (lookup a.id items ≡ none) × FreshIds calls (store_action a mark items)
FreshIds (resolve_call t id v ∷ calls) items =
    FreshIds calls (items_of items (resolve_item t id v items))

calls-Agree :
    (calls : List StoreCall) (rows : ItemRows) (items : Items)
    → ItemsAgree rows items
    → FreshIds calls items
    → answers_in_rows calls rows ≡ answers_in_memory calls items
unfolding answers_in_rows answers_in_memory FreshIds
calls-Agree [] rows items agree fresh = refl
calls-Agree (submit_call a mark ∷ calls) rows items agree fresh =
    calls-Agree calls (insert_action_row a mark rows) (store_action a mark items)
      (insert_action_row-Agrees a mark rows items fresh.0 agree) fresh.1
calls-Agree (resolve_call t id v ∷ calls) rows items agree fresh =
    let (answer, next) = resolve_row-Agrees t id v rows items agree in
    ap (λ r. r ∷ answers_in_rows calls (resolve_row t id v rows).1) answer
    ∙ ap (λ rest. answer_of (resolve_item t id v items) ∷ rest)
        (calls-Agree calls (resolve_row t id v rows).1 (items_of items (resolve_item t id v items))
          next fresh)

-- Any submissions of actions and any resolutions, by any tenants and in any order, are answered alike by
-- the Postgres store and the one in memory: the same action and mark, or the same refusal. Each
-- submitted action has an id of its own.
pub answers_in_rows-Agree :
    (calls : List StoreCall)
    → FreshIds calls []
    → answers_in_rows calls [] ≡ answers_in_memory calls []
answers_in_rows-Agree calls fresh =
    calls-Agree calls [] [] (record { same = λ j. refl; unique = tt }) fresh
