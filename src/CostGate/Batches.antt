-- ===== src/CostGate/Batches.antt =====
-- packages/cost-gate/src/exhaustion.ts and durable/batchStore.ts: batches that were paused and can be resumed.
-- Ids, which are UUIDs, and the texts that are only handed on are numbers.
use byok_business_autopilot.Base.{
  ℕ, ◌≡◌, Bool, true, false, ◌&&◌, Option, none, some, List, [], ◌∷◌, ◌++◌, Result, ok, err, Eq,
  ◌==◌, nat_eq, if◌then◌else◌,
}
use byok_business_autopilot.Base.Dict.{Dict, lookup, contains, erase, insert, values}
use byok_business_autopilot.Base.Steps.{Step}
pub mod Tenants

pub data ExhaustionReason : Type 0 where
  provider_billing_failure ceiling_exhausted : ExhaustionReason

pub record SerializedTask : Type 0 where
  pub id : ℕ
  pub rest : ℕ

pub record PauseInput : Type 0 where
  pub tenant_id : ℕ
  pub reason : ExhaustionReason
  pub completed_task_ids : List ℕ
  pub remaining_tasks : List SerializedTask
  pub context : Option ℕ

-- With the tenant, as the durable stores keep it.
pub record PausedBatchState : Type 0 where
  pub id : ℕ
  pub tenant_id : ℕ
  pub paused_at : ℕ
  pub reason : ExhaustionReason
  pub completed_task_ids : List ℕ
  pub remaining_tasks : List SerializedTask
  pub context : Option ℕ

pub data BatchError : Type 0 where
  unknown_paused_batch : BatchError

abbrev pub Batches : Type 0
Batches = Dict ℕ PausedBatchState

abbrev pub batch_of : PauseInput → ℕ → ℕ → PausedBatchState
batch_of input id now = record {
  id = id;
  tenant_id = input.tenant_id;
  paused_at = now;
  reason = input.reason;
  completed_task_ids = input.completed_task_ids;
  remaining_tasks = input.remaining_tasks;
  context = input.context;
}

-- `id` and `now` are what `randomUUID` and the clock give.
unfoldable pub pause_batch : PauseInput → (id now : ℕ) → Batches → PausedBatchState × Batches
pause_batch input id now batches =
    (batch_of input id now, insert id (batch_of input id now) batches)

abbrev pub owned_batch : ℕ → Option PausedBatchState → Result BatchError PausedBatchState
owned_batch tenant_id none = err unknown_paused_batch
owned_batch tenant_id (some state) =
    if state.tenant_id == tenant_id then ok state else err unknown_paused_batch

-- `getInternal`
unfoldable pub get_batch : ℕ → ℕ → Batches → Result BatchError PausedBatchState
get_batch tenant_id id batches = owned_batch tenant_id (lookup id batches)

abbrev pub resume_batch : ℕ → ℕ → Batches → Result BatchError PausedBatchState
resume_batch = get_batch

abbrev pub erase_found :
    Result BatchError PausedBatchState → ℕ → Batches → Result BatchError (Unit {0}) × Batches
erase_found (ok state) id batches = (ok tt, erase id batches)
erase_found (err thrown) id batches = (err thrown, batches)

unfoldable pub complete_batch : ℕ → ℕ → Step Batches BatchError (Unit {0})
complete_batch tenant_id id batches = erase_found (get_batch tenant_id id batches) id batches

unfoldable pub list_batches : ℕ → Batches → List PausedBatchState
list_batches tenant_id [] = []
list_batches tenant_id ((id, state) ∷ batches) =
    let rest = list_batches tenant_id batches in
    if state.tenant_id == tenant_id then state ∷ rest else rest

-- BatchExhaustionManager, which has no tenants.
abbrev pub known_batch : Option PausedBatchState → Result BatchError PausedBatchState
known_batch none = err unknown_paused_batch
known_batch (some state) = ok state

unfoldable pub get_local : ℕ → Batches → Result BatchError PausedBatchState
get_local id batches = known_batch (lookup id batches)

unfoldable pub complete_local : ℕ → Step Batches BatchError (Unit {0})
complete_local id batches = erase_found (get_local id batches) id batches

pub data FailureKind : Type 0 where
  transient budget_exhaustion provider_billing : FailureKind

unfoldable pub is_auto_retryable : FailureKind → Bool
is_auto_retryable transient = true
is_auto_retryable budget_exhaustion = false
is_auto_retryable provider_billing = false

-- PostgresDurableBatchStore: the rows of `paused_batches` in the order they were inserted, which is that
-- of `paused_at`; the id is the primary key.
unfoldable pub insert_paused_row :
    PauseInput → (id now : ℕ) → List PausedBatchState → List PausedBatchState
insert_paused_row input id now rows = rows ++ batch_of input id now ∷ []

-- WHERE id = $1 AND tenant_id = $2
abbrev pub is_row : ℕ → ℕ → PausedBatchState → Bool
is_row tenant_id id row = (row.id == id) && (row.tenant_id == tenant_id)

unfoldable pub select_paused : ℕ → ℕ → List PausedBatchState → Result BatchError PausedBatchState
select_paused tenant_id id [] = err unknown_paused_batch
select_paused tenant_id id (row ∷ rows) =
    if is_row tenant_id id row then ok row else select_paused tenant_id id rows

-- The rows left, and whether any was deleted.
unfoldable pub delete_paused : ℕ → ℕ → List PausedBatchState → List PausedBatchState × Bool
delete_paused tenant_id id [] = ([], false)
delete_paused tenant_id id (row ∷ rows) =
    let rest = delete_paused tenant_id id rows in
    if is_row tenant_id id row then (rest.0, true) else (row ∷ rest.0, rest.1)

abbrev pub complete_answer :
    List PausedBatchState × Bool → Result BatchError (Unit {0}) × List PausedBatchState
complete_answer (rows, true) = (ok tt, rows)
complete_answer (rows, false) = (err unknown_paused_batch, rows)

unfoldable pub complete_paused : ℕ → ℕ → Step (List PausedBatchState) BatchError (Unit {0})
complete_paused tenant_id id rows = complete_answer (delete_paused tenant_id id rows)
