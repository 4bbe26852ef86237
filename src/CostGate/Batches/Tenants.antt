-- ===== src/CostGate/Batches/Tenants.antt =====
-- packages/cost-gate/src/durable/batchStore.ts: a paused batch is its tenant's, until it is completed.
use byok_business_autopilot.Base.{
  ℕ, ◌≡◌, ◌≢◌, ap, ◌∙◌, none, some, ok, err, ◌==◌, nat_eq, if◌then◌else◌, arith,
}
use byok_business_autopilot.Base.Dict.{lookup, erase, lookup-insert_self, lookup-erase}
use byok_business_autopilot.CostGate.Batches.{
  PauseInput, unknown_paused_batch, Batches, batch_of, pause_batch, owned_batch, get_batch,
  erase_found, complete_batch,
}

get_batch-paused :
    (input : PauseInput) (id now : ℕ) (batches : Batches) (t : ℕ)
    → get_batch t id (pause_batch input id now batches).1
      ≡ owned_batch t (some (batch_of input id now))
unfolding get_batch pause_batch
get_batch-paused input id now batches t =
    ap (owned_batch t) (lookup-insert_self id (batch_of input id now) batches)

owned :
    (input : PauseInput) (id now : ℕ)
    → owned_batch input.tenant_id (some (batch_of input id now)) ≡ ok (batch_of input id now)
owned input id now = ground arith

foreign :
    (input : PauseInput) (id now t : ℕ)
    → t ≢ input.tenant_id
    → owned_batch t (some (batch_of input id now)) ≡ err unknown_paused_batch
foreign input id now t n = ground (arith, n)

get_batch-erased :
    (t id : ℕ) (batches : Batches) → get_batch t id (erase id batches) ≡ err unknown_paused_batch
unfolding get_batch
get_batch-erased t id batches = ap (owned_batch t) (lookup-erase id id batches ∙ own_key)
  where
    own_key : (if id == id then none else lookup id batches) ≡ none
    own_key = ground arith

-- A paused batch is resumed by its tenant, as often as it likes, with the tasks that were left; another
-- tenant neither sees it nor completes it, and changes nothing by trying. Once its tenant has completed
-- it, it is gone, and completing it again is refused.
pub pause_batch-IsTenants :
    (input : PauseInput) (id now t : ℕ) (batches : Batches)
    → t ≢ input.tenant_id
    → let own = input.tenant_id in
      let state = batch_of input id now in
      let paused = (pause_batch input id now batches).1 in
      (get_batch own id paused ≡ ok state)
      × (get_batch t id paused ≡ err unknown_paused_batch)
      × (complete_batch t id paused ≡ (err unknown_paused_batch, paused))
      × (complete_batch own id paused ≡ (ok tt, erase id paused))
      × (complete_batch own id (erase id paused) ≡ (err unknown_paused_batch, erase id paused))
unfolding complete_batch
pause_batch-IsTenants input id now t batches n =
    let own = input.tenant_id in
    let paused = (pause_batch input id now batches).1 in
    let mine = get_batch-paused input id now batches own ∙ owned input id now in
    let theirs = get_batch-paused input id now batches t ∙ foreign input id now t n in
    (
      mine,
      theirs,
      ap (λ r. erase_found r id paused) theirs,
      ap (λ r. erase_found r id paused) mine,
      ap (λ r. erase_found r id (erase id paused)) (get_batch-erased own id paused),
    )
