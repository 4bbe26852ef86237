-- ===== src/Chains/Store.antt =====
-- packages/chains/src/durable/chainStore.ts: `InMemoryDurableChainStore`.
pub mod Laws
use byok_business_autopilot.Base.{
  ℕ, ◌+◌, Bool, true, false, Option, none, some, List, [], ◌∷◌, Result, ok, err, nat_eq, ◌==◌,
  if◌then◌else◌,
}
use byok_business_autopilot.Base.Dict.{Dict, lookup, insert, contains, values}
use byok_business_autopilot.Chains.Types.{Chain, ChainError, unknown_chain}

-- `next_id` stands for the id `chain-<next_id>`.
pub record ChainStore : Type 0 where
  pub chains : Dict ℕ Chain
  pub next_id : ℕ

unfoldable pub create : Chain → ChainStore → Chain × ChainStore
create chain s =
    let full : Chain = record chain { id = s.next_id } in
    (full, record { chains = insert s.next_id full s.chains; next_id = s.next_id + 1 })

abbrev pub owned : ℕ → Option Chain → Option Chain
owned tenant_id none = none
owned tenant_id (some chain) = if chain.tenant_id == tenant_id then some chain else none

unfoldable pub get : ℕ → ℕ → ChainStore → Option Chain
get tenant_id id s = owned tenant_id (lookup id s.chains)

unfoldable pub save : Chain → ChainStore → Result ChainError ChainStore
save chain s =
    if contains chain.id s.chains
    then ok (record s { chains = insert chain.id chain s.chains })
    else err unknown_chain

unfoldable pub keep_tenant : ℕ → List Chain → List Chain
keep_tenant tenant_id [] = []
keep_tenant tenant_id (c ∷ cs) =
    if c.tenant_id == tenant_id then c ∷ keep_tenant tenant_id cs else keep_tenant tenant_id cs

abbrev pub list_by_tenant : ℕ → ChainStore → List Chain
list_by_tenant tenant_id s = keep_tenant tenant_id (values s.chains)
