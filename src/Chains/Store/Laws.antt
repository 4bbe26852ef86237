-- ===== src/Chains/Store/Laws.antt =====
-- packages/chains/src/durable/chainStore.ts: a chain that is saved is the chain that is read, by its
-- tenant only.
use byok_business_autopilot.Base.{
  ℕ, ◌<◌, ◌≡◌, ◌≢◌, ◌⊎◌, inl, inr, refl, sym, none, some, ok, err, nat_eq, arith, Option-cases,
}
use byok_business_autopilot.Base.Dict.{
  lookup, contains, insert, lookup-insert, lookup-insert_self, lookup-insert_ne,
}
use byok_business_autopilot.Chains.Types.{Chain, unknown_chain}
use byok_business_autopilot.Chains.Store.{ChainStore, create, get, save}

-- Every id that is taken is one that `create` has handed out.
abbrev pub IsFresh : ChainStore → Type 0
IsFresh s = (id : ℕ) (c : Chain) → lookup id s.chains ≡ some c → id < s.next_id

-- A chain that is created is read back by its tenant, no other tenant reads it, and no chain that was
-- there changes.
pub get-create :
    (c : Chain) (s : ChainStore) (tenant_id id : ℕ)
    → IsFresh s
    → let (full, s') = create c s in
      (get c.tenant_id full.id s' ≡ some full)
      × (tenant_id ≢ c.tenant_id → get tenant_id full.id s' ≡ none)
      × (id ≢ full.id → get tenant_id id s' ≡ get tenant_id id s)
      × IsFresh s'
unfolding create get
get-create c s tenant_id id fresh = (
  rw lookup-insert_self (ground arith),
  (λ n. rw lookup-insert_self (ground arith)),
  (λ n. rw (lookup-insert_ne s.next_id id _ s.chains (λ e. n (sym e)))),
  (λ i d e.
      ground (arith, lookup-insert s.next_id i (record c { id = s.next_id }) s.chains, fresh i d)),
)

-- A chain is saved exactly where its id is known. Then its tenant reads what was saved, and no other
-- chain changes.
pub get-save :
    (c : Chain) (s : ChainStore) (tenant_id id : ℕ)
    → ((lookup c.id s.chains ≡ none) × (save c s ≡ err unknown_chain))
      ⊎ ((s' : ChainStore) × (save c s ≡ ok s')
          × (get c.tenant_id c.id s' ≡ some c)
          × (id ≢ c.id → get tenant_id id s' ≡ get tenant_id id s)
          × (s'.next_id ≡ s.next_id))
unfolding save get
get-save c s tenant_id id = elim (Option-cases (lookup c.id s.chains)) [
  | inl e ↦ inl (e, rw (e, contains, save))
  | inr (old, e) ↦ inr (
    record s { chains = insert c.id c s.chains },
    rw (e, contains, save),
    rw lookup-insert_self (ground arith),
    (λ n. rw (lookup-insert_ne c.id id c s.chains (λ q. n (sym q)))),
    refl,
  )
]
