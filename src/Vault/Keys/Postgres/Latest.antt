-- ===== src/Vault/Keys/Postgres/Latest.antt =====
-- packages/vault/src/durable/vaultKeyStore.ts: the key of a scope after the newest one is revoked, and a
-- refresh that ends after its key was revoked.
use byok_business_autopilot.Base.{◌≡◌, ◌≢◌, refl, ap, ◌∙◌, false, none, some, List, [], ◌∷◌, arith}
use byok_business_autopilot.Base.Dict.{lookup, lookup-insert_self}
use byok_business_autopilot.Vault.Crypto.{Bytes, bytes_eq, EncryptedBlob}
use byok_business_autopilot.Vault.Types.{HandsKeyRecord}
use byok_business_autopilot.Vault.State.{Fresh}
use byok_business_autopilot.Vault.Hands.{purged_hands}
use byok_business_autopilot.Vault.Hands.Refresh.{rekeyed}
use byok_business_autopilot.Vault.Keys.{
  HandsKeys, hands_index_key, put_hands_key, update_hands_key, record_of, active_id,
  resolve_hands_key_id,
}
use byok_business_autopilot.Vault.Keys.Postgres.{
  select_hands_key, insert_hands_key, updated_hands_row, update_hands_rows, newest_in_scope,
  select_hands_key_id,
}

-- The fields that say whom a key is for.
abbrev pub SameScope : HandsKeyRecord → HandsKeyRecord → Type 0
SameScope a b =
    (a.tenant_id ≡ b.tenant_id)
    × (a.sub_agent_id ≡ b.sub_agent_id)
    × (a.capability_scope ≡ b.capability_scope)

select-update_hands_rows :
    (r row : HandsKeyRecord) (rows : List HandsKeyRecord)
    → select_hands_key r.tenant_id r.id rows ≡ some row
    → select_hands_key r.tenant_id r.id (update_hands_rows r rows) ≡ some (updated_hands_row r row)
unfolding select_hands_key update_hands_rows
select-update_hands_rows r row [] h = cc
select-update_hands_rows r row (first ∷ rows) h = ground (
  arith,
  h,
  λ (e : select_hands_key r.tenant_id r.id rows ≡ some row). select-update_hands_rows r row rows e,
)

-- A refresh that began before its key was revoked and ends after it writes the record it read: the row is
-- active again, with the new material, though the revocation had purged it. The row was active when the
-- refresh read it.
pub refresh_undoes_revocation :
    (r : HandsKeyRecord) (blob : EncryptedBlob) (revoking refreshing : Fresh)
    (rows : List HandsKeyRecord)
    → select_hands_key r.tenant_id r.id rows ≡ some r
    → r.revoked ≡ false
    → let revoked_rows = update_hands_rows (purged_hands revoking r) rows in
      (select_hands_key r.tenant_id r.id revoked_rows ≡ some (purged_hands revoking r))
      × ((row : HandsKeyRecord) × (select_hands_key r.tenant_id r.id
              (update_hands_rows (rekeyed refreshing blob r) revoked_rows)
            ≡ some row)
          × (row.revoked ≡ false)
          × (row.material ≡ some blob))
refresh_undoes_revocation r blob revoking refreshing rows there live =
    let gone = select-update_hands_rows (purged_hands revoking r) r rows there in
    (
      gone,
      (
        updated_hands_row (rekeyed refreshing blob r) (purged_hands revoking r),
        select-update_hands_rows (rekeyed refreshing blob r) (purged_hands revoking r)
            (update_hands_rows (purged_hands revoking r) rows) gone,
        live,
        refl,
      ),
    )

purged_is_inactive :
    (id : Bytes) (keys : HandsKeys) (revoking : Fresh) (b : HandsKeyRecord)
    → lookup id keys.by_id ≡ some (purged_hands revoking b)
    → active_id (record_of (some id) keys) ≡ none
purged_is_inactive [] keys revoking b h = refl
purged_is_inactive (x ∷ id) keys revoking b h = ap active_id h

-- What each store holds after two keys were stored for one scope and the newer one was revoked.
abbrev pub memory_after : HandsKeyRecord → HandsKeyRecord → Fresh → HandsKeys
memory_after a b revoking =
    update_hands_key (purged_hands revoking b)
      (put_hands_key b (put_hands_key a (record { by_id = []; index = [] })))

abbrev pub rows_after : HandsKeyRecord → HandsKeyRecord → Fresh → List HandsKeyRecord
rows_after a b revoking =
    update_hands_rows (purged_hands revoking b) (insert_hands_key b (insert_hands_key a []))

memory_none :
    (a b : HandsKeyRecord) (revoking : Fresh)
    → resolve_hands_key_id b.tenant_id b.sub_agent_id b.capability_scope (memory_after a b revoking)
      ≡ none
unfolding resolve_hands_key_id update_hands_key put_hands_key
memory_none a b revoking =
    let keys = memory_after a b revoking in
    let scope = hands_index_key b.tenant_id b.sub_agent_id b.capability_scope in
    ap (λ o. active_id (record_of o keys)) (lookup-insert_self scope b.id _)
    ∙ purged_is_inactive b.id keys revoking b (lookup-insert_self b.id (purged_hands revoking b) _)

rows_older :
    (a b : HandsKeyRecord) (revoking : Fresh)
    → SameScope a b
    → a.id ≢ b.id
    → a.revoked ≡ false
    → select_hands_key_id b.tenant_id b.sub_agent_id b.capability_scope (rows_after a b revoking)
      ≡ some a.id
unfolding select_hands_key_id newest_in_scope update_hands_rows
rows_older a b revoking same n live = ground (arith, same, n, live)

-- Two keys are stored for one scope and the second is revoked: the store in memory then knows no key for
-- the scope, and the Postgres store hands out the first one, which is not revoked.
pub revoking_latest_diverges :
    (a b : HandsKeyRecord) (revoking : Fresh)
    → SameScope a b
    → a.id ≢ b.id
    → a.revoked ≡ false
    → (resolve_hands_key_id b.tenant_id b.sub_agent_id b.capability_scope
          (memory_after a b revoking)
        ≡ none)
      × (select_hands_key_id b.tenant_id b.sub_agent_id b.capability_scope (rows_after a b revoking)
          ≡ some a.id)
revoking_latest_diverges a b revoking same n live =
    (memory_none a b revoking, rows_older a b revoking same n live)
