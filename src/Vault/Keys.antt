-- ===== src/Vault/Keys.antt =====
-- packages/vault/src/durable/vaultKeyStore.ts, InMemoryVaultKeyStore.
use byok_business_autopilot.Base.{Bool, true, false, Option, none, some, List, [], ◌∷◌, ◌++◌}
use byok_business_autopilot.Base.Dict.{Dict, lookup, insert}
use byok_business_autopilot.Vault.Crypto.{Bytes, bytes_eq, colon}
use byok_business_autopilot.Vault.Types.{BrainKeyRecord, HandsKeyRecord}
pub mod Postgres

abbrev pub BrainKeys : Type 0
BrainKeys = Dict Bytes (Dict Bytes BrainKeyRecord)

pub record HandsKeys : Type 0 where
  pub by_id : Dict Bytes HandsKeyRecord
  pub index : Dict Bytes Bytes

-- `${tenantId}::${subAgentId}::${capabilityScope}`
unfoldable pub hands_index_key : Bytes → Bytes → Bytes → Bytes
hands_index_key tenant_id sub_agent_id capability_scope =
    tenant_id ++ colon ∷ colon ∷ (sub_agent_id ++ colon ∷ colon ∷ capability_scope)

-- `?? new Map()`
abbrev pub roles_of : Option (Dict Bytes BrainKeyRecord) → Dict Bytes BrainKeyRecord
roles_of none = []
roles_of (some by_role) = by_role

unfoldable pub get_brain_key : Bytes → Bytes → BrainKeys → Option BrainKeyRecord
get_brain_key tenant_id role_id keys = lookup role_id (roles_of (lookup tenant_id keys))

unfoldable pub put_brain_key : BrainKeyRecord → BrainKeys → BrainKeys
put_brain_key r keys =
    insert r.tenant_id (insert r.role_id r (roles_of (lookup r.tenant_id keys))) keys

abbrev pub update_brain_key : BrainKeyRecord → BrainKeys → BrainKeys
update_brain_key = put_brain_key

-- The tenant is not looked at.
unfoldable pub get_hands_key_by_id : Bytes → Bytes → HandsKeys → Option HandsKeyRecord
get_hands_key_by_id tenant_id key_id keys = lookup key_id keys.by_id

unfoldable pub put_hands_key : HandsKeyRecord → HandsKeys → HandsKeys
put_hands_key r keys = record {
  by_id = insert r.id r keys.by_id;
  index = insert (hands_index_key r.tenant_id r.sub_agent_id r.capability_scope) r.id keys.index;
}

unfoldable pub update_hands_key : HandsKeyRecord → HandsKeys → HandsKeys
update_hands_key r keys = record keys { by_id = insert r.id r keys.by_id }

-- `keyId ? this.handsKeysById.get(keyId) : undefined`: an empty text is no id.
abbrev pub record_of : Option Bytes → HandsKeys → Option HandsKeyRecord
record_of none keys = none
record_of (some []) keys = none
record_of (some (b ∷ bs)) keys = lookup (b ∷ bs) keys.by_id

abbrev pub active_id : Option HandsKeyRecord → Option Bytes
active_id none = none
active_id (some r) = elim r.revoked [ true ↦ none | false ↦ some r.id ]

unfoldable pub resolve_hands_key_id : Bytes → Bytes → Bytes → HandsKeys → Option Bytes
resolve_hands_key_id tenant_id sub_agent_id capability_scope keys =
    active_id
      (record_of (lookup (hands_index_key tenant_id sub_agent_id capability_scope) keys.index) keys)
