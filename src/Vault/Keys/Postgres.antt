-- ===== src/Vault/Keys/Postgres.antt =====
-- packages/vault/src/durable/vaultKeyStore.ts, PostgresVaultKeyStore: the rows of `brain_keys` and
-- `hands_keys`. A statement is one step; row-level security adds the tenant to every condition, which the
-- statements name themselves.
use byok_business_autopilot.Base.{
  ℕ, Bool, true, false, ◌&&◌, Option, none, some, List, [], ◌∷◌, ◌++◌, ◌==◌, if◌then◌else◌, ltb,
  not,
}
use mathlib.Core.Option
use byok_business_autopilot.Vault.Crypto.{Bytes, bytes_eq}
use byok_business_autopilot.Vault.Types.{BrainKeyRecord, HandsKeyRecord}
pub mod Brain
pub mod Latest

abbrev pub same_role : BrainKeyRecord → BrainKeyRecord → Bool
same_role r row = (row.tenant_id == r.tenant_id) && (row.role_id == r.role_id)

-- WHERE tenant_id = $1 AND role_id = $2; the two are unique together.
unfoldable pub select_brain_key : Bytes → Bytes → List BrainKeyRecord → Option BrainKeyRecord
select_brain_key tenant_id role_id [] = none
select_brain_key tenant_id role_id (row ∷ rows) =
    if (row.tenant_id == tenant_id) && (row.role_id == role_id)
    then some row
    else select_brain_key tenant_id role_id rows

-- ON CONFLICT (tenant_id, role_id) DO UPDATE sets every column but the key and `created_at`.
abbrev pub replaced_row : BrainKeyRecord → BrainKeyRecord → BrainKeyRecord
replaced_row r row = record row {
  id = r.id;
  provider = r.provider;
  material = r.material;
  masked_fingerprint = r.masked_fingerprint;
  revoked = r.revoked;
  revoked_at = r.revoked_at;
  updated_at = r.updated_at;
}

unfoldable pub upsert_brain_key : BrainKeyRecord → List BrainKeyRecord → List BrainKeyRecord
upsert_brain_key r [] = r ∷ []
upsert_brain_key r (row ∷ rows) =
    if same_role r row then replaced_row r row ∷ rows else row ∷ upsert_brain_key r rows

-- The columns that an update sets.
abbrev pub updated_brain_row : BrainKeyRecord → BrainKeyRecord → BrainKeyRecord
updated_brain_row r row = record row {
  material = r.material;
  masked_fingerprint = r.masked_fingerprint;
  revoked = r.revoked;
  revoked_at = r.revoked_at;
  updated_at = r.updated_at;
}

-- WHERE id = $1 AND tenant_id = $2
unfoldable pub update_brain_rows : BrainKeyRecord → List BrainKeyRecord → List BrainKeyRecord
update_brain_rows r [] = []
update_brain_rows r (row ∷ rows) =
    let rest = update_brain_rows r rows in
    if (row.id == r.id) && (row.tenant_id == r.tenant_id)
    then updated_brain_row r row ∷ rest
    else row ∷ rest

unfoldable pub select_hands_key : Bytes → Bytes → List HandsKeyRecord → Option HandsKeyRecord
select_hands_key tenant_id key_id [] = none
select_hands_key tenant_id key_id (row ∷ rows) =
    if (row.tenant_id == tenant_id) && (row.id == key_id)
    then some row
    else select_hands_key tenant_id key_id rows

-- A plain INSERT; the newest row stands first.
abbrev pub insert_hands_key : HandsKeyRecord → List HandsKeyRecord → List HandsKeyRecord
insert_hands_key r rows = r ∷ rows

abbrev pub updated_hands_row : HandsKeyRecord → HandsKeyRecord → HandsKeyRecord
updated_hands_row r row = record row {
  material = r.material;
  masked_fingerprint = r.masked_fingerprint;
  revoked = r.revoked;
  revoked_at = r.revoked_at;
  updated_at = r.updated_at;
}

unfoldable pub update_hands_rows : HandsKeyRecord → List HandsKeyRecord → List HandsKeyRecord
update_hands_rows r [] = []
update_hands_rows r (row ∷ rows) =
    let rest = update_hands_rows r rows in
    if (row.id == r.id) && (row.tenant_id == r.tenant_id)
    then updated_hands_row r row ∷ rest
    else row ∷ rest

abbrev pub in_scope : Bytes → Bytes → Bytes → HandsKeyRecord → Bool
in_scope tenant_id sub_agent_id capability_scope row =
    (row.tenant_id == tenant_id)
    && (row.sub_agent_id == sub_agent_id)
    && (row.capability_scope == capability_scope)
    && not row.revoked

-- The later of two rows by `created_at`; of equal ones the one that stands first.
abbrev pub newer : HandsKeyRecord → Option HandsKeyRecord → HandsKeyRecord
newer row none = row
newer row (some other) = if ltb row.created_at other.created_at then other else row

unfoldable pub newest_in_scope : Bytes → Bytes → Bytes → List HandsKeyRecord → Option HandsKeyRecord
newest_in_scope tenant_id sub_agent_id capability_scope [] = none
newest_in_scope tenant_id sub_agent_id capability_scope (row ∷ rows) =
    let rest = newest_in_scope tenant_id sub_agent_id capability_scope rows in
    if in_scope tenant_id sub_agent_id capability_scope row then some (newer row rest) else rest

-- ORDER BY created_at DESC LIMIT 1
unfoldable pub select_hands_key_id : Bytes → Bytes → Bytes → List HandsKeyRecord → Option Bytes
select_hands_key_id tenant_id sub_agent_id capability_scope rows =
    Option.map (λ (r : HandsKeyRecord). r.id)
      (newest_in_scope tenant_id sub_agent_id capability_scope rows)
