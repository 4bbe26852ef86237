-- ===== src/Vault/State.antt =====
-- packages/vault/src/vault.ts: what a vault keeps and what it is built with. The key store is the one in
-- memory; the listeners are the list of what they were told.
use byok_business_autopilot.Base.{ℕ, Bool, true, false, Option, none, some, List, [], ◌∷◌, Result}
use byok_business_autopilot.Base.Steps.{Step, ◌>>◌, return, throw, modify}
use byok_business_autopilot.Vault.Crypto.{Bytes, Aead, Kms}
use byok_business_autopilot.Vault.Types.{
  RequesterIdentity, router_service, VaultError, access_denied, validation_failed, validation_threw,
  Operation, validate_failed, AuditDetail, plain, AuditEvent, VaultEvent, OAuthCredential,
  RefreshedCredential,
}
use byok_business_autopilot.Vault.Deks.{Deks, FreshDek, get_or_create_dek, get_dek_for_write}
use byok_business_autopilot.Vault.Keys.{BrainKeys, HandsKeys}

-- The audit log has its newest event first.
pub record State : Type 0 where
  pub brain : BrainKeys
  pub hands : HandsKeys
  pub deks : Deks
  pub audit : List AuditEvent
  pub events : List VaultEvent

-- What one call draws from `randomUUID`, `randomBytes` and the clock.
pub record Fresh : Type 0 where
  pub id : Bytes
  pub iv : Bytes
  pub dek : FreshDek
  pub spare_dek : FreshDek
  pub now : ℕ

-- What a provider's refresher answers before the timeout, or that it did not. A thrown
-- `HandsRefreshFailedError` and any other exception end as the same error.
pub data RefreshReply : Type 0 where
  refreshed : RefreshedCredential → RefreshReply
  token_revoked failed timed_out : RefreshReply

-- The functions of the platform that the vault calls: the cipher, the decoding of UTF-8, `JSON` on
-- credentials (`none` when it throws) and `Date.parse` (`none` for `NaN`).
pub record Platform : Type 0 where
  pub cipher : Aead
  pub decode : Bytes → Bytes
  pub stringify : OAuthCredential → Bytes
  pub parse : Bytes → Option OAuthCredential
  pub parse_date : Bytes → Option ℕ

pub record Setup : Type 0 where
  pub platform : Platform
  pub kms : Kms
  pub refreshers : Bytes → Option (Bytes → RefreshReply)

abbrev pub VaultStep : Type 0 → Type 0
VaultStep A = Step State VaultError A

-- The caller's live check of a key; `none` when it throws.
abbrev pub Validation : Type 0
Validation = Option (Bytes → Option Bool)

unfoldable pub log_audit :
    Operation → Bytes → Bytes → RequesterIdentity → AuditDetail → VaultStep (Unit {0})
log_audit operation tenant_id ref_id requester detail = modify λ s. record s {
  audit =
      (record {
        operation = operation;
        tenant_id = tenant_id;
        ref_id = ref_id;
        requester = requester;
        detail = detail;
      })
      ∷ s.audit;
}

unfoldable pub emit : VaultEvent → VaultStep (Unit {0})
emit event = modify λ s. record s { events = event ∷ s.events }

unfoldable pub assert_router_service : RequesterIdentity → VaultStep (Unit {0})
assert_router_service (router_service id) = return tt
assert_router_service _ = throw access_denied

-- "pending"
abbrev pub pending_id : Bytes
pending_id = 112 ∷ 101 ∷ 110 ∷ 100 ∷ 105 ∷ 110 ∷ 103 ∷ []

abbrev pub validated : Option Bool → Bytes → RequesterIdentity → VaultStep (Unit {0})
validated none tenant_id requester = throw validation_threw
validated (some true) tenant_id requester = return tt
validated (some false) tenant_id requester = do
  log_audit validate_failed tenant_id pending_id requester plain
  throw validation_failed

unfoldable pub run_validation :
    Bytes → Validation → Bytes → RequesterIdentity → VaultStep (Unit {0})
run_validation plaintext none tenant_id requester = return tt
run_validation plaintext (some validate) tenant_id requester =
    validated (validate plaintext) tenant_id requester

-- A step on the data keys, as one on the vault.
abbrev pub with_deks : Result VaultError Bytes × Deks → State → Result VaultError Bytes × State
with_deks (r, deks) s = (r, record s { deks = deks })

module _ (setup : Setup) where
  unfoldable pub dek_for_read : Bytes → Fresh → VaultStep Bytes
  dek_for_read tenant_id fresh s =
      with_deks (get_or_create_dek setup.platform.cipher setup.kms tenant_id fresh.dek s.deks) s

  unfoldable pub dek_for_write : Bytes → Fresh → VaultStep Bytes
  dek_for_write tenant_id fresh s =
      with_deks
        (get_dek_for_write setup.platform.cipher setup.kms tenant_id fresh.dek fresh.spare_dek
          s.deks)
        s
