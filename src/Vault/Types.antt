-- ===== src/Vault/Types.antt =====
-- packages/vault/src/types.ts, and the parts of a state the vault keeps. A text is the list of its
-- UTF-8 bytes, like a buffer; times are milliseconds.
use byok_business_autopilot.Base.{ℕ, Bool, Option}
use byok_business_autopilot.Vault.Crypto.{Bytes, EncryptedBlob}

pub data RequesterIdentity : Type 0 where
  router_service onboarding_service admin tenant_user : Bytes → RequesterIdentity

-- `cipher_failure` is the exception of node's cipher, `malformed_credential` that of `JSON.parse`,
-- `validation_threw` one of the caller's validation hook.
pub data VaultError : Type 0 where
  access_denied key_not_found scope_binding validation_failed validation_threw secret_expired
        hands_refresh_failed hands_refresh_token_revoked dek_undecryptable dek_vanished kms_failed
        cipher_failure malformed_credential :
      VaultError

pub data CredentialKind : Type 0 where
  opaque oauth : CredentialKind

pub record BrainKeyRecord : Type 0 where
  pub id : Bytes
  pub tenant_id : Bytes
  pub role_id : Bytes
  pub provider : Bytes
  pub material : Option EncryptedBlob
  pub masked_fingerprint : Bytes
  pub revoked : Bool
  pub revoked_at : Option ℕ
  pub created_at : ℕ
  pub updated_at : ℕ

pub record HandsKeyRecord : Type 0 where
  pub id : Bytes
  pub tenant_id : Bytes
  pub sub_agent_id : Bytes
  pub capability_scope : Bytes
  pub service : Bytes
  pub material : Option EncryptedBlob
  pub credential_kind : CredentialKind
  pub masked_fingerprint : Bytes
  pub revoked : Bool
  pub revoked_at : Option ℕ
  pub created_at : ℕ
  pub updated_at : ℕ

-- The record without its material.
pub data PublicKeyRecord : Type 0 where
  public_brain :
      (id tenant_id role_id provider masked_fingerprint : Bytes)
      → Bool
      → Option ℕ
      → (created_at updated_at : ℕ) → PublicKeyRecord
  public_hands :
      (id tenant_id sub_agent_id capability_scope service masked_fingerprint : Bytes)
      → CredentialKind
      → Bool
      → Option ℕ
      → (created_at updated_at : ℕ) → PublicKeyRecord

-- `toPublic`, for either kind.
abbrev pub brain_to_public : BrainKeyRecord → PublicKeyRecord
brain_to_public r =
    public_brain r.id r.tenant_id r.role_id r.provider r.masked_fingerprint r.revoked r.revoked_at
      r.created_at r.updated_at

abbrev pub hands_to_public : HandsKeyRecord → PublicKeyRecord
hands_to_public r =
    public_hands r.id r.tenant_id r.sub_agent_id r.capability_scope r.service r.masked_fingerprint
      r.credential_kind r.revoked r.revoked_at r.created_at r.updated_at

pub record OAuthCredential : Type 0 where
  pub access_token : Bytes
  pub refresh_token : Option Bytes
  pub expires_at : Option Bytes
  pub scope : Option Bytes

pub record RefreshedCredential : Type 0 where
  pub access_token : Bytes
  pub expires_at : Bytes

pub data Operation : Type 0 where
  store rotate revoke decrypt_granted decrypt_denied validate_failed : Operation

-- The `detail` of an event beside the requester.
pub data AuditDetail : Type 0 where
  plain not_found_or_revoked : AuditDetail
  scope_mismatch granted_scope : (sub_agent_id capability_scope : Bytes) → AuditDetail
  silent_refresh : Bytes → AuditDetail

pub record AuditEvent : Type 0 where
  pub operation : Operation
  pub tenant_id : Bytes
  pub ref_id : Bytes
  pub requester : RequesterIdentity
  pub detail : AuditDetail

pub data VaultEvent : Type 0 where
  brain_key_revoked : (key_id tenant_id role_id : Bytes) (at : ℕ) → VaultEvent
  hands_key_revoked : (key_id tenant_id sub_agent_id : Bytes) (at : ℕ) → VaultEvent
